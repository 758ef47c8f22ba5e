-- ===== src/Server/Tests.antt =====
-- A server with one listening socket, and one client.
use http_2_0_server.Base.{◌≡◌, refl, true, none, some, [], ◌∷◌, text, resize, same}
use http_2_0_server.Client.{Outside}
use http_2_0_server.Client.Request.{
  Connection, new_connection, client_idle, failed, ended, negotiated, is_timed_out,
  continue_handshake, after_accept, do_request,
}
use http_2_0_server.Server.{
  Server, new_server, find_client, put_client, accepted_fd, Incoming, get_type, has_fd, has_socket,
  handle_event, handle_client, epoll_loop, accept_client, add_fd,
}
use http_2_0_server.Server.Clients.{IsServer}
use http_2_0_server.Server.Handling.{Handles}
use http_2_0_server.Server.Events.{handle_event-Handles, epoll_loop-IsServer, new_server-IsServer}
use http_2_0_server.Server.Faults.{handle_event_ended}

abbrev outside : Outside
outside = record {
  get_content = λ path. some (record { mime_type = text "text/html"; bytes = text "hi" });
  get_error_page = λ code. record { mime_type = text "text/html"; bytes = text "no" };
  ssl_write = λ sent bytes. true;
}

abbrev start : Server
start = new_server 3 (record { id = 0; port = 8080; sock_fd = 5 } ∷ [])

abbrev incoming : Incoming
incoming = record {
  now = 10;
  accepted = negotiated (text "h2");
  received = failed 11;
  accepting = accepted_fd 7;
  added = true;
}

abbrev with_state : Connection → Connection
with_state c = record c { state = client_idle }

abbrev accepted_client : Connection
accepted_client = new_connection 1 7 10

abbrev one_client : Connection → Server
one_client c = record start { clients = (7, c) ∷ []; ctr = 1; watched = 7 ∷ [] }

-- The client after its handshake, when SSL_read has nothing yet.
abbrev idle_client : Connection
idle_client = record accepted_client {
  state = client_idle;
  recv_buffer = resize 4096 accepted_client.recv_buffer;
}

accepted_event : epoll_loop outside start ((5, incoming) ∷ []) ≡ some (one_client accepted_client)
unfolding epoll_loop handle_event get_type has_fd has_socket accept_client add_fd put_client
    new_connection
accepted_event = refl

epoll_loop-IsServer_example : IsServer (one_client accepted_client)
epoll_loop-IsServer_example =
    epoll_loop-IsServer outside start (one_client accepted_client) ((5, incoming) ∷ [])
      (new_server-IsServer 3 start.sockets) accepted_event

one_client-IsServer : IsServer (one_client accepted_client)
one_client-IsServer =
    epoll_loop-IsServer outside start (one_client accepted_client) ((5, incoming) ∷ [])
      (new_server-IsServer 3 start.sockets) accepted_event

handled :
    handle_event outside (one_client accepted_client) 7 incoming ≡ some (one_client idle_client)
unfolding handle_event get_type has_fd new_connection handle_client find_client put_client
    is_timed_out continue_handshake after_accept do_request same
handled = refl

handle_event-Handles_example : Handles 7 (one_client accepted_client) (one_client idle_client)
unfolding get_type has_fd new_connection
handle_event-Handles_example =
    handle_event-Handles outside (one_client accepted_client) (one_client idle_client) 7 incoming
      one_client-IsServer refl handled

handle_event_ended_example :
    handle_event outside (one_client idle_client) 7 (record incoming { received = ended }) ≡ none
unfolding find_client get_type has_fd new_connection is_timed_out
handle_event_ended_example =
    handle_event_ended outside (one_client idle_client) 7 idle_client
      (record incoming { received = ended }) refl refl refl refl refl
