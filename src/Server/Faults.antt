-- ===== src/Server/Faults.antt =====
-- ClientManager::removeClient(int) where the server calls it.
use http_2_0_server.Base.{
  ℕ, ◌≡◌, refl, ap, ◌∙◌, true, false, none, some, ◌==◌, if◌then◌else◌, arith, resize,
}
use http_2_0_server.Client.{Outside}
use http_2_0_server.Client.Request.{
  client_idle, client_closed, Connection, is_timed_out, ended, do_request, buffer_size,
}
use http_2_0_server.Server.{
  Server, client_type, find_client, put_client, unless_found, remove_client, Incoming, timeout,
  handle_client, get_type, remove_fd, after_client, then_check, serve_client, by_type, handle_event,
}
use http_2_0_server.Server.Clients.{find_client-put_client, get_client-found}

remove_client-found :
    (s : Server) (fd : ℕ) (c : Connection)
    → find_client s.clients fd ≡ some c
    → remove_client s c.id ≡ none
unfolding remove_client
remove_client-found s fd c e =
    let (d, f) = get_client-found s.clients fd c e in ap (λ r. unless_found r s) f

-- Handling a client that is timed out, or one whose handshake has failed, is undefined behaviour.
pub handle_client_removed :
    (o : Outside) (s : Server) (fd : ℕ) (c : Connection) (i : Incoming)
    → find_client s.clients fd ≡ some c
    → (is_timed_out c timeout i.now ≡ true → handle_client o s fd c i ≡ none)
      × (is_timed_out c timeout i.now ≡ false
          → c.state ≡ client_closed
          → handle_client o s fd c i ≡ none)
unfolding handle_client
handle_client_removed o s fd c i e = (
  λ late. rw (late, handle_client) (remove_client-found s fd c e),
  λ early closed. rw (early, handle_client, closed) (remove_client-found s fd c e),
)

-- The client once SSL_read has given 0.
abbrev pub closed_by_peer : Connection → Connection
closed_by_peer c = record c {
  state = client_idle;
  recv_buffer = resize buffer_size c.recv_buffer;
  client = record c.client { fd_closed = true };
}

found_again :
    (s : Server) (fd : ℕ) (c : Connection) → find_client (put_client s.clients fd c) fd ≡ some c
found_again s fd c =
    let hit : (fd == fd) ≡ true = ground arith in
    find_client-put_client s.clients fd c fd
    ∙ ap (λ b. if b then some c else find_client s.clients fd) hit

-- When the peer of an idle client closes the connection, handling that is undefined behaviour.
pub handle_event_ended :
    (o : Outside) (s : Server) (fd : ℕ) (c : Connection) (i : Incoming)
    → get_type s fd ≡ client_type
    → find_client s.clients fd ≡ some c
    → is_timed_out c timeout i.now ≡ false
    → c.state ≡ client_idle
    → i.received ≡ ended
    → handle_event o s fd i ≡ none
unfolding handle_event handle_client do_request remove_fd
handle_event_ended o s fd c i t e early idle r =
    let d = closed_by_peer c in
    let s' = record s { clients = put_client s.clients fd d } in
    let handled : handle_client o s fd c i ≡ some s' = rw (early, handle_client, idle, r) refl in
    let gone : remove_client (remove_fd s' d.fd) d.id ≡ none =
      remove_client-found (remove_fd s' d.fd) fd d (found_again s fd d) in
    ap (λ k. by_type o s fd k i) t
    ∙ ap (λ x. serve_client o s fd x i) e
    ∙ ap (λ x. then_check x fd) handled
    ∙ ap (after_client s' fd) (found_again s fd d)
    ∙ gone
