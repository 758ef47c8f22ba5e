-- ===== src/Server.antt =====
-- Client/clientManager.h, clientManager.cpp, Networking/Epoller and Networking/Socket: the server's
-- clients and the events that it handles.
pub mod Listener
pub mod Clients
pub mod Handling
pub mod Events
pub mod Faults
mod Tests
use http_2_0_server.Base.{
  ℕ, suc, ◌<◌, Bool, true, false, Option, none, some, List, [], ◌∷◌, ◌==◌, ltb, if◌then◌else◌,
}
use http_2_0_server.Client.{Outside}
use http_2_0_server.Client.Request.{
  State, client_idle, client_closed, handshake, Connection, new_connection, is_timed_out, Received,
  do_request, Accepted, Progress, finished, unfinished, broken, is_handshake, continue_handshake,
}
use Listener.{Socket}

-- enum EpollFdType
pub data EpollFdType : Type 0 where
  none_type socket_type client_type server_type : EpollFdType

-- The static members of ClientManager and Socket and the members of Epoller: `clients` is the map
-- in the order of its keys, `watched` what epoll_ctl has added to `epoll_fd`.
pub record Server : Type 0 where
  pub clients : List (ℕ × Connection)
  pub ctr : ℕ
  pub sockets : List Socket
  pub epoll_fd : ℕ
  pub watched : List ℕ

-- `clients.find(fd)`
unfoldable pub find_client : List (ℕ × Connection) → ℕ → Option Connection
find_client [] fd = none
find_client ((k, c) ∷ m) fd = let rest = find_client m fd in if k == fd then some c else rest

-- `clients[fd] = client`
unfoldable pub put_client : List (ℕ × Connection) → ℕ → Connection → List (ℕ × Connection)
put_client [] fd c = (fd, c) ∷ []
put_client ((k, d) ∷ m) fd c =
    let rest = put_client m fd c in
    if ltb fd k then (fd, c) ∷ (k, d) ∷ m else if k == fd then (fd, c) ∷ m else (k, d) ∷ rest

-- `clients.erase` at a key
unfoldable pub erase_client : List (ℕ × Connection) → ℕ → List (ℕ × Connection)
erase_client [] fd = []
erase_client ((k, c) ∷ m) fd =
    let rest = erase_client m fd in if k == fd then rest else (k, c) ∷ rest

-- ClientManager::getClient
unfoldable pub get_client : List (ℕ × Connection) → ℕ → Option Connection
get_client [] id = none
get_client ((k, c) ∷ m) id = let rest = get_client m id in if c.id == id then some c else rest

-- ClientManager::removeClient(Fd), which is not called.
unfoldable pub remove_client_fd : Server → ℕ → Server
remove_client_fd s fd = record s { clients = erase_client s.clients fd }

abbrev pub unless_found : Option Connection → Server → Option Server
unless_found none s = some s
unless_found (some c) s = none

-- ClientManager::removeClient(int). For a client that it finds it reads an iterator that it has
-- erased, which is undefined.
unfoldable pub remove_client : Server → ℕ → Option Server
remove_client s id = unless_found (get_client s.clients id) s

-- What the system gives when a client is accepted.
pub data Accepting : Type 0 where
  accept_failed flags_failed : Accepting
  accepted_fd : ℕ → Accepting

-- ClientManager::acceptClient at a time.
unfoldable pub accept_client : Server → Accepting → ℕ → Server × Option Connection
accept_client s (accepted_fd fd) now =
    let c = new_connection (suc s.ctr) fd now in
    (record s { ctr = suc s.ctr; clients = put_client s.clients fd c }, some c)
accept_client s _ now = (s, none)

-- What one event meets: the time, SSL_accept, SSL_read, accept and epoll_ctl.
pub record Incoming : Type 0 where
  pub now : ℕ
  pub accepted : Accepted
  pub received : Received
  pub accepting : Accepting
  pub added : Bool

-- A client's members after a call of its methods.
abbrev pub put_back : Server → ℕ → Option Connection → Option Server
put_back s fd none = none
put_back s fd (some c) = some (record s { clients = put_client s.clients fd c })

-- The end of handleClient.
abbrev pub serve : Outside → Server → ℕ → Connection → State → Received → Option Server
serve o s fd c client_idle r = put_back s fd (do_request o c r)
serve o s fd c _ r = put_back s fd (some c)

-- handleClient behind continueHandshake.
abbrev pub after_handshake : Outside → Server → ℕ → Connection × Progress → Received → Option Server
after_handshake o s fd (c, finished) r =
    serve o s fd (record c { state = client_idle }) client_idle r
after_handshake o s fd (c, broken) r =
    remove_client (record s { clients = put_client s.clients fd c }) c.id
after_handshake o s fd (c, unfinished) r = put_back s fd (some c)

-- handleClient by the state, of a client that is not timed out.
abbrev pub by_state : Outside → Server → ℕ → Connection → State → Incoming → Option Server
by_state o s fd c client_closed i = remove_client s c.id
by_state o s fd c handshake i = after_handshake o s fd (continue_handshake c i.accepted) i.received
by_state o s fd c state i = serve o s fd c state i.received

-- TIMEOUT, in seconds.
abbrev pub timeout : ℕ
timeout = 600

-- ClientManager::handleClient on the client of a key.
unfoldable pub handle_client : Outside → Server → ℕ → Connection → Incoming → Option Server
handle_client o s fd c i =
    let alive = by_state o s fd c c.state i in
    if is_timed_out c timeout i.now then remove_client s c.id else alive

unfoldable pub has_fd : List (ℕ × Connection) → ℕ → Bool
has_fd [] fd = false
has_fd ((k, c) ∷ m) fd = let rest = has_fd m fd in if c.fd == fd then true else rest

unfoldable pub has_socket : List Socket → ℕ → Bool
has_socket [] fd = false
has_socket (x ∷ xs) fd = let rest = has_socket xs fd in if x.sock_fd == fd then true else rest

-- Epoller::getType
unfoldable pub get_type : Server → ℕ → EpollFdType
get_type s fd =
    if has_fd s.clients fd
    then client_type
    else if has_socket s.sockets fd
    then socket_type
    else if fd == s.epoll_fd
    then server_type
    else none_type

-- Epoller::addFD, given whether epoll_ctl succeeds.
unfoldable pub add_fd : Server → ℕ → Bool → Server × Bool
add_fd s fd true = (record s { watched = fd ∷ s.watched }, true)
add_fd s fd false = (s, false)

unfoldable pub without : List ℕ → ℕ → List ℕ
without [] fd = []
without (w ∷ ws) fd = let rest = without ws fd in if w == fd then rest else w ∷ rest

-- Epoller::removeFD; epoll_ctl fails for a descriptor that was not added, and removes nothing then.
unfoldable pub remove_fd : Server → ℕ → Server
remove_fd s fd = record s { watched = without s.watched fd }

-- epollLoop behind handleClient, with the client that the key has then.
abbrev pub after_client : Server → ℕ → Option Connection → Option Server
after_client s fd none = some s
after_client s fd (some c) =
    if c.client.fd_closed then remove_client (remove_fd s c.fd) c.id else some s

abbrev pub then_check : Option Server → ℕ → Option Server
then_check none fd = none
then_check (some s) fd = after_client s fd (find_client s.clients fd)

abbrev pub serve_client : Outside → Server → ℕ → Option Connection → Incoming → Option Server
serve_client o s fd none i = some s
serve_client o s fd (some c) i = then_check (handle_client o s fd c i) fd

-- The branch of epollLoop for a listening socket, with the result of acceptClient.
abbrev pub watch_new : Server × Option Connection → Bool → Server
watch_new (s, none) added = s
watch_new (s, some c) added = (add_fd s c.fd added).0

-- One round of the loop over the events.
abbrev pub by_type : Outside → Server → ℕ → EpollFdType → Incoming → Option Server
by_type o s fd client_type i = serve_client o s fd (find_client s.clients fd) i
by_type o s fd socket_type i = some (watch_new (accept_client s i.accepting i.now) i.added)
by_type o s fd _ i = some s

unfoldable pub handle_event : Outside → Server → ℕ → Incoming → Option Server
handle_event o s fd i = by_type o s fd (get_type s fd) i

abbrev pub then_events : Option Server → (Server → Option Server) → Option Server
then_events none next = none
then_events (some s) next = next s

-- Epoller::epollLoop for the events that epoll_wait gives.
unfoldable pub epoll_loop : Outside → Server → List (ℕ × Incoming) → Option Server
epoll_loop o s [] = some s
epoll_loop o s ((fd, i) ∷ es) = then_events (handle_event o s fd i) (λ s'. epoll_loop o s' es)

-- Epoller() with its descriptor, before any client.
abbrev pub new_server : ℕ → List Socket → Server
new_server epoll_fd sockets = record {
  clients = [];
  ctr = 0;
  sockets = sockets;
  epoll_fd = epoll_fd;
  watched = [];
}

-- ClientManager::clientLoop, which is not called: erasing the client of the loop's own iterator is
-- undefined as well.
unfoldable pub client_loop : List (ℕ × Connection) → ℕ → Server → Option Server
client_loop [] now s = some s
client_loop ((k, c) ∷ m) now s =
    let rest = client_loop m now s in if is_timed_out c timeout now then none else rest
