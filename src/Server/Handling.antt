-- ===== src/Server/Handling.antt =====
-- One event of a client: ClientManager::handleClient and the methods that it calls.
use http_2_0_server.Base.{
  ℕ, ◌≡◌, ◌≢◌, refl, ap, ◌∙◌, Bool, true, false, Option, none, some, List, ◌==◌, if◌then◌else◌,
  arith,
}
use http_2_0_server.Client.{Client, Outside}
use http_2_0_server.Client.Request.{
  State, client_idle, reading, writing, client_closed, handshake, Connection, new_connection,
  is_timed_out, Received, failed, ended, received, is_again, with_client, read_buffer, do_request,
  Accepted, negotiated, wants_more, Progress, finished, unfinished, broken, is_handshake,
  after_accept, continue_handshake, preface,
}
use http_2_0_server.Client.Request
use http_2_0_server.Server.{
  Server, find_client, put_client, get_client, unless_found, remove_client, Incoming, put_back,
  serve, after_handshake, by_state, timeout, handle_client, remove_fd, after_client, then_check,
  serve_client,
}
use http_2_0_server.Server.Clients.{IsServer, find_client-put_client, put_back-IsServer}

-- A call of a client's method leaves its id and descriptor as they are.
Same : Connection → Option Connection → Type 0
Same c none = Unit
Same c (some d) = (d.id ≡ c.id) × (d.fd ≡ c.fd)

some-Same : (c d : Connection) → d.id ≡ c.id → d.fd ≡ c.fd → Same c (some d)
unfolding Same
some-Same c d i f = (i, f)

with_client-Same :
    (c : Connection) (buffer : List ℕ) (r : Option Client) → Same c (with_client c buffer r)
unfolding Same
with_client-Same c buffer none = tt
with_client-Same c buffer (some d) = (refl, refl)

if-Same :
    (c : Connection) (b : Bool) (r q : Option Connection)
    → Same c r
    → Same c q
    → Same c (if b then r else q)
if-Same c true r q h k = h
if-Same c false r q h k = k

do_request-Same : (o : Outside) (c : Connection) (r : Received) → Same c (do_request o c r)
unfolding do_request read_buffer
do_request-Same o c (failed errno) =
    if-Same c (is_again errno) _ _ (some-Same c _ refl refl) (some-Same c _ refl refl)
do_request-Same o c ended = some-Same c _ refl refl
do_request-Same o c (received bytes) =
    if-Same c _ _ _ (with_client-Same c _ _) (with_client-Same c _ _)

-- A client's event: the map stays well formed, and the others are as they were.
pub record Handles (fd : ℕ) (s s' : Server) : Type 0 where
  pub valid : IsServer s'
  pub others : (j : ℕ) → j ≢ fd → find_client s'.clients j ≡ find_client s.clients j

abbrev pub HandlesAll : ℕ → Server → Option Server → Type 0
HandlesAll fd s none = Unit
HandlesAll fd s (some s') = Handles fd s s'

same-Handles : (fd : ℕ) (s : Server) → IsServer s → Handles fd s s
same-Handles fd s h = record { valid = h; others = λ j n. refl }

put_client-Handles :
    (s : Server) (fd : ℕ) (c d : Connection)
    → IsServer s
    → find_client s.clients fd ≡ some c
    → d.id ≡ c.id
    → d.fd ≡ c.fd
    → Handles fd s (record s { clients = put_client s.clients fd d })
put_client-Handles s fd c d h e i f = record {
  valid = put_back-IsServer s fd c d h e i f;
  others = λ j n.
      let miss : (fd == j) ≡ false = ground (arith, n) in
      find_client-put_client s.clients fd d j
      ∙ ap (λ b. if b then some d else find_client s.clients j) miss;
}

put_back-Handles :
    (s : Server) (fd : ℕ) (c : Connection) (r : Option Connection)
    → IsServer s
    → find_client s.clients fd ≡ some c
    → Same c r
    → HandlesAll fd s (put_back s fd r)
unfolding Same
put_back-Handles s fd c none h e k = tt
put_back-Handles s fd c (some d) h e k = put_client-Handles s fd c d h e k.0 k.1

unless_found-Handles :
    (fd : ℕ) (s s' : Server) (o : Option Connection)
    → Handles fd s s'
    → HandlesAll fd s (unless_found o s')
unless_found-Handles fd s s' none h = h
unless_found-Handles fd s s' (some c) h = tt

serve-Handles :
    (o : Outside) (s : Server) (fd : ℕ) (c d : Connection) (state : State) (r : Received)
    → IsServer s
    → find_client s.clients fd ≡ some c
    → d.id ≡ c.id
    → d.fd ≡ c.fd
    → HandlesAll fd s (serve o s fd d state r)
unfolding Same
serve-Handles o s fd c d client_idle r h e i f =
    put_back-Handles s fd c (do_request o d r) h e
      (moved (do_request o d r) (do_request-Same o d r))
  where
    moved : (q : Option Connection) → Same d q → Same c q
    moved none k = tt
    moved (some x) k = (k.0 ∙ i, k.1 ∙ f)
serve-Handles o s fd c d reading r h e i f = put_client-Handles s fd c d h e i f
serve-Handles o s fd c d writing r h e i f = put_client-Handles s fd c d h e i f
serve-Handles o s fd c d client_closed r h e i f = put_client-Handles s fd c d h e i f
serve-Handles o s fd c d handshake r h e i f = put_client-Handles s fd c d h e i f

SameBy : Connection → Connection × Progress → Type 0
SameBy c (d, p) = (d.id ≡ c.id) × (d.fd ≡ c.fd)

if-SameBy :
    (c : Connection) (b : Bool) (p q : Connection × Progress)
    → SameBy c p
    → SameBy c q
    → SameBy c (if b then p else q)
if-SameBy c true p q h k = h
if-SameBy c false p q h k = k

pair-SameBy : (c d : Connection) (p : Progress) → d.id ≡ c.id → d.fd ≡ c.fd → SameBy c (d, p)
unfolding SameBy
pair-SameBy c d p i f = (i, f)

after_accept-Same : (c : Connection) (a : Accepted) → SameBy c (after_accept c a)
unfolding after_accept
after_accept-Same c (negotiated alpn) =
    if-SameBy c _ _ _ (pair-SameBy c _ _ refl refl) (pair-SameBy c _ _ refl refl)
after_accept-Same c wants_more = pair-SameBy c _ _ refl refl
after_accept-Same c Request.refused = pair-SameBy c _ _ refl refl

continue_handshake-Same : (c : Connection) (a : Accepted) → SameBy c (continue_handshake c a)
unfolding continue_handshake
continue_handshake-Same c a =
    if-SameBy c _ _ _ (after_accept-Same c a) (pair-SameBy c _ _ refl refl)

after_handshake-Handles :
    (o : Outside) (s : Server) (fd : ℕ) (c : Connection) (p : Connection × Progress) (r : Received)
    → IsServer s
    → find_client s.clients fd ≡ some c
    → SameBy c p
    → HandlesAll fd s (after_handshake o s fd p r)
unfolding remove_client SameBy
after_handshake-Handles o s fd c (d, finished) r h e k =
    serve-Handles o s fd c (record d { state = client_idle }) client_idle r h e k.0 k.1
after_handshake-Handles o s fd c (d, broken) r h e k =
    unless_found-Handles fd s (record s { clients = put_client s.clients fd d }) _
      (put_client-Handles s fd c d h e k.0 k.1)
after_handshake-Handles o s fd c (d, unfinished) r h e k = put_client-Handles s fd c d h e k.0 k.1

by_state-Handles :
    (o : Outside) (s : Server) (fd : ℕ) (c : Connection) (state : State) (i : Incoming)
    → IsServer s
    → find_client s.clients fd ≡ some c
    → HandlesAll fd s (by_state o s fd c state i)
unfolding remove_client
by_state-Handles o s fd c client_closed i h e = unless_found-Handles fd s s _ (same-Handles fd s h)
by_state-Handles o s fd c handshake i h e =
    after_handshake-Handles o s fd c (continue_handshake c i.accepted) i.received h e
      (continue_handshake-Same c i.accepted)
by_state-Handles o s fd c client_idle i h e =
    serve-Handles o s fd c c client_idle i.received h e refl refl
by_state-Handles o s fd c reading i h e = serve-Handles o s fd c c reading i.received h e refl refl
by_state-Handles o s fd c writing i h e = serve-Handles o s fd c c writing i.received h e refl refl

either-Handles :
    (fd : ℕ) (s : Server) (b : Bool) (r q : Option Server)
    → HandlesAll fd s r
    → HandlesAll fd s q
    → HandlesAll fd s (if b then r else q)
either-Handles fd s true r q h k = h
either-Handles fd s false r q h k = k

handle_client-Handles :
    (o : Outside) (s : Server) (fd : ℕ) (c : Connection) (i : Incoming)
    → IsServer s
    → find_client s.clients fd ≡ some c
    → HandlesAll fd s (handle_client o s fd c i)
unfolding handle_client remove_client
handle_client-Handles o s fd c i h e =
    either-Handles fd s (is_timed_out c timeout i.now) (unless_found (get_client s.clients c.id) s)
      (by_state o s fd c c.state i) (unless_found-Handles fd s s _ (same-Handles fd s h))
      (by_state-Handles o s fd c c.state i h e)

after_client-Handles :
    (fd : ℕ) (s s' : Server) (c : Option Connection)
    → Handles fd s s'
    → HandlesAll fd s (after_client s' fd c)
unfolding remove_client remove_fd
after_client-Handles fd s s' none h = h
after_client-Handles fd s s' (some c) h =
    either-Handles fd s c.client.fd_closed
      (unless_found (get_client s'.clients c.id) (remove_fd s' c.fd)) (some s')
      (unless_found-Handles fd s (remove_fd s' c.fd) _
        (record { valid = watched; others = h.others }))
      h
  where
    watched : IsServer (remove_fd s' c.fd)
    watched = record {
      ascends = h.valid.ascends;
      keyed = h.valid.keyed;
      bounded = h.valid.bounded;
      distinct = h.valid.distinct;
    }

then_check-Handles :
    (fd : ℕ) (s : Server) (r : Option Server)
    → HandlesAll fd s r
    → HandlesAll fd s (then_check r fd)
then_check-Handles fd s none h = tt
then_check-Handles fd s (some s') h = after_client-Handles fd s s' (find_client s'.clients fd) h

pub serve_client-Handles :
    (o : Outside) (s : Server) (fd : ℕ) (r : Option Connection) (i : Incoming)
    → IsServer s
    → find_client s.clients fd ≡ r
    → HandlesAll fd s (serve_client o s fd r i)
serve_client-Handles o s fd none i h e = same-Handles fd s h
serve_client-Handles o s fd (some c) i h e =
    then_check-Handles fd s (handle_client o s fd c i) (handle_client-Handles o s fd c i h e)
