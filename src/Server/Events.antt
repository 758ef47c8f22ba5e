-- ===== src/Server/Events.antt =====
-- The clients of the server over the events of Epoller::epollLoop.
use http_2_0_server.Base.{
  ℕ, suc, ◌≡◌, refl, sym, ap, ◌∙◌, Bool, true, false, Option, none, some, List, [], ◌∷◌, arith,
}
use mathlib.Core.Path.{subst}
use http_2_0_server.Server.Listener.{Socket}
use http_2_0_server.Client.{Outside}
use http_2_0_server.Client.Request.{new_connection}
use http_2_0_server.Server.{
  Server, EpollFdType, none_type, socket_type, client_type, server_type, find_client, Accepting,
  accept_failed, flags_failed, accepted_fd, accept_client, Incoming, get_type, add_fd, serve_client,
  watch_new, by_type, handle_event, then_events, epoll_loop, new_server,
}
use http_2_0_server.Server.Clients.{IsServer, put_client-IsServer}
use http_2_0_server.Server.Handling.{Handles, HandlesAll, serve_client-Handles}

-- An event of a client that is handled leaves every other client as it was, the keys of the map
-- ascending, each client under its own descriptor, no two with one id, and no id above the counter.
pub handle_event-Handles :
    (o : Outside) (s s' : Server) (fd : ℕ) (i : Incoming)
    → IsServer s
    → get_type s fd ≡ client_type
    → handle_event o s fd i ≡ some s'
    → Handles fd s s'
unfolding handle_event
handle_event-Handles o s s' fd i h t e =
    let f : by_type o s fd client_type i ≡ some s' = ap (λ k. by_type o s fd k i) (sym t) ∙ e in
    subst (HandlesAll fd s) f (serve_client-Handles o s fd (find_client s.clients fd) i h refl)

ServerAll : Option Server → Type 0
ServerAll none = Unit
ServerAll (some s) = IsServer s

HandlesAll-ServerAll : (fd : ℕ) (s : Server) (r : Option Server) → HandlesAll fd s r → ServerAll r
unfolding ServerAll
HandlesAll-ServerAll fd s none h = tt
HandlesAll-ServerAll fd s (some s') h = h.valid

add_fd-IsServer : (s : Server) (fd : ℕ) (ok : Bool) → IsServer s → IsServer (add_fd s fd ok).0
unfolding add_fd
add_fd-IsServer s fd true h = record {
  ascends = h.ascends;
  keyed = h.keyed;
  bounded = h.bounded;
  distinct = h.distinct;
}
add_fd-IsServer s fd false h = h

accept_client-IsServer :
    (s : Server) (a : Accepting) (now : ℕ) (added : Bool)
    → IsServer s
    → IsServer (watch_new (accept_client s a now) added)
unfolding accept_client new_connection
accept_client-IsServer s (accepted_fd fd) now added h = add_fd-IsServer _ fd added (
    put_client-IsServer s (suc s.ctr) fd (new_connection (suc s.ctr) fd now) h (omega arith) refl
      (omega arith) (λ j d n e q. absurd (omega (arith, h.bounded j d e, q))))
accept_client-IsServer s accept_failed now added h = h
accept_client-IsServer s flags_failed now added h = h

by_type-ServerAll :
    (o : Outside) (s : Server) (fd : ℕ) (t : EpollFdType) (i : Incoming)
    → IsServer s
    → ServerAll (by_type o s fd t i)
unfolding ServerAll
by_type-ServerAll o s fd client_type i h =
    HandlesAll-ServerAll fd s (serve_client o s fd (find_client s.clients fd) i)
      (serve_client-Handles o s fd (find_client s.clients fd) i h refl)
by_type-ServerAll o s fd socket_type i h = accept_client-IsServer s i.accepting i.now i.added h
by_type-ServerAll o s fd none_type i h = h
by_type-ServerAll o s fd server_type i h = h

handle_event-ServerAll :
    (o : Outside) (s : Server) (fd : ℕ) (i : Incoming)
    → IsServer s
    → ServerAll (handle_event o s fd i)
unfolding handle_event
handle_event-ServerAll o s fd i h = by_type-ServerAll o s fd (get_type s fd) i h

then_events-ServerAll :
    (r : Option Server) (next : Server → Option Server)
    → ServerAll r
    → ((s : Server) → IsServer s → ServerAll (next s))
    → ServerAll (then_events r next)
unfolding ServerAll
then_events-ServerAll none next h k = tt
then_events-ServerAll (some s) next h k = k s h

loop-ServerAll :
    (o : Outside) (s : Server) (es : List (ℕ × Incoming))
    → IsServer s
    → ServerAll (epoll_loop o s es)
unfolding epoll_loop ServerAll
loop-ServerAll o s [] h = h
loop-ServerAll o s ((fd, i) ∷ es) h =
    then_events-ServerAll (handle_event o s fd i) (λ s'. epoll_loop o s' es)
      (handle_event-ServerAll o s fd i h) (λ s' k. loop-ServerAll o s' es k)

pub new_server-IsServer :
    (epoll_fd : ℕ) (sockets : List Socket) → IsServer (new_server epoll_fd sockets)
unfolding find_client
new_server-IsServer epoll_fd sockets = record {
  ascends = tt;
  keyed = λ k c e. absurd (ground (arith, e));
  bounded = λ k c e. absurd (ground (arith, e));
  distinct = λ k j c d e f i. absurd (ground (arith, e));
}

-- Whatever events epoll_wait gives, in a run that returns the map's keys ascend, each client stands
-- under its own descriptor, no two have one id, and ids are not above the counter.
pub epoll_loop-IsServer :
    (o : Outside) (s s' : Server) (es : List (ℕ × Incoming))
    → IsServer s
    → epoll_loop o s es ≡ some s'
    → IsServer s'
unfolding ServerAll
epoll_loop-IsServer o s s' es h e = subst ServerAll e (loop-ServerAll o s es h)
