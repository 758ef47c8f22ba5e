-- ===== src/Server/Listener.antt =====
-- Networking/Socket/socket.h and socket.cpp: the listening sockets and the choice of a protocol.
use http_2_0_server.Base.{
  ℕ, Bool, not, Option, none, some, List, [], ◌∷◌, ◌++◌, same, text, if◌then◌else◌,
}

-- class Socket, of those that its constructor adds to Socket::sockets.
pub record Socket : Type 0 where
  pub id : ℕ
  pub port : ℕ
  pub sock_fd : ℕ

-- Which of the constructor's calls of OpenSSL and the system succeed, and what socket() gives.
pub record Calls : Type 0 where
  pub context : Bool
  pub certificate : Bool
  pub private_key : Bool
  pub descriptor : Option ℕ
  pub options : Bool
  pub bound : Bool
  pub listens : Bool
  pub flags : Bool

-- The constructor from the call of socket() on.
unfoldable pub listen_on : List Socket → ℕ → ℕ → Calls → Option ℕ → List Socket × Option ℕ
listen_on sockets id port calls none = (sockets, none)
listen_on sockets id port calls (some fd) =
    if not calls.options
    then (sockets, some fd)
    else if not calls.bound
    then (sockets, some fd)
    else if not calls.listens
    then (sockets, some fd)
    else if not calls.flags
    then (sockets, some fd)
    else (sockets ++ (record { id = id; port = port; sock_fd = fd } ∷ []), some fd)

-- Socket(port) with the number of sockets made before: `sockets` and `sockFD`, none if it is -1.
unfoldable pub new_socket : List Socket → ℕ → ℕ → Calls → List Socket × Option ℕ
new_socket sockets id port calls =
    if not calls.context
    then (sockets, none)
    else if not calls.certificate
    then (sockets, none)
    else if not calls.private_key
    then (sockets, none)
    else listen_on sockets id port calls calls.descriptor

-- SSL_TLSEXT_ERR_OK, _NOACK and _ALERT_WARNING
pub data Alpn : Type 0 where
  alpn_ok alpn_noack alpn_alert_warning : Alpn

-- Socket::alpnSelectCb, given what SSL_select_next_proto negotiates of the protocols.
unfoldable pub alpn_select_cb : Option (List ℕ) → Alpn
alpn_select_cb none = alpn_noack
alpn_select_cb (some out) = if same out (text "h2") then alpn_ok else alpn_alert_warning
