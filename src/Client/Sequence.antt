-- ===== src/Client/Sequence.antt =====
-- The streams of a connection over any number of calls of Client::doRequest.
use http_2_0_server.Base.{Option, none, some, List, [], ◌∷◌}
use http_2_0_server.Http2.Frame.{Frame}
use http_2_0_server.Client.{Client, Outside}
use http_2_0_server.Client.Streams.{IsKeyed}
use http_2_0_server.Client.Request.{Connection, Received, do_request}

abbrev pub then_read : Option Connection → (Connection → Option Connection) → Option Connection
then_read none next = none
then_read (some c) next = next c

-- One call of doRequest after the other, for what SSL_read gives in each.
unfoldable pub read_all : Outside → Connection → List Received → Option Connection
read_all o c [] = some c
read_all o c (r ∷ rs) = then_read (do_request o c r) (λ c'. read_all o c' rs)

-- A client that a call returned, if it did, has its streams in place.
abbrev IsKeyedClient : Option Client → Type 0
IsKeyedClient none = Unit
IsKeyedClient (some c) = IsKeyed c.streams

abbrev IsKeyedConnection : Option Connection → Type 0
IsKeyedConnection none = Unit
IsKeyedConnection (some c) = IsKeyed c.client.streams
