-- ===== src/Client.antt =====
-- Client/client.h, client.cpp and stream.h: a connection with its streams.
pub mod Responses
pub mod FrameHandler
pub mod Request
pub mod Reading
pub mod Sequence
pub mod Health
pub mod Healing
pub mod Reads
pub mod Requests
pub mod Delivery
pub mod Replies
pub mod Website
pub mod Missing
pub mod Exchange
mod WebsiteTests
pub mod Streams
pub mod Isolation
mod Tests
use http_2_0_server.Base.{
  ℕ, zero, suc, ◌+◌, ◌/◌, ◌%◌, ◌<◌, Bool, true, false, Option, none, some, List, [], ◌∷◌, ◌++◌,
  ◌==◌, if◌then◌else◌,
}
use http_2_0_server.Content.{ResponseData}
use http_2_0_server.Http2.Frame.{Frame, new_frame, settings_frame, ack, no_flags}
use http_2_0_server.Http2.Frame
use http_2_0_server.Http2.Headers.{Header}
use http_2_0_server.Http2.Settings.{Settings, Error, no_error, new_settings}
use http_2_0_server.Http2.Settings
use http_2_0_server.Http2.Hpack.Table.{Table}

-- enum StreamState
pub data StreamState : Type 0 where
  idle reserved_local reserved_remote opened half_closed_local half_closed_remote closed :
      StreamState

-- class Stream; its `method` and `path` are never used.
pub record Stream : Type 0 where
  pub id : ℕ
  pub weight : ℕ
  pub state : StreamState
  pub data_bytes : List ℕ
  pub header_fragments : List ℕ
  pub headers : List Header
  pub exclusive : Bool
  pub dependency : Option ℕ
  pub end_header : Bool
  pub end_stream : Bool

-- Stream(id); UNSET is `none`, and the two flags are set before they are read.
abbrev pub new_stream : ℕ → Stream
new_stream id = record {
  id = id;
  weight = 0;
  state = idle;
  data_bytes = [];
  header_fragments = [];
  headers = [];
  exclusive = false;
  dependency = none;
  end_header = false;
  end_stream = false;
}

-- The members of Client that its frames can change: `streams` is the map, `table` that of
-- `hpackDecoder`, `fd_closed` the state of `clientFD`, and `sent` what SSL_write was called with.
pub record Client : Type 0 where
  pub streams : List (ℕ × Stream)
  pub table : Table
  pub settings : Settings
  pub error_code : ℕ
  pub fd_closed : Bool
  pub sent : List (List ℕ)

-- What a connection uses of the WebBinder, `none` where that is undefined behaviour, and whether SSL_write, which is OpenSSL's, succeeds on
-- some bytes after what has been sent.
pub record Outside : Type 0 where
  pub get_content : List ℕ → Option ResponseData
  pub get_error_page : ℕ → ResponseData
  pub ssl_write : List (List ℕ) → List ℕ → Bool

-- `streams.find(id)`
unfoldable pub find_stream : List (ℕ × Stream) → ℕ → Option Stream
find_stream [] id = none
find_stream ((k, s) ∷ m) id = if k == id then some s else find_stream m id

-- `streams.erase(id)`
unfoldable pub erase_stream : List (ℕ × Stream) → ℕ → List (ℕ × Stream)
erase_stream [] id = []
erase_stream ((k, s) ∷ m) id =
    let rest = erase_stream m id in if k == id then rest else (k, s) ∷ rest

-- A stream in the map after an assignment through its pointer, or a new entry.
unfoldable pub put_stream : List (ℕ × Stream) → ℕ → Stream → List (ℕ × Stream)
put_stream m id s = (id, s) ∷ erase_stream m id

-- Client::sendData. It waits for the task that it queued.
unfoldable pub send_data : Outside → Client → List ℕ → Client × Bool
send_data o c bytes = (record c { sent = c.sent ++ (bytes ∷ []) }, o.ssl_write c.sent bytes)

-- Client::sendFrame; `none` is abort().
unfoldable pub send_frame : Outside → Client → Frame → Option (Client × Bool)
send_frame o c f = elim (Frame.encode f) [ none ↦ none | some bytes ↦ some (send_data o c bytes) ]

-- That sending fails is ignored.
abbrev pub ignore_failure : Option (Client × Bool) → Option (Client × Bool)
ignore_failure none = none
ignore_failure (some (c, ok)) = some (c, true)

-- Client::ackSettings from the test of `err` on.
unfoldable pub acknowledge : Outside → Client → Settings → Error → Option (Client × Bool)
acknowledge o c s no_error =
    ignore_failure (send_frame o (record c { settings = s }) (new_frame settings_frame ack 0))
acknowledge o c s _ = some (c, false)

-- Client::ackSettings on a frame.
unfoldable pub ack_settings : Outside → Client → Frame → Option (Client × Bool)
ack_settings o c f =
    let (s, error) = Settings.decode new_settings f.payload in acknowledge o c s error

-- Client::applySettings
unfoldable pub apply_settings : Outside → Client → Option (Client × Bool)
apply_settings o c =
    send_frame o c
      (record (new_frame settings_frame no_flags 0) { payload = Settings.encode new_settings [] })
