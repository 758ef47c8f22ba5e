-- ===== src/Client/Request.antt =====
-- Client::doRequest and Client::continueHandshake of Client/client.cpp.
use http_2_0_server.Base.{
  ℕ, ◌-◌, Bool, true, false, ◌&&◌, Option, none, some, List, [], ◌∷◌, ◌++◌, length, take, drop,
  resize, ltb, leb, ◌==◌, if◌then◌else◌, same, text,
}
use http_2_0_server.Http2.Frame.{Frame, Parsed, frames, to_frames_before}
use http_2_0_server.Http2.Settings.{new_settings}
use http_2_0_server.Http2.Hpack.Table.{new_table}
use http_2_0_server.Client.{Client, Outside, apply_settings}
use http_2_0_server.Client.FrameHandler.{handle_frame}

-- enum State
pub data State : Type 0 where
  client_idle reading writing client_closed handshake : State

-- The members of Client that its frames do not change, and `client` for those that they do. A call
-- of sendData sets `state` to WRITING and, before it returns, back to CLIENT_IDLE.
pub record Connection : Type 0 where
  pub id : ℕ
  pub fd : ℕ
  pub start : ℕ
  pub state : State
  pub recv_buffer : List ℕ
  pub client : Client

abbrev pub buffer_size : ℕ
buffer_size = 4096

-- Client(id, fd, …) at a time.
unfoldable pub new_connection : ℕ → ℕ → ℕ → Connection
new_connection id fd now = record {
  id = id;
  fd = fd;
  start = now;
  state = handshake;
  recv_buffer = resize buffer_size [];
  client = record {
    streams = [];
    table = new_table;
    settings = new_settings;
    error_code = 0;
    fd_closed = false;
    sent = [];
  };
}

-- Client::isTimedOut, in seconds.
unfoldable pub is_timed_out : Connection → ℕ → ℕ → Bool
is_timed_out c timeout now = ltb timeout (now - c.start)

-- What SSL_read, which is OpenSSL's, gives: less than 0 with errno, 0, or bytes, 4096 at most.
pub data Received : Type 0 where
  failed : ℕ → Received
  ended : Received
  received : List ℕ → Received

-- EAGAIN and EWOULDBLOCK
abbrev pub is_again : ℕ → Bool
is_again errno = errno == 11

-- `prefaceStr`
unfoldable pub preface : List ℕ
preface = text "PRI * HTTP/2.0\r\n\r\nSM\r\n\r\n"

abbrev pub then_handle : Option (Client × Bool) → (Client → Option Client) → Option Client
then_handle none next = none
then_handle (some (c, ok)) next = next c

-- The loop over the frames; a frame that is refused is only logged.
unfoldable pub handle_all : Outside → Client → List Frame → Option Client
handle_all o c [] = some c
handle_all o c (f ∷ fs) = then_handle (handle_frame o c f) (λ c'. handle_all o c' fs)

-- `none` if toFrames would read behind the buffer.
abbrev pub handle_parsed : Outside → Client → Parsed → Option Client
handle_parsed o c (frames fs) = handle_all o c fs
handle_parsed o c Parsed.fault = none
handle_parsed o c Parsed.stuck = none

-- toFrames on the first `n` bytes of the buffer.
abbrev pub received_frames : List ℕ → ℕ → Parsed
received_frames buffer n = to_frames_before (drop n buffer) (take n buffer)

abbrev pub with_client : Connection → List ℕ → Option Client → Option Connection
with_client c buffer none = none
with_client c buffer (some client) =
    some (record c { state = client_idle; recv_buffer = buffer; client = client })

-- doRequest from the test of the preface on: the whole buffer is compared, with what an earlier
-- call left in it. `bytesRead` may become negative, and then there is no frame.
unfoldable pub read_buffer : Outside → Connection → List ℕ → ℕ → Option Connection
read_buffer o c buffer bytes_read =
    let here =
      with_client c buffer (handle_parsed o c.client (received_frames buffer bytes_read)) in
    let rest = drop (length preface) buffer in
    let greeted = with_client c rest (
      then_handle (apply_settings o c.client)
        (λ client. handle_parsed o client (received_frames rest (bytes_read - length preface)))) in
    if leb (length preface) (length buffer) && same (take (length preface) buffer) preface
    then greeted
    else here

-- Client::doRequest. SSL_read writes to the front of the buffer.
unfoldable pub do_request : Outside → Connection → Received → Option Connection
do_request o c (failed errno) =
    let buffer = resize buffer_size c.recv_buffer in
    let waits = record c { state = client_idle; recv_buffer = buffer } in
    if is_again errno
    then some waits
    else some (record waits { client = record c.client { error_code = errno } })
do_request o c ended = some (record c {
  state = client_idle;
  recv_buffer = resize buffer_size c.recv_buffer;
  client = record c.client { fd_closed = true };
})
do_request o c (received bytes) =
    read_buffer o c (bytes ++ drop (length bytes) (resize buffer_size c.recv_buffer)) (length bytes)

-- What SSL_accept comes to: the ALPN protocol, a want of more data, or a failure.
pub data Accepted : Type 0 where
  negotiated : List ℕ → Accepted
  wants_more : Accepted
  refused : Accepted

-- The results 1, 0 and -1.
pub data Progress : Type 0 where
  finished unfinished broken : Progress

abbrev pub is_handshake : State → Bool
is_handshake handshake = true
is_handshake _ = false

-- The part of continueHandshake behind SSL_accept.
unfoldable pub after_accept : Connection → Accepted → Connection × Progress
after_accept c (negotiated alpn) =
    if same alpn (text "h2") then (c, finished) else (record c { state = client_closed }, broken)
after_accept c wants_more = (c, unfinished)
after_accept c refused = (record c { state = client_closed }, broken)

-- Client::continueHandshake
unfoldable pub continue_handshake : Connection → Accepted → Connection × Progress
continue_handshake c a = if is_handshake c.state then after_accept c a else (c, finished)
