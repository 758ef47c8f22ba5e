-- ===== src/Client/FrameHandler.antt =====
-- Frame-Handler/frameHandler.cpp: what a connection does with each frame. `none` is abort(), or what
-- C++ leaves undefined.
use http_2_0_server.Base.{
  ℕ, Bool, true, false, not, Option, none, some, List, [], ◌++◌, ◌==◌, if◌then◌else◌, text, same,
}
use http_2_0_server.Http2.Frame.{
  Frame, new_frame, has_flag, weight_byte, ack, end_stream, end_headers, data_frame, headers_frame,
  priority_frame, rst_stream_frame, settings_frame, push_promise_frame, ping_frame, goaway_frame,
  window_update_frame, continuation_frame,
}
use http_2_0_server.Http2.Headers.{Header, first}
use http_2_0_server.Http2.Hpack.Table.{at, best_match_name}
use http_2_0_server.Http2.Hpack.Decoder.{Block, decoded, decode_lowmem}
use http_2_0_server.Client.{
  StreamState, opened, half_closed_remote, closed, Stream, new_stream, Client, Outside, find_stream,
  erase_stream, put_stream, send_frame, ack_settings,
}
use http_2_0_server.Client.Responses.{respond_get, show_error_page}

-- `showErrorPage(client, strm, 404); return false;`
unfoldable pub answer_missing : Outside → Client → Stream → Option (Client × Bool)
answer_missing o c s = elim (show_error_page o c s 404) [
  | none ↦ none
  | some (c', ok) ↦ some (c', false)
]

-- The branch of processEndHeader for the method GET.
unfoldable pub answer_get : Outside → Client → Stream → Option (Client × Bool)
answer_get o c s =
    let (found, path) = first s.headers (text ":path") in
    if not found then some (c, false) else (elim (respond_get o c s) [
      | none ↦ none
      | some (c', ok) ↦ if ok then some (c', true) else answer_missing o c' s
    ])

-- The lines of processEndHeader from `best_match` on. The exception of `at` is caught.
unfoldable pub answer : Outside → Client → Stream → Option (Client × Bool)
answer o c s =
    let i = best_match_name c.table (text ":method") in
    if i == 0 then some (c, false) else (elim (at c.table i) [
      | none ↦ some (c, false)
      | some h ↦ if same h.value (text "GET") then answer_get o c s else some (c, true)
    ])

-- The stream once its header block has been read.
abbrev pub headers_ended : Stream → List Header → Stream
headers_ended s hs = record s {
  state = half_closed_remote;
  end_header = true;
  header_fragments = [];
  headers = s.headers ++ hs;
}

-- `client` with the stream `s` of the map.
abbrev pub with_stream : Client → Stream → Client
with_stream c s = record c { streams = put_stream c.streams s.id s }

-- processEndHeader from the call of decode_lowmem on: what that returns is ignored.
unfoldable pub after_block : Outside → Client → Stream → Block → Option (Client × Bool)
after_block o c s (decoded t hs) =
    answer o (with_stream (record c { table = t }) (headers_ended s hs)) (headers_ended s hs)
after_block o c s (Block.refused t hs) =
    answer o (with_stream (record c { table = t }) (headers_ended s hs)) (headers_ended s hs)
after_block o c s (Block.raised t hs) =
    some (with_stream (record c { table = t }) (record s { headers = s.headers ++ hs }), false)
after_block o c s Block.undefined = none
after_block o c s Block.stuck = none

-- FrameHandler::processEndHeader
unfoldable pub process_end_header : Outside → Client → Stream → Option (Client × Bool)
process_end_header o c s = after_block o c s (decode_lowmem c.table s.header_fragments)

-- The tests on `state`.
abbrev pub is_open : StreamState → Bool
is_open opened = true
is_open _ = false

abbrev pub takes_headers : StreamState → Bool
takes_headers opened = true
takes_headers half_closed_remote = true
takes_headers _ = false

abbrev pub is_closed : StreamState → Bool
is_closed closed = true
is_closed _ = false

-- FrameHandler::handleDataFrame
unfoldable pub handle_data_frame : Client → Frame → Client × Bool
handle_data_frame c f = elim (find_stream c.streams f.sid) [
  | none ↦ (c, false)
  | some s ↦
      if is_open s.state
      then (
        with_stream c (record s {
          data_bytes = s.data_bytes ++ f.payload;
          end_stream = has_flag f end_stream;
          end_header = has_flag f end_headers;
        }),
        true,
      )
      else (c, false)
]

abbrev pub stream_or_new : Option Stream → ℕ → Stream
stream_or_new none id = new_stream id
stream_or_new (some s) id = s

-- The stream with the fragment of a HEADERS frame.
abbrev pub with_fragment : Stream → Frame → Stream
with_fragment s f = record s {
  state = opened;
  end_header = has_flag f end_headers;
  end_stream = has_flag f end_stream;
  header_fragments = s.header_fragments ++ f.payload;
}

-- The end of handleHeadersFrame; `ok |= …` started from true.
unfoldable pub close_stream : Frame → Option (Client × Bool) → Option (Client × Bool)
close_stream f none = none
close_stream f (some (c, ok)) =
    if has_flag f end_stream
    then some (record c { streams = erase_stream c.streams f.sid }, true)
    else some (c, true)

-- FrameHandler::handleHeadersFrame
unfoldable pub handle_headers_frame : Outside → Client → Frame → Option (Client × Bool)
handle_headers_frame o c f =
    let s = with_fragment (stream_or_new (find_stream c.streams f.sid) f.sid) f in
    close_stream f (
      if has_flag f end_headers
      then process_end_header o (with_stream c s) s
      else some (with_stream c s, true))

-- FrameHandler::handleContinuationFrame
unfoldable pub handle_continuation_frame : Outside → Client → Frame → Option (Client × Bool)
handle_continuation_frame o c f = elim (find_stream c.streams f.sid) [
  | none ↦ some (c, false)
  | some s ↦
      let s' = record s {
        header_fragments = s.header_fragments ++ f.payload;
        end_header = has_flag f end_headers;
        end_stream = has_flag f end_stream;
      } in
      if takes_headers s.state
      then (if has_flag f end_headers
          then process_end_header o (with_stream c s') s'
          else some (with_stream c s', true))
      else some (c, false)
]

-- FrameHandler::handlePriorityFrame; `weight` is narrowed to a byte.
unfoldable pub handle_priority_frame : Client → Frame → Client × Bool
handle_priority_frame c f = elim (find_stream c.streams f.sid) [
  | none ↦ (c, false)
  | some s ↦ if not f.has_priority then (c, false) else (
    with_stream c (record s {
      weight = weight_byte f;
      dependency = some f.stream_dependency;
      exclusive = f.exclusive;
    }),
    true,
  )
]

-- FrameHandler::handleResetFrame
unfoldable pub handle_reset_frame : Client → Frame → Client × Bool
handle_reset_frame c f = elim (find_stream c.streams f.sid) [
  | none ↦ (c, false)
  | some s ↦
      if is_closed s.state
      then (c, false)
      else (record c { streams = erase_stream c.streams f.sid }, true)
]

-- FrameHandler::handleSettingsFrame
unfoldable pub handle_settings_frame : Outside → Client → Frame → Option (Client × Bool)
handle_settings_frame o c f =
    if not (f.sid == 0)
    then some (c, false)
    else if not (has_flag f ack)
    then ack_settings o c f
    else some (c, true)

-- FrameHandler::handlePingFrame
unfoldable pub handle_ping_frame : Outside → Client → Frame → Option (Client × Bool)
handle_ping_frame o c f =
    if not (f.sid == 0)
    then some (c, false)
    else send_frame o c (record (new_frame ping_frame ack 0) { payload = f.payload })

-- FrameHandler::handleGoAwayFrame; NO_ERROR is 0.
unfoldable pub handle_go_away_frame : Client → Frame → Client × Bool
handle_go_away_frame c f = (record c { streams = []; error_code = 0; fd_closed = true }, true)

-- FrameHandler::handleFrame
unfoldable pub handle_frame : Outside → Client → Frame → Option (Client × Bool)
handle_frame o c f =
    if f.type == data_frame
    then some (handle_data_frame c f)
    else if f.type == headers_frame
    then handle_headers_frame o c f
    else if f.type == priority_frame
    then some (handle_priority_frame c f)
    else if f.type == rst_stream_frame
    then some (handle_reset_frame c f)
    else if f.type == settings_frame
    then handle_settings_frame o c f
    else if f.type == push_promise_frame
    then some (c, true)
    else if f.type == ping_frame
    then handle_ping_frame o c f
    else if f.type == goaway_frame
    then some (handle_go_away_frame c f)
    else if f.type == window_update_frame
    then some (c, true)
    else if f.type == continuation_frame
    then handle_continuation_frame o c f
    else some (c, false)
