-- ===== src/Client/Tests.antt =====
-- The theorems on handlers at a concrete connection.
use http_2_0_server.Base.{
  All, ◌≡◌, ℕ, List, ◌++◌, drop, length, map, resize, same, refl, true, false, some, [], ◌∷◌, text,
  arith,
}
use http_2_0_server.Http2.Frame.{
  Frame, new_frame, default_frame, decode, decoded, has_flag, headers_frame, data_frame,
  priority_frame, window_update_frame, encode, to_frames_before, to_frames_loop, decode,
  default_frame,
}
use http_2_0_server.Http2.Constants.{k_connection_preface, k_encrypted_token}
use http_2_0_server.Http2.Headers.{header}
use http_2_0_server.Http2.Settings.{new_settings}
use http_2_0_server.Http2.Hpack.Table.{new_table}
use http_2_0_server.Content.{ResponseData}
use http_2_0_server.Client.{
  Stream, new_stream, opened, Client, Outside, apply_settings, find_stream, erase_stream,
  put_stream,
}
use http_2_0_server.Client.FrameHandler.{
  answer, answer_get, handle_headers_frame, close_stream, handle_data_frame, handle_priority_frame,
  handle_frame, with_stream, with_fragment,
}
use http_2_0_server.Client.Requests.{answer-answer_get, handle_priority_frame-decode}
use http_2_0_server.Http2.Frame.Stages.{IsFrame}
use http_2_0_server.Http2.Frame.RoundTrip.{received, IsPlain}
use http_2_0_server.Http2.Frame.Split.{encode_all}
use http_2_0_server.Client.Request.{
  Connection, new_connection, Received, failed, ended, preface, with_client, then_handle,
  handle_all, do_request, read_buffer,
}
use http_2_0_server.Client.Request
use http_2_0_server.Client.Reading.{filled, do_request-preface, do_request-encode_all}
use http_2_0_server.Base.Bits.{IsByte}
use http_2_0_server.Http2.Settings.Invariant.{IsValid}
use http_2_0_server.Http2.Hpack.Table.Eviction.{IsTable}
use http_2_0_server.Client.Reads.{read_all-IsTable}
use http_2_0_server.Client.Sequence.{read_all}
use http_2_0_server.Client.Streams.{Isolated}
use http_2_0_server.Client.Isolation.{handle_frame-Isolated}

abbrev page : ResponseData
page = record { mime_type = text "text/html"; bytes = text "hi" }

abbrev outside : Outside
outside = record {
  get_content = λ path. some page;
  get_error_page = λ code. page;
  ssl_write = λ sent bytes. true;
}

abbrev first_stream : Stream
first_stream = record (new_stream 1) { state = opened }

-- A stream with a request to delete something.
abbrev third_stream : Stream
third_stream = record (new_stream 3) {
  headers = header (text ":method") (text "DELETE") ∷ header (text ":path") (text "/x") ∷ [];
}

abbrev client : Client
client = record {
  streams = (1, first_stream) ∷ (3, third_stream) ∷ [];
  table = new_table;
  settings = new_settings;
  error_code = 0;
  fd_closed = false;
  sent = [];
}

answer-answer_get_example :
    answer outside client third_stream ≡ answer_get outside client third_stream
answer-answer_get_example = answer-answer_get outside client third_stream

-- The first fragment of a header block.
abbrev fragment : Frame
fragment = record (new_frame headers_frame 0 3) { payload = 0x82 ∷ [] }

abbrev with_third : Client
with_third = with_stream client (with_fragment third_stream fragment)

fragment_handled : handle_headers_frame outside client fragment ≡ some (with_third, true)
unfolding handle_headers_frame close_stream has_flag find_stream erase_stream put_stream
fragment_handled = refl

-- Five bytes of priority for the stream 1.
priority_bytes :
    decode default_frame (0 ∷ 0 ∷ 5 ∷ priority_frame ∷ 0 ∷ 0 ∷ 0 ∷ 0 ∷ 1 ∷ 0 ∷ 0 ∷ 0 ∷ 3 ∷ 15 ∷ [])
    ≡ decoded (record (new_frame priority_frame 0 1) { payload = 0 ∷ 0 ∷ 0 ∷ 3 ∷ 15 ∷ [] })
unfolding decode
priority_bytes = refl

handle_priority_frame-decode_example :
    handle_priority_frame client
      (record (new_frame priority_frame 0 1) { payload = 0 ∷ 0 ∷ 0 ∷ 3 ∷ 15 ∷ [] })
    ≡ (client, false)
handle_priority_frame-decode_example =
    handle_priority_frame-decode client 0 0 5 0 0 0 0 1 (0 ∷ 0 ∷ 0 ∷ 3 ∷ 15 ∷ [])
      (record (new_frame priority_frame 0 1) { payload = 0 ∷ 0 ∷ 0 ∷ 3 ∷ 15 ∷ [] }) priority_bytes

abbrev some_data : Frame
some_data = record (new_frame data_frame 0 1) { payload = 7 ∷ [] }

abbrev with_data : Client
with_data = with_stream client (record first_stream { data_bytes = 7 ∷ [] })

data_handled : handle_frame outside client some_data ≡ some (with_data, true)
unfolding handle_frame handle_data_frame has_flag find_stream erase_stream put_stream
data_handled = refl

handle_frame-Isolated_example : Isolated 1 client with_data
handle_frame-Isolated_example =
    handle_frame-Isolated outside client with_data some_data true (refl, (refl, tt))
      (λ e. omega (arith, e)) data_handled

abbrev fresh : Connection
fresh = new_connection 1 9 0

-- An answer to a ping, and its bytes.
abbrev pong : Frame
pong = record (new_frame window_update_frame 0 0) { payload = 0 ∷ 0 ∷ 1 ∷ 0 ∷ [] }

abbrev pong_bytes : List ℕ
pong_bytes = 0 ∷ 0 ∷ 4 ∷ 8 ∷ 0 ∷ 0 ∷ 0 ∷ 0 ∷ 0 ∷ 0 ∷ 0 ∷ 1 ∷ 0 ∷ []

pong-IsFrame : IsFrame pong
pong-IsFrame = record {
  payload_24 = omega arith;
  type_byte = omega arith;
  flags_byte = omega arith;
  sid_31 = omega arith;
}

pong-IsPlain : IsPlain pong
pong-IsPlain = record { not_padded = refl; not_prioritised = refl }

do_request-preface_example :
    do_request outside fresh (Request.received (preface ++ pong_bytes))
    ≡ with_client fresh (drop (length preface) (filled fresh (preface ++ pong_bytes))) (
        then_handle
          (apply_settings outside fresh.client)
          (λ client. handle_all outside client (map received (pong ∷ []))))
unfolding encode_all encode
do_request-preface_example =
    do_request-preface outside fresh (pong ∷ []) pong_bytes (pong-IsFrame, tt) (pong-IsPlain, tt)
      refl

do_request-encode_all_example :
    do_request outside fresh (Request.received pong_bytes)
    ≡ with_client fresh
        (filled fresh pong_bytes)
        (handle_all outside fresh.client (map received (pong ∷ [])))
unfolding encode_all encode
do_request-encode_all_example =
    do_request-encode_all outside fresh pong [] pong_bytes (pong-IsFrame, tt) (pong-IsPlain, tt)
      refl (omega arith)

pong_bytes-All : All IsByte pong_bytes
pong_bytes-All = (
  omega arith,
  (
    omega arith,
    (
      omega arith,
      (
        omega arith,
        (
          omega arith,
          (
            omega arith,
            (
              omega arith,
              (
                omega arith,
                (omega arith, (omega arith, (omega arith, (omega arith, (omega arith, tt))))),
              ),
            ),
          ),
        ),
      ),
    ),
  ),
)

abbrev after_reads : Connection
after_reads = record fresh {
  recv_buffer = resize 4096 (resize 4096 (filled fresh pong_bytes));
  state = Request.client_idle;
  client = record fresh.client { fd_closed = true };
}

reads :
    read_all outside fresh (Request.received pong_bytes ∷ failed 11 ∷ ended ∷ []) ≡ some after_reads
unfolding read_all do_request resize new_connection read_buffer same preface to_frames_before
    to_frames_loop decode handle_all handle_frame
reads = refl

-- One byte of a frame, read to the front of the buffer: its length is taken from the old bytes, and
-- a PING that nobody sent is answered.
one_byte_read :
    do_request outside fresh (Request.received (0 ∷ []))
    ≡ with_client fresh
        (filled fresh (0 ∷ []))
        (handle_all outside fresh.client (default_frame ∷ []))
unfolding do_request resize new_connection read_buffer same preface to_frames_before to_frames_loop
    decode
one_byte_read = refl

-- doRequest writes the preface out again, and SSL's protocol is the token's.
same_preface : (preface ≡ k_connection_preface) × (text "h2" ≡ k_encrypted_token)
unfolding preface
same_preface = (refl, refl)

read_all-IsTable_example : IsTable after_reads.client.table × IsValid after_reads.client.settings
read_all-IsTable_example =
    read_all-IsTable outside 1 9 0 after_reads
      (Request.received pong_bytes ∷ failed 11 ∷ ended ∷ []) (omega arith)
      ((omega arith, pong_bytes-All), (tt, (tt, tt))) reads
