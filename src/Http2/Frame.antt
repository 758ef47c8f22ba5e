-- ===== src/Http2/Frame.antt =====
-- http2/protocol/frame.h and frame.cc: one frame, its wire form, and the split of a buffer.
-- A pointer range [p, q) is the list of its bytes. Where the source joins disjoint bit fields by
-- `|` and `<<`, the model adds multiples of powers of two.
pub mod Stages
pub mod RoundTrip
pub mod Layout
pub mod Fields
pub mod Safety
pub mod Payload
pub mod Kinds
pub mod Split
mod Tests
use http_2_0_server.Base.{
  ℕ, zero, suc, ◌+◌, ◌-◌, ◌*◌, ◌/◌, ◌%◌, ◌^◌, bit_and, Bool, true, false, not, ◌&&◌, ◌||◌, Option,
  none, some, List, [], ◌∷◌, ◌++◌, length, take, drop, ltb, ◌==◌, if◌then◌else◌,
}

-- enum Flag
abbrev pub no_flags : ℕ
no_flags = 0x00

abbrev pub ack : ℕ
ack = 0x01

abbrev pub end_stream : ℕ
end_stream = 0x01

abbrev pub end_headers : ℕ
end_headers = 0x04

abbrev pub padded : ℕ
padded = 0x08

abbrev pub priority : ℕ
priority = 0x20

-- enum FrameType
abbrev pub data_frame : ℕ
data_frame = 0x00

abbrev pub headers_frame : ℕ
headers_frame = 0x01

abbrev pub priority_frame : ℕ
priority_frame = 0x02

abbrev pub rst_stream_frame : ℕ
rst_stream_frame = 0x03

abbrev pub settings_frame : ℕ
settings_frame = 0x04

abbrev pub push_promise_frame : ℕ
push_promise_frame = 0x05

abbrev pub ping_frame : ℕ
ping_frame = 0x06

abbrev pub goaway_frame : ℕ
goaway_frame = 0x07

abbrev pub window_update_frame : ℕ
window_update_frame = 0x08

abbrev pub continuation_frame : ℕ
continuation_frame = 0x09

-- `weight` is the int `weight_`; the accessor of that name narrows it to a byte.
pub record Frame : Type 0 where
  pub type : ℕ
  pub flags : ℕ
  pub sid : ℕ
  pub payload : List ℕ
  pub has_priority : Bool
  pub stream_dependency : ℕ
  pub exclusive : Bool
  pub weight : ℕ

-- `Frame(type, flags, stream_id)` with its member initialisers.
abbrev pub new_frame : ℕ → ℕ → ℕ → Frame
new_frame type flags sid = record {
  type = type;
  flags = flags;
  sid = sid;
  payload = [];
  has_priority = false;
  stream_dependency = 2 ^ 32 - 1;
  exclusive = false;
  weight = 0;
}

-- `Frame()`: the default arguments make it a PING frame.
abbrev pub default_frame : Frame
default_frame = new_frame ping_frame no_flags 0

-- Frame::clear
unfoldable pub clear : Frame → Frame
clear f = default_frame

-- The setters.
unfoldable pub set_type : Frame → ℕ → Frame
set_type f t = record f { type = t }

unfoldable pub set_flags : Frame → ℕ → Frame
set_flags f flags = record f { flags = flags }

unfoldable pub set_stream_id : Frame → ℕ → Frame
set_stream_id f sid = record f { sid = sid }

unfoldable pub has_flag : Frame → ℕ → Bool
has_flag f bit = bit_and f.flags bit == bit

-- Frame::weight() returns a uint8_t.
unfoldable pub weight_byte : Frame → ℕ
weight_byte f = f.weight % 256

-- Frame::size()
unfoldable pub size : Frame → ℕ
unfolding has_flag
size f =
    9 + length f.payload + (if f.has_priority then 5 else 0) + (if has_flag f padded then 1 else 0)

-- Frame::encode; `none` is abort(). The length is narrowed to a uint32_t first.
unfoldable pub encode : Frame → Option (List ℕ)
encode f =
    let s = length f.payload % 2 ^ 32 in
    if ltb 0x00ffffff s
    then none
    else some (
        (s / 2 ^ 16 % 256)
        ∷ (s / 2 ^ 8 % 256)
        ∷ (s % 256)
        ∷ f.type
        ∷ f.flags
        ∷ (f.sid / 2 ^ 24 % 256)
        ∷ (f.sid / 2 ^ 16 % 256)
        ∷ (f.sid / 2 ^ 8 % 256)
        ∷ (f.sid % 256)
        ∷ f.payload)

-- What Frame::decode does to the frame that it is called on: it returns true or false, and keeps
-- what was assigned before it returned. `fault` is a read outside [p, q).
pub data Decoded : Type 0 where
  decoded : Frame → Decoded
  rejected : Frame → Decoded
  fault : Decoded

-- `payload_size` is a size_t.
abbrev size_sub : ℕ → ℕ → ℕ
size_sub a b = (a + 2 ^ 64 - b) % 2 ^ 64

-- The end of Frame::decode: `payload_.assign(p, p + payload_size)`.
pub assign_payload : Frame → List ℕ → ℕ → ℕ → Decoded
assign_payload f p payload_size header_start =
    if ltb payload_size header_start
    then rejected f
    else if ltb (length p) payload_size
    then fault
    else decoded (record f { payload = take payload_size p })

read_priority : Frame → List ℕ → ℕ → ℕ → Decoded
unfolding assign_payload
read_priority f (p0 ∷ p1 ∷ p2 ∷ p3 ∷ p4 ∷ p) payload_size header_start =
    let g = record f {
      has_priority = true;
      exclusive = not (bit_and p0 0x80 == 0);
      stream_dependency = bit_and p0 0x7f * 2 ^ 24 + p1 * 2 ^ 16 + p2 * 2 ^ 8 + p3;
      weight = p4 + 1;
    } in
    if ltb (p4 + 1) 1 || ltb 256 (p4 + 1)
    then rejected g
    else assign_payload g p (size_sub payload_size 5) (header_start + 5)
read_priority f _ payload_size header_start = fault

abbrev pub may_have_priority : Frame → Bool
may_have_priority f =
    not (bit_and f.flags priority == 0) && (f.type == headers_frame || f.type == push_promise_frame)

pub strip_priority : Frame → List ℕ → ℕ → ℕ → Decoded
unfolding read_priority
strip_priority f p payload_size header_start =
    if may_have_priority f
    then if ltb payload_size (5 + header_start)
      then rejected f
      else read_priority f p payload_size header_start
    else assign_payload f p payload_size header_start

read_padding : Frame → List ℕ → ℕ → Decoded
unfolding strip_priority
read_padding f [] payload_size = fault
read_padding f (pad_length ∷ p) payload_size =
    if ltb (size_sub payload_size 1) pad_length
    then rejected f
    else strip_priority f p (size_sub payload_size (pad_length + 1)) 1

abbrev pub may_be_padded : Frame → Bool
may_be_padded f =
    not (bit_and f.flags padded == 0)
    && (f.type == headers_frame || f.type == push_promise_frame || f.type == data_frame)

pub strip_padding : Frame → List ℕ → ℕ → Decoded
unfolding read_padding
strip_padding f p payload_size =
    if may_be_padded f then read_padding f p payload_size else strip_priority f p payload_size 0

-- Frame::decode on a frame `f`.
unfoldable pub decode : Frame → List ℕ → Decoded
unfolding strip_padding
decode f (p0 ∷ p1 ∷ p2 ∷ p3 ∷ p4 ∷ p5 ∷ p6 ∷ p7 ∷ p8 ∷ p) =
    let size = p0 * 2 ^ 16 + p1 * 2 ^ 8 + p2 in
    if ltb 0x00ffffff size || ltb (9 + length p) (9 + size)
    then rejected f
    else strip_padding
        (record f {
          type = p3;
          flags = p4;
          sid = bit_and p5 0x7f * 2 ^ 24 + p6 * 2 ^ 16 + p7 * 2 ^ 8 + p8;
        })
        p size
decode f _ = rejected f

-- Frame::toFrames. `fault` is a read outside the memory; `stuck` would be a loop without an end.
pub data Parsed : Type 0 where
  frames : List Frame → Parsed
  fault : Parsed
  stuck : Parsed

abbrev pub prepend : Frame → Parsed → Parsed
prepend f (frames fs) = frames (f ∷ fs)
prepend f Parsed.fault = Parsed.fault
prepend f stuck = stuck

-- A frame that failed to decode is pushed like any other.
abbrev pub push_decoded : Decoded → Parsed → Parsed
push_decoded (decoded f) r = prepend f r
push_decoded (rejected f) r = prepend f r
push_decoded Decoded.fault r = Parsed.fault

-- `(curr[0] << 16) | (curr[1] << 8) | curr[2]`; `none` is a read outside the memory.
abbrev pub size_at : List ℕ → Option ℕ
size_at (p0 ∷ p1 ∷ p2 ∷ p) = some (p0 * 2 ^ 16 + p1 * 2 ^ 8 + p2)
size_at _ = none

-- The length is read without a look at `end`, also from what is behind that in the memory.
unfoldable pub to_frames_loop : ℕ → List ℕ → List ℕ → Parsed
to_frames_loop fuel behind [] = frames []
to_frames_loop zero behind (b ∷ bs) = stuck
to_frames_loop (suc fuel) behind (b ∷ bs) = elim (size_at ((b ∷ bs) ++ behind)) [
  | none ↦ Parsed.fault
  | some size ↦
      push_decoded (decode default_frame (b ∷ bs))
        (to_frames_loop fuel behind (drop (9 + size) (b ∷ bs)))
]

-- toFrames on bytes that `behind` follows in the memory. Each round drops nine bytes at least, so
-- `length bytes` rounds are enough.
unfoldable pub to_frames_before : List ℕ → List ℕ → Parsed
unfolding to_frames_loop
to_frames_before behind bytes = to_frames_loop (length bytes) behind bytes

-- toFrames on the whole of the memory that it may read.
abbrev pub to_frames : List ℕ → Parsed
to_frames bytes = to_frames_before [] bytes
