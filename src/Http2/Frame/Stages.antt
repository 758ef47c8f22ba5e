-- ===== src/Http2/Frame/Stages.antt =====
-- The stages of Frame::decode on a region that starts with a frame's header.
use http_2_0_server.Base.{
  ℕ, ◌+◌, ◌*◌, ◌/◌, ◌%◌, ◌^◌, ◌≤◌, ◌<◌, ◌≡◌, bit_and, some, List, ◌∷◌, ◌++◌, length, le→ltb, lt→ltb,
  arith, length-append, take-append,
}
use http_2_0_server.Base.Bits.{bit_and_127}
use http_2_0_server.Http2.Frame.{
  Frame, default_frame, encode, decode, decoded, rejected, strip_padding, assign_payload,
}

-- What the wire format can carry of a frame.
pub record IsFrame (f : Frame) : Type 0 where
  pub type_byte : f.type < 256
  pub flags_byte : f.flags < 256
  pub sid_31 : f.sid < 2 ^ 31
  pub payload_24 : length f.payload ≤ 0xffffff

-- A new frame with the header fields of `f`.
abbrev pub headed : Frame → Frame
headed f = record default_frame { type = f.type; flags = f.flags; sid = f.sid }

-- The nine bytes in front of the payload, before `bs`.
abbrev pub header_of : Frame → List ℕ → List ℕ
header_of f bs =
    (length f.payload / 2 ^ 16 % 256)
    ∷ (length f.payload / 2 ^ 8 % 256)
    ∷ (length f.payload % 256)
    ∷ f.type
    ∷ f.flags
    ∷ (f.sid / 2 ^ 24 % 256)
    ∷ (f.sid / 2 ^ 16 % 256)
    ∷ (f.sid / 2 ^ 8 % 256)
    ∷ (f.sid % 256)
    ∷ bs

pub encode-header_of : (f : Frame) → IsFrame f → encode f ≡ some (header_of f f.payload)
unfolding encode
encode-header_of f v =
    let e : length f.payload % 2 ^ 32 ≡ length f.payload = omega (arith, v.payload_24) in
    rw (e, le→ltb 0xffffff (length f.payload) v.payload_24)

pub size_bytes :
    (n : ℕ) → n ≤ 0xffffff → (n / 2 ^ 16 % 256) * 2 ^ 16 + (n / 2 ^ 8 % 256) * 2 ^ 8 + n % 256 ≡ n
size_bytes n h = omega arith

sid_bytes :
    (n : ℕ)
    → n < 2 ^ 31
    → bit_and (n / 2 ^ 24 % 256) 0x7f * 2 ^ 24
        + (n / 2 ^ 16 % 256) * 2 ^ 16
        + (n / 2 ^ 8 % 256) * 2 ^ 8
        + n % 256
      ≡ n
sid_bytes n h = rw (bit_and_127 (n / 2 ^ 24 % 256) (omega arith)) (omega arith)

-- The header is read back, and the rest is left to the later stages.
pub decode-header_of :
    (f : Frame) (rest : List ℕ)
    → IsFrame f
    → decode default_frame (header_of f (f.payload ++ rest))
      ≡ strip_padding (headed f) (f.payload ++ rest) (length f.payload)
unfolding decode
decode-header_of f rest v = rw (
  size_bytes (length f.payload) v.payload_24,
  sid_bytes f.sid v.sid_31,
  le→ltb 0xffffff (length f.payload) v.payload_24,
  le→ltb (9 + length (f.payload ++ rest)) (9 + length f.payload)
      (omega (arith, length-append f.payload rest)),
)

pub assign_payload-append :
    (f : Frame) (body rest : List ℕ) (start : ℕ)
    → start ≤ length body
    → assign_payload f (body ++ rest) (length body) start ≡ decoded (record f { payload = body })
unfolding assign_payload
assign_payload-append f body rest start h = rw (
  le→ltb (length body) start h,
  le→ltb (length (body ++ rest)) (length body) (omega (arith, length-append body rest)),
  take-append body rest,
)

pub assign_payload_short :
    (f : Frame) (p : List ℕ) (n start : ℕ) → n < start → assign_payload f p n start ≡ rejected f
unfolding assign_payload
assign_payload_short f p n start h = rw (lt→ltb n start h)
