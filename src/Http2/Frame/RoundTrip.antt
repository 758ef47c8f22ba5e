-- ===== src/Http2/Frame/RoundTrip.antt =====
-- Frame::decode reads back what Frame::encode wrote.
use http_2_0_server.Base.{ℕ, ◌+◌, ◌≡◌, false, some, List, ◌++◌, length, arith}
use http_2_0_server.Http2.Frame.{
  Frame, default_frame, encode, decode, decoded, may_be_padded, may_have_priority, strip_padding,
}
use http_2_0_server.Http2.Frame.Stages.{
  IsFrame, headed, header_of, encode-header_of, decode-header_of, assign_payload-append,
}

-- No PADDED or PRIORITY flag on a type where it announces extra fields.
pub record IsPlain (f : Frame) : Type 0 where
  pub not_padded : may_be_padded f ≡ false
  pub not_prioritised : may_have_priority f ≡ false

-- The fields of a frame that travel.
abbrev pub received : Frame → Frame
received f = record (headed f) { payload = f.payload }

strip_padding-IsPlain :
    (f : Frame) (rest : List ℕ)
    → IsPlain f
    → strip_padding (headed f) (f.payload ++ rest) (length f.payload) ≡ decoded (received f)
unfolding strip_padding
strip_padding-IsPlain f rest v =
    rw (v.not_padded, v.not_prioritised)
      (assign_payload-append (headed f) f.payload rest 0 (omega arith))

pub decode_plain :
    (f : Frame) (rest : List ℕ)
    → IsFrame f
    → IsPlain f
    → decode default_frame (header_of f (f.payload ++ rest)) ≡ decoded (received f)
decode_plain f rest v w = rw (decode-header_of f rest v) (strip_padding-IsPlain f rest w)

-- Every plain frame within the format's limits is encoded, in nine bytes and its payload, and
-- decoding what was written, whatever follows it, returns true and the frame's fields.
pub decode-encode :
    (f : Frame) (rest : List ℕ)
    → IsFrame f
    → IsPlain f
    → (bs : List ℕ) × (encode f ≡ some bs)
      × (length bs ≡ 9 + length f.payload)
      × (decode default_frame (bs ++ rest) ≡ decoded (received f))
decode-encode f rest v w =
    (header_of f f.payload, encode-header_of f v, omega arith, decode_plain f rest v w)
