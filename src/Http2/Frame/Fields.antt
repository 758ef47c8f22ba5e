-- ===== src/Http2/Frame/Fields.antt =====
-- Frame::decode on payloads with padding and priority.
use http_2_0_server.Base.{
  ℕ, ◌≤◌, ◌<◌, ◌≡◌, ◌∙◌, Option, none, some, List, ◌++◌, length, arith, length-append,
}
use http_2_0_server.Http2.Frame.{
  Frame, default_frame, encode, decode, decoded, rejected, may_be_padded, may_have_priority,
  strip_padding,
}
use http_2_0_server.Http2.Frame.Stages.{
  IsFrame, headed, header_of, encode-header_of, decode-header_of, assign_payload-append,
}
use http_2_0_server.Http2.Frame.Layout.{
  Priority, IsPriority, IsPadding, lay_out, is_some, extra_size, set_priority,
  strip_padding-lay_out, strip_padding_short, length-priority_bytes,
}

-- The frame `f` with a payload of that layout.
abbrev pub with_layout : Frame → Option (List ℕ) → Option Priority → List ℕ → Frame
with_layout f pad r body = record f { payload = lay_out pad r body }

module _ (f : Frame) (pad : Option (List ℕ)) (r : Option Priority) (body rest bs : List ℕ) where
  decode-strip_padding :
      IsFrame (with_layout f pad r body)
      → encode (with_layout f pad r body) ≡ some bs
      → decode default_frame (bs ++ rest)
        ≡ strip_padding (headed f) (lay_out pad r body ++ rest) (length (lay_out pad r body))
  decode-strip_padding v e =
      let g = with_layout f pad r body in
      let b : bs ≡ header_of g g.payload = cc (encode-header_of g v) in
      rw b (decode-header_of g rest v)

  body-le-payload : length body ≤ length (lay_out pad r body)
  body-le-payload = elim pad as (λ q. length body ≤ length (lay_out q r body)) [
    | none ↦ omega (arith, length-priority_bytes r body)
    | some zs ↦ omega (arith, length-priority_bytes r (body ++ zs), length-append body zs)
  ]

  -- A frame whose payload is laid out as its PADDED and PRIORITY flags say, with a body no
  -- shorter than the extra fields in front of it, decodes to its body and its
  -- priority, without the padding, whatever follows the frame in the buffer.
  pub decode-lay_out :
      IsFrame (with_layout f pad r body)
      → IsPadding pad
      → IsPriority r
      → may_be_padded f ≡ is_some pad
      → may_have_priority f ≡ is_some r
      → encode (with_layout f pad r body) ≡ some bs
      → extra_size pad r ≤ length body
      → decode default_frame (bs ++ rest)
        ≡ decoded (record (set_priority r (headed f)) { payload = body })
  decode-lay_out v z u p m e k =
      let (tail, step) =
        strip_padding-lay_out (headed f) pad r body rest z u p m
          (omega (arith, v.payload_24, body-le-payload)) (omega arith) in
      decode-strip_padding v e
      ∙ step
      ∙ assign_payload-append (set_priority r (headed f)) body tail (extra_size pad r) k

  -- The code counts the extra fields twice: after it has taken them off the payload it still wants
  -- the body to be as long as they are. Every such frame with a shorter body, as RFC 7540 allows,
  -- is refused.
  pub decode_short_body :
      IsFrame (with_layout f pad r body)
      → IsPadding pad
      → IsPriority r
      → may_be_padded f ≡ is_some pad
      → may_have_priority f ≡ is_some r
      → encode (with_layout f pad r body) ≡ some bs
      → length body < extra_size pad r
      → (g : Frame) × (decode default_frame (bs ++ rest) ≡ rejected g)
  decode_short_body v z u p m e k =
      let (g, step) =
        strip_padding_short (headed f) pad r body rest z u p m
          (omega (arith, v.payload_24, body-le-payload)) k in
      (g, decode-strip_padding v e ∙ step)
