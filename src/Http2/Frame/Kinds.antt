-- ===== src/Http2/Frame/Kinds.antt =====
-- Which types of frames can carry a priority.
use http_2_0_server.Base.{
  ℕ, ◌+◌, ◌*◌, ◌^◌, ◌≡◌, refl, false, ◌||◌, List, ◌∷◌, length, ltb, arith, Bool-cases, inl, inr,
  bit_and,
}
use http_2_0_server.Http2.Frame.{
  Frame, default_frame, decoded, priority_frame, decode, strip_padding, strip_priority,
  assign_payload, may_be_padded, may_have_priority,
}

assign_payload-has_priority :
    (f g : Frame) (p : List ℕ) (n h : ℕ)
    → assign_payload f p n h ≡ decoded g
    → g.has_priority ≡ f.has_priority
unfolding assign_payload
assign_payload-has_priority f g p n h e = ground (arith, e)

strip_priority-has_priority :
    (f g : Frame) (p : List ℕ) (n h : ℕ)
    → f.type ≡ priority_frame
    → strip_priority f p n h ≡ decoded g
    → g.has_priority ≡ f.has_priority
unfolding strip_priority
strip_priority-has_priority f g p n h t e =
    let no : may_have_priority f ≡ false = ground (arith, t) in
    assign_payload-has_priority f g p n h (rw no at e)

strip_padding-has_priority :
    (f g : Frame) (p : List ℕ) (n : ℕ)
    → f.type ≡ priority_frame
    → strip_padding f p n ≡ decoded g
    → g.has_priority ≡ f.has_priority
unfolding strip_padding
strip_padding-has_priority f g p n t e =
    let no : may_be_padded f ≡ false = ground (arith, t) in
    strip_priority-has_priority f g p n 0 t (rw no at e)

-- A frame of the type PRIORITY is decoded without its priority, whatever its flags.
pub decode-has_priority :
    (p0 p1 p2 p4 p5 p6 p7 p8 : ℕ) (p : List ℕ) (g : Frame)
    → decode default_frame (p0 ∷ p1 ∷ p2 ∷ priority_frame ∷ p4 ∷ p5 ∷ p6 ∷ p7 ∷ p8 ∷ p) ≡ decoded g
    → g.has_priority ≡ false
unfolding decode
decode-has_priority p0 p1 p2 p4 p5 p6 p7 p8 p g e =
    let f = record default_frame {
      type = priority_frame;
      flags = p4;
      sid = bit_and p5 0x7f * 2 ^ 24 + p6 * 2 ^ 16 + p7 * 2 ^ 8 + p8;
    } in
    let size = p0 * 2 ^ 16 + p1 * 2 ^ 8 + p2 in
    elim (Bool-cases (ltb 0x00ffffff size || ltb (9 + length p) (9 + size))) [
      | inl short ↦ absurd (ground (arith, short, e))
      | inr long ↦ strip_padding-has_priority f g p size refl (rw long at e)
    ]
