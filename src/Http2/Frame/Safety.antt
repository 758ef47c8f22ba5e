-- ===== src/Http2/Frame/Safety.antt =====
-- When Frame::decode reads outside the region that it is given.
use http_2_0_server.Base.{
  ℕ, ◌+◌, ◌-◌, ◌*◌, ◌^◌, ◌≤◌, ◌<◌, ◌≡◌, refl, ◌≢◌, ◌⊎◌, inl, inr, bit_and, Bool, true, false, List,
  [], ◌∷◌, length, le→ltb, lt→ltb, ltb, arith, Bool-cases, ltb→le, All, ◌||◌,
}
use http_2_0_server.Base.Bits.{IsByte}
use http_2_0_server.Http2.Frame.{
  Frame, new_frame, decode, Decoded, may_be_padded, may_have_priority, strip_padding,
  strip_priority, assign_payload, read_priority, read_padding, size_sub,
}

assign_payload-ne-fault :
    (f : Frame) (p : List ℕ) (n start : ℕ)
    → n ≤ length p
    → assign_payload f p n start ≢ Decoded.fault
unfolding assign_payload
assign_payload-ne-fault f p n start h = ground arith

read_priority-ne-fault :
    (f : Frame) (p : List ℕ) (n start : ℕ)
    → n ≤ length p
    → 5 ≤ n
    → n < 2 ^ 32
    → read_priority f p n start ≢ Decoded.fault
unfolding read_priority
read_priority-ne-fault f (p0 ∷ p1 ∷ p2 ∷ p3 ∷ p4 ∷ p) n start h k b = ground arith
read_priority-ne-fault f _ n start h k b = absurd (omega arith)

strip_priority-ne-fault :
    (f : Frame) (p : List ℕ) (n start : ℕ)
    → n ≤ length p
    → n < 2 ^ 32
    → strip_priority f p n start ≢ Decoded.fault
unfolding strip_priority
strip_priority-ne-fault f p n start h b = elim (Bool-cases (may_have_priority f)) [
  | inl e ↦ rw e (elim (Bool-cases (ltb n (5 + start))) [
    | inl short ↦ rw short (λ q. cc)
    | inr long ↦
        rw long (read_priority-ne-fault f p n start h (omega (arith, ltb→le n (5 + start) long)) b)
  ])
  | inr e ↦ rw e (assign_payload-ne-fault f p n start h)
]

read_padding-ne-fault :
    (f : Frame) (p : List ℕ) (n : ℕ)
    → All IsByte p
    → n ≤ length p
    → n < 2 ^ 32
    → 0 < n
    → read_padding f p n ≢ Decoded.fault
unfolding read_padding
read_padding-ne-fault f [] n v h b k = absurd (omega arith)
read_padding-ne-fault f (pad ∷ p) n v h b k = elim (Bool-cases (ltb (size_sub n 1) pad)) [
  | inl long ↦ rw long (λ q. cc)
  | inr fits ↦
      let room : pad ≤ n - 1 = omega (arith, ltb→le (size_sub n 1) pad fits) in
      rw fits (strip_priority-ne-fault f p (size_sub n (pad + 1)) 1 (omega arith) (omega arith))
]

strip_padding-ne-fault :
    (f : Frame) (p : List ℕ) (n : ℕ)
    → All IsByte p
    → n ≤ length p
    → n < 2 ^ 32
    → (0 < n) ⊎ (may_be_padded f ≡ false)
    → strip_padding f p n ≢ Decoded.fault
unfolding strip_padding
strip_padding-ne-fault f p n v h b (inl k) = elim (Bool-cases (may_be_padded f)) [
  | inl e ↦ rw e (read_padding-ne-fault f p n v h b k)
  | inr e ↦ rw e (strip_priority-ne-fault f p n 0 h b)
]
strip_padding-ne-fault f p n v h b (inr e) = rw e (strip_priority-ne-fault f p n 0 h b)

-- The length that the first three bytes of a frame announce.
abbrev pub announced : ℕ → ℕ → ℕ → ℕ
announced p0 p1 p2 = p0 * 2 ^ 16 + p1 * 2 ^ 8 + p2

-- On any bytes, Frame::decode stays inside its region if the frame announces a payload, or has no
-- padding to strip.
pub decode-ne-fault :
    (f : Frame) (p0 p1 p2 type flags p5 p6 p7 p8 : ℕ) (p : List ℕ)
    → All IsByte p
    → (0 < announced p0 p1 p2) ⊎ (may_be_padded (new_frame type flags 0) ≡ false)
    → decode f (p0 ∷ p1 ∷ p2 ∷ type ∷ flags ∷ p5 ∷ p6 ∷ p7 ∷ p8 ∷ p) ≢ Decoded.fault
unfolding decode
decode-ne-fault f p0 p1 p2 type flags p5 p6 p7 p8 p v h = elim (Bool-cases refused) [
  | inl e ↦ rw e (λ q. cc)
  | inr e ↦
      rw e (
        strip_padding-ne-fault g p (announced p0 p1 p2) v (ground (arith, e)) (ground (arith, e)) h)
]
  where
    g : Frame
    g = record f {
      type = type;
      flags = flags;
      sid = bit_and p5 0x7f * 2 ^ 24 + p6 * 2 ^ 16 + p7 * 2 ^ 8 + p8;
    }

    refused : Bool
    refused = ltb 0x00ffffff (announced p0 p1 p2) || ltb (9 + length p) (9 + announced p0 p1 p2)

assign_payload_beyond :
    (f : Frame) (p : List ℕ) (n start : ℕ)
    → length p < n
    → start ≤ n
    → assign_payload f p n start ≡ Decoded.fault
unfolding assign_payload
assign_payload_beyond f p n start h k = rw (le→ltb n start k, lt→ltb (length p) n h)

read_priority_beyond :
    (f : Frame) (p : List ℕ) (n : ℕ)
    → All IsByte p
    → length p + 16 < n
    → n < 2 ^ 64
    → read_priority f p n 1 ≡ Decoded.fault
unfolding read_priority
read_priority_beyond f (p0 ∷ p1 ∷ p2 ∷ p3 ∷ p4 ∷ p) n v h b =
    let room : size_sub n 5 ≡ n - 5 = omega arith in
    rw (le→ltb (p4 + 1) 1 (omega arith), le→ltb 256 (p4 + 1) (omega (arith, v.1.1.1.1.0)), room)
      (assign_payload_beyond _ p (n - 5) 6 (omega arith) (omega arith))
read_priority_beyond f _ n v h b = refl

strip_priority_beyond :
    (f : Frame) (p : List ℕ) (n : ℕ)
    → All IsByte p
    → length p + 16 < n
    → n < 2 ^ 64
    → strip_priority f p n 1 ≡ Decoded.fault
unfolding strip_priority
strip_priority_beyond f p n v h b = elim (Bool-cases (may_have_priority f)) [
  | inl e ↦ rw (e, le→ltb n (5 + 1) (omega arith)) (read_priority_beyond f p n v h b)
  | inr e ↦ rw e (assign_payload_beyond f p n 1 (omega arith) (omega arith))
]

read_padding_zero :
    (f : Frame) (p : List ℕ) → All IsByte p → length p < 2 ^ 63 → read_padding f p 0 ≡ Decoded.fault
unfolding read_padding
read_padding_zero f [] v b = refl
read_padding_zero f (pad ∷ p) v b =
    rw (le→ltb (2 ^ 64 - 1) pad (omega (arith, v.0)))
      (strip_priority_beyond f p (size_sub 0 (pad + 1)) v.1 (omega (arith, v.0)) (omega arith))

-- A frame that is flagged as padded and announces no payload has no length byte to read: whatever
-- follows the header, decoding it reads outside the region.
pub decode_padded_empty :
    (f : Frame) (type flags p5 p6 p7 p8 : ℕ) (p : List ℕ)
    → All IsByte p
    → length p < 2 ^ 63
    → may_be_padded (new_frame type flags 0) ≡ true
    → decode f (0 ∷ 0 ∷ 0 ∷ type ∷ flags ∷ p5 ∷ p6 ∷ p7 ∷ p8 ∷ p) ≡ Decoded.fault
unfolding decode
decode_padded_empty f type flags p5 p6 p7 p8 p v b e =
    rw (e, le→ltb (9 + length p) (9 + 0) (omega arith)) (read_padding_zero _ p v b)
