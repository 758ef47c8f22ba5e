-- ===== src/Http2/Hpack/Integer/RoundTrip.antt =====
-- decode_integer reads back what encode_integer wrote.
use http_2_0_server.Base.{
  ℕ, zero, suc, ◌+◌, ◌-◌, ◌*◌, ◌/◌, ◌%◌, ◌^◌, ◌≤◌, ◌<◌, ◌≡◌, ◌∙◌, ap, bit_and, bit_or, arith, some,
  List, [], ◌∷◌, ◌++◌, length, ltb, ltb→lt, ltb→le, lt→ltb, le→ltb, Bool-cases, inl, inr,
}
use mathlib.Core.Path.{ap₂}
use http_2_0_server.Base.Powers.{shift_parts}
use http_2_0_server.Base.Bits.{bit_and_127, bit_and_128, bit_or_128}
use http_2_0_server.Http2.Hpack.Integer.{
  mask, encode_groups, encode_integer, result, decode_groups, decode_integer,
}
use http_2_0_server.Http2.Hpack.Integer.Masks.{IsField, mask-pow, bit_or-hibits}

-- One byte of the loop, when nothing overflows.
read_last :
    (w output shift n : ℕ) (rest : List ℕ)
    → w < 128
    → shift ≤ 31
    → w * 2 ^ shift < 2 ^ 31
    → output + w * 2 ^ shift < 2 ^ 32
    → decode_groups (w ∷ rest) output shift n ≡ result (n + 1) (output + w * 2 ^ shift)
unfolding decode_groups
read_last w output shift n rest h s t f =
    ground (arith, bit_and_127 w (omega arith), bit_and_128 w (omega arith))

read_inner :
    (g output shift n : ℕ) (rest : List ℕ)
    → g < 128
    → shift ≤ 31
    → g * 2 ^ shift < 2 ^ 31
    → output + g * 2 ^ shift < 2 ^ 32
    → decode_groups (bit_or 0x80 g ∷ rest) output shift n
      ≡ decode_groups rest (output + g * 2 ^ shift) (shift + 7) (n + 1)
unfolding decode_groups
read_inner g output shift n rest h s t f =
    let low : bit_and (g + 128) 0x7f ≡ g = omega (arith, bit_and_127 (g + 128)) in
    let top : bit_and (g + 128) 0x80 ≡ 128 = omega (arith, bit_and_128 (g + 128)) in
    let sum : (output + g * 2 ^ shift) % 2 ^ 32 ≡ output + g * 2 ^ shift = omega arith in
    rw (
      bit_or_128 g h,
      low,
      top,
      sum,
      le→ltb 31 shift s,
      le→ltb 2147483647 (g * 2 ^ shift) (omega arith),
    )

-- The group of the next byte, and the groups behind it.
next_group :
    (value shift : ℕ) → value * 2 ^ shift ≡ value % 128 * 2 ^ shift + value / 128 * 2 ^ (shift + 7)
next_group value shift =
    let e : 7 + shift ≡ shift + 7 = omega arith in
    omega (arith, shift_parts 7 value shift, ap (λ t. value / 128 * 2 ^ t) e)

-- `value` counts from bit `shift` on, and takes `k + 1` groups at most.
decode-encode_groups :
    (k value output shift n : ℕ) (rest : List ℕ)
    → value < 128 ^ suc k
    → shift + 7 * k ≤ 31
    → value * 2 ^ shift < 2 ^ 31
    → output + value * 2 ^ shift < 2 ^ 32
    → (bs : List ℕ) × (encode_groups (suc k) value ≡ some bs)
      × (decode_groups (bs ++ rest) output shift n
          ≡ result (n + length bs) (output + value * 2 ^ shift))
unfolding encode_groups
decode-encode_groups zero value output shift n rest h s t f = (
  value ∷ [],
  rw (lt→ltb value 0x80 (omega arith)),
  read_last value output shift n rest (omega arith) (omega arith) t f,
)
decode-encode_groups (suc k) value output shift n rest h s t f =
    elim (Bool-cases (ltb value 0x80)) [
      | inl small ↦ (
        value ∷ [],
        rw small,
        read_last value output shift n rest (ltb→lt value 0x80 small) (omega arith) t f,
      )
      | inr large ↦
          let g = value % 128 in
          let p = next_group value shift in
          let (bs, e, d) =
            decode-encode_groups k (value / 128) (output + g * 2 ^ shift) (shift + 7) (n + 1) rest
              (omega arith) (omega arith) (omega (arith, p)) (omega (arith, p)) in
          (
            bit_or 0x80 g ∷ bs,
            rw (large, e),
            read_inner g output shift n (bs ++ rest) (omega arith) (omega arith) (omega (arith, p))
                  (omega (arith, p))
                ∙ d
                ∙ ap₂ result (omega arith) (omega (arith, p)),
          )
    ]

first_small :
    (numbits byte v : ℕ) (bs : List ℕ)
    → bit_and byte (mask numbits) ≡ v
    → v < mask numbits
    → decode_integer (byte ∷ bs) numbits ≡ result 1 v
unfolding decode_integer
first_small numbits byte v bs e h = rw e (ground arith)

pub first_full :
    (numbits byte : ℕ) (bs : List ℕ)
    → bit_and byte (mask numbits) ≡ mask numbits
    → decode_integer (byte ∷ bs) numbits ≡ decode_groups bs (mask numbits) 0 1
unfolding decode_integer
first_full numbits byte bs e = rw e (ground arith)

-- A value below 2 ^ 31 is written for each field of the first byte, and reading what was written,
-- whatever follows it, returns the number of bytes that were written and the value.
pub decode-encode_integer :
    (hibits numbits value : ℕ) (rest : List ℕ)
    → IsField hibits numbits
    → value < 2 ^ 31
    → (bs : List ℕ) × (encode_integer hibits numbits value ≡ some bs)
      × (decode_integer (bs ++ rest) numbits ≡ result (length bs) value)
unfolding encode_integer
decode-encode_integer hibits numbits value rest f h =
    let p = mask-pow hibits numbits f in
    elim (Bool-cases (ltb value (mask numbits))) [
      | inl small ↦
          let lt = ltb→lt value (mask numbits) small in
          let (byte, back) = bit_or-hibits hibits numbits f value (omega (arith, p, lt)) in
          let e : bit_or value hibits % 256 ≡ bit_or value hibits = omega (arith, byte) in
          (
            bit_or value hibits % 256 ∷ [],
            rw small,
            rw e (first_small numbits (bit_or value hibits) value rest back lt),
          )
      | inr large ↦
          let le = ltb→le value (mask numbits) large in
          let (byte, back) = bit_or-hibits hibits numbits f (mask numbits) (omega (arith, p)) in
          let (bs, e, d) =
            decode-encode_groups 4 (value - mask numbits) (mask numbits) 0 1 rest (omega arith)
              (omega arith) (omega arith) (omega arith) in
          (
            bit_or (mask numbits) hibits ∷ bs,
            rw (large, e),
            first_full numbits (bit_or (mask numbits) hibits) (bs ++ rest) back
                ∙ d
                ∙ ap₂ result (omega arith) (omega (arith, le)),
          )
    ]
