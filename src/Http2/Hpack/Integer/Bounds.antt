-- ===== src/Http2/Hpack/Integer/Bounds.antt =====
-- decode_integer on any bytes, well formed or not.
use http_2_0_server.Base.{
  ℕ, ◌+◌, ◌*◌, ◌%◌, ◌^◌, ◌≤◌, ◌<◌, ◌≡◌, ◌∙◌, bit_and, arith, List, [], ◌∷◌, ◌++◌, length, lt→ltb,
  All,
}
use native.Mathlib.Nat.{mod-le, zero-mod}
use http_2_0_server.Http2.Hpack.Integer.Masks.{IsField, bit_and-mask}
use http_2_0_server.Http2.Hpack.Integer.RoundTrip.{first_full}
use http_2_0_server.Base.Bits.{IsByte, bit_and_128}
use http_2_0_server.Http2.Hpack.Integer.{mask, result, undefined, decode_groups, decode_integer}

decode_groups_bounds :
    (bs : List ℕ) (output shift n m v : ℕ)
    → All IsByte bs
    → decode_groups bs output shift n ≡ result m v
    → (m ≤ n + length bs) × (v < 2 ^ 32)
unfolding decode_groups
decode_groups_bounds [] output shift n m v h e = ground arith
decode_groups_bounds (b ∷ bs) output shift n m v h e =
    let output' = (output + bit_and b 0x7f * 2 ^ shift) % 2 ^ 32 in
    ground (arith, decode_groups_bounds bs output' (shift + 7) (n + 1) m v h.1)

field : (numbits : ℕ) → 1 ≤ numbits → numbits ≤ 7 → IsField 0 numbits
field numbits l k = record {
  some_bit = l;
  in_byte = k;
  high_byte = omega arith;
  high = zero-mod (2 ^ numbits);
}

-- On any bytes, and for a field of 1 to 7 bits, a result advances by no more bytes than there are,
-- and its value fits a uint32_t.
pub decode_integer_bounds :
    (bs : List ℕ) (numbits m v : ℕ)
    → All IsByte bs
    → 1 ≤ numbits
    → numbits ≤ 7
    → decode_integer bs numbits ≡ result m v
    → (m ≤ length bs) × (v < 2 ^ 32)
unfolding decode_integer
decode_integer_bounds [] numbits m v h l k e = ground arith
decode_integer_bounds (b ∷ bs) numbits m v h l k e =
    let first = bit_and b (mask numbits) in
    ground (
      arith,
      decode_groups_bounds bs first 0 1 m v h.1,
      bit_and-mask 0 numbits (field numbits l k) b h.0,
      mod-le b (2 ^ numbits),
    )

-- A byte with its top bit set: more bytes follow.
abbrev pub Continues : ℕ → Type 0
Continues b = (128 ≤ b) × (b < 256)

decode_groups_long :
    (bs : List ℕ) (b output shift n : ℕ) (rest : List ℕ)
    → All Continues bs
    → 31 < shift + 7 * length bs
    → decode_groups (bs ++ (b ∷ rest)) output shift n ≡ undefined
unfolding decode_groups
decode_groups_long [] b output shift n rest h s = rw (lt→ltb 31 shift (omega arith))
decode_groups_long (c ∷ bs) b output shift n rest h s =
    let output' = (output + bit_and c 0x7f * 2 ^ shift) % 2 ^ 32 in
    ground (
      arith,
      bit_and_128 c h.0.1,
      decode_groups_long bs b output' (shift + 7) (n + 1) rest h.1 (omega arith),
    )

-- There is no limit on the number of bytes: a full first byte, five bytes or more that announce
-- another one, and that one, lead to undefined behaviour whatever they hold.
pub decode_integer_long :
    (numbits first : ℕ) (bs : List ℕ) (b : ℕ) (rest : List ℕ)
    → bit_and first (mask numbits) ≡ mask numbits
    → All Continues bs
    → 5 ≤ length bs
    → decode_integer (first ∷ (bs ++ (b ∷ rest))) numbits ≡ undefined
decode_integer_long numbits first bs b rest e h l =
    first_full numbits first (bs ++ (b ∷ rest)) e
    ∙ decode_groups_long bs b (mask numbits) 0 1 rest h (omega arith)
