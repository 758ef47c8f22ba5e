-- ===== src/Http2/Hpack/Parts.antt =====
-- The integers and strings of Decoder::decode_lowmem, on any bytes.
use http_2_0_server.Base.{
  All-drop, ℕ, zero, suc, ◌*◌, ◌^◌, ◌≤◌, ◌<◌, ◌≡◌, refl, Bool, true, false, not, List, [], ◌∷◌,
  ◌&&◌, ◌||◌, ◌+◌, ◌≢◌, leb, Bool-cases, length, length-drop, length-take, take, drop, arith, All,
  inl, inr, ◌⊎◌, ltb, ◌==◌, if◌then◌else◌, bit_and,
}
use http_2_0_server.Base.Bits.{IsByte, bit_and_127, bit_and_128}
use http_2_0_server.Http2.Hpack.Integer.{Read, result, decode_integer, decode_groups, mask}
use http_2_0_server.Http2.Hpack.Integer.Bounds.{decode_integer_bounds}
use http_2_0_server.Http2.Hpack.Huffman.{Text, pushed, decode_huffman}
use http_2_0_server.Http2.Hpack.Huffman.Safety.{IsShort, decode_huffman-IsShort}
use http_2_0_server.Http2.Hpack.Decoder.{
  Part, part, refused, raised, stuck, read_integer, and_then, text_part, read_bytes, read_string,
}

-- `k` bytes with their top bit set, and one more.
unfoldable pub goes_on : ℕ → List ℕ → Bool
goes_on k [] = false
goes_on zero (b ∷ p) = true
goes_on (suc k) (b ∷ p) = leb 128 b && goes_on k p

-- Somewhere there could be an integer of six bytes or more: a byte, four that announce another one,
-- and that one.
unfoldable pub has_long : List ℕ → Bool
has_long [] = false
has_long (b ∷ p) = goes_on 4 p || has_long p

-- Bytes, and if `u` is true no such integer among them.
abbrev pub Bytes : Bool → List ℕ → Type 0
Bytes u p = All IsByte p × ((u && has_long p) ≡ false)

tail_long :
    (u : Bool) (b : ℕ) (p : List ℕ) → (u && has_long (b ∷ p)) ≡ false → (u && has_long p) ≡ false
unfolding has_long
tail_long u b p h = ground (arith, h)

drop_long :
    (u : Bool) (n : ℕ) (p : List ℕ) → (u && has_long p) ≡ false → (u && has_long (drop n p)) ≡ false
drop_long u zero p h = h
drop_long u (suc n) [] h = h
drop_long u (suc n) (b ∷ p) h = drop_long u n p (tail_long u b p h)

drop-Bytes : (u : Bool) (n : ℕ) (p : List ℕ) → Bytes u p → Bytes u (drop n p)
drop-Bytes u n p h = (All-drop IsByte n p h.0, drop_long u n p h.1)

term_small : (k m shift : ℕ) → m < 128 → shift + 7 * suc k ≡ 28 → m * 2 ^ shift ≤ 2147483647
term_small zero m shift l e = let q : shift ≡ 21 = omega (arith, e) in rw q (omega (arith, l))
term_small (suc zero) m shift l e = let q : shift ≡ 14 = omega (arith, e) in rw q (omega (arith, l))
term_small (suc (suc zero)) m shift l e =
    let q : shift ≡ 7 = omega (arith, e) in rw q (omega (arith, l))
term_small (suc (suc (suc k))) m shift l e =
    let q : shift ≡ 0 = omega (arith, e) in rw q (omega (arith, l))

-- With fewer groups nothing is undefined.
decode_groups-ne-undefined :
    (k : ℕ) (bs : List ℕ) (output shift n : ℕ)
    → shift + 7 * k ≡ 28
    → All IsByte bs
    → goes_on k bs ≡ false
    → decode_groups bs output shift n ≢ Read.undefined
unfolding goes_on decode_groups
decode_groups-ne-undefined k [] output shift n e h g = λ q. cc
decode_groups-ne-undefined zero (b ∷ bs) output shift n e h g = absurd (ground (arith, g))
decode_groups-ne-undefined (suc k) (b ∷ bs) output shift n e h g =
    let low : ltb 31 shift ≡ false = ground (arith, e) in
    let small = term_small k (bit_and b 0x7f) shift (omega (arith, bit_and_127 b)) e in
    let fits : ltb 2147483647 (bit_and b 0x7f * 2 ^ shift) ≡ false = ground (arith, small) in
    elim (Bool-cases (bit_and b 0x80 == 0)) [
      | inl last ↦ rw (low, fits, last) (λ q. cc)
      | inr more ↦
          let rest : goes_on k bs ≡ false = ground (arith, g, more, bit_and_128 b h.0) in
          rw (low, fits, more)
            (decode_groups-ne-undefined k bs _ (shift + 7) (n + 1) (omega (arith, e)) h.1 rest)
    ]

decode_integer-ne-undefined :
    (b : ℕ) (p : List ℕ) (numbits : ℕ)
    → Bytes true (b ∷ p)
    → decode_integer (b ∷ p) numbits ≢ Read.undefined
unfolding decode_integer has_long
decode_integer-ne-undefined b p numbits h =
    let g : goes_on 4 p ≡ false = ground (arith, h.1) in
    let groups = decode_groups-ne-undefined 4 p (bit_and b (mask numbits)) 0 1 refl h.0.1 g in
    elim (Bool-cases (bit_and b (mask numbits) == mask numbits)) [
      | inl full ↦ rw full groups
      | inr single ↦ rw single (λ q. cc)
    ]

undefined-false :
    (u : Bool) (b : ℕ) (p : List ℕ) (numbits : ℕ)
    → Bytes u (b ∷ p)
    → decode_integer (b ∷ p) numbits ≡ Read.undefined
    → u ≡ false
undefined-false true b p numbits h e = absurd (decode_integer-ne-undefined b p numbits h e)
undefined-false false b p numbits h e = refl

-- A part that satisfies `P` with less than `n` bytes behind it, or an end other than `stuck`, and if
-- `u` is true other than `undefined`.
abbrev pub IsPart : (u : Bool) → {A : Type 0} → (A → Type 0) → ℕ → Part A → Type 0
IsPart u P n (part a rest) = P a × (length rest < n) × Bytes u rest
IsPart u P n refused = Unit
IsPart u P n raised = Unit
IsPart u P n Part.undefined = u ≡ false
IsPart u P n stuck = ⊥

pub IsPart-and_then :
    (u : Bool) {A B : Type 0} (P : A → Type 0) (Q : B → Type 0) (n m : ℕ) (r : Part A)
    (next : A → List ℕ → Part B)
    → IsPart u P n r
    → ((a : A) (rest : List ℕ) → P a → length rest < n → Bytes u rest → IsPart u Q m (next a rest))
    → IsPart u Q m (and_then r next)
IsPart-and_then u P Q n m (part a rest) next h k = k a rest h.0 h.1 h.2
IsPart-and_then u P Q n m refused next h k = tt
IsPart-and_then u P Q n m raised next h k = tt
IsPart-and_then u P Q n m Part.undefined next h k = h
IsPart-and_then u P Q n m stuck next h k = h

pub IsPart-if :
    (u : Bool) {A : Type 0} (P : A → Type 0) (n : ℕ) (b : Bool) (r q : Part A)
    → IsPart u P n r
    → IsPart u P n q
    → IsPart u P n (if b then r else q)
IsPart-if u P n true r q h k = h
IsPart-if u P n false r q h k = k

pub wider-IsPart :
    (u : Bool) {A : Type 0} (P Q : A → Type 0) (n m : ℕ) (r : Part A)
    → n ≤ m
    → ((a : A) → P a → Q a)
    → IsPart u P n r
    → IsPart u Q m r
wider-IsPart u P Q n m (part a rest) l f h = (f a h.0, omega (arith, l, h.1), h.2)
wider-IsPart u P Q n m refused l f h = tt
wider-IsPart u P Q n m raised l f h = tt
wider-IsPart u P Q n m Part.undefined l f h = h
wider-IsPart u P Q n m stuck l f h = h

Read-cases : (r : Read) → (r ≡ Read.undefined) ⊎ ((n : ℕ) × (v : ℕ) × (r ≡ result n v))
Read-cases (result n v) = inr (n, v, refl)
Read-cases Read.undefined = inl refl

pub read_integer-IsPart :
    (u : Bool) (b : ℕ) (p : List ℕ) (numbits : ℕ)
    → 1 ≤ numbits
    → numbits ≤ 7
    → Bytes u (b ∷ p)
    → IsPart u (λ v. v < 2 ^ 32) (length (b ∷ p)) (read_integer (b ∷ p) numbits)
unfolding read_integer
read_integer-IsPart u b p numbits l k h = elim (Read-cases (decode_integer (b ∷ p) numbits)) [
  | inl e ↦ rw (e, read_integer) (undefined-false u b p numbits h e)
  | inr (zero, v, e) ↦ rw (e, read_integer) tt
  | inr (suc n, v, e) ↦
      rw (e, read_integer)
        (
          (decode_integer_bounds (b ∷ p) numbits (suc n) v h.0 l k e).1,
          omega (arith, length-drop n p),
          drop-Bytes u (suc n) (b ∷ p) h,
        )
]

text_part-IsPart :
    (u : Bool) (n : ℕ) (t : Text) (p : List ℕ)
    → IsShort n t
    → Bytes u p
    → IsPart u (λ s. length s ≤ n) (suc (length p)) (text_part t p)
text_part-IsPart u n (pushed s) p h b = (h, omega arith, b)
text_part-IsPart u n Text.refused p h b = tt
text_part-IsPart u n Text.stuck p h b = h

read_bytes-IsPart :
    (u : Bool) (b n : ℕ) (rest : List ℕ)
    → Bytes u rest
    → IsPart u (λ s. length s ≤ 8 * length rest) (suc (length rest)) (read_bytes b n rest)
unfolding read_bytes
read_bytes-IsPart u b n rest h =
    let P = λ (s : List ℕ). length s ≤ 8 * length rest in
    let later = drop-Bytes u n rest h in
    let coded = text_part (decode_huffman (take n rest)) (drop n rest) in
    let plain = part (take n rest) (drop n rest) in
    IsPart-if u P (suc (length rest)) (ltb (length rest) n) refused
      (if not (bit_and b 0x80 == 0) then coded else plain) tt
      (IsPart-if u P (suc (length rest)) (not (bit_and b 0x80 == 0)) coded plain
        (wider-IsPart u (λ s. length s ≤ 8 * length (take n rest)) P (suc (length (drop n rest)))
          (suc (length rest)) coded (omega (arith, length-drop n rest))
          (λ s k. omega (arith, k, length-take n rest))
          (text_part-IsPart u (8 * length (take n rest)) _ (drop n rest)
            (decode_huffman-IsShort (take n rest)) later))
        (omega (arith, length-take n rest), omega (arith, length-drop n rest), later))

pub read_string-IsPart :
    (u : Bool) (p : List ℕ)
    → Bytes u p
    → IsPart u (λ s. length s ≤ 8 * length p) (length p) (read_string p)
unfolding read_string
read_string-IsPart u [] h = tt
read_string-IsPart u (b ∷ p) h =
    IsPart-and_then u (λ v. v < 2 ^ 32) (λ s. length s ≤ 8 * length (b ∷ p)) (length (b ∷ p))
      (length (b ∷ p)) (read_integer (b ∷ p) 7) (λ n rest. read_bytes b n rest)
      (read_integer-IsPart u b p 7 (omega arith) (omega arith) h)
      (λ n rest _ l k.
        wider-IsPart u (λ s. length s ≤ 8 * length rest) (λ s. length s ≤ 8 * length (b ∷ p))
          (suc (length rest)) (length (b ∷ p)) (read_bytes b n rest) (omega (arith, l))
          (λ s j. omega (arith, j, l)) (read_bytes-IsPart u b n rest k))
