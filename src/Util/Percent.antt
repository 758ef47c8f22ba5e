-- ===== src/Util/Percent.antt =====
-- Util::percentDecode reads back what percent encoding, RFC 3986, 2.1, has written.
use http_2_0_server.Base.{
  ℕ, ◌+◌, ◌/◌, ◌%◌, ◌<◌, ◌≡◌, ◌≢◌, refl, ap, ◌∙◌, Bool, true, false, ◌&&◌, ◌||◌, Option, none, some,
  List, [], ◌∷◌, ◌++◌, arith, All, Bool-cases, inl, inr, ltb, leb, ◌==◌, if◌then◌else◌,
}
use http_2_0_server.Base.Bits.{IsByte, agree_below, agree_below→eq}
use http_2_0_server.Util.{hex_value, stoi_16, put_char, plain_char, percent_decode}

-- Letters and digits are written as they are.
abbrev pub is_plain : ℕ → Bool
is_plain b = (leb 48 b && leb b 57) || ((leb 65 b && leb b 90) || (leb 97 b && leb b 122))

abbrev pub upper_digit : ℕ → ℕ
upper_digit v = if ltb v 10 then v + 48 else v + 55

abbrev pub encode_char : ℕ → List ℕ
encode_char b = if is_plain b then b ∷ [] else 37 ∷ upper_digit (b / 16) ∷ upper_digit (b % 16) ∷ []

unfoldable pub percent_encode : List ℕ → List ℕ
percent_encode [] = []
percent_encode (b ∷ s) = encode_char b ++ percent_encode s

abbrev or_none : Option ℕ → ℕ
or_none none = 256
or_none (some v) = v

both_digits :
    (b : ℕ) → b < 256 → or_none (stoi_16 (upper_digit (b / 16)) (upper_digit (b % 16))) ≡ b
unfolding agree_below stoi_16 hex_value
both_digits = agree_below→eq _ _ 256 refl

some_value : (o : Option ℕ) (b : ℕ) → or_none o ≡ b → b < 256 → o ≡ some b
some_value none b e h = absurd (omega (arith, e, h))
some_value (some v) b e h = ap some e

plain_kept : (b : ℕ) → is_plain b ≡ true → plain_char b ≡ b
plain_kept b h = ground (arith, h)

no_escape : (b : ℕ) → is_plain b ≡ true → (b == 37) ≡ false
no_escape b h = ground (arith, h)

percent_decode-plain :
    (b : ℕ) (s : List ℕ)
    → is_plain b ≡ true
    → percent_decode (b ∷ s) ≡ put_char (some b) (percent_decode s)
unfolding percent_decode
percent_decode-plain b [] h = ap (λ c. some (c ∷ [])) (plain_kept b h)
percent_decode-plain b (c ∷ []) h = ap (λ d. some (d ∷ plain_char c ∷ [])) (plain_kept b h)
percent_decode-plain b (c ∷ d ∷ s) h =
    rw (no_escape b h) (ap (λ x. put_char (some x) (percent_decode (c ∷ d ∷ s))) (plain_kept b h))

-- Every string of bytes is read back from its encoding.
pub percent_decode-encode : (s : List ℕ) → All IsByte s → percent_decode (percent_encode s) ≡ some s
unfolding percent_encode percent_decode
percent_decode-encode [] h = refl
percent_decode-encode (b ∷ s) h = elim (Bool-cases (is_plain b)) [
  | inl p ↦ rw p (
      percent_decode-plain b (percent_encode s) p
      ∙ ap (put_char (some b)) (percent_decode-encode s h.1))
  | inr p ↦
      let v =
        some_value (stoi_16 (upper_digit (b / 16)) (upper_digit (b % 16))) b (both_digits b h.0)
          h.0 in
      rw (p, v, percent_decode-encode s h.1) refl
]

-- Neither of the characters that separate the parameters of a query.
abbrev pub IsInert : ℕ → Type 0
IsInert b = (b ≢ 38) × (b ≢ 61)

plain-IsInert : (b : ℕ) → is_plain b ≡ true → IsInert b
plain-IsInert b h = (ground (arith, h), ground (arith, h))

digit-IsInert : (v : ℕ) → v < 16 → IsInert (upper_digit v)
digit-IsInert v h = (ground (arith, h), ground (arith, h))

pub percent_encode-IsInert : (s : List ℕ) → All IsByte s → All IsInert (percent_encode s)
unfolding percent_encode
percent_encode-IsInert [] h = tt
percent_encode-IsInert (b ∷ s) h = elim (Bool-cases (is_plain b)) [
  | inl p ↦ rw p (plain-IsInert b p, percent_encode-IsInert s h.1)
  | inr p ↦ rw p (
    (omega arith, omega arith),
    (
      digit-IsInert (b / 16) (omega (arith, h.0)),
      (digit-IsInert (b % 16) (omega arith), percent_encode-IsInert s h.1),
    ),
  )
]
