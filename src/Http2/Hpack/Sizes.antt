-- ===== src/Http2/Hpack/Sizes.antt =====
-- How many bytes Encoder::encode_all writes.
use http_2_0_server.Base.{
  ℕ, zero, suc, ◌+◌, ◌-◌, ◌*◌, ◌/◌, ◌^◌, ◌≤◌, Bool, true, false, Option, none, some, List, [], ◌∷◌,
  length, length-append, All, arith, if◌then◌else◌, Option-cases, inl, inr, ltb, leb, ◌==◌, ◌||◌,
  ◌%◌, bit_or,
}
use http_2_0_server.Http2.Headers.{Header, size}
use http_2_0_server.Http2.Hpack.Integer.{mask, encode_groups, encode_integer}
use http_2_0_server.Http2.Hpack.Huffman.{encode_huffman}
use http_2_0_server.Http2.Hpack.Table.{at, best_match}
use http_2_0_server.Http2.Hpack.Encoder.{
  Encoder, contains, then_bytes, encode_string, literal_byte, literal_index, encode_match, encode,
  encode_all,
}
use http_2_0_server.Http2.Hpack.Strings.{IsText, length-encode_huffman}
use http_2_0_server.Http2.Hpack.RoundTrip.{IsSendable}

-- What is written, if anything, has at most `n` bytes.
abbrev pub AtMost : ℕ → Option (List ℕ) → Type 0
AtMost n none = Unit
AtMost n (some bs) = length bs ≤ n

if-AtMost :
    (n : ℕ) (b : Bool) (r r' : Option (List ℕ))
    → AtMost n r
    → AtMost n r'
    → AtMost n (if b then r else r')
if-AtMost n true r r' h k = h
if-AtMost n false r r' h k = k

then_bytes-AtMost :
    (m n : ℕ) (r r' : Option (List ℕ)) → AtMost m r → AtMost n r' → AtMost (m + n) (then_bytes r r')
then_bytes-AtMost m n none r' h k = tt
then_bytes-AtMost m n (some xs) none h k = tt
then_bytes-AtMost m n (some xs) (some ys) h k = omega (arith, h, k, length-append xs ys)

more-AtMost : (m n : ℕ) (r : Option (List ℕ)) → m ≤ n → AtMost m r → AtMost n r
more-AtMost m n none l h = tt
more-AtMost m n (some bs) l h = omega (arith, l, h)

one-AtMost : (b : ℕ) → AtMost 1 (some (b ∷ []))
one-AtMost b = omega arith

-- One byte in front.
prefix-AtMost :
    (n b : ℕ) (r : Option (List ℕ))
    → AtMost n r
    → AtMost (suc n) (elim r [ none ↦ none | some bs ↦ some (b ∷ bs) ])
prefix-AtMost n b none h = tt
prefix-AtMost n b (some bs) h = omega (arith, h)

encode_groups-AtMost : (fuel value : ℕ) → AtMost fuel (encode_groups fuel value)
unfolding encode_groups
encode_groups-AtMost zero value = tt
encode_groups-AtMost (suc fuel) value =
    if-AtMost (suc fuel) _ (some (value ∷ [])) _ (omega arith)
      (prefix-AtMost fuel _ _ (encode_groups-AtMost fuel (value / 2 ^ 7)))

encode_integer-AtMost : (hibits numbits value : ℕ) → AtMost 6 (encode_integer hibits numbits value)
unfolding encode_integer
encode_integer-AtMost hibits numbits value =
    if-AtMost 6 _ (some (bit_or value hibits % 256 ∷ [])) _ (omega arith)
      (prefix-AtMost 5 _ _ (encode_groups-AtMost 5 (value - mask numbits)))

encode_string-AtMost : (s : List ℕ) → IsText s → AtMost 511 (encode_string s)
unfolding encode_string
encode_string-AtMost s t =
    then_bytes-AtMost 6 505 _ (some (encode_huffman s)) (encode_integer-AtMost 0x80 7 _)
      (omega (arith, length-encode_huffman s t.bytes, t.short))

literal_index-AtMost : (sens big : Bool) (i : ℕ) → AtMost 6 (literal_index sens big i)
unfolding literal_index
literal_index-AtMost sens big i =
    if-AtMost 6 sens _ _ (encode_integer-AtMost 0x10 4 i)
      (if-AtMost 6 big _ _ (encode_integer-AtMost 0x00 4 i) (encode_integer-AtMost 0x40 6 i))

module _ (e : Encoder) (h : Header) (s : IsSendable h) where
  encode_match-AtMost : (i : ℕ) → AtMost 517 (encode_match e h i)
  unfolding encode_match
  encode_match-AtMost i = elim (Option-cases (at e.table i)) [
    | inl q ↦ rw (q, encode_match) tt
    | inr (best, q) ↦
        rw (q, encode_match)
          (if-AtMost 517 _ _ _ (more-AtMost 6 517 _ (omega arith) (encode_integer-AtMost 0x80 7 _))
            (then_bytes-AtMost 6 511 _ _ (literal_index-AtMost _ _ _)
              (encode_string-AtMost h.value s.value_text)))
  ]

  encode-AtMost : AtMost 1023 (encode e h)
  unfolding encode
  encode-AtMost =
      let first = literal_byte (contains e.sensitive h.name) (ltb 256 (size h)) in
      let i = best_match e.table h in
      let strings = then_bytes (encode_string h.name) (encode_string h.value) in
      let literal = then_bytes (some (first ∷ [])) strings in
      let rest = if i == 0 then literal else encode_match e h i in
      if-AtMost 1023 (leb 127 (length h.name) || leb 127 (length h.value)) none rest tt (
        if-AtMost 1023 (i == 0) literal (encode_match e h i)
          (then_bytes-AtMost 1 1022 (some (first ∷ [])) strings (one-AtMost first) (
            then_bytes-AtMost 511 511 _ _ (encode_string-AtMost h.name s.name_text)
              (encode_string-AtMost h.value s.value_text)))
          (more-AtMost 517 1023 _ (omega arith) (encode_match-AtMost i)))

pub encode_all-AtMost :
    (e : Encoder) (hs : List Header)
    → All IsSendable hs
    → AtMost (1023 * length hs) (encode_all e hs)
unfolding encode_all
encode_all-AtMost e [] s = omega arith
encode_all-AtMost e (h ∷ hs) s =
    more-AtMost (1023 + 1023 * length hs) (1023 * suc (length hs)) _ (omega arith) (
      then_bytes-AtMost 1023 (1023 * length hs) _ _ (encode-AtMost e h s.0)
        (encode_all-AtMost e hs s.1))
