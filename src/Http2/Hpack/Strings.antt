-- ===== src/Http2/Hpack/Strings.antt =====
-- The integers and strings of a header block, read back by the decoder.
use http_2_0_server.Base.{
  ℕ, suc, ◌+◌, ◌-◌, ◌*◌, ◌%◌, ◌^◌, ◌≤◌, ◌<◌, ◌≡◌, refl, sym, ap, ◌∙◌, some, List, [], ◌∷◌, ◌++◌,
  length, length-append, append_assoc, drop, take-append, drop-append, arith, All, Bool-cases, inl,
  inr, ltb, ltb→lt, le→ltb, if◌then◌else◌, bit_and, bit_or, Option, Option-cases,
}
use http_2_0_server.Base.Bits.{IsByte, agree_below, agree_below→eq}
use http_2_0_server.Base.Digits.{digits, length-digits, ones, length-ones, bits_of}
use http_2_0_server.Http2.Hpack.Integer.{
  mask, encode_groups, encode_integer, result, decode_integer,
}
use http_2_0_server.Http2.Hpack.Integer.Masks.{IsField}
use http_2_0_server.Http2.Hpack.Integer.RoundTrip.{decode-encode_integer}
use http_2_0_server.Http2.Hpack.Huffman.{entry, pushed, encode_huffman, decode_huffman}
use http_2_0_server.Http2.Hpack.Huffman.Match.{code, length-code, entry-IsEntry}
use http_2_0_server.Http2.Hpack.Huffman.Encoded.{codes, encode_huffman-bits}
use http_2_0_server.Http2.Hpack.Huffman.RoundTrip.{decode-encode_huffman}
use http_2_0_server.Http2.Hpack.Decoder.{part, read_integer, read_string, read_bytes}
use http_2_0_server.Http2.Hpack.Encoder.{encode_string}

-- The first byte that encode_integer writes.
abbrev pub first_byte : ℕ → ℕ → ℕ → ℕ
first_byte hibits numbits value =
    if ltb value (mask numbits) then bit_or value hibits % 256 else bit_or (mask numbits) hibits

some_inj : {xs ys : List ℕ} {o : Option (List ℕ)} → o ≡ some xs → o ≡ some ys → xs ≡ ys
some_inj e f = cc

encode_integer-cons :
    (hibits numbits value : ℕ) (bs : List ℕ)
    → encode_integer hibits numbits value ≡ some bs
    → (cs : List ℕ) × (bs ≡ first_byte hibits numbits value ∷ cs)
unfolding encode_integer
encode_integer-cons hibits numbits value bs e = elim (Bool-cases (ltb value (mask numbits))) [
  | inl small ↦ ([], ground (arith, small, e))
  | inr large ↦ elim (Option-cases (encode_groups 5 (value - mask numbits))) [
    | inl f ↦ absurd (ground (arith, large, e, f))
    | inr (cs, f) ↦ (cs, ground (arith, large, e, f))
  ]
]

-- An integer that was written, with whatever follows it.
pub read_integer-encode :
    (hibits numbits value : ℕ) (bs rest : List ℕ)
    → IsField hibits numbits
    → value < 2 ^ 31
    → encode_integer hibits numbits value ≡ some bs
    → (cs : List ℕ) × (bs ≡ first_byte hibits numbits value ∷ cs)
      × (read_integer (bs ++ rest) numbits ≡ part value rest)
unfolding read_integer
read_integer-encode hibits numbits value bs rest f h e =
    let (cs, p) = encode_integer-cons hibits numbits value bs e in
    let (bs', e', d) = decode-encode_integer hibits numbits value rest f h in
    let same_bytes : bs' ≡ bs = some_inj e' e in
    let n : length bs ≡ suc (length cs) = ap length p in
    let d' : decode_integer (bs ++ rest) numbits ≡ result (suc (length cs)) value =
      ap (λ t. decode_integer (t ++ rest) numbits) (sym same_bytes)
      ∙ d
      ∙ ap (λ t. result (length t) value) same_bytes
      ∙ ap (λ t. result t value) n in
    (
      cs,
      p,
      rw (d', read_integer)
          (ap (λ t. part value (drop t (bs ++ rest))) (sym n)
            ∙ ap (part value) (drop-append bs rest)),
    )

length-codes : (ss : List ℕ) → All IsByte ss → length (codes ss) ≤ 30 * length ss
unfolding codes
length-codes [] a = omega arith
length-codes (s ∷ ss) a = omega (
  arith,
  length-append (code (entry s)) (codes ss),
  length-code (entry s),
  length-codes ss a.1,
  (entry-IsEntry s (omega (arith, a.0))).thirty,
)

length-bits_of : (bs : List ℕ) → length (bits_of bs) ≡ 8 * length bs
unfolding bits_of
length-bits_of [] = refl
length-bits_of (b ∷ bs) =
    omega (arith, length-append (digits 8 b) (bits_of bs), length-digits 8 b, length-bits_of bs)

pub length-encode_huffman :
    (ss : List ℕ) → All IsByte ss → length (encode_huffman ss) ≤ 4 * length ss + 1
length-encode_huffman ss a =
    let (k, h, e) = encode_huffman-bits ss a in
    omega (
      arith,
      length-bits_of (encode_huffman ss),
      ap length e,
      length-append (codes ss) (ones k),
      length-ones k,
      length-codes ss a,
    )

-- A string that Encoder::encode accepts.
pub record IsText (s : List ℕ) : Type 0 where
  pub bytes : All IsByte s
  pub short : length s < 127

length-IsField : IsField 0x80 7
length-IsField = record {
  some_bit = omega arith;
  in_byte = omega arith;
  high_byte = omega arith;
  high = refl;
}

pub encode_string-some : (s : List ℕ) → IsText s → (bs : List ℕ) × (encode_string s ≡ some bs)
unfolding encode_string
encode_string-some s t =
    let n = length (encode_huffman s) % 2 ^ 32 in
    let (bs, e, _) =
      decode-encode_integer 0x80 7 n [] length-IsField
        (omega (arith, length-encode_huffman s t.bytes, t.short)) in
    (bs ++ encode_huffman s, rw e)

huffman_flag : (v : ℕ) → v < 127 → bit_and (bit_or v 0x80 % 256) 0x80 ≡ 0x80
unfolding agree_below
huffman_flag = agree_below→eq (λ v. bit_and (bit_or v 0x80 % 256) 0x80) (λ v. 0x80) 127 refl

first_flag : (v : ℕ) → bit_and (first_byte 0x80 7 v) 0x80 ≡ 0x80
first_flag v = elim (Bool-cases (ltb v (mask 7))) [
  | inl small ↦ rw small (huffman_flag v (ltb→lt v 127 small))
  | inr large ↦ rw large
]

read_coded :
    (b : ℕ) (p hs rest s : List ℕ)
    → bit_and b 0x80 ≡ 0x80
    → read_integer (b ∷ p) 7 ≡ part (length hs) (hs ++ rest)
    → decode_huffman hs ≡ pushed s
    → read_string (b ∷ p) ≡ part s rest
unfolding read_string read_bytes
read_coded b p hs rest s f r d =
    let fit = le→ltb (length (hs ++ rest)) (length hs) (omega (arith, length-append hs rest)) in
    rw (r, read_string, read_bytes, fit, f, take-append hs rest, d, drop-append hs rest)

-- A string that was written is read back, with whatever follows it.
pub read_string-encode_string :
    (s bs rest : List ℕ)
    → IsText s
    → encode_string s ≡ some bs
    → read_string (bs ++ rest) ≡ part s rest
unfolding encode_string
read_string-encode_string s bs rest t e =
    let hs = encode_huffman s in
    let l = length-encode_huffman s t.bytes in
    let n : length hs % 2 ^ 32 ≡ length hs = omega (arith, l, t.short) in
    let (xs, f, _) =
      decode-encode_integer 0x80 7 (length hs % 2 ^ 32) [] length-IsField
        (omega (arith, l, t.short)) in
    let (cs, p, r) =
      read_integer-encode 0x80 7 (length hs % 2 ^ 32) xs (hs ++ rest) length-IsField
        (omega (arith, l, t.short)) f in
    let whole : bs ≡ xs ++ hs = some_inj e (rw f) in
    let b = first_byte 0x80 7 (length hs % 2 ^ 32) in
    ap read_string
      (ap (λ u. u ++ rest) whole ∙ append_assoc xs hs rest ∙ ap (λ u. u ++ (hs ++ rest)) p)
    ∙ read_coded b (cs ++ (hs ++ rest)) hs rest s (first_flag (length hs % 2 ^ 32))
        (ap (λ u. read_integer (u ++ (hs ++ rest)) 7) (sym p) ∙ r ∙ ap (λ u. part u (hs ++ rest)) n)
        (decode-encode_huffman s t.bytes)
