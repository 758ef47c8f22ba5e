-- ===== src/Http2/Hpack/Blocks.antt =====
-- Whole header blocks: Encoder::encode_all and Decoder::decode_lowmem.
use http_2_0_server.Base.{
  ℕ, zero, suc, ◌-◌, ◌%◌, ◌^◌, ◌≤◌, ◌<◌, ◌≡◌, ◌≢◌, refl, sym, ap, ◌∙◌, true, false, some, List, [],
  ◌∷◌, ◌++◌, length, length-append, get_elem?, arith, All, Bool-cases, inl, inr, ltb, leb, ◌==◌,
  Option, ◌||◌,
}
use http_2_0_server.Http2.Headers.{Header, size, same_header, total_size}
use http_2_0_server.Http2.Hpack.Integer.{encode_integer}
use http_2_0_server.Http2.Hpack.Integer.RoundTrip.{decode-encode_integer}
use http_2_0_server.Http2.Hpack.Table.{Table, new_table, at, best_match}
use http_2_0_server.Http2.Hpack.Table.Eviction.{IsTable}
use http_2_0_server.Http2.Hpack.Table.Match.{at-best_match, same_header→eq}
use http_2_0_server.Http2.Hpack.Decoder.{
  part, decoded, read_name, read_field, decode_block, decode_lowmem,
}
use http_2_0_server.Http2.Hpack.Encoder.{
  Encoder, contains, then_bytes, encode_string, literal_byte, literal_index, encode_match, encode,
  encode_all,
}
use http_2_0_server.Http2.Hpack.Strings.{IsText, encode_string-some, read_string-encode_string}
use http_2_0_server.Http2.Hpack.RoundTrip.{
  IsSendable, Reads, literal_index-Reads, literal_byte-index, literal_index-some, indexed-Reads,
  IsField-of,
}

-- What an encoder with an empty table finds, any decoder finds in the static table.
at-empty :
    (e t : Table) (i : ℕ) (g : Header)
    → e.entries ≡ []
    → at e i ≡ some g
    → (i < 62) × (at t i ≡ some g)
unfolding at
at-empty e t i g z a = ground (arith, ap (λ xs. get_elem? xs (i - 62)) z, a)

read_name-table :
    (t : Table) (i : ℕ) (h g : Header) (p : List ℕ)
    → i ≢ 0
    → at t i ≡ some g
    → g.name ≡ h.name
    → read_name t i p ≡ part h.name p
unfolding read_name
read_name-table t zero h g p z a n = absurd (z refl)
read_name-table t (suc i) h g p z a n = rw (a, read_name, n)

read_name-string :
    (t : Table) (h : Header) (ns rest : List ℕ)
    → IsText h.name
    → encode_string h.name ≡ some ns
    → read_name t 0 (ns ++ rest) ≡ part h.name rest
unfolding read_name
read_name-string t h ns rest i e = read_string-encode_string h.name ns rest i e

module _ (enc : Encoder) (empty : enc.table.entries ≡ []) (h : Header) (s : IsSendable h) where
  fits_text : (leb 127 (length h.name) || leb 127 (length h.value)) ≡ false
  fits_text = ground (arith, s.name_text.short, s.value_text.short)

  -- Without a match: a literal with its name.
  encode-zero :
      (t : Table) (rest : List ℕ)
      → IsTable t
      → best_match enc.table h ≡ 0
      → (bs : List ℕ) × (encode enc h ≡ some bs) × Reads t h bs rest
  unfolding encode
  encode-zero t rest v z =
      let sens = contains enc.sensitive h.name in
      let big = ltb 256 (size h) in
      let (ns, n) = encode_string-some h.name s.name_text in
      let (vs, w) = encode_string-some h.value s.value_text in
      (
        (literal_byte sens big ∷ []) ++ (ns ++ vs),
        rw (encode, z, fits_text, n, w),
        literal_index-Reads t sens big 0 h (literal_byte sens big ∷ []) ns vs rest v s (omega arith)
            (literal_byte-index sens big) (read_name-string t h ns (vs ++ rest) s.name_text n) w,
      )

  encode_match-hit :
      (i : ℕ) (g : Header)
      → at enc.table i ≡ some g
      → i < 62
      → same_header g h ≡ true
      → encode_match enc h i ≡ encode_integer 0x80 7 i
  unfolding encode_match
  encode_match-hit i g a l hit =
      let word : i % 2 ^ 32 ≡ i = omega (arith, l) in rw (a, encode_match, hit, word)

  encode_match-miss :
      (i : ℕ) (g : Header)
      → at enc.table i ≡ some g
      → i < 62
      → same_header g h ≡ false
      → encode_match enc h i
        ≡ then_bytes
            (literal_index (contains enc.sensitive h.name) (ltb 256 (size h)) i)
            (encode_string h.value)
  unfolding encode_match
  encode_match-miss i g a l miss =
      let word : i % 2 ^ 32 ≡ i = omega (arith, l) in rw (a, encode_match, miss, word)

  encode-match :
      (t : Table) (rest : List ℕ) (i : ℕ) (g : Header)
      → IsTable t
      → i ≢ 0
      → at enc.table i ≡ some g
      → g.name ≡ h.name
      → (bs : List ℕ) × (encode_match enc h i ≡ some bs) × Reads t h bs rest
  encode-match t rest i g v z a n =
      let sens = contains enc.sensitive h.name in
      let (vs, w) = encode_string-some h.value s.value_text in
      let big = ltb 256 (size h) in
      let (l, a') = at-empty enc.table t i g empty a in
      elim (Bool-cases (same_header g h)) [
        | inl hit ↦
            let (bs, e, _) =
              decode-encode_integer 0x80 7 i []
                (IsField-of 0x80 7 (omega arith) (omega arith) (omega arith) refl)
                (omega (arith, l)) in
            (
              bs,
              encode_match-hit i g a l hit ∙ e,
              indexed-Reads t i h bs rest v z l (a' ∙ ap some (same_header→eq g h hit)) e,
            )
        | inr miss ↦
            let (xs, e) = literal_index-some sens big i l in
            (
              xs ++ vs,
              encode_match-miss i g a l miss ∙ rw (e, w),
              literal_index-Reads t sens big i h xs [] vs rest v s l e
                  (read_name-table t i h g (vs ++ rest) z a' n) w,
            )
      ]

  encode-nonzero :
      (i : ℕ) → best_match enc.table h ≡ i → i ≢ 0 → encode enc h ≡ encode_match enc h i
  unfolding encode
  encode-nonzero i e z =
      let nz : (i == 0) ≡ false = ground (arith, z) in rw (e, encode, fits_text, nz)

  -- One header is written, and read back with any table and whatever follows it.
  encode-Reads :
      (t : Table) (rest : List ℕ)
      → IsTable t
      → (bs : List ℕ) × (encode enc h ≡ some bs) × Reads t h bs rest
  encode-Reads t rest v = elim (Bool-cases (best_match enc.table h == 0)) [
    | inl zero_index ↦ encode-zero t rest v (ground (arith, zero_index))
    | inr other ↦
        let i = best_match enc.table h in
        let z : i ≢ 0 = ground (arith, other) in
        let (g, a, n) = at-best_match enc.table h z in
        let (bs, e, r) = encode-match t rest i g v z a n in (bs, encode-nonzero i refl z ∙ e, r)
  ]

some_eq : {xs ys : List ℕ} {o : Option (List ℕ)} → o ≡ some xs → o ≡ some ys → xs ≡ ys
some_eq e f = cc

pub new_table-IsTable : IsTable new_table
new_table-IsTable = record {
  exact = unfold total_size in refl;
  within = omega arith;
  max_word = omega arith;
}

encode_all-some :
    (enc : Encoder) (hs : List Header)
    → enc.table.entries ≡ []
    → All IsSendable hs
    → (bs : List ℕ) × (encode_all enc hs ≡ some bs)
unfolding encode_all
encode_all-some enc [] z s = ([], refl)
encode_all-some enc (h ∷ hs) z s =
    let (xs, e, _) = encode-Reads enc z h s.0 new_table [] new_table-IsTable in
    let (ys, f) = encode_all-some enc hs z s.1 in (xs ++ ys, rw (e, f))

decode_block-step :
    (fuel : ℕ) (t t' : Table) (h : Header) (hs : List Header) (xs ys : List ℕ)
    → (r : Reads t h xs ys) → decode_block fuel r.after ys ≡ decoded t' hs
    → decode_block (suc fuel) t (xs ++ ys) ≡ decoded t' (h ∷ hs)
unfolding decode_block
decode_block-step fuel t t' h hs xs ys r d =
    ap (λ u. decode_block (suc fuel) t (u ++ ys)) r.bytes
    ∙ rw (ap (λ u. read_field t r.first (u ++ ys)) (sym r.bytes) ∙ r.read, decode_block, d)

decode_block-encode_all :
    (enc : Encoder) (hs : List Header) (t : Table) (bs : List ℕ) (fuel : ℕ)
    → enc.table.entries ≡ []
    → IsTable t
    → All IsSendable hs
    → encode_all enc hs ≡ some bs
    → length bs ≤ fuel
    → (t' : Table) × (decode_block fuel t bs ≡ decoded t' hs) × IsTable t'
unfolding encode_all decode_block
decode_block-encode_all enc [] t bs fuel z v s e l =
    let nil : bs ≡ [] = some_eq e refl in (t, ap (decode_block fuel t) nil, v)
decode_block-encode_all enc (h ∷ hs) t bs zero z v s e l =
    let (ys, f) = encode_all-some enc hs z s.1 in
    let (xs, g, r) = encode-Reads enc z h s.0 t ys v in
    let whole : bs ≡ xs ++ ys = some_eq e (rw (g, f)) in
    absurd (omega (arith, l, ap length whole, ap length r.bytes, length-append xs ys))
decode_block-encode_all enc (h ∷ hs) t bs (suc fuel) z v s e l =
    let (ys, f) = encode_all-some enc hs z s.1 in
    let (xs, g, r) = encode-Reads enc z h s.0 t ys v in
    let whole : bs ≡ xs ++ ys = some_eq e (rw (g, f)) in
    let shorter : length ys ≤ fuel =
      omega (arith, l, ap length whole, ap length r.bytes, length-append xs ys) in
    let (t', d, w) = decode_block-encode_all enc hs r.after ys fuel z r.valid s.1 f shorter in
    (t', ap (decode_block (suc fuel) t) whole ∙ decode_block-step fuel t t' h hs xs ys r d, w)

-- An encoder whose dynamic table is empty, as it is from its construction on, writes any list of
-- headers with names and values below 127 bytes; and a decoder with any well-formed table reads
-- exactly these headers, in order, and is left with a well-formed table.
pub decode_lowmem-encode_all :
    (enc : Encoder) (hs : List Header) (t : Table)
    → enc.table.entries ≡ []
    → IsTable t
    → All IsSendable hs
    → (bs : List ℕ) × (t' : Table) × (encode_all enc hs ≡ some bs)
      × (decode_lowmem t bs ≡ decoded t' hs)
      × IsTable t'
unfolding decode_lowmem
decode_lowmem-encode_all enc hs t z v s =
    let (bs, e) = encode_all-some enc hs z s in
    let (t', d, w) = decode_block-encode_all enc hs t bs (length bs) z v s e (omega arith) in
    (bs, t', e, d, w)
