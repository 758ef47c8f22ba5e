-- ===== src/Http2/Hpack/RoundTrip.antt =====
-- The decoder of one side of a connection reads the header block that the encoder of the other side
-- writes. The encoder never adds to its dynamic table, so it refers to the static table only.
use http_2_0_server.Base.{
  ℕ, ◌%◌, ◌^◌, ◌≤◌, ◌<◌, ◌≡◌, ◌≢◌, refl, ap, ◌∙◌, Bool, true, false, not, some, List, [], ◌∷◌, ◌++◌,
  append_assoc, arith, ◌==◌, if◌then◌else◌, bit_and,
}
use http_2_0_server.Base.Bits.{agree_below, agree_below→eq}
use http_2_0_server.Http2.Headers.{Header, size}
use http_2_0_server.Http2.Hpack.Integer.{encode_integer}
use http_2_0_server.Http2.Hpack.Integer.Masks.{IsField}
use http_2_0_server.Http2.Hpack.Integer.RoundTrip.{decode-encode_integer}
use http_2_0_server.Http2.Hpack.Table.{Table, at}
use http_2_0_server.Http2.Hpack.Table.Eviction.{IsTable, add-Evicts}
use http_2_0_server.Http2.Hpack.Decoder.{
  part, read_name, read_value, read_literal, read_indexed, read_field, table_part, emit_literal,
  emit_indexed,
}
use http_2_0_server.Http2.Hpack.Encoder.{encode_string, literal_byte, literal_index}
use http_2_0_server.Http2.Hpack.Strings.{
  first_byte, read_integer-encode, IsText, read_string-encode_string,
}

-- The branch that the decoder takes on a first byte.
abbrev pub kind : ℕ → ℕ
kind b =
    if bit_and b 0xe0 == 0x20
    then 0
    else if not (bit_and b 0x80 == 0)
    then 1
    else if bit_and b 0xc0 == 0x40
    then 2
    else 3

kind_indexed : (i : ℕ) → i < 62 → kind (first_byte 0x80 7 i) ≡ 1
unfolding agree_below
kind_indexed = agree_below→eq (λ i. kind (first_byte 0x80 7 i)) (λ i. 1) 62 refl

kind_added : (i : ℕ) → i < 62 → kind (first_byte 0x40 6 i) ≡ 2
unfolding agree_below
kind_added = agree_below→eq (λ i. kind (first_byte 0x40 6 i)) (λ i. 2) 62 refl

kind_plain : (i : ℕ) → i < 62 → kind (first_byte 0x00 4 i) ≡ 3
unfolding agree_below
kind_plain = agree_below→eq (λ i. kind (first_byte 0x00 4 i)) (λ i. 3) 62 refl

kind_sensitive : (i : ℕ) → i < 62 → kind (first_byte 0x10 4 i) ≡ 3
unfolding agree_below
kind_sensitive = agree_below→eq (λ i. kind (first_byte 0x10 4 i)) (λ i. 3) 62 refl

pub read_field-indexed :
    (t : Table) (b : ℕ) (p : List ℕ) → kind b ≡ 1 → read_field t b p ≡ read_indexed t p
unfolding read_field
read_field-indexed t b p k = ground (arith, k)

read_field-added :
    (t : Table) (b : ℕ) (p : List ℕ) → kind b ≡ 2 → read_field t b p ≡ read_literal t true 6 p
unfolding read_field
read_field-added t b p k = ground (arith, k)

pub read_field-plain :
    (t : Table) (b : ℕ) (p : List ℕ) → kind b ≡ 3 → read_field t b p ≡ read_literal t false 4 p
unfolding read_field
read_field-plain t b p k = ground (arith, k)

-- A header that Encoder::encode accepts.
pub record IsSendable (h : Header) : Type 0 where
  pub name_text : IsText h.name
  pub value_text : IsText h.value

-- One field that was written is read back, whatever follows it, and the table stays well formed.
pub record Reads (t : Table) (h : Header) (bs rest : List ℕ) : Type 0 where
  pub first : ℕ
  pub others : List ℕ
  pub bytes : bs ≡ first ∷ others
  pub after : Table
  pub read : read_field t first (bs ++ rest) ≡ part (after, h ∷ []) rest
  pub valid : IsTable after

size-lt : (h : Header) → IsSendable h → size h < 2 ^ 63
unfolding size
size-lt h s = omega (arith, s.name_text.short, s.value_text.short)

read_value-encode_string :
    (t : Table) (should_add : Bool) (h : Header) (bs rest : List ℕ)
    → IsTable t
    → IsSendable h
    → encode_string h.value ≡ some bs
    → (t' : Table) × (read_value t should_add h.name (bs ++ rest) ≡ part (t', h ∷ []) rest)
      × IsTable t'
unfolding read_value emit_literal
read_value-encode_string t true h bs rest v s e =
    let (t', a, w, _) = add-Evicts t h v (size-lt h s) in
    (
      t',
      rw (read_string-encode_string h.value bs rest s.value_text e, read_value)
          (ap (λ o. table_part o (h ∷ []) rest) a),
      w,
    )
read_value-encode_string t false h bs rest v s e =
    (t, rw (read_string-encode_string h.value bs rest s.value_text e, read_value), v)

literal-Reads :
    (t : Table) (should_add : Bool) (hibits numbits i : ℕ) (h : Header) (xs ns vs rest : List ℕ)
    → IsTable t
    → IsSendable h
    → IsField hibits numbits
    → i < 62
    → encode_integer hibits numbits i ≡ some xs
    → ((p : List ℕ)
        → read_field t (first_byte hibits numbits i) p ≡ read_literal t should_add numbits p)
    → read_name t i (ns ++ (vs ++ rest)) ≡ part h.name (vs ++ rest)
    → encode_string h.value ≡ some vs
    → Reads t h (xs ++ (ns ++ vs)) rest
unfolding read_literal
literal-Reads t should_add hibits numbits i h xs ns vs rest v s f l e k n q =
    let p = ns ++ (vs ++ rest) in
    let (cs, c, r) = read_integer-encode hibits numbits i xs p f (omega (arith, l)) e in
    let (t', w, z) = read_value-encode_string t should_add h vs rest v s q in
    let assoc : (xs ++ (ns ++ vs)) ++ rest ≡ xs ++ p =
      append_assoc xs (ns ++ vs) rest ∙ ap (λ u. xs ++ u) (append_assoc ns vs rest) in
    record {
      first = first_byte hibits numbits i;
      others = cs ++ (ns ++ vs);
      bytes = ap (λ u. u ++ (ns ++ vs)) c;
      after = t';
      read =
          ap (read_field t (first_byte hibits numbits i)) assoc
          ∙ k (xs ++ p)
          ∙ rw (r, read_literal, n, w);
      valid = z;
    }

pub IsField-of :
    (hibits numbits : ℕ)
    → 1 ≤ numbits
    → numbits ≤ 7
    → hibits < 256
    → hibits % 2 ^ numbits ≡ 0
    → IsField hibits numbits
IsField-of hibits numbits a b c d = record { some_bit = a; in_byte = b; high_byte = c; high = d }

pub literal_index-Reads :
    (t : Table) (is_sensitive is_big : Bool) (i : ℕ) (h : Header) (xs ns vs rest : List ℕ)
    → IsTable t
    → IsSendable h
    → i < 62
    → literal_index is_sensitive is_big i ≡ some xs
    → read_name t i (ns ++ (vs ++ rest)) ≡ part h.name (vs ++ rest)
    → encode_string h.value ≡ some vs
    → Reads t h (xs ++ (ns ++ vs)) rest
unfolding literal_index
literal_index-Reads t true is_big i h xs ns vs rest v s l e =
    literal-Reads t false 0x10 4 i h xs ns vs rest v s
      (IsField-of 0x10 4 (omega arith) (omega arith) (omega arith) refl) l e
      (λ p. read_field-plain t (first_byte 0x10 4 i) p (kind_sensitive i l))
literal_index-Reads t false true i h xs ns vs rest v s l e =
    literal-Reads t false 0x00 4 i h xs ns vs rest v s
      (IsField-of 0x00 4 (omega arith) (omega arith) (omega arith) refl) l e
      (λ p. read_field-plain t (first_byte 0x00 4 i) p (kind_plain i l))
literal_index-Reads t false false i h xs ns vs rest v s l e =
    literal-Reads t true 0x40 6 i h xs ns vs rest v s
      (IsField-of 0x40 6 (omega arith) (omega arith) (omega arith) refl) l e
      (λ p. read_field-added t (first_byte 0x40 6 i) p (kind_added i l))

-- The first byte of a literal without an index is that of the index 0.
pub literal_byte-index :
    (is_sensitive is_big : Bool)
    → literal_index is_sensitive is_big 0 ≡ some (literal_byte is_sensitive is_big ∷ [])
unfolding literal_index encode_integer
literal_byte-index true is_big = refl
literal_byte-index false true = refl
literal_byte-index false false = refl

pub literal_index-some :
    (is_sensitive is_big : Bool) (i : ℕ)
    → i < 62
    → (xs : List ℕ) × (literal_index is_sensitive is_big i ≡ some xs)
unfolding literal_index
literal_index-some true is_big i l =
    let (xs, e, _) =
      decode-encode_integer 0x10 4 i []
        (IsField-of 0x10 4 (omega arith) (omega arith) (omega arith) refl) (omega (arith, l)) in
    (xs, e)
literal_index-some false true i l =
    let (xs, e, _) =
      decode-encode_integer 0x00 4 i []
        (IsField-of 0x00 4 (omega arith) (omega arith) (omega arith) refl) (omega (arith, l)) in
    (xs, e)
literal_index-some false false i l =
    let (xs, e, _) =
      decode-encode_integer 0x40 6 i []
        (IsField-of 0x40 6 (omega arith) (omega arith) (omega arith) refl) (omega (arith, l)) in
    (xs, e)

pub indexed-Reads :
    (t : Table) (i : ℕ) (h : Header) (bs rest : List ℕ)
    → IsTable t
    → i ≢ 0
    → i < 62
    → at t i ≡ some h
    → encode_integer 0x80 7 i ≡ some bs
    → Reads t h bs rest
unfolding read_indexed emit_indexed
indexed-Reads t i h bs rest v z l a e =
    let (cs, c, r) =
      read_integer-encode 0x80 7 i bs rest
        (IsField-of 0x80 7 (omega arith) (omega arith) (omega arith) refl) (omega (arith, l)) e in
    let nz : (i == 0) ≡ false = ground (arith, z) in
    record {
      first = first_byte 0x80 7 i;
      others = cs;
      bytes = c;
      after = t;
      read =
          read_field-indexed t (first_byte 0x80 7 i) (bs ++ rest) (kind_indexed i l)
          ∙ rw (r, read_indexed, nz, a);
      valid = v;
    }
