-- ===== src/Http2/Hpack/Safety.antt =====
-- Decoder::decode_lowmem on any bytes.
use http_2_0_server.Base.{
  ℕ, zero, suc, ◌-◌, ◌*◌, ◌^◌, ◌≤◌, ◌<◌, ◌≡◌, refl, ap, Bool, true, false, not, ◌&&◌, none, some,
  List, [], ◌∷◌, length, arith, All, Option, Option-cases, inl, inr, ◌⊎◌, ltb, ◌==◌, if◌then◌else◌,
  bit_and, get_elem?,
}
use http_2_0_server.Base.Bits.{IsByte}
use http_2_0_server.Http2.Headers.{Header, header, size, total_size}
use http_2_0_server.Http2.Hpack.Table.{Table, set_max_size, at}
use http_2_0_server.Http2.Hpack.Table.Static.{static_table}
use http_2_0_server.Http2.Hpack.Table.Eviction.{IsTable, add-Evicts, set_max_size-Evicts}
use http_2_0_server.Http2.Hpack.Decoder.{
  Part, part, refused, raised, stuck, read_integer, and_then, read_string, read_name, table_part,
  emit_literal, read_value, read_literal, read_update, emit_indexed, read_indexed, read_field,
  Block, decoded, emit, then_block, decode_block, decode_lowmem,
}
use http_2_0_server.Http2.Hpack.Parts.{
  Bytes, has_long, IsPart, IsPart-and_then, IsPart-if, wider-IsPart, read_integer-IsPart,
  read_string-IsPart,
}

-- The names and values that a block of less than 2 ^ 58 bytes can have.
abbrev IsShortText : List ℕ → Type 0
IsShortText s = length s < 2 ^ 61

some_inj : {x y : Header} → some x ≡ some y → x ≡ y
some_inj e = cc

size_in : (xs : List Header) (i : ℕ) (h : Header) → get_elem? xs i ≡ some h → size h ≤ total_size xs
unfolding total_size
size_in [] i h e = absurd (ground (arith, e))
size_in (x ∷ xs) zero h e = omega (arith, ap size (some_inj e))
size_in (x ∷ xs) (suc i) h e = omega (arith, size_in xs i h e)

static_size : total_size static_table ≡ 2668
unfolding total_size size static_table
static_size = refl

one_of :
    (b c : Bool) (x y : Option Header) (h : Header)
    → (if b then none else if c then x else y) ≡ some h
    → (x ≡ some h) ⊎ (y ≡ some h)
one_of true c x y h e = absurd (ground (arith, e))
one_of false true x y h e = inl e
one_of false false x y h e = inr e

at-small : (t : Table) (i : ℕ) (h : Header) → IsTable t → at t i ≡ some h → length h.name < 2 ^ 32
unfolding at size
at-small t i h v e = elim (one_of (ltb i 1) (ltb i 62) _ _ h e) [
  | inl f ↦ omega (arith, size_in static_table i h f, static_size)
  | inr f ↦ omega (arith, size_in t.entries (i - 62) h f, v.exact, v.within, v.max_word)
]

read_name-IsPart :
    (u : Bool) (t : Table) (index : ℕ) (p : List ℕ)
    → IsTable t
    → length p < 2 ^ 58
    → Bytes u p
    → IsPart u IsShortText (suc (length p)) (read_name t index p)
unfolding read_name
read_name-IsPart u t zero p v l h =
    wider-IsPart u (λ s. length s ≤ 8 * length p) IsShortText (length p) (suc (length p))
      (read_string p) (omega arith) (λ s k. omega (arith, k, l)) (read_string-IsPart u p h)
read_name-IsPart u t (suc index) p v l h = elim (Option-cases (at t (suc index))) [
  | inl e ↦ rw (e, read_name) tt
  | inr (g, e) ↦ rw (e, read_name) (omega (arith, at-small t (suc index) g v e), omega arith, h)
]

abbrev HasTable : Table × List Header → Type 0
HasTable (t, hs) = IsTable t

emit_literal-IsPart :
    (u : Bool) (t : Table) (should_add : Bool) (name value rest : List ℕ)
    → IsTable t
    → IsShortText name
    → IsShortText value
    → Bytes u rest
    → IsPart u HasTable (suc (length rest)) (emit_literal t should_add name value rest)
unfolding emit_literal size
emit_literal-IsPart u t true name value rest v m k h =
    let (t', e, w, _) = add-Evicts t (header name value) v (omega (arith, m, k)) in
    rw (e, emit_literal) (w, omega arith, h)
emit_literal-IsPart u t false name value rest v m k h = (v, omega arith, h)

read_value-IsPart :
    (u : Bool) (t : Table) (should_add : Bool) (name p : List ℕ)
    → IsTable t
    → IsShortText name
    → length p < 2 ^ 58
    → Bytes u p
    → IsPart u HasTable (length p) (read_value t should_add name p)
unfolding read_value
read_value-IsPart u t should_add name p v m l h =
    IsPart-and_then u (λ s. length s ≤ 8 * length p) HasTable (length p) (length p) (read_string p)
      (λ value rest. emit_literal t should_add name value rest) (read_string-IsPart u p h)
      (λ value rest k j b.
        wider-IsPart u HasTable HasTable (suc (length rest)) (length p)
          (emit_literal t should_add name value rest) j (λ a c. c)
          (emit_literal-IsPart u t should_add name value rest v m (omega (arith, k, l)) b))

read_literal-IsPart :
    (u : Bool) (t : Table) (should_add : Bool) (numbits b : ℕ) (p : List ℕ)
    → IsTable t
    → 1 ≤ numbits
    → numbits ≤ 7
    → length (b ∷ p) < 2 ^ 58
    → Bytes u (b ∷ p)
    → IsPart u HasTable (length (b ∷ p)) (read_literal t should_add numbits (b ∷ p))
unfolding read_literal
read_literal-IsPart u t should_add numbits b p v i j l h =
    let n = length (b ∷ p) in
    IsPart-and_then u (λ w. w < 2 ^ 32) HasTable n n (read_integer (b ∷ p) numbits)
      (λ index rest.
        and_then (read_name t index rest) (λ name rest'. read_value t should_add name rest'))
      (read_integer-IsPart u b p numbits i j h)
      (λ index rest _ k c.
        IsPart-and_then u IsShortText HasTable (suc (length rest)) n (read_name t index rest)
          (λ name rest'. read_value t should_add name rest')
          (read_name-IsPart u t index rest v (omega (arith, k, l)) c)
          (λ name rest' m k' c'.
            wider-IsPart u HasTable HasTable (length rest') n (read_value t should_add name rest')
              (omega (arith, k, k')) (λ a z. z)
              (read_value-IsPart u t should_add name rest' v m (omega (arith, k, k', l)) c')))

read_update-IsPart :
    (u : Bool) (t : Table) (b : ℕ) (p : List ℕ)
    → IsTable t
    → Bytes u (b ∷ p)
    → IsPart u HasTable (length (b ∷ p)) (read_update t (b ∷ p))
unfolding read_update
read_update-IsPart u t b p v h =
    let n = length (b ∷ p) in
    IsPart-and_then u (λ w. w < 2 ^ 32) HasTable n n (read_integer (b ∷ p) 5)
      (λ new_max_size rest. table_part (set_max_size t new_max_size) [] rest)
      (read_integer-IsPart u b p 5 (omega arith) (omega arith) h)
      (λ sz rest small k c. let (t', e, w, _) = set_max_size-Evicts t sz v small in rw e (w, k, c))

read_indexed-IsPart :
    (u : Bool) (t : Table) (b : ℕ) (p : List ℕ)
    → IsTable t
    → Bytes u (b ∷ p)
    → IsPart u HasTable (length (b ∷ p)) (read_indexed t (b ∷ p))
unfolding read_indexed emit_indexed
read_indexed-IsPart u t b p v h =
    let n = length (b ∷ p) in
    IsPart-and_then u (λ w. w < 2 ^ 32) HasTable n n (read_integer (b ∷ p) 7)
      (λ index rest. emit_indexed t index rest)
      (read_integer-IsPart u b p 7 (omega arith) (omega arith) h)
      (λ index rest small k c. elim (Option-cases (at t index)) [
        | inl e ↦ rw (e, emit_indexed) (IsPart-if u HasTable n (index == 0) refused refused tt tt)
        | inr (g, e) ↦
            rw (e, emit_indexed)
              (IsPart-if u HasTable n (index == 0) refused (part (t, g ∷ []) rest) tt (v, k, c))
      ])

read_field-IsPart :
    (u : Bool) (t : Table) (b : ℕ) (p : List ℕ)
    → IsTable t
    → length (b ∷ p) < 2 ^ 58
    → Bytes u (b ∷ p)
    → IsPart u HasTable (length (b ∷ p)) (read_field t b (b ∷ p))
unfolding read_field
read_field-IsPart u t b p v l h =
    let n = length (b ∷ p) in
    let plain = read_literal t false 4 (b ∷ p) in
    let added = read_literal t true 6 (b ∷ p) in
    let literal = if bit_and b 0xc0 == 0x40 then added else plain in
    let indexed = read_indexed t (b ∷ p) in
    IsPart-if u HasTable n (bit_and b 0xe0 == 0x20) (read_update t (b ∷ p))
      (if not (bit_and b 0x80 == 0) then indexed else literal) (read_update-IsPart u t b p v h)
      (IsPart-if u HasTable n (not (bit_and b 0x80 == 0)) indexed literal
        (read_indexed-IsPart u t b p v h)
        (IsPart-if u HasTable n (bit_and b 0xc0 == 0x40) added plain
          (read_literal-IsPart u t true 6 b p v (omega arith) (omega arith) l h)
          (read_literal-IsPart u t false 4 b p v (omega arith) (omega arith) l h)))

-- An end other than a loop without an end, and the table well formed; if `u` is true, an end other
-- than undefined behaviour.
abbrev IsEnded : Bool → Block → Type 0
IsEnded u (decoded t hs) = IsTable t
IsEnded u (Block.refused t hs) = IsTable t
IsEnded u (Block.raised t hs) = IsTable t
IsEnded u Block.undefined = u ≡ false
IsEnded u Block.stuck = ⊥

emit-IsEnded : (u : Bool) (hs : List Header) (b : Block) → IsEnded u b → IsEnded u (emit hs b)
emit-IsEnded u hs (decoded t gs) h = h
emit-IsEnded u hs (Block.refused t gs) h = h
emit-IsEnded u hs (Block.raised t gs) h = h
emit-IsEnded u hs Block.undefined h = h
emit-IsEnded u hs Block.stuck h = h

then_block-IsEnded :
    (u : Bool) (t : Table) (n : ℕ) (r : Part (Table × List Header)) (next : Table → List ℕ → Block)
    → IsTable t
    → IsPart u HasTable n r
    → ((t' : Table) (rest : List ℕ)
        → IsTable t'
        → length rest < n
        → Bytes u rest
        → IsEnded u (next t' rest))
    → IsEnded u (then_block t r next)
then_block-IsEnded u t n (part (t', hs) rest) next v h k =
    emit-IsEnded u hs (next t' rest) (k t' rest h.0 h.1 h.2)
then_block-IsEnded u t n refused next v h k = v
then_block-IsEnded u t n raised next v h k = v
then_block-IsEnded u t n Part.undefined next v h k = h
then_block-IsEnded u t n stuck next v h k = h

decode_block-IsEnded :
    (u : Bool) (fuel : ℕ) (t : Table) (p : List ℕ)
    → length p ≤ fuel
    → length p < 2 ^ 58
    → IsTable t
    → Bytes u p
    → IsEnded u (decode_block fuel t p)
unfolding decode_block
decode_block-IsEnded u fuel t [] f l v h = v
decode_block-IsEnded u zero t (b ∷ p) f l v h = absurd (omega (arith, f))
decode_block-IsEnded u (suc fuel) t (b ∷ p) f l v h =
    then_block-IsEnded u t (length (b ∷ p)) (read_field t b (b ∷ p))
      (λ t' rest. decode_block fuel t' rest) v (read_field-IsPart u t b p v l h)
      (λ t' rest w k c.
        decode_block-IsEnded u fuel t' rest (omega (arith, k, f)) (omega (arith, k, l)) w c)

-- How decoding the bytes `p` may end: with the table well formed, or with undefined behaviour, and
-- that only if there could be an integer of six bytes or more among them.
abbrev pub IsBlock : List ℕ → Block → Type 0
IsBlock p (decoded t hs) = IsTable t
IsBlock p (Block.refused t hs) = IsTable t
IsBlock p (Block.raised t hs) = IsTable t
IsBlock p Block.undefined = has_long p ≡ true
IsBlock p Block.stuck = ⊥

IsEnded-IsBlock : (p : List ℕ) (b : Block) → IsEnded (not (has_long p)) b → IsBlock p b
IsEnded-IsBlock p (decoded t hs) h = h
IsEnded-IsBlock p (Block.refused t hs) h = h
IsEnded-IsBlock p (Block.raised t hs) h = h
IsEnded-IsBlock p Block.undefined h = ground (arith, h)
IsEnded-IsBlock p Block.stuck h = h

not_both : (b : Bool) → (not b && b) ≡ false
not_both true = refl
not_both false = refl

-- On any bytes, less than 2 ^ 58 of them, decode_lowmem ends, and it leaves the table well formed
-- however it ends, short of undefined behaviour; and its behaviour is only undefined if there are a
-- byte, four bytes behind it with their top bit set, and one more, as in an integer of six bytes.
pub decode_lowmem-IsBlock :
    (t : Table) (p : List ℕ)
    → IsTable t
    → length p < 2 ^ 58
    → All IsByte p
    → IsBlock p (decode_lowmem t p)
unfolding decode_lowmem
decode_lowmem-IsBlock t p v l h = IsEnded-IsBlock p (decode_lowmem t p) (
    decode_block-IsEnded (not (has_long p)) (length p) t p (omega arith) l v
      (h, not_both (has_long p)))
