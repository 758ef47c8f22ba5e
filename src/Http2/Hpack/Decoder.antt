-- ===== src/Http2/Hpack/Decoder.antt =====
-- Decoder::decode_lowmem of hpack-decode.cc.
use http_2_0_server.Base.{
  ℕ, zero, suc, Bool, true, false, not, none, some, List, [], ◌∷◌, ◌++◌, length, Option, take, drop,
  ltb, ◌==◌, if◌then◌else◌, bit_and,
}
use http_2_0_server.Http2.Headers.{Header, header}
use http_2_0_server.Http2.Hpack.Integer.{Read, result, decode_integer}
use http_2_0_server.Http2.Hpack.Huffman.{Text, pushed, decode_huffman}
use http_2_0_server.Http2.Hpack.Table.{Table, set_max_size, add, at}
use http_2_0_server.Http2.Hpack.Table

-- Decoder::reset; a decoder is its table.
unfoldable pub reset : Table → Option Table
reset t = Table.reset t

-- How reading a part of a header block ends: with a value and the bytes behind it, or as the whole
-- function ends then. `refused` is `return false`, `raised` a std::out_of_range, `undefined` what
-- C++ leaves open, and `stuck` a loop without an end.
pub data Part (A : Type 0) : Type 0 where
  part : A → List ℕ → Part A
  refused : Part A
  raised : Part A
  undefined : Part A
  stuck : Part A

-- A call of decode_integer and the two lines behind it.
unfoldable pub read_integer : List ℕ → ℕ → Part ℕ
read_integer p numbits = elim (decode_integer p numbits) [
  | result zero v ↦ refused
  | result (suc n) v ↦ part v (drop (suc n) p)
  | Read.undefined ↦ Part.undefined
]

-- What follows a part that was read, and the returns and exceptions in front of it.
abbrev pub and_then : {A B : Type 0} → Part A → (A → List ℕ → Part B) → Part B
and_then (part a rest) next = next a rest
and_then refused next = refused
and_then raised next = raised
and_then Part.undefined next = Part.undefined
and_then stuck next = stuck

abbrev pub text_part : Text → List ℕ → Part (List ℕ)
text_part (pushed s) p = part s p
text_part Text.refused p = refused
text_part Text.stuck p = stuck

-- The bytes of a string of length `n`, Huffman-coded if the first byte of the length says so.
unfoldable pub read_bytes : ℕ → ℕ → List ℕ → Part (List ℕ)
read_bytes b n rest =
    if ltb (length rest) n
    then refused
    else if not (bit_and b 0x80 == 0)
    then text_part (decode_huffman (take n rest)) (drop n rest)
    else part (take n rest) (drop n rest)

-- A name or a value.
unfoldable pub read_string : List ℕ → Part (List ℕ)
read_string [] = refused
read_string (b ∷ p) = and_then (read_integer (b ∷ p) 7) (λ n rest. read_bytes b n rest)

-- The name of a literal field, from the table or from the bytes.
unfoldable pub read_name : Table → ℕ → List ℕ → Part (List ℕ)
read_name t zero p = read_string p
read_name t (suc index) p = elim (at t (suc index)) [ none ↦ raised | some h ↦ part h.name p ]

-- The table after a change, `none` being undefined behaviour.
abbrev pub table_part : Option Table → List Header → List ℕ → Part (Table × List Header)
table_part none hs rest = Part.undefined
table_part (some t) hs rest = part (t, hs) rest

-- The lines behind `have_name` with the value: the table and the header of the callback.
unfoldable pub emit_literal : Table → Bool → List ℕ → List ℕ → List ℕ → Part (Table × List Header)
emit_literal t should_add name value rest =
    if should_add
    then table_part (add t (header name value)) (header name value ∷ []) rest
    else part (t, header name value ∷ []) rest

-- The lines from `have_name` on.
unfoldable pub read_value : Table → Bool → List ℕ → List ℕ → Part (Table × List Header)
read_value t should_add name p =
    and_then (read_string p) (λ value rest. emit_literal t should_add name value rest)

unfoldable pub read_literal : Table → Bool → ℕ → List ℕ → Part (Table × List Header)
read_literal t should_add numbits p = and_then (read_integer p numbits) (λ index rest.
    and_then (read_name t index rest) (λ name rest'. read_value t should_add name rest'))

unfoldable pub read_update : Table → List ℕ → Part (Table × List Header)
read_update t p =
    and_then (read_integer p 5)
      (λ new_max_size rest. table_part (set_max_size t new_max_size) [] rest)

-- The header of an index; the exception of `at` is caught.
unfoldable pub emit_indexed : Table → ℕ → List ℕ → Part (Table × List Header)
emit_indexed t index rest =
    if index == 0
    then refused
    else (elim (at t index) [ none ↦ refused | some h ↦ part (t, h ∷ []) rest ])

unfoldable pub read_indexed : Table → List ℕ → Part (Table × List Header)
read_indexed t p = and_then (read_integer p 7) (λ index rest. emit_indexed t index rest)

-- One round of the loop, on bytes that begin with `b`: the table and the headers of the callback.
unfoldable pub read_field : Table → ℕ → List ℕ → Part (Table × List Header)
read_field t b p =
    if bit_and b 0xe0 == 0x20
    then read_update t p
    else if not (bit_and b 0x80 == 0)
    then read_indexed t p
    else if bit_and b 0xc0 == 0x40
    then read_literal t true 6 p
    else read_literal t false 4 p

-- How decode_lowmem ends, each with the table and the headers of the callbacks up to then.
pub data Block : Type 0 where
  decoded : Table → List Header → Block
  refused : Table → List Header → Block
  raised : Table → List Header → Block
  undefined : Block
  stuck : Block

abbrev pub emit : List Header → Block → Block
emit hs (decoded t gs) = decoded t (hs ++ gs)
emit hs (Block.refused t gs) = Block.refused t (hs ++ gs)
emit hs (Block.raised t gs) = Block.raised t (hs ++ gs)
emit hs Block.undefined = Block.undefined
emit hs Block.stuck = Block.stuck

-- The rest of the block behind a field, or how the field ends it.
abbrev pub then_block : Table → Part (Table × List Header) → (Table → List ℕ → Block) → Block
then_block t (part (t', hs) rest) next = emit hs (next t' rest)
then_block t refused next = Block.refused t []
then_block t raised next = Block.raised t []
then_block t Part.undefined next = Block.undefined
then_block t stuck next = Block.stuck

unfoldable pub decode_block : ℕ → Table → List ℕ → Block
decode_block fuel t [] = decoded t []
decode_block zero t (b ∷ p) = Block.stuck
decode_block (suc fuel) t (b ∷ p) =
    then_block t (read_field t b (b ∷ p)) (λ t' rest. decode_block fuel t' rest)

-- Decoder::decode_lowmem. Each round takes a byte at least, so a round for each is enough.
unfoldable pub decode_lowmem : Table → List ℕ → Block
decode_lowmem t p = decode_block (length p) t p
