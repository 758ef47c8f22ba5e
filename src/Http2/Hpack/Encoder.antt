-- ===== src/Http2/Hpack/Encoder.antt =====
-- class Encoder of hpack.h and hpack-encode.cc.
use http_2_0_server.Base.{
  ℕ, ◌%◌, ◌^◌, Bool, false, ◌||◌, Option, none, some, List, [], ◌∷◌, ◌++◌, length, ltb, leb, ◌==◌,
  if◌then◌else◌, same,
}
use http_2_0_server.Http2.Names.{k_cookie, k_proxy_authenticate, k_set_cookie, k_www_authenticate}
use http_2_0_server.Http2.Headers.{Header, size, same_header}
use http_2_0_server.Http2.Hpack.Integer.{encode_integer}
use http_2_0_server.Http2.Hpack.Huffman.{encode_huffman}
use http_2_0_server.Http2.Hpack.Table.{Table, new_table, best_match, at}
use http_2_0_server.Http2.Hpack.Table

-- `sensitive` is the std::set `sensitive_`.
pub record Encoder : Type 0 where
  pub table : Table
  pub sensitive : List (List ℕ)

-- Encoder::reset
unfoldable pub reset : Encoder → Option Encoder
reset e = elim (Table.reset e.table) [
  | none ↦ none
  | some t ↦ some (record {
    table = t;
    sensitive = k_cookie ∷ k_proxy_authenticate ∷ k_set_cookie ∷ k_www_authenticate ∷ [];
  })
]

-- Encoder::sensitive_header
unfoldable pub sensitive_header : Encoder → List ℕ → Encoder
sensitive_header e name = record e { sensitive = name ∷ e.sensitive }

-- `sensitive_.find(h.name) != sensitive_.end()`
unfoldable pub contains : List (List ℕ) → List ℕ → Bool
contains [] name = false
contains (n ∷ ns) name = same n name || contains ns name

abbrev pub then_bytes : Option (List ℕ) → Option (List ℕ) → Option (List ℕ)
then_bytes none r = none
then_bytes (some xs) none = none
then_bytes (some xs) (some ys) = some (xs ++ ys)

-- A name or a value: its Huffman code behind the length of that.
unfoldable pub encode_string : List ℕ → Option (List ℕ)
encode_string s =
    let h = encode_huffman s in then_bytes (encode_integer 0x80 7 (length h % 2 ^ 32)) (some h)

-- The first byte of a field without an index, and the index of one with it.
abbrev pub literal_byte : Bool → Bool → ℕ
literal_byte is_sensitive is_big = if is_sensitive then 0x10 else if is_big then 0x00 else 0x40

unfoldable pub literal_index : Bool → Bool → ℕ → Option (List ℕ)
literal_index is_sensitive is_big index =
    if is_sensitive
    then encode_integer 0x10 4 index
    else if is_big
    then encode_integer 0x00 4 index
    else encode_integer 0x40 6 index

-- The rest of Encoder::encode, at the index of a match.
unfoldable pub encode_match : Encoder → Header → ℕ → Option (List ℕ)
encode_match e h index =
    let is_sensitive = contains e.sensitive h.name in
    let is_big = ltb 256 (size h) in
    elim (at e.table index) [
      | none ↦ none
      | some best ↦
          if same_header best h
          then encode_integer 0x80 7 (index % 2 ^ 32)
          else then_bytes (literal_index is_sensitive is_big (index % 2 ^ 32))
              (encode_string h.value)
    ]

-- Encoder::encode: the bytes that it appends; it does not change the encoder. `none` is abort() or
-- an exception.
unfoldable pub encode : Encoder → Header → Option (List ℕ)
encode e h =
    let is_sensitive = contains e.sensitive h.name in
    let is_big = ltb 256 (size h) in
    let index = best_match e.table h in
    if leb 127 (length h.name) || leb 127 (length h.value)
    then none
    else if index == 0
    then then_bytes (some (literal_byte is_sensitive is_big ∷ []))
        (then_bytes (encode_string h.name) (encode_string h.value))
    else encode_match e h index

-- Encoder::encode_all
unfoldable pub encode_all : Encoder → List Header → Option (List ℕ)
encode_all e [] = some []
encode_all e (h ∷ hs) = then_bytes (encode e h) (encode_all e hs)
