-- ===== src/Http2/Hpack/Huffman.antt =====
-- encode_huffman and decode_huffman of hpack-huffman.cc.
pub mod Codes
pub mod Prefix
pub mod Match
pub mod Encoded
pub mod Scan
pub mod RoundTrip
pub mod Safety
mod Tests
use http_2_0_server.Base.{
  ℕ, zero, suc, ◌+◌, ◌-◌, ◌*◌, ◌/◌, ◌%◌, ◌^◌, Bool, true, false, ◌&&◌, Option, none, some, List, [],
  ◌∷◌, ◌++◌, length, get_or, ltb, leb, ◌==◌, if◌then◌else◌,
}
use Codes.{HuffmanEntry, k_huffman_table}

-- `kHuffmanTable[b]` for a byte `b`; the default is never taken.
abbrev pub entry : ℕ → HuffmanEntry
entry b = get_or k_huffman_table b (record { bits = 0; numbits = 0; symbol = 0 })

-- The inner loop of encode_huffman: the bytes pushed, and `partialbits` after it.
unfoldable pub flush : ℕ → ℕ → List ℕ × ℕ
flush partial (suc (suc (suc (suc (suc (suc (suc (suc n)))))))) =
    let (bytes, left) = flush partial n in (partial / 2 ^ n % 256 ∷ bytes, left)
flush partial n = ([], n)

-- The last byte, filled up with ones. `|` sets bits that are 0: here and in `encode_loop` it adds.
unfoldable pub last_byte : ℕ → ℕ → List ℕ
last_byte partial zero = []
last_byte partial (suc n) = (partial * 2 ^ (8 - suc n) % 256 + (2 ^ (8 - suc n) - 1)) ∷ []

-- The loop of encode_huffman and what follows it. `partial` is a uint64_t; the bits of it that have
-- been pushed stay until they are shifted out.
unfoldable pub encode_loop : ℕ → ℕ → List ℕ → List ℕ
encode_loop partial partialbits [] = last_byte partial partialbits
encode_loop partial partialbits (b ∷ bs) =
    let e = entry b in
    let partial' = partial * 2 ^ e.numbits % 2 ^ 64 + e.bits in
    let (bytes, left) = flush partial' (partialbits + e.numbits) in
    bytes ++ encode_loop partial' left bs

-- encode_huffman: the output for the bytes of a string.
unfoldable pub encode_huffman : List ℕ → List ℕ
encode_huffman bs = encode_loop 0 0 bs

-- The test of the inner loop of decode_huffman.
unfoldable pub fits : ℕ → ℕ → HuffmanEntry → Bool
fits partial partialbits e =
    leb e.numbits partialbits && (e.bits == partial / 2 ^ (partialbits - e.numbits))

-- The for loop over the table.
unfoldable pub find_entry : ℕ → ℕ → List HuffmanEntry → Option HuffmanEntry
find_entry partial partialbits [] = none
find_entry partial partialbits (e ∷ es) =
    let rest = find_entry partial partialbits es in
    if fits partial partialbits e then some e else rest

-- The symbols pushed so far or in all, or the result `false`; `stuck` would be a loop without an
-- end.
pub data Text : Type 0 where
  pushed : List ℕ → Text
  refused : Text
  stuck : Text

-- The do-while loop: the symbols pushed, `partial` and `partialbits`; or what ends it early.
pub data Scanned : Type 0 where
  scanned : List ℕ → ℕ → ℕ → Scanned
  refused : Scanned
  stuck : Scanned

abbrev pub push : ℕ → Scanned → Scanned
push s (scanned out partial partialbits) = scanned (s ∷ out) partial partialbits
push s Scanned.refused = Scanned.refused
push s Scanned.stuck = Scanned.stuck

unfoldable pub scan : ℕ → ℕ → ℕ → Scanned
scan zero partial partialbits = Scanned.stuck
scan (suc fuel) partial partialbits = elim (find_entry partial partialbits k_huffman_table) [
  | none ↦ if leb 30 partialbits then Scanned.refused else scanned [] partial partialbits
  | some e ↦
      let left = partialbits - e.numbits in
      let more = scan fuel (partial % 2 ^ left) left in
      if ltb 0xff e.symbol
      then Scanned.refused
      else if leb 30 left
      then Scanned.refused
      else push e.symbol more
]

-- One round of the outer loop up to `if (p == q)`. Each symbol has a bit at least, so a round for
-- each bit and one more are enough.
unfoldable pub scan_if : ℕ → ℕ → Scanned
scan_if partial partialbits =
    let found = scan (suc partialbits) partial partialbits in
    if leb 5 partialbits then found else scanned [] partial partialbits

abbrev pub push_all : List ℕ → Text → Text
push_all out (pushed rest) = pushed (out ++ rest)
push_all out Text.refused = Text.refused
push_all out Text.stuck = Text.stuck

-- The end of the input.
abbrev pub at_end : Scanned → Text
at_end (scanned out partial partialbits) =
    if ltb partialbits 8 && (partial == 2 ^ partialbits - 1) then pushed out else Text.refused
at_end Scanned.refused = Text.refused
at_end Scanned.stuck = Text.stuck

-- The outer loop of decode_huffman.
unfoldable pub decode_loop : ℕ → ℕ → List ℕ → Text
decode_loop partial partialbits [] = at_end (scan_if partial partialbits)
decode_loop partial partialbits (b ∷ p) = elim (scan_if partial partialbits) [
  | scanned out v n ↦ push_all out (decode_loop (v * 2 ^ 8 % 2 ^ 64 + b) (n + 8) p)
  | Scanned.refused ↦ Text.refused
  | Scanned.stuck ↦ Text.stuck
]

-- decode_huffman
unfoldable pub decode_huffman : List ℕ → Text
decode_huffman p = decode_loop 0 0 p
