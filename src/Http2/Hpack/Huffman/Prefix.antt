-- ===== src/Http2/Hpack/Huffman/Prefix.antt =====
-- The code has the prefix property; its table is checked by evaluation.
use http_2_0_server.Base.{
  ℕ, zero, suc, ◌-◌, ◌/◌, ◌^◌, ◌<◌, ◌≡◌, refl, Bool, true, false, ◌&&◌, ◌||◌, not, none, some, List,
  [], ◌∷◌, length, get_or, ltb, leb, ◌==◌, arith,
}
use http_2_0_server.Http2.Hpack.Huffman.{fits, find_entry}
use http_2_0_server.Http2.Hpack.Huffman.Codes.{
  HuffmanEntry, k_huffman_table, low_entries, high_entries,
}

unfoldable pub every_entry : (HuffmanEntry → Bool) → List HuffmanEntry → Bool
every_entry test [] = true
every_entry test (e ∷ es) = test e && every_entry test es

-- If the code of `a` begins the code of `b`, they are the same.
abbrev pub apart : HuffmanEntry → HuffmanEntry → Bool
apart b a =
    not (leb a.numbits b.numbits && (a.bits == b.bits / 2 ^ (b.numbits - a.numbits)))
    || ((a.symbol == b.symbol) && (a.numbits == b.numbits))

abbrev pub sound : HuffmanEntry → Bool
sound e = leb 5 e.numbits && leb e.numbits 30 && ltb e.bits (2 ^ e.numbits)

pub table_sound :
    every_entry (λ b. sound b && every_entry (apart b) k_huffman_table) k_huffman_table ≡ true
unfolding every_entry k_huffman_table low_entries high_entries
table_sound = refl

pub every_entry-at :
    (test : HuffmanEntry → Bool) (es : List HuffmanEntry) (i : ℕ) (d : HuffmanEntry)
    → every_entry test es ≡ true
    → i < length es
    → test (get_or es i d) ≡ true
unfolding every_entry
every_entry-at test [] i d e l = absurd (omega arith)
every_entry-at test (x ∷ es) zero d e l = ground arith
every_entry-at test (x ∷ es) (suc i) d e l = every_entry-at test es i d (ground arith) (omega arith)

-- What the loop finds is in the table and passes its test.
pub find_entry-some :
    (test : HuffmanEntry → Bool) (partial partialbits : ℕ) (es : List HuffmanEntry)
    (e : HuffmanEntry)
    → every_entry test es ≡ true
    → find_entry partial partialbits es ≡ some e
    → (test e ≡ true) × (fits partial partialbits e ≡ true)
unfolding find_entry every_entry
find_entry-some test v n [] e a f = cc
find_entry-some test v n (x ∷ es) e a f = ground (arith, find_entry-some test v n es e)

pub find_entry-none :
    (partial partialbits : ℕ) (es : List HuffmanEntry) (i : ℕ) (d : HuffmanEntry)
    → find_entry partial partialbits es ≡ none
    → i < length es
    → fits partial partialbits (get_or es i d) ≡ false
unfolding find_entry
find_entry-none v n [] i d f l = absurd (omega arith)
find_entry-none v n (x ∷ es) zero d f l = ground arith
find_entry-none v n (x ∷ es) (suc i) d f l = find_entry-none v n es i d (ground arith) (omega arith)
