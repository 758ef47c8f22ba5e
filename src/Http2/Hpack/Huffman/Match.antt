-- ===== src/Http2/Hpack/Huffman/Match.antt =====
-- The loop over the table, on bits that begin with a code or lie within one.
use http_2_0_server.Base.{
  ℕ, ◌+◌, ◌-◌, ◌/◌, ◌^◌, ◌≤◌, ◌<◌, ◌≡◌, refl, sym, ap, ◌∙◌, Bool, true, false, ◌&&◌, none, some,
  List, [], ◌++◌, length, length-append, append_assoc, append-nil, take, drop, take-append-drop,
  length-drop, leb, arith, Bool-cases, Option-cases, inl, inr,
}
use native.Mathlib.Nat.{mod-eq_of_lt}
use http_2_0_server.Base.Digits.{
  value, digits, length-digits, value-digits, value_inj, value_upper, beginnings,
}
use http_2_0_server.Http2.Hpack.Huffman.{entry, fits, find_entry}
use http_2_0_server.Http2.Hpack.Huffman.Codes.{
  HuffmanEntry, k_huffman_table, low_entries, high_entries,
}
use http_2_0_server.Http2.Hpack.Huffman.Prefix.{
  every_entry, apart, sound, table_sound, every_entry-at, find_entry-some, find_entry-none,
}

-- The bits of an entry's code.
abbrev pub code : HuffmanEntry → List Bool
code e = digits e.numbits e.bits

pub record IsEntry (e : HuffmanEntry) : Type 0 where
  pub five : 5 ≤ e.numbits
  pub thirty : e.numbits ≤ 30
  pub within : e.bits < 2 ^ e.numbits

sound-IsEntry : (e : HuffmanEntry) → sound e ≡ true → IsEntry e
sound-IsEntry e h = ground arith

pub value-code : (e : HuffmanEntry) → IsEntry e → value (code e) ≡ e.bits
value-code e h = value-digits e.numbits e.bits ∙ mod-eq_of_lt h.within

pub length-code : (e : HuffmanEntry) → length (code e) ≡ e.numbits
length-code e = length-digits e.numbits e.bits

apart-code :
    (a b : HuffmanEntry) (bs : List Bool)
    → IsEntry a
    → IsEntry b
    → apart b a ≡ true
    → code b ≡ code a ++ bs
    → (a.symbol ≡ b.symbol) × (a.numbits ≡ b.numbits)
apart-code a b bs ha hb h e =
    let n : b.numbits - a.numbits ≡ length bs =
      omega (arith, ap length e, length-append (code a) bs, length-code a, length-code b) in
    let le : a.numbits ≤ b.numbits =
      omega (arith, ap length e, length-append (code a) bs, length-code a, length-code b) in
    let v : a.bits ≡ b.bits / 2 ^ (b.numbits - a.numbits) =
      sym (value-code a ha)
      ∙ sym (value_upper (code a) bs)
      ∙ ap (λ cs. value cs / 2 ^ length bs) (sym e)
      ∙ ap (λ w. w / 2 ^ length bs) (value-code b hb)
      ∙ ap (λ k. b.bits / 2 ^ k) (sym n) in
    ground (arith, v, le, h)

-- An entry that passes the test has its code in front of the bits.
fits-code :
    (bs : List Bool) (e : HuffmanEntry)
    → IsEntry e
    → fits (value bs) (length bs) e ≡ true
    → (cs : List Bool) × (bs ≡ code e ++ cs)
unfolding fits
fits-code bs e h f =
    let n = e.numbits in
    let le : n ≤ length bs = ground (arith, f) in
    let b : e.bits ≡ value bs / 2 ^ (length bs - n) = ground (arith, f) in
    let parts = take-append-drop n bs in
    let k : length (drop n bs) ≡ length bs - n = length-drop n bs in
    let l : length (take n bs) ≡ n =
      omega (arith, ap length parts, length-append (take n bs) (drop n bs), k) in
    let v : value (take n bs) ≡ e.bits =
      sym (value_upper (take n bs) (drop n bs))
      ∙ ap (λ us. value us / 2 ^ length (drop n bs)) parts
      ∙ ap (λ j. value bs / 2 ^ j) k
      ∙ sym b in
    (
      drop n bs,
      sym parts
          ∙ ap (λ us. us ++ drop n bs)
              (value_inj (take n bs) (code e) (l ∙ sym (length-code e)) (v ∙ sym (value-code e h))),
    )

code-fits :
    (e : HuffmanEntry) (cs : List Bool)
    → IsEntry e
    → fits (value (code e ++ cs)) (length (code e ++ cs)) e ≡ true
unfolding fits
code-fits e cs h =
    let l : length (code e ++ cs) ≡ e.numbits + length cs =
      length-append (code e) cs ∙ ap (λ n. n + length cs) (length-code e) in
    let m : length (code e ++ cs) - e.numbits ≡ length cs = omega (arith, l) in
    let v : e.bits ≡ value (code e ++ cs) / 2 ^ (length (code e ++ cs) - e.numbits) =
      sym (value-code e h)
      ∙ sym (value_upper (code e) cs)
      ∙ ap (λ j. value (code e ++ cs) / 2 ^ j) (sym m) in
    ground (arith, l, v)

table_length : length k_huffman_table ≡ 257
unfolding k_huffman_table low_entries high_entries
table_length = refl

clash : {b : Bool} → b ≡ true → b ≡ false → ⊥
clash e f = cc

both : {a b : Bool} → (a && b) ≡ true → (a ≡ true) × (b ≡ true)
both h = ground (arith, h)

abbrev checked : HuffmanEntry → Bool
checked b = sound b && every_entry (apart b) k_huffman_table

checked_at : (s : ℕ) → s < 257 → checked (entry s) ≡ true
checked_at s h =
    every_entry-at checked k_huffman_table s _ table_sound (omega (arith, table_length))

pub entry-IsEntry : (s : ℕ) → s < 257 → IsEntry (entry s)
entry-IsEntry s h = sound-IsEntry (entry s) (both (checked_at s h)).0

-- An entry of the table whose code and that of `s` begin one list of bits is the entry of `s`.
same_entry :
    (s v n : ℕ) (e : HuffmanEntry) (us vs : List Bool)
    → s < 257
    → find_entry v n k_huffman_table ≡ some e
    → code e ++ us ≡ code (entry s) ++ vs
    → (e.symbol ≡ (entry s).symbol) × (e.numbits ≡ (entry s).numbits)
same_entry s v n e us vs h f q =
    let len : s < length k_huffman_table = omega (arith, h, table_length) in
    let (i, ai) = both (checked_at s h) in
    let (c, _) = find_entry-some checked v n k_huffman_table e table_sound f in
    let (j, aj) = both c in
    let (a, _) = find_entry-some (apart (entry s)) v n k_huffman_table e ai f in
    let b : apart e (entry s) ≡ true = every_entry-at (apart e) k_huffman_table s _ aj len in
    let he = sound-IsEntry e j in
    let hs = sound-IsEntry (entry s) i in
    elim (Bool-cases (leb e.numbits (entry s).numbits)) [
      | inl le ↦
          let l : length (code e) ≤ length (code (entry s)) =
            ground (arith, le, length-code e, length-code (entry s)) in
          let (es, r, _) = beginnings (code e) (code (entry s)) us vs q l in
          apart-code e (entry s) es he hs a r
      | inr gt ↦
          let l : length (code (entry s)) ≤ length (code e) =
            ground (arith, gt, length-code e, length-code (entry s)) in
          let (es, r, _) = beginnings (code (entry s)) (code e) vs us (sym q) l in
          let (x, y) = apart-code (entry s) e es hs he b r in (sym x, sym y)
    ]

pub found_code :
    (v n : ℕ) (e : HuffmanEntry)
    → find_entry v n k_huffman_table ≡ some e
    → IsEntry e × (fits v n e ≡ true)
found_code v n e f =
    let (c, t) = find_entry-some checked v n k_huffman_table e table_sound f in
    (sound-IsEntry e (both c).0, t)

-- Bits that begin with the code of `s`: an entry with its symbol and length is found.
pub find_entry-code :
    (s : ℕ) (cs : List Bool)
    → s < 257
    → (e : HuffmanEntry) × (find_entry
          (value (code (entry s) ++ cs))
          (length (code (entry s) ++ cs))
          k_huffman_table
        ≡ some e)
      × (e.symbol ≡ (entry s).symbol)
      × (e.numbits ≡ (entry s).numbits)
find_entry-code s cs h =
    let bs = code (entry s) ++ cs in
    let hit = code-fits (entry s) cs (entry-IsEntry s h) in
    elim (Option-cases (find_entry (value bs) (length bs) k_huffman_table)) [
      | inl f ↦
          let miss =
            find_entry-none (value bs) (length bs) k_huffman_table s _ f
              (omega (arith, h, table_length)) in
          absurd (clash hit miss)
      | inr (e, f) ↦
          let (he, t) = found_code (value bs) (length bs) e f in
          let (us, p) = fits-code bs e he t in
          let (x, y) = same_entry s (value bs) (length bs) e us cs h f (sym p) in (e, f, x, y)
    ]

-- Bits that are less than the code of `s`: none is found.
pub find_entry_short :
    (s : ℕ) (bs cs : List Bool)
    → s < 257
    → bs ++ cs ≡ code (entry s)
    → length bs < (entry s).numbits
    → find_entry (value bs) (length bs) k_huffman_table ≡ none
find_entry_short s bs cs h p l =
    elim (Option-cases (find_entry (value bs) (length bs) k_huffman_table)) [
      | inl f ↦ f
      | inr (e, f) ↦
          let (he, t) = found_code (value bs) (length bs) e f in
          let (us, q) = fits-code bs e he t in
          let whole : code e ++ (us ++ cs) ≡ code (entry s) ++ [] =
            sym (append_assoc (code e) us cs)
            ∙ ap (λ xs. xs ++ cs) (sym q)
            ∙ p
            ∙ sym (append-nil (code (entry s))) in
          let (_, n) = same_entry s (value bs) (length bs) e (us ++ cs) [] h f whole in
          absurd (omega (arith, n, l, ap length q, length-append (code e) us, length-code e))
    ]
