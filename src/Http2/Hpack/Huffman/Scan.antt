-- ===== src/Http2/Hpack/Huffman/Scan.antt =====
-- The inner loops of decode_huffman on bits that begin with the codes of some bytes.
use http_2_0_server.Base.{
  ℕ, zero, suc, ◌+◌, ◌-◌, ◌%◌, ◌^◌, ◌≤◌, ◌<◌, ◌≡◌, refl, sym, ap, ◌∙◌, Bool, none, some, List, [],
  ◌∷◌, ◌++◌, length, length-append, append_assoc, arith, All, Bool-cases, inl, inr, ltb, ltb→lt,
  ltb→le, leb,
}
use mathlib.Core.Path.{ap₂, subst}
use http_2_0_server.Base.Bits.{IsByte, agree_below, agree_below→eq}
use http_2_0_server.Base.Digits.{value, digits, value_lower, beginnings, ones, length-ones}
use http_2_0_server.Http2.Hpack.Huffman.{entry, find_entry, Scanned, scanned, scan, scan_if}
use http_2_0_server.Http2.Hpack.Huffman.Codes.{
  HuffmanEntry, k_huffman_table, low_entries, high_entries,
}
use http_2_0_server.Http2.Hpack.Huffman.Match.{
  code, entry-IsEntry, length-code, find_entry-code, find_entry_short,
}
use http_2_0_server.Http2.Hpack.Huffman.Encoded.{codes}

pub entry_symbol : (s : ℕ) → s < 256 → (entry s).symbol ≡ s
unfolding agree_below k_huffman_table low_entries high_entries
entry_symbol = agree_below→eq (λ s. (entry s).symbol) (λ s. s) 256 refl

-- Less than eight ones begin the code that ends a text.
ones_end : (k : ℕ) → k < 8 → ones k ++ ones (30 - k) ≡ code (entry 256)
unfolding digits k_huffman_table low_entries high_entries
ones_end zero h = refl
ones_end (suc zero) h = refl
ones_end (suc (suc zero)) h = refl
ones_end (suc (suc (suc zero))) h = refl
ones_end (suc (suc (suc (suc zero)))) h = refl
ones_end (suc (suc (suc (suc (suc zero))))) h = refl
ones_end (suc (suc (suc (suc (suc (suc zero)))))) h = refl
ones_end (suc (suc (suc (suc (suc (suc (suc zero))))))) h = refl
ones_end (suc (suc (suc (suc (suc (suc (suc (suc k)))))))) h = absurd (omega arith)

end_length : (entry 256).numbits ≡ 30
unfolding k_huffman_table low_entries high_entries
end_length = refl

-- `n` bits are less than the next code.
abbrev pub Under : ℕ → List ℕ → Type 0
Under n [] = n < 8
Under n (s ∷ ss) = n < (entry s).numbits

-- `n` bits are less than a byte more than the next code.
abbrev pub Near : ℕ → List ℕ → Type 0
Near n [] = Unit {0}
Near n (s ∷ ss) = n < (entry s).numbits + 8

-- `bs` have been read and `rest` not; both are the codes of `ss` and the filling.
abbrev pub Holds : List Bool → List Bool → List ℕ → ℕ → Type 0
Holds bs rest ss k = bs ++ rest ≡ codes ss ++ ones k

length-ones_part : (bs rest : List Bool) (k : ℕ) → bs ++ rest ≡ ones k → length bs ≤ k
length-ones_part bs rest k e = omega (arith, ap length e, length-append bs rest, length-ones k)

-- No entry is found before the next code is complete.
none_yet :
    (bs rest : List Bool) (ss : List ℕ) (k : ℕ)
    → All IsByte ss
    → k < 8
    → Holds bs rest ss k
    → Under (length bs) ss
    → (find_entry (value bs) (length bs) k_huffman_table ≡ none) × (length bs < 30)
unfolding codes
none_yet bs rest [] k a h e u = (
  find_entry_short 256 bs (rest ++ ones (30 - k)) (omega arith)
      (sym (append_assoc bs rest (ones (30 - k))) ∙ ap (λ t. t ++ ones (30 - k)) e ∙ ones_end k h)
      (omega (arith, u, end_length)),
  omega (arith, u),
)
none_yet bs rest (s ∷ ss) k a h e u =
    let l : length bs ≤ length (code (entry s)) = omega (arith, u, length-code (entry s)) in
    let (cs, p, q) =
      beginnings bs (code (entry s)) rest (codes ss ++ ones k)
        (e ∙ append_assoc (code (entry s)) (codes ss) (ones k)) l in
    (
      find_entry_short s bs cs (omega (arith, a.0)) (sym p) u,
      omega (arith, u, (entry-IsEntry s (omega (arith, a.0))).thirty),
    )

-- What the inner loops leave.
pub record Left (r : Scanned) (rest : List Bool) (ss : List ℕ) (k : ℕ) : Type 0 where
  pub out : List ℕ
  pub bits : List Bool
  pub later : List ℕ
  pub result : r ≡ scanned out (value bits) (length bits)
  pub parts : ss ≡ out ++ later
  pub holds : Holds bits rest later k
  pub under : Under (length bits) later

scan_none :
    (fuel : ℕ) (bs rest : List Bool) (ss : List ℕ) (k : ℕ)
    → All IsByte ss
    → k < 8
    → Holds bs rest ss k
    → Under (length bs) ss
    → Left (scan (suc fuel) (value bs) (length bs)) rest ss k
unfolding scan
scan_none fuel bs rest ss k a h e u =
    let (f, l) = none_yet bs rest ss k a h e u in
    record {
      out = [];
      bits = bs;
      later = ss;
      result = rw (f, scan) (ground (arith, l));
      parts = refl;
      holds = e;
      under = u;
    }

-- Bits that go on behind the code of `s`.
behind :
    (s : ℕ) (bs rest : List Bool) (ss : List ℕ) (k : ℕ)
    → Holds bs rest (s ∷ ss) k
    → (entry s).numbits ≤ length bs
    → (cs : List Bool) × (bs ≡ code (entry s) ++ cs) × Holds cs rest ss k
unfolding codes
behind s bs rest ss k e l =
    let (cs, p, q) =
      beginnings (code (entry s)) bs (codes ss ++ ones k) rest
        (sym (append_assoc (code (entry s)) (codes ss) (ones k)) ∙ sym e)
        (omega (arith, l, length-code (entry s))) in
    (cs, p, sym q)

pub Near-less : (n : ℕ) (ss : List ℕ) → n < 8 → Near n ss
Near-less n [] h = tt
Near-less n (s ∷ ss) h = omega (arith, h)

scan-some :
    (fuel v n s : ℕ) (e : HuffmanEntry) (rest : List Bool) (ss : List ℕ) (k : ℕ)
    → find_entry v n k_huffman_table ≡ some e
    → e.symbol ≡ s
    → s < 256
    → n - e.numbits < 8
    → Left (scan fuel (v % 2 ^ (n - e.numbits)) (n - e.numbits)) rest ss k
    → Left (scan (suc fuel) v n) rest (s ∷ ss) k
unfolding scan
scan-some fuel v n s e rest ss k f sym_s h l r = record {
  out = s ∷ r.out;
  bits = r.bits;
  later = r.later;
  result = rw (f, scan, sym_s, r.result) (ground (arith, l, h));
  parts = ap (◌∷◌ s) r.parts;
  holds = r.holds;
  under = r.under;
}

scan-Left :
    (fuel : ℕ) (bs rest : List Bool) (ss : List ℕ) (k : ℕ)
    → All IsByte ss
    → k < 8
    → Holds bs rest ss k
    → Near (length bs) ss
    → length bs < fuel
    → Left (scan fuel (value bs) (length bs)) rest ss k
unfolding codes
scan-Left zero bs rest ss k a h e u l = absurd (omega arith)
scan-Left (suc fuel) bs rest [] k a h e u l =
    scan_none fuel bs rest [] k a h e (omega (arith, h, length-ones_part bs rest k e))
scan-Left (suc fuel) bs rest (s ∷ ss) k a h e u l =
    elim (Bool-cases (ltb (length bs) (entry s).numbits)) [
      | inl lt ↦ scan_none fuel bs rest (s ∷ ss) k a h e (ltb→lt (length bs) (entry s).numbits lt)
      | inr ge ↦
          let (cs, p, q) = behind s bs rest ss k e (ltb→le (length bs) (entry s).numbits ge) in
          let (x, f, y, z) = find_entry-code s cs (omega (arith, a.0)) in
          let n : length bs ≡ (entry s).numbits + length cs =
            ap length p
            ∙ length-append (code (entry s)) cs
            ∙ ap (λ t. t + length cs) (length-code (entry s)) in
          let m : length cs ≡ length bs - x.numbits = omega (arith, n, z) in
          let low : value cs ≡ value bs % 2 ^ (length bs - x.numbits) =
            sym (value_lower (code (entry s)) cs)
            ∙ ap (λ t. value t % 2 ^ length cs) (sym p)
            ∙ ap (λ t. value bs % 2 ^ t) m in
          let five = (entry-IsEntry s (omega (arith, a.0))).five in
          let rec =
            scan-Left fuel cs rest ss k a.1 h q (Near-less (length cs) ss (omega (arith, n, u)))
              (omega (arith, n, five, l)) in
          scan-some fuel (value bs) (length bs) s x rest ss k
            (ap (λ t. find_entry (value t) (length t) k_huffman_table) p ∙ f)
            (y ∙ entry_symbol s a.0) a.0 (omega (arith, m, n, u))
            (subst (λ r. Left r rest ss k) (ap₂ (scan fuel) low m) rec)
    ]

Under-five : (n : ℕ) (ss : List ℕ) → All IsByte ss → n < 5 → Under n ss
Under-five n [] a h = omega (arith, h)
Under-five n (s ∷ ss) a h = omega (arith, h, (entry-IsEntry s (omega (arith, a.0))).five)

pub Under-thirty : (n : ℕ) (ss : List ℕ) → All IsByte ss → Under n ss → n < 30
Under-thirty n [] a h = omega (arith, h)
Under-thirty n (s ∷ ss) a h = omega (arith, h, (entry-IsEntry s (omega (arith, a.0))).thirty)

pub Near-Under : (n : ℕ) (ss : List ℕ) → Under n ss → Near (n + 8) ss
Near-Under n [] h = tt
Near-Under n (s ∷ ss) h = omega (arith, h)

pub scan_if-Left :
    (bs rest : List Bool) (ss : List ℕ) (k : ℕ)
    → All IsByte ss
    → k < 8
    → Holds bs rest ss k
    → Near (length bs) ss
    → Left (scan_if (value bs) (length bs)) rest ss k
unfolding scan_if
scan_if-Left bs rest ss k a h e u = elim (Bool-cases (leb 5 (length bs))) [
  | inl long ↦ rw long (scan-Left (suc (length bs)) bs rest ss k a h e u (omega arith))
  | inr short ↦ record {
    out = [];
    bits = bs;
    later = ss;
    result = rw short;
    parts = refl;
    holds = e;
    under = Under-five (length bs) ss a (ground (arith, short));
  }
]
