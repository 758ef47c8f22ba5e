-- ===== src/Http2/Hpack/Huffman/RoundTrip.antt =====
-- decode_huffman reads back what encode_huffman wrote.
use http_2_0_server.Base.{
  ℕ, ◌+◌, ◌-◌, ◌*◌, ◌%◌, ◌^◌, ◌<◌, ◌≡◌, refl, sym, ap, ◌∙◌, Bool, List, [], ◌∷◌, ◌++◌, length,
  length-append, append_assoc, append-nil, arith, All,
}
use mathlib.Core.Path.{ap₂, subst}
use native.Mathlib.Nat.{mod-eq_of_lt, pow-le-pow_right}
use http_2_0_server.Base.Bits.{IsByte}
use http_2_0_server.Base.Digits.{
  value, digits, length-digits, value-digits, value-lt, value-append, ones, length-ones, value-ones,
  bits_of,
}
use http_2_0_server.Http2.Hpack.Huffman.{
  entry, pushed, scanned, scan_if, at_end, decode_loop, decode_huffman, encode_huffman,
}
use http_2_0_server.Http2.Hpack.Huffman.Match.{code, length-code}
use http_2_0_server.Http2.Hpack.Huffman.Encoded.{codes, encode_huffman-bits, encode_huffman-IsByte}
use http_2_0_server.Http2.Hpack.Huffman.Scan.{
  Under, Near, Holds, Left, scan_if-Left, Under-thirty, Near-Under, Near-less,
}

All-later : (xs ys ss : List ℕ) → ss ≡ xs ++ ys → All IsByte ss → All IsByte ys
All-later [] ys ss e a = subst (All IsByte) e a
All-later (x ∷ xs) ys [] e a = cc
All-later (x ∷ xs) ys (s ∷ ss) e a = let t : ss ≡ xs ++ ys = cc in All-later xs ys ss t a.1

-- At the end of the input only the filling is left.
nothing_later :
    (bs : List Bool) (ss : List ℕ) (k : ℕ)
    → Holds bs [] ss k
    → Under (length bs) ss
    → (ss ≡ []) × (bs ≡ ones k)
unfolding codes
nothing_later bs [] k e u = (refl, sym (append-nil bs) ∙ e)
nothing_later bs (s ∷ ss) k e u =
    let n : length bs ≡ (entry s).numbits + length (codes ss ++ ones k) =
      ap length (sym (append-nil bs) ∙ e ∙ append_assoc (code (entry s)) (codes ss) (ones k))
      ∙ length-append (code (entry s)) (codes ss ++ ones k)
      ∙ ap (λ t. t + length (codes ss ++ ones k)) (length-code (entry s)) in
    absurd (omega (arith, n, u))

at_end-ones :
    (out : List ℕ) (bs : List Bool) (k : ℕ)
    → bs ≡ ones k
    → k < 8
    → at_end (scanned out (value bs) (length bs)) ≡ pushed out
at_end-ones out bs k e h =
    let l : length bs ≡ k = ap length e ∙ length-ones k in
    let v : value bs ≡ 2 ^ length bs - 1 =
      omega (arith, ap value e, value-ones k, ap (λ t. 2 ^ t) l) in
    ground (arith, l, v, h)

decode_loop-end :
    (v n : ℕ) (ss : List ℕ) (k : ℕ)
    → k < 8
    → Left (scan_if v n) [] ss k
    → decode_loop v n [] ≡ pushed ss
unfolding decode_loop
decode_loop-end v n ss k h r =
    let (e, f) = nothing_later r.bits r.later k r.holds r.under in
    ap at_end r.result
    ∙ at_end-ones r.out r.bits k f h
    ∙ ap pushed (sym (append-nil r.out) ∙ ap (λ t. r.out ++ t) (sym e) ∙ sym r.parts)

decode_loop-step :
    (v n b : ℕ) (q ss : List ℕ) (rest : List Bool) (k : ℕ)
    → (r : Left (scan_if v n) rest ss k)
    → decode_loop (value r.bits * 2 ^ 8 % 2 ^ 64 + b) (length r.bits + 8) q ≡ pushed r.later
    → decode_loop v n (b ∷ q) ≡ pushed ss
unfolding decode_loop
decode_loop-step v n b q ss rest k r h = rw (r.result, decode_loop, h) (ap pushed (sym r.parts))

one_byte :
    (bs : List Bool) (b : ℕ)
    → b < 256
    → length bs < 30
    → (value bs * 2 ^ 8 % 2 ^ 64 + b ≡ value (bs ++ digits 8 b))
      × (length bs + 8 ≡ length (bs ++ digits 8 b))
one_byte bs b h l =
    let d = length-digits 8 b in
    let small : value bs < 2 ^ 30 = omega (
      arith,
      value-lt bs,
      pow-le-pow_right {n = 2} (omega arith) {i = length bs} {j = 30} (omega (arith, l)),
    ) in
    let v : value (digits 8 b) ≡ b = value-digits 8 b ∙ mod-eq_of_lt h in
    (
      omega (arith, small, v, value-append bs (digits 8 b), ap (λ t. value bs * 2 ^ t) d),
      omega (arith, length-append bs (digits 8 b), d),
    )

decode_loop-codes :
    (q : List ℕ) (bs : List Bool) (ss : List ℕ) (k : ℕ)
    → All IsByte q
    → All IsByte ss
    → k < 8
    → Holds bs (bits_of q) ss k
    → Near (length bs) ss
    → decode_loop (value bs) (length bs) q ≡ pushed ss
unfolding bits_of
decode_loop-codes [] bs ss k c a h e u =
    decode_loop-end (value bs) (length bs) ss k h (scan_if-Left bs [] ss k a h e u)
decode_loop-codes (b ∷ q) bs ss k c a h e u =
    let r = scan_if-Left bs (digits 8 b ++ bits_of q) ss k a h e u in
    let a' = All-later r.out r.later ss r.parts a in
    let (v, n) = one_byte r.bits b c.0 (Under-thirty (length r.bits) r.later a' r.under) in
    let bs' = r.bits ++ digits 8 b in
    decode_loop-step (value bs) (length bs) b q ss (digits 8 b ++ bits_of q) k r (
      ap₂ (λ x y. decode_loop x y q) v n
      ∙ decode_loop-codes q bs' r.later k c.1 a' h
          (append_assoc r.bits (digits 8 b) (bits_of q) ∙ r.holds)
          (subst (λ t. Near t r.later) n (Near-Under (length r.bits) r.later r.under)))

-- Any string of bytes, encoded and decoded again, is unchanged.
pub decode-encode_huffman :
    (ss : List ℕ) → All IsByte ss → decode_huffman (encode_huffman ss) ≡ pushed ss
unfolding decode_huffman value
decode-encode_huffman ss a =
    let (k, h, e) = encode_huffman-bits ss a in
    decode_loop-codes (encode_huffman ss) [] ss k (encode_huffman-IsByte ss) a h e
      (Near-less 0 ss (omega arith))
