-- ===== src/Http2/Hpack/Huffman/Encoded.antt =====
-- What encode_huffman writes: the codes one behind the other, filled up with ones to whole bytes.
use http_2_0_server.Base.{
  ℕ, zero, suc, ◌+◌, ◌-◌, ◌*◌, ◌/◌, ◌%◌, ◌^◌, ◌≤◌, ◌<◌, ◌≡◌, refl, sym, ap, ◌∙◌, Bool, List, [],
  ◌∷◌, ◌++◌, length, length-append, append_assoc, append-nil, take, drop, take-append-drop,
  length-take, length-drop, arith, All, All-append,
}
use native.Mathlib.Nat.{div-add-mod', mod-lt}
use http_2_0_server.Base.Bits.{IsByte}
use http_2_0_server.Base.Powers.{pow_add, upper, lower, low_low}
use http_2_0_server.Base.Digits.{
  value, digits, value-lt, value-append, value_back, ones, length-ones, value-ones, bits_of,
  bits_of-append,
}
use http_2_0_server.Http2.Hpack.Huffman.{entry, flush, last_byte, encode_loop, encode_huffman}
use http_2_0_server.Http2.Hpack.Huffman.Match.{code, entry-IsEntry, value-code, length-code}

unfoldable pub codes : List ℕ → List Bool
codes [] = []
codes (s ∷ ss) = code (entry s) ++ codes ss

-- `w` ends in the bits `bs`.
abbrev EndsIn : ℕ → List Bool → Type 0
EndsIn w bs = w % 2 ^ length bs ≡ value bs

-- The bits in front of the last `m`, and the last `m`.
split_end :
    (w : ℕ) (xs ys : List Bool)
    → EndsIn w (xs ++ ys)
    → (w / 2 ^ length ys % 2 ^ length xs ≡ value xs) × EndsIn w ys
split_end w xs ys e =
    let m = length ys in
    let n = length xs in
    let c = w / 2 ^ length (xs ++ ys) in
    let whole : w ≡ (c * 2 ^ n + value xs) * 2 ^ m + value ys = omega (
      arith,
      div-add-mod' w (2 ^ length (xs ++ ys)),
      e,
      value-append xs ys,
      ap (λ t. c * 2 ^ t) (length-append xs ys),
      ap (λ t. c * t) (pow_add n m),
    ) in
    (
      ap (λ t. t / 2 ^ m % 2 ^ n) whole
          ∙ ap (λ t. t % 2 ^ n) (upper m (c * 2 ^ n + value xs) (value ys) (value-lt ys))
          ∙ lower n c (value xs) (value-lt xs),
      ap (λ t. t % 2 ^ m) whole ∙ lower m (c * 2 ^ n + value xs) (value ys) (value-lt ys),
    )

-- Shifting left within 64 bits and filling in the bits of a code.
shift_in :
    (w : ℕ) (xs ys : List Bool)
    → length (xs ++ ys) ≤ 64
    → EndsIn w xs
    → EndsIn (w * 2 ^ length ys % 2 ^ 64 + value ys) (xs ++ ys)
shift_in w xs ys l e =
    let m = length ys in
    let k = length (xs ++ ys) in
    let d = 64 - k in
    let c = w / 2 ^ length xs in
    let r = w * 2 ^ m % 2 ^ 64 in
    let v = value xs * 2 ^ m in
    let whole : w * 2 ^ m ≡ c * 2 ^ k + v =
      ap (λ t. t * 2 ^ m) (sym (div-add-mod' w (2 ^ length xs)) ∙ ap (λ t. c * 2 ^ length xs + t) e)
      ∙ omega (
        arith,
        ap (λ t. c * 2 ^ t) (length-append xs ys),
        ap (λ t. c * t) (pow_add (length xs) m),
      ) in
    let small : v + value ys < 2 ^ k = omega (arith, value-lt (xs ++ ys), value-append xs ys) in
    let low : r % 2 ^ k ≡ v =
      ap (λ t. w * 2 ^ m % 2 ^ t % 2 ^ k) {x = 64} {y = d + k} (omega (arith, l))
      ∙ low_low d k (w * 2 ^ m)
      ∙ ap (λ t. t % 2 ^ k) whole
      ∙ lower k c v (omega (arith, small)) in
    let sum : r + value ys ≡ r / 2 ^ k * 2 ^ k + (v + value ys) =
      omega (arith, div-add-mod' r (2 ^ k), low) in
    ap (λ t. t % 2 ^ k) sum ∙ lower k (r / 2 ^ k) (v + value ys) small ∙ sym (value-append xs ys)

-- The inner loop writes whole bytes of the pending bits, and leaves less than a byte.
flush-bits :
    (n w : ℕ) (bs : List Bool)
    → length bs ≡ n
    → EndsIn w bs
    → (cs : List Bool) × (bs ≡ bits_of (flush w n).0 ++ cs)
      × ((flush w n).1 ≡ length cs)
      × (length cs < 8)
      × EndsIn w cs
unfolding flush bits_of
flush-bits (suc (suc (suc (suc (suc (suc (suc (suc n)))))))) w bs l e =
    let xs = take 8 bs in
    let ys = drop 8 bs in
    let parts = take-append-drop 8 bs in
    let k : length ys ≡ n = omega (arith, length-drop 8 bs, l) in
    let j : length xs ≡ 8 = omega (arith, length-take 8 bs, l) in
    let (hi, lo) =
      split_end w xs ys (ap (λ us. w % 2 ^ length us) parts ∙ e ∙ ap value (sym parts)) in
    let byte : digits 8 (w / 2 ^ n % 256) ≡ xs =
      value_back xs 8 (w / 2 ^ n % 256) j
        (sym hi ∙ ap (λ t. w / 2 ^ t % 2 ^ length xs) k ∙ ap (λ t. w / 2 ^ n % 2 ^ t) j) in
    let (cs, p, q, r, s) = flush-bits n w ys k lo in
    (
      cs,
      sym parts
          ∙ ap (λ t. xs ++ t) p
          ∙ sym (append_assoc xs (bits_of (flush w n).0) cs)
          ∙ ap (λ t. (t ++ bits_of (flush w n).0) ++ cs) (sym byte),
      q,
      r,
      s,
    )
flush-bits n w bs l e = (bs, refl, sym l, omega (arith, l), e)

-- Some bits and ones up to eight, as a number.
filled :
    (w n k : ℕ) (bs : List Bool)
    → length bs ≡ n
    → n + k ≡ 8
    → EndsIn w bs
    → digits 8 (w * 2 ^ k % 256 + (2 ^ k - 1)) ≡ bs ++ ones k
filled w n k bs l h e =
    let c = w / 2 ^ length bs in
    let eight : length (bs ++ ones k) ≡ 8 =
      omega (arith, length-append bs (ones k), length-ones k, l, h) in
    let total : value (bs ++ ones k) ≡ value bs * 2 ^ k + value (ones k) =
      value-append bs (ones k) ∙ ap (λ t. value bs * 2 ^ t + value (ones k)) (length-ones k) in
    let small : value bs * 2 ^ k < 2 ^ 8 =
      omega (arith, total, value-lt (bs ++ ones k), ap (λ t. 2 ^ t) eight) in
    let sum : length bs + k ≡ 8 = omega (arith, l, h) in
    let whole : w * 2 ^ k ≡ c * 2 ^ 8 + value bs * 2 ^ k =
      ap (λ t. t * 2 ^ k) (sym (div-add-mod' w (2 ^ length bs)) ∙ ap (λ t. c * 2 ^ length bs + t) e)
      ∙ omega (arith, ap (λ t. c * 2 ^ t) sum, ap (λ t. c * t) (pow_add (length bs) k)) in
    let low : w * 2 ^ k % 2 ^ 8 ≡ value bs * 2 ^ k =
      ap (λ t. t % 2 ^ 8) whole ∙ lower 8 c (value bs * 2 ^ k) small in
    value_back (bs ++ ones k) 8 (w * 2 ^ k % 256 + (2 ^ k - 1)) eight
      (omega (arith, total, low, value-ones k))

last_byte-bits :
    (w : ℕ) (bs : List Bool)
    → length bs < 8
    → EndsIn w bs
    → (k : ℕ) × (k < 8) × (bits_of (last_byte w (length bs)) ≡ bs ++ ones k)
unfolding last_byte bits_of
last_byte-bits w [] l e = (0, omega arith, refl)
last_byte-bits w (b ∷ bs) l e =
    let k = 8 - suc (length bs) in
    (
      k,
      omega arith,
      append-nil (digits 8 (w * 2 ^ k % 256 + (2 ^ k - 1)))
          ∙ filled w (suc (length bs)) k (b ∷ bs) refl (omega (arith, l)) e,
    )

regroup : (us bs cs ds : List Bool) → us ++ ((bs ++ cs) ++ ds) ≡ ((us ++ bs) ++ cs) ++ ds
regroup us bs cs ds =
    sym (append_assoc us (bs ++ cs) ds) ∙ ap (λ t. t ++ ds) (sym (append_assoc us bs cs))

encode_loop-bits :
    (ss : List ℕ) (w n : ℕ) (bs : List Bool)
    → All IsByte ss
    → length bs ≡ n
    → n < 8
    → EndsIn w bs
    → (k : ℕ) × (k < 8) × (bits_of (encode_loop w n ss) ≡ bs ++ codes ss ++ ones k)
unfolding encode_loop codes
encode_loop-bits [] w n bs a l h e =
    let (k, small, p) = last_byte-bits w bs (omega (arith, l, h)) e in
    (
      k,
      small,
      ap (λ m. bits_of (last_byte w m)) (sym l) ∙ p ∙ ap (λ t. t ++ ones k) (sym (append-nil bs)),
    )
encode_loop-bits (s ∷ ss) w n bs a l h e =
    let c = code (entry s) in
    let hs = entry-IsEntry s (omega (arith, a.0)) in
    let lc = length-code (entry s) in
    let vc = value-code (entry s) hs in
    let w' = w * 2 ^ (entry s).numbits % 2 ^ 64 + (entry s).bits in
    let m : length (bs ++ c) ≡ n + (entry s).numbits = omega (arith, length-append bs c, lc, l) in
    let ends : EndsIn w' (bs ++ c) =
      ap (λ t. (w * 2 ^ t % 2 ^ 64 + (entry s).bits) % 2 ^ length (bs ++ c)) (sym lc)
      ∙ ap (λ t. (w * 2 ^ length c % 2 ^ 64 + t) % 2 ^ length (bs ++ c)) (sym vc)
      ∙ shift_in w bs c (omega (arith, m, h, hs.thirty)) e in
    let (cs, p, q, r, t) = flush-bits (n + (entry s).numbits) w' (bs ++ c) m ends in
    let out = flush w' (n + (entry s).numbits) in
    let (k, small, rest) = encode_loop-bits ss w' out.1 cs a.1 (sym q) (omega (arith, q, r)) t in
    (
      k,
      small,
      bits_of-append out.0 (encode_loop w' out.1 ss)
          ∙ ap (λ us. bits_of out.0 ++ us) rest
          ∙ regroup (bits_of out.0) cs (codes ss) (ones k)
          ∙ ap (λ us. us ++ codes ss ++ ones k) (sym p)
          ∙ ap (λ us. us ++ ones k) (append_assoc bs c (codes ss)),
    )

-- The bits of what encode_huffman writes for some bytes.
pub encode_huffman-bits :
    (ss : List ℕ)
    → All IsByte ss
    → (k : ℕ) × (k < 8) × (bits_of (encode_huffman ss) ≡ codes ss ++ ones k)
unfolding encode_huffman
encode_huffman-bits ss a = encode_loop-bits ss 0 0 [] a refl (omega arith) (unfold value in refl)

filling_byte : (w k : ℕ) → k < 8 → w * 2 ^ k % 256 + (2 ^ k - 1) < 256
filling_byte w zero h = omega arith
filling_byte w (suc zero) h = omega arith
filling_byte w (suc (suc zero)) h = omega arith
filling_byte w (suc (suc (suc zero))) h = omega arith
filling_byte w (suc (suc (suc (suc zero)))) h = omega arith
filling_byte w (suc (suc (suc (suc (suc zero))))) h = omega arith
filling_byte w (suc (suc (suc (suc (suc (suc zero)))))) h = omega arith
filling_byte w (suc (suc (suc (suc (suc (suc (suc zero))))))) h = omega arith
filling_byte w (suc (suc (suc (suc (suc (suc (suc (suc k)))))))) h = absurd (omega arith)

last_byte-IsByte : (w n : ℕ) → All IsByte (last_byte w n)
unfolding last_byte
last_byte-IsByte w zero = tt
last_byte-IsByte w (suc n) = (filling_byte w (8 - suc n) (omega arith), tt)

flush-IsByte : (n w : ℕ) → All IsByte (flush w n).0
unfolding flush
flush-IsByte (suc (suc (suc (suc (suc (suc (suc (suc n)))))))) w =
    (mod-lt (w / 2 ^ n) (omega arith), flush-IsByte n w)
flush-IsByte n w = tt

encode_loop-IsByte : (ss : List ℕ) (w n : ℕ) → All IsByte (encode_loop w n ss)
unfolding encode_loop
encode_loop-IsByte [] w n = last_byte-IsByte w n
encode_loop-IsByte (s ∷ ss) w n =
    let w' = w * 2 ^ (entry s).numbits % 2 ^ 64 + (entry s).bits in
    let out = flush w' (n + (entry s).numbits) in
    All-append IsByte out.0 (encode_loop w' out.1 ss) (flush-IsByte (n + (entry s).numbits) w')
      (encode_loop-IsByte ss w' out.1)

pub encode_huffman-IsByte : (ss : List ℕ) → All IsByte (encode_huffman ss)
unfolding encode_huffman
encode_huffman-IsByte ss = encode_loop-IsByte ss 0 0
