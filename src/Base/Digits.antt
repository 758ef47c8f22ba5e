-- ===== src/Base/Digits.antt =====
-- Numbers as lists of bits, the most significant first.
use Prim.Native.Nat.{ℕ, zero, suc, ◌+◌, ◌*◌, ◌/◌, ◌%◌, ◌^◌, ◌<◌, ◌≤◌}
use mathlib.Core.Path.{◌≡◌, refl, ap, sym, ◌∙◌}
use mathlib.Core.Bool.{Bool, true, false}
use mathlib.Core.List.{List, [], ◌∷◌, ◌++◌, append_assoc}
use native.Mathlib.Nat.{div-add-mod', mod-lt, pow-suc, mod-eq_of_lt}
use native.Mathlib.Omega.{arith}
use http_2_0_server.Base.Tests.{◌==◌}
use http_2_0_server.Base.Lists.{length, length-append}
use http_2_0_server.Base.Powers.{pow_add, pow_pos, upper, lower}

abbrev pub bit : Bool → ℕ
bit true = 1
bit false = 0

unfoldable pub value : List Bool → ℕ
value [] = 0
value (b ∷ bs) = bit b * 2 ^ length bs + value bs

unfoldable pub digits : ℕ → ℕ → List Bool
digits zero w = []
digits (suc n) w = (w / 2 ^ n % 2 == 1) ∷ digits n w

pub length-digits : (n w : ℕ) → length (digits n w) ≡ n
unfolding digits
length-digits zero w = refl
length-digits (suc n) w = omega (arith, length-digits n w)

double : (n : ℕ) → 2 ^ suc n ≡ 2 ^ n + 2 ^ n
double n = omega (arith, pow-suc 2 n)

pub value-lt : (bs : List Bool) → value bs < 2 ^ length bs
unfolding value
value-lt [] = omega arith
value-lt (true ∷ bs) = omega (arith, double (length bs), value-lt bs)
value-lt (false ∷ bs) = omega (arith, double (length bs), value-lt bs)

pub value-append : (xs ys : List Bool) → value (xs ++ ys) ≡ value xs * 2 ^ length ys + value ys
unfolding value
value-append [] ys = omega arith
value-append (true ∷ xs) ys = omega (
  arith,
  value-append xs ys,
  pow_add (length xs) (length ys),
  ap (λ n. 2 ^ n) (length-append xs ys),
)
value-append (false ∷ xs) ys = omega (arith, value-append xs ys)

bit_of : (q : ℕ) → bit (q % 2 == 1) ≡ q % 2
bit_of q = ground arith

one_bit : (b p r : ℕ) → b < 2 → r < p → b * p + r < p + p
one_bit zero p r h l = omega arith
one_bit (suc zero) p r h l = omega arith
one_bit (suc (suc b)) p r h l = absurd (omega arith)

-- One more bit.
mod_double : (n w : ℕ) → w % 2 ^ suc n ≡ w / 2 ^ n % 2 * 2 ^ n + w % 2 ^ n
mod_double n w =
    let q = w / 2 ^ n in
    let r = w % 2 ^ n in
    let low = mod-lt w (pow_pos n) in
    let u = q % 2 * 2 ^ n + r in
    let small : u < 2 ^ suc n =
      omega (arith, double n, one_bit (q % 2) (2 ^ n) r (omega arith) low) in
    let whole : w ≡ q / 2 * 2 ^ suc n + u = omega (
      arith,
      div-add-mod' w (2 ^ n),
      ap (λ t. t * 2 ^ n) (div-add-mod' q 2),
      ap (λ t. q / 2 * t) (pow-suc 2 n),
    ) in
    ap (λ t. t % 2 ^ suc n) whole ∙ lower (suc n) (q / 2) u small

pub value-digits : (n w : ℕ) → value (digits n w) ≡ w % 2 ^ n
unfolding value digits
value-digits zero w = omega arith
value-digits (suc n) w =
    rw (length-digits n w, bit_of (w / 2 ^ n), value-digits n w) (sym (mod_double n w))

-- Lists of one length with one value are equal.
pub value_inj : (xs ys : List Bool) → length xs ≡ length ys → value xs ≡ value ys → xs ≡ ys
unfolding value
value_inj [] [] l e = refl
value_inj [] (y ∷ ys) l e = absurd (omega arith)
value_inj (x ∷ xs) [] l e = absurd (omega arith)
value_inj (true ∷ xs) (true ∷ ys) l e =
    let k : length xs ≡ length ys = omega arith in
    ap (◌∷◌ true) (value_inj xs ys k (omega (arith, ap (λ n. 2 ^ n) k)))
value_inj (false ∷ xs) (false ∷ ys) l e =
    ap (◌∷◌ false) (value_inj xs ys (omega arith) (omega arith))
value_inj (true ∷ xs) (false ∷ ys) l e =
    let k : length xs ≡ length ys = omega arith in
    absurd (omega (arith, e, ap (λ n. 2 ^ n) k, value-lt ys))
value_inj (false ∷ xs) (true ∷ ys) l e =
    let k : length xs ≡ length ys = omega arith in
    absurd (omega (arith, e, ap (λ n. 2 ^ n) k, value-lt xs))

-- The upper and the lower part of the value of two lists.
pub value_upper : (xs ys : List Bool) → value (xs ++ ys) / 2 ^ length ys ≡ value xs
value_upper xs ys =
    ap (λ v. v / 2 ^ length ys) (value-append xs ys)
    ∙ upper (length ys) (value xs) (value ys) (value-lt ys)

pub value_lower : (xs ys : List Bool) → value (xs ++ ys) % 2 ^ length ys ≡ value ys
value_lower xs ys =
    ap (λ v. v % 2 ^ length ys) (value-append xs ys)
    ∙ lower (length ys) (value xs) (value ys) (value-lt ys)

-- Of two beginnings of one list, one is a beginning of the other.
pub beginnings :
    (xs bs us vs : List Bool)
    → xs ++ us ≡ bs ++ vs
    → length xs ≤ length bs
    → (es : List Bool) × (bs ≡ xs ++ es) × (us ≡ es ++ vs)
beginnings [] bs us vs e l = (bs, refl, e)
beginnings (a ∷ xs) [] us vs e l = absurd (omega arith)
beginnings (a ∷ xs) (b ∷ bs) us vs e l =
    let h : a ≡ b = cc in
    let t : xs ++ us ≡ bs ++ vs = cc in
    let (es, p, q) = beginnings xs bs us vs t (omega arith) in (es, cc, q)

pub value_back : (bs : List Bool) (n w : ℕ) → length bs ≡ n → value bs ≡ w → digits n w ≡ bs
value_back bs n w l e =
    let small : w < 2 ^ n = omega (arith, value-lt bs, e, ap (λ k. 2 ^ k) l) in
    value_inj (digits n w) bs (length-digits n w ∙ sym l)
      (value-digits n w ∙ mod-eq_of_lt small ∙ sym e)

abbrev pub ones : ℕ → List Bool
ones zero = []
ones (suc n) = true ∷ ones n

pub length-ones : (n : ℕ) → length (ones n) ≡ n
length-ones zero = refl
length-ones (suc n) = ap suc (length-ones n)

pub value-ones : (n : ℕ) → value (ones n) + 1 ≡ 2 ^ n
unfolding value
value-ones zero = omega arith
value-ones (suc n) = omega (arith, value-ones n, double n, ap (λ k. 2 ^ k) (length-ones n))

-- The bits of a list of bytes.
unfoldable pub bits_of : List ℕ → List Bool
bits_of [] = []
bits_of (b ∷ bs) = digits 8 b ++ bits_of bs

pub bits_of-append : (xs ys : List ℕ) → bits_of (xs ++ ys) ≡ bits_of xs ++ bits_of ys
unfolding bits_of
bits_of-append [] ys = refl
bits_of-append (x ∷ xs) ys =
    ap (λ t. digits 8 x ++ t) (bits_of-append xs ys)
    ∙ sym (append_assoc (digits 8 x) (bits_of xs) (bits_of ys))
