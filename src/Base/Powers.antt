-- ===== src/Base/Powers.antt =====
-- Powers of two, as shifts and masks use them.
use Prim.Native.Nat.{ℕ, zero, suc, ◌+◌, ◌*◌, ◌/◌, ◌%◌, ◌^◌, ◌<◌}
use mathlib.Core.Path.{◌≡◌, ap, sym, ◌∙◌}
use native.Mathlib.Nat.{
  pow-suc, one-le-pow, add-mul-div_right, add-mul-mod_self_right, div-eq_of_lt, mod-eq_of_lt,
  add-zero, mul_assoc, div-add-mod',
}
use native.Mathlib.Omega.{arith}

pub pow_add : (a b : ℕ) → 2 ^ (a + b) ≡ 2 ^ a * 2 ^ b
pow_add a zero = omega (arith, ap (λ t. 2 ^ t) (add-zero a))
pow_add a (suc b) =
    let e : a + suc b ≡ suc (a + b) = omega arith in
    ap (λ t. 2 ^ t) e
    ∙ pow-suc 2 (a + b)
    ∙ ap (λ t. t * 2) (pow_add a b)
    ∙ mul_assoc (2 ^ a) (2 ^ b) 2
    ∙ ap (λ t. 2 ^ a * t) (sym (pow-suc 2 b))

pub pow_pos : (a : ℕ) → 0 < 2 ^ a
pow_pos a = omega (arith, one-le-pow a 2)

-- The upper and the lower part of a number whose lower part has `a` bits.
pub upper : (a c u : ℕ) → u < 2 ^ a → (c * 2 ^ a + u) / 2 ^ a ≡ c
upper a c u h =
    let e : c * 2 ^ a + u ≡ u + c * 2 ^ a = omega arith in
    rw (e, add-mul-div_right u c (pow_pos a), div-eq_of_lt h) (omega arith)

pub lower : (a c u : ℕ) → u < 2 ^ a → (c * 2 ^ a + u) % 2 ^ a ≡ u
lower a c u h =
    let e : c * 2 ^ a + u ≡ u + c * 2 ^ a = omega arith in
    rw (e, add-mul-mod_self_right u c (2 ^ a), mod-eq_of_lt h)

-- A shifted number in two parts, the lower one of `n` bits.
pub shift_parts : (n w s : ℕ) → w * 2 ^ s ≡ w / 2 ^ n * 2 ^ (n + s) + w % 2 ^ n * 2 ^ s
shift_parts n w s =
    let whole = ap (λ t. t * 2 ^ s) (div-add-mod' w (2 ^ n)) in
    omega (arith, whole, ap (λ t. w / 2 ^ n * t) (pow_add n s))

-- The low bits of the low bits.
pub low_low : (d k w : ℕ) → w % 2 ^ (d + k) % 2 ^ k ≡ w % 2 ^ k
low_low d k w =
    let r = w % 2 ^ (d + k) in
    let q = w / 2 ^ (d + k) in
    let whole : w ≡ r + q * 2 ^ d * 2 ^ k =
      omega (arith, div-add-mod' w (2 ^ (d + k)), ap (λ t. q * t) (pow_add d k)) in
    sym (ap (λ t. t % 2 ^ k) whole ∙ add-mul-mod_self_right r (q * 2 ^ d) (2 ^ k))
