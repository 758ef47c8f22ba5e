-- ===== src/Http2/Hpack/Integer/Masks.antt =====
-- The first byte: `hibits` over an integer of `numbits` bits.
use http_2_0_server.Base.{
  ℕ, zero, suc, ◌+◌, ◌*◌, ◌/◌, ◌%◌, ◌^◌, ◌≤◌, ◌<◌, ◌≡◌, refl, ◌∙◌, bit_and, bit_or, arith,
}
use native.Mathlib.Nat.{div-add-mod', add-mul-mod_self_right, mod-eq_of_lt}
use http_2_0_server.Base.Bits.{agree_below, agree_below→eq}
use http_2_0_server.Http2.Hpack.Integer.{mask}

-- `hibits` leaves the low `numbits` bits free.
pub record IsField (hibits numbits : ℕ) : Type 0 where
  pub some_bit : 1 ≤ numbits
  pub in_byte : numbits ≤ 7
  pub high_byte : hibits < 256
  pub high : hibits % 2 ^ numbits ≡ 0

abbrev split_or : ℕ → ℕ → ℕ
split_or n b = bit_or (b % 2 ^ n) (b / 2 ^ n * 2 ^ n)

-- What masking and joining do for a field of `n` bits, by tables over all bytes.
abbrev Tables : ℕ → Type 0
Tables n =
    (c : ℕ) × (c * 2 ^ n ≡ 256)
    × ((b : ℕ) → b < 256 → split_or n b ≡ b)
    × ((b : ℕ) → b < 256 → bit_and b (mask n) ≡ b % 2 ^ n)

tables : (n : ℕ) → 1 ≤ n → n ≤ 7 → Tables n
unfolding agree_below
tables zero l h = absurd (omega arith)
tables (suc zero) l h = (128, refl, agree_below→eq _ _ 256 refl, agree_below→eq _ _ 256 refl)
tables (suc (suc zero)) l h = (64, refl, agree_below→eq _ _ 256 refl, agree_below→eq _ _ 256 refl)
tables (suc (suc (suc zero))) l h =
    (32, refl, agree_below→eq _ _ 256 refl, agree_below→eq _ _ 256 refl)
tables (suc (suc (suc (suc zero)))) l h =
    (16, refl, agree_below→eq _ _ 256 refl, agree_below→eq _ _ 256 refl)
tables (suc (suc (suc (suc (suc zero))))) l h =
    (8, refl, agree_below→eq _ _ 256 refl, agree_below→eq _ _ 256 refl)
tables (suc (suc (suc (suc (suc (suc zero)))))) l h =
    (4, refl, agree_below→eq _ _ 256 refl, agree_below→eq _ _ 256 refl)
tables (suc (suc (suc (suc (suc (suc (suc zero))))))) l h =
    (2, refl, agree_below→eq _ _ 256 refl, agree_below→eq _ _ 256 refl)
tables (suc (suc (suc (suc (suc (suc (suc (suc n)))))))) l h = absurd (omega arith)

below_multiple : (P c q : ℕ) → 0 < P → q * P < c * P → q * P + P ≤ c * P
below_multiple P zero q p h = absurd (omega (arith, h))
below_multiple P (suc c) zero p h = omega arith
below_multiple P (suc c) (suc q) p h = omega (arith, below_multiple P c q p (omega (arith, h)))

-- With P = 2 ^ numbits: a value below P and a multiple of P share no bits.
parts_of_sum :
    (P c v h : ℕ)
    → 0 < P
    → c * P ≡ 256
    → v < P
    → h < 256
    → h % P ≡ 0
    → (v + h < 256) × ((v + h) % P ≡ v) × ((v + h) / P * P ≡ h)
parts_of_sum P c v h p c256 l b m =
    let e : h / P * P ≡ h = omega (arith, div-add-mod' h P) in
    let r : (v + h) % P ≡ v = rw (← e) (add-mul-mod_self_right v (h / P) P ∙ mod-eq_of_lt l) in
    let q : (v + h) / P * P ≡ h = omega (arith, div-add-mod' (v + h) P, r) in
    let fits : v + h < 256 = omega (arith, below_multiple P c (h / P) p) in (fits, r, q)

factor_bounds : (c P : ℕ) → c * P ≡ 256 → (0 < P) × (P ≤ 256)
factor_bounds zero P e = absurd (omega (arith, e))
factor_bounds (suc c) zero e = absurd (omega (arith, e))
factor_bounds (suc c) (suc P) e = (omega arith, omega (arith, e))

module _ (hibits numbits : ℕ) (f : IsField hibits numbits) where
  pub mask-pow : mask numbits + 1 ≡ 2 ^ numbits
  mask-pow =
      let (c, e, split, low) = tables numbits f.some_bit f.in_byte in
      omega (arith, factor_bounds c (2 ^ numbits) e)

  -- The low bits of a byte.
  pub bit_and-mask : (b : ℕ) → b < 256 → bit_and b (mask numbits) ≡ b % 2 ^ numbits
  bit_and-mask = (tables numbits f.some_bit f.in_byte).3

  -- Joining a small value to `hibits` gives a byte, from which the mask takes the value back.
  pub bit_or-hibits :
      (v : ℕ)
      → v < 2 ^ numbits
      → (bit_or v hibits < 256) × (bit_and (bit_or v hibits) (mask numbits) ≡ v)
  bit_or-hibits v l =
      let (c, e, split, low) = tables numbits f.some_bit f.in_byte in
      let (small, r, q) =
        parts_of_sum (2 ^ numbits) c v hibits (factor_bounds c _ e).0 e l f.high_byte f.high in
      let j : bit_or v hibits ≡ v + hibits = rw (r, q) at (split (v + hibits) small) in
      (omega (arith, j), rw (bit_and-mask (bit_or v hibits) (omega (arith, j)), j) r)
