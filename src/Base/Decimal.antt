-- ===== src/Base/Decimal.antt =====
-- std::to_string on a number.
use http_2_0_server.Base.{
  ℕ, zero, suc, ◌+◌, ◌/◌, ◌%◌, ◌^◌, ◌≤◌, ◌<◌, ◌≡◌, true, List, [], ◌∷◌, length, All, arith, ◌==◌,
  if◌then◌else◌, Bool-cases, inl, inr,
}
use http_2_0_server.Base.Bits.{IsByte}

-- The decimal digits in front of `digits`.
unfoldable pub decimal : ℕ → ℕ → List ℕ → List ℕ
decimal zero n digits = digits
decimal (suc fuel) n digits =
    let more = decimal fuel (n / 10) ((n % 10 + 48) ∷ digits) in
    if n / 10 == 0 then (n % 10 + 48) ∷ digits else more

unfoldable pub to_string : ℕ → List ℕ
to_string n = decimal (suc n) n []

-- One digit more for each factor of ten.
decimal_bounds :
    (fuel k n : ℕ) (digits : List ℕ)
    → n < 10 ^ suc k
    → All IsByte digits
    → All IsByte (decimal fuel n digits) × (length (decimal fuel n digits) ≤ suc k + length digits)
unfolding decimal
decimal_bounds zero k n digits l b = (b, omega arith)
decimal_bounds (suc fuel) zero n digits l b =
    let last : (n / 10 == 0) ≡ true = ground (arith, l) in
    rw last (let byte : n % 10 + 48 < 256 = omega arith in ((byte, b), omega arith))
decimal_bounds (suc fuel) (suc k) n digits l b = elim (Bool-cases (n / 10 == 0)) [
  | inl last ↦ rw last (let byte : n % 10 + 48 < 256 = omega arith in ((byte, b), omega arith))
  | inr more ↦
      let byte : n % 10 + 48 < 256 = omega arith in
      let (bytes, short) =
        decimal_bounds fuel k (n / 10) ((n % 10 + 48) ∷ digits) (omega (arith, l)) (byte, b) in
      rw more (bytes, omega (arith, short))
]

-- A number of 64 bits has 20 digits at most.
pub to_string_bounds : (n : ℕ) → n < 2 ^ 64 → All IsByte (to_string n) × (length (to_string n) ≤ 20)
unfolding to_string
to_string_bounds n l = decimal_bounds (suc n) 19 n [] (omega (arith, l)) tt
