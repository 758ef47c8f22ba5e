-- ===== src/Base/Bits.antt =====
-- Masks on one byte as arithmetic; each law is a table over all bytes, checked by evaluation.
use Prim.Native.Nat.{ℕ, zero, suc, ◌+◌, ◌-◌, ◌*◌, ◌/◌, ◌%◌, ◌<◌, bit_and, bit_or, bit_xor}
use mathlib.Core.Path.{◌≡◌, refl}
use mathlib.Core.Bool.{Bool, true, ◌&&◌}
use native.Mathlib.Omega.{arith}
use http_2_0_server.Base.Tests.{◌==◌}

abbrev pub IsByte : ℕ → Type 0
IsByte b = b < 256

unfoldable pub agree_below : (f g : ℕ → ℕ) → ℕ → Bool
agree_below f g zero = true
agree_below f g (suc n) = (f n == g n) && agree_below f g n

pub agree_below→eq : (f g : ℕ → ℕ) (n : ℕ) → agree_below f g n ≡ true → (b : ℕ) → b < n → f b ≡ g b
unfolding agree_below
agree_below→eq f g zero e b h = absurd (omega arith)
agree_below→eq f g (suc n) e b h = ground (arith, agree_below→eq f g n (ground arith) b)

-- `b & 0x01`, the flags ACK and END_STREAM.
pub bit_and_1 : (b : ℕ) → b < 256 → bit_and b 0x01 ≡ b % 2
unfolding agree_below
bit_and_1 = agree_below→eq _ _ 256 refl

-- `b & 0x04`, the flag END_HEADERS.
pub bit_and_4 : (b : ℕ) → b < 256 → bit_and b 0x04 ≡ b / 4 % 2 * 4
unfolding agree_below
bit_and_4 = agree_below→eq _ _ 256 refl

-- `b & 0x08`, the flag PADDED.
pub bit_and_8 : (b : ℕ) → b < 256 → bit_and b 0x08 ≡ b / 8 % 2 * 8
unfolding agree_below
bit_and_8 = agree_below→eq _ _ 256 refl

-- `b & 0x20`, the flag PRIORITY.
pub bit_and_32 : (b : ℕ) → b < 256 → bit_and b 0x20 ≡ b / 32 % 2 * 32
unfolding agree_below
bit_and_32 = agree_below→eq _ _ 256 refl

pub bit_and_127 : (b : ℕ) → b < 256 → bit_and b 0x7f ≡ b % 128
unfolding agree_below
bit_and_127 = agree_below→eq _ _ 256 refl

pub bit_and_128 : (b : ℕ) → b < 256 → bit_and b 0x80 ≡ b / 128 * 128
unfolding agree_below
bit_and_128 = agree_below→eq _ _ 256 refl

pub bit_or_128 : (b : ℕ) → b < 128 → bit_or 0x80 b ≡ b + 128
unfolding agree_below
bit_or_128 = agree_below→eq _ _ 128 refl

pub bit_xor_1 : (b : ℕ) → b < 256 → bit_xor b 0x01 ≡ b / 2 * 2 + (1 - b % 2)
unfolding agree_below
bit_xor_1 = agree_below→eq _ _ 256 refl

pub bit_or_1 : (b : ℕ) → b < 256 → bit_or b 0x01 ≡ b / 2 * 2 + 1
unfolding agree_below
bit_or_1 = agree_below→eq _ _ 256 refl
