-- ===== src/Prelude/Words.antt =====
-- Machine integers. An `int` is its 32-bit two's complement pattern, a number below 2^32.
use Prim.Native.Nat.{ℕ, zero, suc, ◌+◌, ◌%◌, ◌/◌, ◌^◌, ◌≤◌, bit_and, digits, bit_and-bitwise, min}
use mathlib.Core.Bool.{Bool, ◌&&◌, not}
use conntop.Prelude.Tests.{ltb, ◌==◌}
use native.Mathlib.Omega.{arith}

-- `x > 0` for an `int` in two's complement.
abbrev pub is_positive : ℕ → Bool
is_positive x = ltb 0 x && ltb x (2 ^ 31)

abbrev pub add32 : ℕ → ℕ → ℕ
add32 a b = (a + b) % 2 ^ 32

-- `flags & flag` as a condition.
abbrev pub has_flag : ℕ → ℕ → Bool
has_flag flags flag = not (bit_and flags flag == 0)

min_le_left : (a b : ℕ) → min a b ≤ a
min_le_left a b = omega arith

digits_le : (n a b : ℕ) → digits (λ b. zero) min n a b ≤ a
digits_le zero a b = omega arith
digits_le (suc n) zero b = omega arith
digits_le (suc n) (suc a) b =
    omega (arith, digits_le n (suc a / 2) (b / 2), min_le_left (suc a % 2) (b % 2))

-- No digit is set that the first number has not.
pub bit_and_le : (a b : ℕ) → bit_and a b ≤ a
bit_and_le a b = rw (bit_and-bitwise a b) (digits_le a a b)
