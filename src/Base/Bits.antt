-- ===== src/Base/Bits.antt =====
-- The one fact about the native bitwise "and" that masks need: it is at most its right argument.
use Prim.Native.Nat.{ℕ, zero, suc, ◌/◌, ◌≤◌, min, bit_and, digits, bit_and-bitwise}
use native.Mathlib.Omega.{arith}

digits-le : (n a b : ℕ) → digits (λ b. zero) min n a b ≤ b
digits-le zero a b = omega arith
digits-le (suc n) zero b = omega arith
digits-le (suc n) (suc a) b = omega (arith, digits-le n (suc a / 2) (b / 2))

pub bit_and-le_right : (a b : ℕ) → bit_and a b ≤ b
bit_and-le_right zero b = omega (arith, bit_and-bitwise 0 b)
bit_and-le_right (suc a) b = omega (arith, bit_and-bitwise (suc a) b, digits-le (suc a) (suc a) b)
