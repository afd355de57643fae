-- ===== src/Prelude/Bits.antt =====
-- The lowest binary digit, as a mask reads it.
use Prim.Native.Nat.{ℕ, zero, suc, ◌/◌, ◌%◌, min, bit_and, bit_and-bitwise, digits}
use mathlib.Core.Path.{◌≡◌, refl, ◌∙◌}
use native.Mathlib.Omega.{arith}

digits-zero : (n a : ℕ) → digits (λ b. zero) min n a 0 ≡ 0
digits-zero zero a = refl
digits-zero (suc n) zero = refl
digits-zero (suc n) (suc a) = omega (arith, digits-zero n (suc a / 2))

pub bit_and_one : (a : ℕ) → bit_and a 1 ≡ a % 2
bit_and_one zero = λ i. bit_and-bitwise 0 1 i
bit_and_one (suc a) = (λ i. bit_and-bitwise (suc a) 1 i) ∙ omega (arith, digits-zero a (suc a / 2))
