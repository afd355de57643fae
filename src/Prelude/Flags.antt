-- ===== src/Prelude/Flags.antt =====
-- Numbers by their binary digits, the lowest first, and what a mask leaves of them.
use Prim.Native.Nat.{
  ℕ, zero, suc, ◌+◌, ◌-◌, ◌*◌, ◌/◌, ◌%◌, ◌<◌, ◌≤◌, min, bit_and, bit_and-bitwise, digits,
}
use mathlib.Core.Path.{◌≡◌, refl, sym, ap, ◌∙◌}
use native.Mathlib.Omega.{arith}
use mathlib.Core.Bool.{Bool, true, false, not, ◌&&◌}
use mathlib.Core.List.{List, [], ◌∷◌}
use wasm_rdp.Prelude.Tests.{◌==◌}

abbrev pub bit_if : Bool → ℕ → ℕ
bit_if true mask = mask
bit_if false mask = 0

unfoldable pub from_bits : List Bool → ℕ
from_bits [] = 0
from_bits (b ∷ bs) = bit_if b 1 + 2 * from_bits bs

-- The digits of a mask that are set in a number.
unfoldable pub masked_bits : List Bool → List Bool → List Bool
masked_bits [] bs = []
masked_bits (m ∷ ms) [] = []
masked_bits (m ∷ ms) (b ∷ bs) = (m && b) ∷ masked_bits ms bs

abbrev anded : ℕ → ℕ → ℕ → ℕ
anded n a m = digits (λ b. zero) min n a m

anded-zero : (n m : ℕ) → anded n 0 m ≡ 0
anded-zero zero m = refl
anded-zero (suc n) m = refl

anded-step : (n a m : ℕ) → anded (suc n) a m ≡ anded n (a / 2) (m / 2) * 2 + min (a % 2) (m % 2)
anded-step n zero m = omega (arith, anded-zero n (m / 2))
anded-step n (suc a) m = refl

-- One digit to go more than there are changes nothing.
anded-suc : (n a m : ℕ) → a ≤ n → anded (suc n) a m ≡ anded n a m
anded-suc zero zero m h = refl
anded-suc zero (suc a) m h = absurd (omega arith)
anded-suc (suc n) a m h =
    anded-step (suc n) a m
    ∙ ap (λ q. q * 2 + min (a % 2) (m % 2)) (anded-suc n (a / 2) (m / 2) (omega arith))
    ∙ sym (anded-step n a m)

anded-more : (j n a m : ℕ) → a ≤ n → anded (j + n) a m ≡ anded n a m
anded-more zero n a m h = ap (λ k. anded k a m) (omega arith)
anded-more (suc j) n a m h =
    ap (λ k. anded k a m) one_more ∙ anded-suc (j + n) a m (omega arith) ∙ anded-more j n a m h
  where
    one_more : suc j + n ≡ suc (j + n)
    one_more = omega arith

bit_and-step : (a m : ℕ) → bit_and a m ≡ bit_and (a / 2) (m / 2) * 2 + min (a % 2) (m % 2)
bit_and-step a m =
    (λ i. bit_and-bitwise a m i)
    ∙ sym (anded-suc a a m (omega arith))
    ∙ anded-step a a m
    ∙ ap (λ q. q * 2 + min (a % 2) (m % 2))
        (ap (λ k. anded k (a / 2) (m / 2)) (omega arith)
          ∙ anded-more (a - a / 2) (a / 2) (a / 2) (m / 2) (omega arith)
          ∙ sym (λ i. bit_and-bitwise (a / 2) (m / 2) i))

anded-none : (n a : ℕ) → anded n a 0 ≡ 0
anded-none zero a = refl
anded-none (suc n) a = anded-step n a 0 ∙ omega (arith, anded-none n (a / 2))

bit_and-zero : (a : ℕ) → bit_and a 0 ≡ 0
bit_and-zero a = (λ i. bit_and-bitwise a 0 i) ∙ anded-none a a

min-bits :
    (b m : Bool) (x y : ℕ)
    → min ((bit_if b 1 + 2 * x) % 2) ((bit_if m 1 + 2 * y) % 2) ≡ bit_if (m && b) 1
min-bits true true x y = omega arith
min-bits true false x y = omega arith
min-bits false true x y = omega arith
min-bits false false x y = omega arith

half : (b : Bool) (x : ℕ) → (bit_if b 1 + 2 * x) / 2 ≡ x
half true x = omega arith
half false x = omega arith

pub bit_and-from_bits :
    (bs ms : List Bool) → bit_and (from_bits bs) (from_bits ms) ≡ from_bits (masked_bits ms bs)
unfolding from_bits masked_bits
bit_and-from_bits bs [] = bit_and-zero (from_bits bs)
bit_and-from_bits [] (m ∷ ms) = λ i. bit_and-bitwise 0 (from_bits (m ∷ ms)) i
bit_and-from_bits (b ∷ bs) (m ∷ ms) =
    bit_and-step (bit_if b 1 + 2 * from_bits bs) (bit_if m 1 + 2 * from_bits ms)
    ∙ (λ i.
        bit_and (half b (from_bits bs) i) (half m (from_bits ms) i) * 2
        + min-bits b m (from_bits bs) (from_bits ms) i)
    ∙ ap (λ q. q * 2 + bit_if (m && b) 1) (bit_and-from_bits bs ms)
    ∙ omega arith

-- The mask of one digit.
unfoldable pub one_bit : ℕ → List Bool
one_bit zero = true ∷ []
one_bit (suc k) = false ∷ one_bit k

-- The digit at a place.
abbrev pub bit_at : List Bool → ℕ → Bool
bit_at [] k = false
bit_at (b ∷ bs) zero = b
bit_at (b ∷ bs) (suc k) = bit_at bs k

pub masked_bits-one_bit :
    (bs : List Bool) (k : ℕ) → (from_bits (masked_bits (one_bit k) bs) == 0) ≡ not (bit_at bs k)
unfolding from_bits masked_bits one_bit
masked_bits-one_bit [] zero = refl
masked_bits-one_bit [] (suc k) = refl
masked_bits-one_bit (true ∷ bs) zero = refl
masked_bits-one_bit (false ∷ bs) zero = refl
masked_bits-one_bit (b ∷ bs) (suc k) =
    double (from_bits (masked_bits (one_bit k) bs)) ∙ masked_bits-one_bit bs k
  where
    double : (n : ℕ) → (0 + 2 * n == 0) ≡ (n == 0)
    double n = ground arith

unfoldable pub bound : List Bool → ℕ
bound [] = 1
bound (b ∷ bs) = 2 * bound bs

pub from_bits-lt : (bs : List Bool) → from_bits bs < bound bs
unfolding from_bits bound
from_bits-lt [] = omega arith
from_bits-lt (true ∷ bs) = omega (arith, from_bits-lt bs)
from_bits-lt (false ∷ bs) = omega (arith, from_bits-lt bs)
