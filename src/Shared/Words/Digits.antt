-- ===== src/Shared/Words/Digits.antt =====
-- The native `|` and `&` go through `digits`, with fuel. One equation each for the lowest digit.
use Prim.Native.Nat.{ℕ, zero, suc, ◌+◌, ◌*◌, ◌/◌, ◌%◌, ◌≤◌, min, max, bit_and, bit_or}
use Prim.Native.Nat.{digits, bitwise, bit_and-bitwise, bit_or-bitwise}
use mathlib.Core.Path.{◌≡◌, refl}
use native.Mathlib.Omega.{arith}
use native.Mathlib.Nat.{le_refl}

module _ (left_over : ℕ → ℕ) (f : ℕ → ℕ → ℕ) where
  fuel_irrelevant :
      (i j a b : ℕ) → a ≤ i → a ≤ j → digits left_over f i a b ≡ digits left_over f j a b
  fuel_irrelevant zero zero a b hi hj = refl
  fuel_irrelevant zero (suc j) zero b hi hj = refl
  fuel_irrelevant zero (suc j) (suc a) b hi hj = absurd (omega arith)
  fuel_irrelevant (suc i) zero zero b hi hj = refl
  fuel_irrelevant (suc i) zero (suc a) b hi hj = absurd (omega arith)
  fuel_irrelevant (suc i) (suc j) zero b hi hj = refl
  fuel_irrelevant (suc i) (suc j) (suc a) b hi hj =
      rw (fuel_irrelevant i j (suc a / 2) (b / 2) (omega arith) (omega arith))

  bitwise_lowest :
      (a b : ℕ)
      → bitwise left_over f (suc a) b
        ≡ bitwise left_over f (suc a / 2) (b / 2) * 2 + f (suc a % 2) (b % 2)
  bitwise_lowest a b =
      omega (arith, fuel_irrelevant a (suc a / 2) (suc a / 2) (b / 2) (omega arith) (le_refl _))

pub bit_or_lowest : (a b : ℕ) → bit_or a b ≡ bit_or (a / 2) (b / 2) * 2 + max (a % 2) (b % 2)
bit_or_lowest zero b = simp bit_or-bitwise (omega arith)
bit_or_lowest (suc a) b = simp bit_or-bitwise (bitwise_lowest (λ y. y) max a b)

pub bit_and_lowest : (a b : ℕ) → bit_and a b ≡ bit_and (a / 2) (b / 2) * 2 + min (a % 2) (b % 2)
bit_and_lowest zero b = simp bit_and-bitwise (omega arith)
bit_and_lowest (suc a) b = simp bit_and-bitwise (bitwise_lowest (λ y. 0) min a b)
