-- ===== src/Prelude/Bits/Step.antt =====
-- The native bit operations stand for a recursion on binary digits with fuel. Here the fuel is
-- dropped: one equation for the lowest digit of each.
use Prim.Native.Nat.{
  ℕ, zero, suc, ◌+◌, ◌*◌, ◌/◌, ◌%◌, ◌≤◌, ◌<◌, min, max, bit_and, bit_or, bit_xor, digits, differ,
  bitwise, bit_and-bitwise, bit_or-bitwise, bit_xor-bitwise,
}
use mathlib.Core.Path.{◌≡◌, refl}
use native.Mathlib.Nat.{le_refl}
use native.Mathlib.Omega.{arith}

-- Two amounts of fuel that are both enough give the same digits.
module _ (base : ℕ → ℕ) (digit : ℕ → ℕ → ℕ) where
  fuel_enough :
      (x y left right : ℕ)
      → left ≤ y
      → left ≤ x
      → digits base digit x left right ≡ digits base digit y left right
  fuel_enough (suc x) (suc y) (suc left) right below above =
      let halved = fuel_enough x y (suc left / 2) (right / 2) (omega arith) (omega arith) in
      rw halved
  fuel_enough (suc x) (suc y) zero right below above = refl
  fuel_enough (suc x) zero (suc left) right below above = absurd (omega arith)
  fuel_enough (suc x) zero zero right below above = refl
  fuel_enough zero (suc y) (suc left) right below above = absurd (omega arith)
  fuel_enough zero (suc y) zero right below above = refl
  fuel_enough zero zero left right below above = refl

  lowest_first :
      (left right : ℕ)
      → bitwise base digit (suc left) right
        ≡ bitwise base digit (suc left / 2) (right / 2) * 2 + digit (suc left % 2) (right % 2)
  lowest_first left right =
      let half : ℕ = suc left / 2 in
      let same = fuel_enough left half half (right / 2) (le_refl half) (omega arith) in
      omega (arith, same)

pub bit_or_step : (x y : ℕ) → bit_or x y ≡ bit_or (x / 2) (y / 2) * 2 + max (x % 2) (y % 2)
bit_or_step (suc x) y = simp bit_or-bitwise (lowest_first (λ t. t) max x y)
bit_or_step zero y = simp bit_or-bitwise (omega arith)

pub bit_and_step : (x y : ℕ) → bit_and x y ≡ bit_and (x / 2) (y / 2) * 2 + min (x % 2) (y % 2)
bit_and_step (suc x) y = simp bit_and-bitwise (lowest_first (λ t. 0) min x y)
bit_and_step zero y = simp bit_and-bitwise (omega arith)

differ_digit : (x y : ℕ) → x < 2 → y < 2 → differ x y ≡ (x + y) % 2
differ_digit zero y p q = omega arith
differ_digit (suc zero) zero p q = refl
differ_digit (suc zero) (suc zero) p q = refl
differ_digit (suc zero) (suc (suc y)) p q = absurd (omega arith)
differ_digit (suc (suc x)) y p q = absurd (omega arith)

-- The digit is the sum mod 2.
pub bit_xor_step : (a b : ℕ) → bit_xor a b ≡ bit_xor (a / 2) (b / 2) * 2 + (a % 2 + b % 2) % 2
bit_xor_step zero b = simp bit_xor-bitwise (omega arith)
bit_xor_step (suc a) b = simp bit_xor-bitwise (
    omega (
      arith,
      lowest_first (λ y. y) differ a b,
      differ_digit (suc a % 2) (b % 2) (omega arith) (omega arith),
    ))
