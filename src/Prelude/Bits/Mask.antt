-- ===== src/Prelude/Bits/Mask.antt =====
-- `|` of disjoint fields and `&` with a low mask, as arithmetic.
use Prim.Native.Nat.{
  ℕ, zero, suc, ◌+◌, ◌-◌, ◌*◌, ◌/◌, ◌%◌, ◌^◌, ◌<◌, bit_and, bit_or, bit_or-bitwise,
}
use mathlib.Core.Path.{◌≡◌, refl, sym, ap, ◌∙◌}
use mathlib.Core.WellFounded
use native.Mathlib.Nat.{
  pow-suc, pow-succ', pow-zero, one-le-pow, one-mul, mul-one, div-one, div-div-eq-div-mul,
}
use native.Mathlib.Omega.{arith}
use morsectrl_tools.Prelude.Order.{lt_wf}
use morsectrl_tools.Prelude.Bits.Step.{bit_and_step, bit_or_step}

-- A function that keeps the lowest digit and works on the rest keeps its argument.
by_halves_id : (g : ℕ → ℕ) → g 0 ≡ 0 → ((x : ℕ) → g x ≡ g (x / 2) * 2 + x % 2) → (x : ℕ) → g x ≡ x
by_halves_id g at_zero halves x = WellFounded.induction lt_wf x onward
  where
    onward : (x : ℕ) → ((y : ℕ) → y < x → g y ≡ y) → g x ≡ x
    onward zero smaller = at_zero
    onward (suc x) smaller = omega (arith, halves (suc x), smaller (suc x / 2) (omega arith))

pub bit_or-zero : (x : ℕ) → bit_or x 0 ≡ x
bit_or-zero = by_halves_id (λ t. bit_or t 0) refl (λ t. omega (arith, bit_or_step t 0))

-- A function that drops the lowest digit and works on the rest is constant.
by_halves_zero : (g : ℕ → ℕ) → g 0 ≡ 0 → ((x : ℕ) → g x ≡ g (x / 2) * 2) → (x : ℕ) → g x ≡ 0
by_halves_zero g at_zero halves x = WellFounded.induction lt_wf x onward
  where
    onward : (x : ℕ) → ((y : ℕ) → y < x → g y ≡ 0) → g x ≡ 0
    onward zero smaller = at_zero
    onward (suc x) smaller = omega (arith, halves (suc x), smaller (suc x / 2) (omega arith))

pub bit_and-zero : (x : ℕ) → bit_and x 0 ≡ 0
bit_and-zero = by_halves_zero (λ t. bit_and t 0) refl (λ t. omega (arith, bit_and_step t 0))

double_field : (high w : ℕ) → high * 2 ^ suc w ≡ 2 * (high * 2 ^ w)
double_field high w = omega (arith, ap (λ (t : ℕ). high * t) (pow-suc 2 w))

-- Fields that do not overlap are joined by a sum.
pub bit_or_fields : (w high low : ℕ) → low < 2 ^ w → bit_or (high * 2 ^ w) low ≡ high * 2 ^ w + low
bit_or_fields (suc w) high low small =
    let upper = bit_or_fields w high (low / 2) (omega arith) in
    ground (arith, upper, double_field high w, bit_or_step (high * 2 ^ suc w) low)
bit_or_fields zero high low small = ground (arith, bit_or-zero high)

low_field : (w high low : ℕ) → low < 2 ^ w → bit_and (high * 2 ^ w + low) (2 ^ w - 1) ≡ low
low_field (suc w) high low small =
    let upper = low_field w high (low / 2) (omega arith) in
    let digit = bit_and_step (high * 2 ^ suc w + low) (2 ^ suc w - 1) in
    ground (arith, pow-suc 2 w, digit, double_field high w, upper)
low_field zero high low small = rw bit_and-zero (omega arith)

-- A mask of `w` ones keeps the remainder by `2 ^ w`.
pub bit_and_mask : (w x : ℕ) → bit_and x (2 ^ w - 1) ≡ x % 2 ^ w
bit_and_mask w x =
    let split = low_field w (x / 2 ^ w) (x % 2 ^ w) in ground (arith, split, one-le-pow w 2)

pub bit_or_comm : (a b : ℕ) → bit_or a b ≡ bit_or b a
bit_or_comm a b = WellFounded.induction lt_wf {C = λ a. (b : ℕ) → bit_or a b ≡ bit_or b a} a step b
  where
    step :
        (n : ℕ)
        → ((m : ℕ) → m < n → (b : ℕ) → bit_or m b ≡ bit_or b m)
        → (b : ℕ) → bit_or n b ≡ bit_or b n
    step zero ih b = bit_or-bitwise 0 b ∙ sym (bit_or-zero b)
    step (suc n) ih b =
        omega (
          arith,
          bit_or_step (suc n) b,
          bit_or_step b (suc n),
          ih (suc n / 2) (omega arith) (b / 2),
        )

-- A bit above all others is added.
pub bit_or_top : (k x : ℕ) → x < 2 ^ k → bit_or x (2 ^ k) ≡ 2 ^ k + x
bit_or_top k x h =
    bit_or_comm x (2 ^ k)
    ∙ ap (λ t. bit_or t x) (sym (one-mul (2 ^ k)))
    ∙ bit_or_fields k 1 x h
    ∙ ap (λ t. t + x) (one-mul (2 ^ k))

-- A mask whose `k` low digits are clear.
pub bit_and_shifted : (k a m : ℕ) → bit_and a (m * 2 ^ k) ≡ bit_and (a / 2 ^ k) m * 2 ^ k
bit_and_shifted zero a m = simp (pow-zero, mul-one, div-one)
bit_and_shifted (suc k) a m =
    let under : a / 2 ^ suc k ≡ a / 2 / 2 ^ k =
      ap (λ t. a / t) (pow-succ' 2 k) ∙ sym (div-div-eq-div-mul a 2 (2 ^ k)) in
    let even : m * 2 ^ suc k ≡ 2 * (m * 2 ^ k) = double_field m k in
    let half : m * 2 ^ suc k / 2 ≡ m * 2 ^ k = omega (arith, even) in
    let step : bit_and a (m * 2 ^ suc k) ≡ bit_and (a / 2) (m * 2 ^ k) * 2 =
      omega (arith, bit_and_step a (m * 2 ^ suc k), even, ap (λ t. bit_and (a / 2) t) half) in
    rw (under, step, bit_and_shifted k (a / 2) m)
      (omega (arith, double_field (bit_and (a / 2 / 2 ^ k) m) k))
