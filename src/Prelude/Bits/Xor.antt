-- ===== src/Prelude/Bits/Xor.antt =====
-- `^`: an involution, and its action on the lowest digit and on the low `k` digits.
use Prim.Native.Nat.{ℕ, zero, suc, ◌+◌, ◌*◌, ◌/◌, ◌%◌, ◌^◌, ◌<◌, bit_xor}
use mathlib.Core.Path.{◌≡◌, refl, sym, ap, ap₂, ◌∙◌}
use mathlib.Core.WellFounded
use native.Mathlib.Nat.{
  pow-suc, one-le-pow, mod-one, mod-add-div', mul_assoc, add-mul-mod_self_right, mod-eq_of_lt,
  mod-lt, pow-succ', div-div-eq-div-mul,
}
use native.Mathlib.Omega.{arith}
use morsectrl_tools.Prelude.Order.{lt_wf}
use morsectrl_tools.Prelude.Bits.Step.{bit_xor_step}

pub bit_xor-zero : (a : ℕ) → bit_xor a 0 ≡ a
bit_xor-zero a = WellFounded.induction lt_wf a step
  where
    step : (n : ℕ) → ((m : ℕ) → m < n → bit_xor m 0 ≡ m) → bit_xor n 0 ≡ n
    step zero ih = refl
    step (suc n) ih = omega (arith, bit_xor_step (suc n) 0, ih (suc n / 2) (omega arith))

-- Two words that give the same result with one mask are the same.
pub bit_xor-injective : (k a b m : ℕ) → a < 2 ^ k → b < 2 ^ k → bit_xor a m ≡ bit_xor b m → a ≡ b
bit_xor-injective zero a b m p q e = omega arith
bit_xor-injective (suc k) a b m p q e =
    let halves : a / 2 ≡ b / 2 =
      bit_xor-injective k (a / 2) (b / 2) (m / 2) (omega (arith, pow-suc 2 k))
        (omega (arith, pow-suc 2 k)) (omega (arith, bit_xor_step a m, bit_xor_step b m)) in
    omega (arith, halves, bit_xor_step a m, bit_xor_step b m)

-- Doubling and a low digit pass through the remainder.
pub mod-double : (x d p : ℕ) → 0 < p → d < 2 → (x * 2 + d) % (p * 2) ≡ x % p * 2 + d
mod-double x d p h l =
    let split : x * 2 + d ≡ (x % p * 2 + d) + x / p * (p * 2) =
      omega (arith, ap (λ (t : ℕ). t * 2) (mod-add-div' x p), mul_assoc (x / p) p 2) in
    rw split (
      add-mul-mod_self_right (x % p * 2 + d) (x / p) (p * 2)
      ∙ mod-eq_of_lt (omega (arith, mod-lt x h)))

mod-double_parts : (a p : ℕ) → 0 < p → (a % (p * 2) / 2 ≡ a / 2 % p) × (a % (p * 2) % 2 ≡ a % 2)
mod-double_parts a p h =
    let e : a ≡ a / 2 * 2 + a % 2 = omega arith in
    let e' : a % (p * 2) ≡ a / 2 % p * 2 + a % 2 =
      ap (λ t. t % (p * 2)) e ∙ mod-double (a / 2) (a % 2) p h (omega arith) in
    (omega arith, omega arith)

-- The low digits of the result depend on the low digits alone.
pub bit_xor-mod : (k a b : ℕ) → bit_xor a b % 2 ^ k ≡ bit_xor (a % 2 ^ k) (b % 2 ^ k)
bit_xor-mod zero a b = mod-one (bit_xor a b) ∙ ap₂ bit_xor (sym (mod-one a)) (sym (mod-one b))
bit_xor-mod (suc k) a b =
    let p = 2 ^ k in
    let pos = one-le-pow k 2 (omega arith) in
    let e : 2 ^ suc k ≡ p * 2 = pow-suc 2 k in
    let la = mod-double_parts a p pos in
    let lb = mod-double_parts b p pos in
    let d : ℕ = (a % 2 + b % 2) % 2 in
    let x : ℕ = bit_xor (a / 2) (b / 2) in
    let left : bit_xor a b % (p * 2) ≡ x % p * 2 + d =
      ap (λ t. t % (p * 2)) (bit_xor_step a b) ∙ mod-double x d p pos (omega arith) in
    let right : bit_xor (a % (p * 2)) (b % (p * 2)) ≡ bit_xor (a / 2 % p) (b / 2 % p) * 2 + d =
      bit_xor_step (a % (p * 2)) (b % (p * 2)) ∙ rw (la.0, lb.0, la.1, lb.1) refl in
    rw e (left ∙ ap (λ t. t * 2 + d) (bit_xor-mod k (a / 2) (b / 2)) ∙ sym right)

-- Digit `k` of the result is the sum of the digits `k`, mod 2.
pub bit_xor-digit : (k a b : ℕ) → bit_xor a b / 2 ^ k % 2 ≡ (a / 2 ^ k % 2 + b / 2 ^ k % 2) % 2
bit_xor-digit zero a b = omega (arith, bit_xor_step a b)
bit_xor-digit (suc k) a b =
    let under = λ (x : ℕ). ap (λ t. x / t) (pow-succ' 2 k) ∙ sym (div-div-eq-div-mul x 2 (2 ^ k)) in
    let half : bit_xor a b / 2 ≡ bit_xor (a / 2) (b / 2) = omega (arith, bit_xor_step a b) in
    rw (under (bit_xor a b), under a, under b, half) (bit_xor-digit k (a / 2) (b / 2))
