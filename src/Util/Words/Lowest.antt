-- ===== src/Util/Words/Lowest.antt =====
-- `ctz` counts the zeros below the lowest bit that is set.
use native.Mathlib.Nat.{
  mod-eq_of_lt, pow-suc, pow-succ', mul_assoc, zero-add, suc-add, one-le-pow, pow-le-pow_right,
}
use morsectrl_tools.Prelude.{
  ℕ, zero, suc, ◌+◌, ◌-◌, ◌*◌, ◌/◌, ◌^◌, ◌<◌, ◌≤◌, ◌≡◌, refl, sym, ap, ◌∙◌, bit_and, none, some,
  Bool, true, false, ◌&&◌, ◌==◌, ==_iff, ◌⊎◌, inl, inr, arith, u32,
}
use morsectrl_tools.Prelude.Bits.{bit_and_step}
use morsectrl_tools.Util.Words.{lowest_bit, count_down, index_of, ctz}

-- A number and its complement have no bit in common.
bit_and-complement : (n m c : ℕ) → m + c + 1 ≡ 2 ^ n → bit_and m c ≡ 0
bit_and-complement zero m c e =
    let m0 : m ≡ 0 = ground arith in let c0 : c ≡ 0 = ground arith in rw (m0, c0) refl
bit_and-complement (suc n) m c e = omega (
  arith,
  bit_and_step m c,
  bit_and-complement n (m / 2) (c / 2) (omega (arith, e, pow-suc 2 n)),
  pow-suc 2 n,
)

-- An odd multiple of 2 ^ k and its negative have that bit in common and no other.
bit_and-negative :
    (k n x y m : ℕ) → x ≡ 2 ^ k * (2 * m + 1) → x + y ≡ 2 ^ (k + suc n) → bit_and x y ≡ 2 ^ k
bit_and-negative zero n x y m odd e =
    let whole : x + y ≡ 2 ^ n * 2 = e ∙ ap (λ t. 2 ^ t) (zero-add (suc n)) ∙ pow-suc 2 n in
    let low : x ≡ 2 * m + 1 = ground arith in
    let rest = bit_and-complement n (x / 2) (y / 2) (omega (arith, whole, low)) in
    omega (arith, bit_and_step x y, rest, whole, low)
bit_and-negative (suc k) n x y m odd e =
    let whole : x + y ≡ 2 ^ (k + suc n) * 2 =
      e ∙ ap (λ t. 2 ^ t) (suc-add k (suc n)) ∙ pow-suc 2 (k + suc n) in
    let half : x ≡ 2 * (2 ^ k * (2 * m + 1)) =
      odd ∙ ap (λ t. t * (2 * m + 1)) (pow-succ' 2 k) ∙ mul_assoc 2 (2 ^ k) (2 * m + 1) in
    let next =
      bit_and-negative k n (x / 2) (y / 2) m (omega (arith, half)) (omega (arith, whole, half)) in
    omega (arith, bit_and_step x y, next, half, whole, pow-suc 2 k)

-- The number 2 ^ k * (2 * m + 1), if it fits 32 bits, has its lowest bit at k.
lowest_bit-odd :
    (k m : ℕ) → k < 32 → 2 ^ k * (2 * m + 1) < 2 ^ 32 → lowest_bit (2 ^ k * (2 * m + 1)) ≡ 2 ^ k
unfolding lowest_bit
lowest_bit-odd k m h fits =
    let x : ℕ = 2 ^ k * (2 * m + 1) in
    let positive : 1 ≤ x = ground (arith, one-le-pow k 2 (omega arith)) in
    let width : k + suc (31 - k) ≡ 32 = omega arith in
    let negative : u32 (2 ^ 32 - x) ≡ 2 ^ 32 - x = mod-eq_of_lt (omega (arith, positive)) in
    rw negative (
      bit_and-negative k (31 - k) x (2 ^ 32 - x) m refl
        (omega (arith, fits) ∙ ap (λ t. 2 ^ t) (sym width)))

-- A test that holds below a bound.
all_below : ℕ → (ℕ → Bool) → Bool
all_below zero p = true
all_below (suc n) p = p n && all_below n p

all_below-true : (n : ℕ) (p : ℕ → Bool) → all_below n p ≡ true → (k : ℕ) → k < n → p k ≡ true
unfolding all_below
all_below-true zero p e k h = absurd (omega arith)
all_below-true (suc n) p e k h =
    let (here, below) = and_true (p n) (all_below n p) e in
    elim (last_or_below k n h) [
      | inl same ↦ ap p same ∙ here
      | inr less ↦ all_below-true n p below k less
    ]
  where
    and_true : (a b : Bool) → (a && b) ≡ true → (a ≡ true) × (b ≡ true)
    and_true true b e = (refl, e)
    and_true false b e = cc

    last_or_below : (k n : ℕ) → k < suc n → (k ≡ n) ⊎ (k < n)
    last_or_below k n h = ground arith

-- The counting is right for each of the 32 words with one bit.
index_of-pow : (k : ℕ) → k < 32 → index_of (2 ^ k) ≡ k
unfolding all_below index_of count_down
index_of-pow k h =
    (==_iff (index_of (2 ^ k)) k).0 (all_below-true 32 (λ k. index_of (2 ^ k) == k) refl k h)

-- `ctz` of 2 ^ k times an odd number is k, for every such number below 2 ^ 32, and `ctz` of 0 is -1.
pub ctz-eq :
    (k m : ℕ) → 2 ^ k * (2 * m + 1) < 2 ^ 32 → (ctz 0 ≡ none) × (ctz (2 ^ k * (2 * m + 1)) ≡ some k)
unfolding ctz
ctz-eq k m fits =
    let x : ℕ = 2 ^ k * (2 * m + 1) in
    let positive : 1 ≤ x = ground (arith, one-le-pow k 2 (omega arith)) in
    let nonzero : (x == 0) ≡ false = ground arith in
    let above : 2 ^ k ≤ x = ground arith in
    let small : k < 32 = elim (below_or k) [
      | inl less ↦ less
      | inr more ↦ absurd (omega (arith, above, fits, pow-le-pow_right {n = 2} (omega arith) more))
    ] in
    (refl, rw (nonzero, lowest_bit-odd k m small fits) (ap some (index_of-pow k small)))
  where
    below_or : (k : ℕ) → (k < 32) ⊎ (32 ≤ k)
    below_or k = ground arith
