-- ===== src/Util/Crc/Register.antt =====
-- The independent description of both checksums: division of a bit string by a polynomial, as
-- the shift register of `w + 1` digits that textbooks draw. `half` is the polynomial without its
-- highest and its lowest term, shifted down by one: 0x810 for x^16 + x^12 + x^5 + 1 and 4 for
-- x^7 + x^3 + 1.
use native.Mathlib.Nat.{
  pow-suc, one-le-pow, mod-mod_of_dvd, mod-lt, mod-eq_of_lt, div-add-mod', div-lt_iff_lt-mul,
  dvd_refl, dvd_trans, dvd-mul_right, zero-add, suc-add,
}
use Prim.Native.Nat.{◌∣◌}
use morsectrl_tools.Prelude.{
  ℕ, zero, suc, ◌+◌, ◌-◌, ◌*◌, ◌/◌, ◌%◌, ◌^◌, ◌≤◌, ◌<◌, subst, bit_xor, ◌≡◌, refl, sym, ap, ◌∙◌,
  List, [], ◌∷◌, ◌++◌, ap₂, length, arith,
}
use morsectrl_tools.Prelude.Bits.{mod-double, bit_xor-injective, bit_xor-mod}

-- The low `k` bits of an octet, the highest first.
abbrev pub octet_bits : ℕ → ℕ → List ℕ
octet_bits zero octet = []
octet_bits (suc k) octet = (octet / 2 ^ k % 2) ∷ octet_bits k octet

abbrev pub message_bits : List ℕ → List ℕ
message_bits [] = []
message_bits (octet ∷ buff) = octet_bits 8 octet ++ message_bits buff

-- The bits of a string, the first one first.
abbrev pub AreBits : List ℕ → Type 0
AreBits [] = Unit {0}
AreBits (b ∷ bs) = (b < 2) × AreBits bs

pow-dvd-pow : (d n : ℕ) → 2 ^ n ∣ 2 ^ (d + n)
pow-dvd-pow zero n = subst (λ t. 2 ^ n ∣ 2 ^ t) (sym (zero-add n)) (dvd_refl (2 ^ n))
pow-dvd-pow (suc d) n =
    subst (λ t. 2 ^ n ∣ t) (sym (ap (λ t. 2 ^ t) (suc-add d n) ∙ pow-suc 2 (d + n)))
      (dvd_trans (2 ^ n) (pow-dvd-pow d n) (dvd-mul_right (2 ^ (d + n)) 2))

mod-mod_pow : (n w a : ℕ) → n ≤ w → a % 2 ^ w % 2 ^ n ≡ a % 2 ^ n
mod-mod_pow n w a le =
    let e : w - n + n ≡ w = omega arith in
    mod-mod_of_dvd (2 ^ n) a (subst (λ t. 2 ^ n ∣ 2 ^ t) e (pow-dvd-pow (w - n) n))

module _ (w half : ℕ) where
  -- The bit that leaves the register, and the bit that comes in.
  abbrev pub feedback : ℕ → ℕ → ℕ
  feedback s b = (s / 2 ^ w + b) % 2

  -- Shift by one and subtract the polynomial if the feedback is set.
  abbrev pub shift : ℕ → ℕ → ℕ
  shift s b = bit_xor (s % 2 ^ w) (feedback s b * half) * 2 + feedback s b

  abbrev pub divide : ℕ → List ℕ → ℕ
  divide s [] = s
  divide s (b ∷ bs) = divide (shift s b) bs

  pub divide-append : (s : ℕ) (xs ys : List ℕ) → divide s (xs ++ ys) ≡ divide (divide s xs) ys
  divide-append s [] ys = refl
  divide-append s (x ∷ xs) ys = divide-append (shift s x) xs ys

  -- The low digits after a step: the feedback, under the low digits before it.
  shift-low :
      (n s b : ℕ)
      → n ≤ w
      → shift s b % 2 ^ suc n ≡ bit_xor (s % 2 ^ n) (feedback s b * half % 2 ^ n) * 2 + feedback s b
  shift-low n s b le =
      let x : ℕ = bit_xor (s % 2 ^ w) (feedback s b * half) in
      let doubled : shift s b % (2 ^ n * 2) ≡ x % 2 ^ n * 2 + feedback s b =
        mod-double x (feedback s b) (2 ^ n) (one-le-pow n 2 (omega arith)) (omega arith) in
      let low : x % 2 ^ n ≡ bit_xor (s % 2 ^ n) (feedback s b * half % 2 ^ n) =
        bit_xor-mod n (s % 2 ^ w) (feedback s b * half) ∙ rw (mod-mod_pow n w s le) refl in
      rw (pow-suc 2 n) (doubled ∙ ap (λ t. t * 2 + feedback s b) low)

  -- One step, told backwards: equal low digits after it give equal feedback and equal low digits
  -- before it.
  shift-back :
      (n s s' b b' : ℕ)
      → n ≤ w
      → shift s b % 2 ^ suc n ≡ shift s' b' % 2 ^ suc n
      → (feedback s b ≡ feedback s' b') × (s % 2 ^ n ≡ s' % 2 ^ n)
  shift-back n s s' b b' le e =
      let m = 2 ^ n in
      let f = feedback s b in
      let f' = feedback s' b' in
      let x : ℕ = bit_xor (s % m) (f * half % m) in
      let x' : ℕ = bit_xor (s' % m) (f' * half % m) in
      let joined : x * 2 + f ≡ x' * 2 + f' = sym (shift-low n s b le) ∙ e ∙ shift-low n s' b' le in
      let same : f ≡ f' = omega arith in
      let xs : x ≡ x' = omega arith in
      let pos = one-le-pow n 2 (omega arith) in
      let xs' : bit_xor (s % m) (f * half % m) ≡ bit_xor (s' % m) (f * half % m) =
        xs ∙ ap (λ t. bit_xor (s' % m) (t * half % m)) (sym same) in
      (same, bit_xor-injective n (s % m) (s' % m) (f * half % m) (mod-lt s pos) (mod-lt s' pos) xs')

  divide-back :
      (bs bs' : List ℕ) (m n s s' : ℕ)
      → length bs ≡ length bs'
      → m ≡ length bs + n
      → m ≤ suc w
      → divide s bs % 2 ^ m ≡ divide s' bs' % 2 ^ m
      → s % 2 ^ n ≡ s' % 2 ^ n
  divide-back [] [] m n s s' l em le e =
      let same : m ≡ n = omega arith in subst (λ t. s % 2 ^ t ≡ s' % 2 ^ t) same e
  divide-back [] (x ∷ bs') m n s s' l em le e = absurd (omega arith)
  divide-back (x ∷ bs) [] m n s s' l em le e = absurd (omega arith)
  divide-back (b ∷ bs) (b' ∷ bs') m n s s' l em le e =
      let tails =
        divide-back bs bs' m (suc n) (shift s b) (shift s' b') (omega arith) (omega arith) le e in
      (shift-back n s s' b b' (omega arith) tails).1

  -- Two strings that start from one state and end in one state are the same, if they are no longer
  -- than the register.
  pub divide-injective :
      (bs bs' : List ℕ) (s : ℕ)
      → AreBits bs
      → AreBits bs'
      → length bs ≡ length bs'
      → length bs ≤ suc w
      → divide s bs ≡ divide s bs'
      → bs ≡ bs'
  divide-injective [] [] s h h' l le e = refl
  divide-injective [] (x ∷ bs') s h h' l le e = absurd (omega arith)
  divide-injective (x ∷ bs) [] s h h' l le e = absurd (omega arith)
  divide-injective (b ∷ bs) (b' ∷ bs') s h h' l le e =
      let m = length bs + 1 in
      let ends = ap (λ t. t % 2 ^ m) e in
      let low =
        divide-back bs bs' m 1 (shift s b) (shift s b') (omega arith) refl (omega arith) ends in
      let fed = (shift-back 0 s s b b' (omega arith) low).0 in
      let head : b ≡ b' = omega arith in
      let moved = e ∙ ap (λ t. divide (shift s t) bs') (sym head) in
      ap₂ ◌∷◌ head (divide-injective bs bs' (shift s b) h.1 h'.1 (omega arith) (omega arith) moved)

  shift-lt : half < 2 ^ w → (s b : ℕ) → shift s b < 2 ^ suc w
  shift-lt fits s b =
      let f = feedback s b in
      let x : ℕ = bit_xor (s % 2 ^ w) (f * half) in
      let pos = one-le-pow w 2 (omega arith) in
      let small : f * half < 2 ^ w = grind arith in
      let same : x % 2 ^ w ≡ x =
        bit_xor-mod w (s % 2 ^ w) (f * half)
        ∙ ap₂ bit_xor (mod-eq_of_lt (mod-lt s pos)) (mod-eq_of_lt small) in
      omega (arith, mod-lt x pos, pow-suc 2 w)

  -- Two states that one string takes to the same state are the same.
  pub divide-cancel :
      half < 2 ^ w
      → (bs : List ℕ) (s s' : ℕ) → s < 2 ^ suc w
      → s' < 2 ^ suc w
      → divide s bs ≡ divide s' bs
      → s ≡ s'
  divide-cancel fits [] s s' h h' e = e
  divide-cancel fits (b ∷ bs) s s' h h' e =
      let next =
        divide-cancel fits bs (shift s b) (shift s' b) (shift-lt fits s b) (shift-lt fits s' b) e in
      let (fed, low) = shift-back w s s' b b (omega arith) (ap (λ t. t % 2 ^ suc w) next) in
      let pos = one-le-pow w 2 (omega arith) in
      let top = (div-lt_iff_lt-mul {x = s} {y = 2} pos).1 (omega (arith, pow-suc 2 w)) in
      let top' = (div-lt_iff_lt-mul {x = s'} {y = 2} pos).1 (omega (arith, pow-suc 2 w)) in
      let quotients : s / 2 ^ w ≡ s' / 2 ^ w = omega arith in
      sym (div-add-mod' s (2 ^ w))
      ∙ ap₂ (λ q r. q * 2 ^ w + r) quotients low
      ∙ div-add-mod' s' (2 ^ w)

  pub divide-lt : half < 2 ^ w → (bs : List ℕ) (s : ℕ) → s < 2 ^ suc w → divide s bs < 2 ^ suc w
  divide-lt fits [] s h = h
  divide-lt fits (b ∷ bs) s h = divide-lt fits bs (shift s b) (shift-lt fits s b)
