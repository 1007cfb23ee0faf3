-- ===== src/Util/Crc/Crc7.antt =====
-- `crc7_gen`, which lets the register run over seven bits within an octet and cuts it after each,
-- against division by the polynomial.
use native.Mathlib.Nat.{mod-eq_of_lt, pow-suc}
use morsectrl_tools.Prelude.{
  ℕ, zero, suc, ◌+◌, ◌-◌, ◌*◌, ◌/◌, ◌%◌, ◌^◌, ◌≤◌, ◌<◌, bit_and, bit_xor, ◌≡◌, refl, sym, ap, ap₂,
  ◌∙◌, true, false, List, [], ◌∷◌, arith, ltb, u8, u32,
}
use morsectrl_tools.Prelude.Bits.{
  bit_and_shifted, bit_and_mask, bit_xor_step, bit_xor-mod, bit_xor-digit, bit_xor-zero,
}
use morsectrl_tools.Util.Crc.{crc7_bit, crc7_octet, crc7_octets, crc7_gen}
use morsectrl_tools.Util.Crc.Register.{
  octet_bits, message_bits, feedback, shift, divide, divide-append, divide-lt,
}

-- `& 0x80` keeps one digit.
bit_and_0x80 : (x : ℕ) → bit_and x 0x80 ≡ x / 2 ^ 7 % 2 * 128
bit_and_0x80 x = bit_and_shifted 7 x 1 ∙ ap (λ t. t * 2 ^ 7) (bit_and_mask 1 (x / 2 ^ 7))

-- The bit that decides whether the polynomial is subtracted.
top_bit :
    (reg octet : ℕ)
    → bit_and (bit_xor octet (u32 (reg * 2 ^ 1))) 0x80
      ≡ feedback 6 4 (reg % 2 ^ 7) (octet / 2 ^ 7 % 2) * 128
top_bit reg octet =
    let reg' : ℕ = u32 (reg * 2 ^ 1) in
    omega (arith, bit_and_0x80 (bit_xor octet reg'), bit_xor-digit 7 octet reg')

-- Both branches, in the shape of the register's step.
crc7_bit_branches :
    (reg octet f : ℕ)
    → f < 2
    → bit_and (bit_xor octet (u32 (reg * 2 ^ 1))) 0x80 ≡ f * 128
    → crc7_bit reg octet % 2 ^ 7 ≡ bit_xor (reg % 2 ^ 7 % 2 ^ 6) (f * 4) * 2 + f
unfolding crc7_bit
crc7_bit_branches reg octet zero h e =
    let off : ltb 0 (bit_and (bit_xor octet (u32 (reg * 2 ^ 1))) 0x80) ≡ false = ground arith in
    rw off (omega (arith, bit_xor-zero (reg % 2 ^ 7 % 2 ^ 6)))
crc7_bit_branches reg octet (suc zero) h e =
    let on : ltb 0 (bit_and (bit_xor octet (u32 (reg * 2 ^ 1))) 0x80) ≡ true = ground arith in
    let reg' : ℕ = u32 (reg * 2 ^ 1) in
    let low : bit_xor (reg' / 2) 4 % 2 ^ 6 ≡ bit_xor (reg % 2 ^ 7 % 2 ^ 6) 4 =
      bit_xor-mod 6 (reg' / 2) 4 ∙ ap (λ t. bit_xor t 4) (omega arith) in
    rw on (omega (arith, bit_xor_step reg' 9, low))
crc7_bit_branches reg octet (suc (suc f)) h e = absurd (omega arith)

crc7_bit-shift :
    (reg octet : ℕ) → crc7_bit reg octet % 2 ^ 7 ≡ shift 6 4 (reg % 2 ^ 7) (octet / 2 ^ 7 % 2)
crc7_bit-shift reg octet =
    crc7_bit_branches reg octet (feedback 6 4 (reg % 2 ^ 7) (octet / 2 ^ 7 % 2)) (omega arith)
      (top_bit reg octet)

-- The bits that leave an octet at its top.
abbrev leaving : ℕ → ℕ → List ℕ
leaving zero octet = []
leaving (suc k) octet = (octet / 2 ^ 7 % 2) ∷ leaving k (octet * 2 % 256)

-- An octet that was shifted `j` times, and once more.
shifted_again : (o j : ℕ) → o * 2 ^ j % 256 * 2 % 256 ≡ o * 2 ^ suc j % 256
shifted_again o j = omega (arith, ap (λ (t : ℕ). o * t) (pow-suc 2 j))

-- Its top bit.
top_digit : (k o : ℕ) → k < 8 → o * 2 ^ (7 - k) % 256 / 2 ^ 7 % 2 ≡ o / 2 ^ k % 2
top_digit zero o h = omega arith
top_digit (suc zero) o h = omega arith
top_digit (suc (suc zero)) o h = omega arith
top_digit (suc (suc (suc zero))) o h = omega arith
top_digit (suc (suc (suc (suc zero)))) o h = omega arith
top_digit (suc (suc (suc (suc (suc zero))))) o h = omega arith
top_digit (suc (suc (suc (suc (suc (suc zero)))))) o h = omega arith
top_digit (suc (suc (suc (suc (suc (suc (suc zero))))))) o h = omega arith
top_digit (suc (suc (suc (suc (suc (suc (suc (suc k)))))))) o h = absurd (omega arith)

leaving-shifted : (k o : ℕ) → k ≤ 8 → leaving k (o * 2 ^ (8 - k) % 256) ≡ octet_bits k o
leaving-shifted zero o h = refl
leaving-shifted (suc k) o h =
    let now : 8 - suc k ≡ 7 - k = omega arith in
    let next : suc (7 - k) ≡ 8 - k = omega arith in
    rw now (
      ap₂ ◌∷◌ (top_digit k o (omega arith)) (
        ap (leaving k) (shifted_again o (7 - k) ∙ ap (λ j. o * 2 ^ j % 256) next)
        ∙ leaving-shifted k o (omega arith)))

leaving-mod : (o : ℕ) → leaving 8 (o % 256) ≡ octet_bits 8 o
leaving-mod o =
    let still : o * 2 ^ 0 ≡ o = omega arith in
    ap (λ t. leaving 8 (t % 256)) (sym still) ∙ leaving-shifted 8 o (omega arith)

crc7_octet-divide :
    (k reg octet : ℕ) → crc7_octet k reg octet % 2 ^ 7 ≡ divide 6 4 (reg % 2 ^ 7) (leaving k octet)
unfolding crc7_octet
crc7_octet-divide zero reg octet = refl
crc7_octet-divide (suc k) reg octet =
    let octet' : ℕ = bit_and (octet * 2 ^ 1) 0xFF in
    let next : octet' ≡ octet * 2 % 256 = bit_and_mask 8 (octet * 2) in
    crc7_octet-divide k (crc7_bit reg octet) octet'
    ∙ ap₂ (λ t o. divide 6 4 t (leaving k o)) (crc7_bit-shift reg octet) next

-- The `j` low octets of a number, the highest first.
abbrev pub low_octets : ℕ → ℕ → List ℕ
low_octets zero number = []
low_octets (suc j) number = (number / 2 ^ (j * 8) % 256) ∷ low_octets j number

crc7_octets-divide :
    (j fuel number reg : ℕ)
    → j ≤ 31
    → j * 8 < fuel
    → reg < 2 ^ 7
    → crc7_octets fuel number (j * 8) reg ≡ divide 6 4 reg (message_bits (low_octets j number))
unfolding crc7_octets
crc7_octets-divide j zero number reg le enough small = absurd (omega arith)
crc7_octets-divide zero (suc fuel) number reg le enough small = refl
crc7_octets-divide (suc j) (suc fuel) number reg le enough small =
    let more : ltb 0 (suc j * 8) ≡ true = ground arith in
    let place : u8 (suc j * 8 + 2 ^ 8 - 8) ≡ j * 8 = omega arith in
    let fewer : suc j * 8 - 8 ≡ j * 8 = omega arith in
    let octet : ℕ = bit_and (number / 2 ^ (j * 8)) 0xFF in
    let read : octet ≡ number / 2 ^ (j * 8) % 256 = bit_and_mask 8 (number / 2 ^ (j * 8)) in
    let reg' : ℕ = bit_and (crc7_octet 8 reg octet) 0x7F in
    let cut : reg' ≡ crc7_octet 8 reg octet % 2 ^ 7 = bit_and_mask 7 (crc7_octet 8 reg octet) in
    let again : number / 2 ^ (j * 8) % 256 ≡ number / 2 ^ (j * 8) % 256 % 256 = omega arith in
    let bits : leaving 8 octet ≡ octet_bits 8 (number / 2 ^ (j * 8) % 256) =
      ap (leaving 8) (read ∙ again) ∙ leaving-mod (number / 2 ^ (j * 8) % 256) in
    let same : reg % 2 ^ 7 ≡ reg = omega arith in
    let step : reg' ≡ divide 6 4 reg (octet_bits 8 (number / 2 ^ (j * 8) % 256)) =
      cut ∙ crc7_octet-divide 8 reg octet ∙ ap₂ (divide 6 4) same bits in
    let rest = crc7_octets-divide j fuel number reg' (omega arith) (omega arith) (omega arith) in
    rw (more, place, fewer)
      (rest
        ∙ ap (λ t. divide 6 4 t (message_bits (low_octets j number))) step
        ∙ sym (
            divide-append 6 4 reg (octet_bits 8 (number / 2 ^ (j * 8) % 256))
              (message_bits (low_octets j number))))

-- On up to eight octets of a 64-bit number, which is as far as the source's shift is defined, the
-- checksum is the remainder of these octets, the highest first, under division by x^7 + x^3 + 1.
pub crc7_gen-eq-divide :
    (j number : ℕ)
    → j ≤ 8
    → number < 2 ^ 64
    → crc7_gen number (j * 8) ≡ divide 6 4 0 (message_bits (low_octets j number))
unfolding crc7_gen
crc7_gen-eq-divide j number le word =
    let value =
      crc7_octets-divide j (suc (j * 8)) number 0 (omega arith) (omega arith) (omega arith) in
    let small = divide-lt 6 4 (omega arith) (message_bits (low_octets j number)) 0 (omega arith) in
    ap u8 value ∙ mod-eq_of_lt (omega (arith, small))
