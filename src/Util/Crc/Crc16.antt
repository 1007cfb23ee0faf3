-- ===== src/Util/Crc/Crc16.antt =====
-- `crc16_gen`, whose register is 32 bits wide and never cut, against division by the polynomial.
use morsectrl_tools.Prelude.{
  ℕ, zero, suc, ◌+◌, ◌-◌, ◌*◌, ◌/◌, ◌%◌, ◌^◌, ◌≤◌, ◌<◌, bit_and, bit_or, bit_xor, ◌≡◌, refl, sym,
  ap, ap₂, ◌∙◌, true, false, inl, inr, List, [], ◌∷◌, length, arith, ◌==◌, Bool-cases, u32,
}
use morsectrl_tools.Prelude.Bits.{bit_or_fields, bit_and_mask, bit_xor_step, bit_xor-mod}
use morsectrl_tools.Util.Crc.{crc16_bit, crc16_octet, crc16_octets, crc16_gen}
use morsectrl_tools.Util.Crc.Register.{
  octet_bits, message_bits, feedback, shift, divide, divide-append,
}

two_taps : (v : ℕ) → v < 2 → bit_or (v * 2 ^ 4) (v * 2 ^ 11) ≡ v * 0x810
two_taps zero h = refl
two_taps (suc zero) h = refl
two_taps (suc (suc v)) h = absurd (omega arith)

crc16_bit-shift :
    (octet jj crc : ℕ)
    → crc16_bit octet jj crc % 2 ^ 16 ≡ shift 15 0x810 (crc % 2 ^ 16) (octet / 2 ^ jj % 2)
unfolding crc16_bit
crc16_bit-shift octet jj crc =
    let b : ℕ = octet / 2 ^ jj in
    let c : ℕ = crc / 2 ^ 15 in
    let v : ℕ = bit_and (bit_xor b c) 0x1 in
    let f : ℕ = feedback 15 0x810 (crc % 2 ^ 16) (b % 2) in
    let fed : v ≡ f = omega (arith, bit_and_mask 1 (bit_xor b c), bit_xor_step b c) in
    let x : ℕ = bit_xor crc (bit_or (v * 2 ^ 4) (v * 2 ^ 11)) in
    let tapped : x % 2 ^ 15 ≡ bit_xor (crc % 2 ^ 16 % 2 ^ 15) (f * 0x810) =
      bit_xor-mod 15 crc _
      ∙ ap₂ bit_xor (omega arith) (omega (arith, two_taps v (omega (arith, fed)))) in
    let whole : bit_or (u32 (x * 2 ^ 1)) v ≡ x % 2 ^ 31 * 2 + v =
      ap (λ t. bit_or t v) (omega arith) ∙ bit_or_fields 1 (x % 2 ^ 31) v (omega arith) in
    omega (arith, whole, tapped)

crc16_octet-divide :
    (k octet crc n : ℕ)
    → k ≤ n
    → ((crc16_octet k octet crc n).0 % 2 ^ 16 ≡ divide 15 0x810 (crc % 2 ^ 16) (octet_bits k octet))
      × ((crc16_octet k octet crc n).1 ≡ n - k)
unfolding crc16_octet
crc16_octet-divide zero octet crc n le = (refl, omega arith)
crc16_octet-divide (suc zero) octet crc n le =
    let step = crc16_bit-shift octet 0 crc in
    elim (Bool-cases (n - 1 == 0)) [
      | inl done ↦ rw done (step, ground arith)
      | inr more ↦ rw more (step, omega arith)
    ]
crc16_octet-divide (suc (suc k)) octet crc n le =
    let crc' : ℕ = crc16_bit octet (suc k) crc in
    let rest = crc16_octet-divide (suc k) octet crc' (n - 1) (omega arith) in
    let bits = octet_bits (suc k) octet in
    let more : (n - 1 == 0) ≡ false = ground arith in
    rw more
      (rest.0 ∙ ap (λ t. divide 15 0x810 t bits) (crc16_bit-shift octet (suc k) crc), omega arith)

crc16_octets-divide :
    (buff : List ℕ) (crc n : ℕ)
    → n ≡ length buff * 8
    → crc16_octets buff crc n % 2 ^ 16 ≡ divide 15 0x810 (crc % 2 ^ 16) (message_bits buff)
unfolding crc16_octets
crc16_octets-divide [] crc n e = refl
crc16_octets-divide (octet ∷ []) crc n e =
    let (value, left) = crc16_octet-divide 8 octet crc n (omega arith) in
    let done : ((crc16_octet 8 octet crc n).1 == 0) ≡ true = ground arith in rw done value
crc16_octets-divide (octet ∷ next ∷ buff) crc n e =
    let (value, left) = crc16_octet-divide 8 octet crc n (omega arith) in
    let bits = message_bits (next ∷ buff) in
    let more : ((crc16_octet 8 octet crc n).1 == 0) ≡ false = ground arith in
    let rest =
      crc16_octets-divide (next ∷ buff) (crc16_octet 8 octet crc n).0 (crc16_octet 8 octet crc n).1
        (omega arith) in
    rw more (
      rest
      ∙ ap (λ t. divide 15 0x810 t bits) value
      ∙ sym (divide-append 15 0x810 (crc % 2 ^ 16) (octet_bits 8 octet) bits))

-- The checksum is the remainder of the message, its octets and their bits in order, under division
-- by x^16 + x^12 + x^5 + 1 from a register of zeros.
pub crc16_gen-eq-divide : (buff : List ℕ) → crc16_gen buff ≡ divide 15 0x810 0 (message_bits buff)
unfolding crc16_gen
crc16_gen-eq-divide buff = bit_and_mask 16 _ ∙ crc16_octets-divide buff 0 (length buff * 8) refl
