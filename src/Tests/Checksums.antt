-- ===== src/Tests/Checksums.antt =====
-- The checksums and bit helpers of utilities.c at concrete inputs.
use morsectrl_tools.Prelude.{
  ℕ, ◌+◌, ◌*◌, ◌^◌, ◌≡◌, ◌≢◌, refl, false, List, [], ◌∷◌, ◌++◌, none, some, arith,
}
use morsectrl_tools.Util.Crc.{crc16_gen, crc16_check, crc7_gen}
use morsectrl_tools.Util.Crc.Register.{divide, message_bits}
use morsectrl_tools.Util.Crc.Crc16.{crc16_gen-eq-divide}
use morsectrl_tools.Util.Crc.Crc7.{crc7_gen-eq-divide, low_octets}
use morsectrl_tools.Util.Crc.Burst.{crc16_check-burst}
use morsectrl_tools.Util.Words.{ctz}
use morsectrl_tools.Util.Words.Lowest.{ctz-eq}

crc16_gen-eq-divide_example :
    crc16_gen (0x12 ∷ 0x34 ∷ []) ≡ divide 15 0x810 0 (message_bits (0x12 ∷ 0x34 ∷ []))
crc16_gen-eq-divide_example = crc16_gen-eq-divide (0x12 ∷ 0x34 ∷ [])

crc7_gen-eq-divide_example :
    crc7_gen 0x4000000000 (5 * 8) ≡ divide 6 4 0 (message_bits (low_octets 5 0x4000000000))
crc7_gen-eq-divide_example = crc7_gen-eq-divide 5 0x4000000000 (omega arith) (omega arith)

abbrev burst : List ℕ
burst = 0x01 ∷ 0x80 ∷ []

abbrev received : List ℕ
received = 0x00 ∷ 0x7F ∷ []

octets_differ : burst ≢ received
octets_differ e = cc

crc16_check-burst_example :
    crc16_check
      ((1 ∷ 2 ∷ []) ++ (received ++ (9 ∷ [])))
      (crc16_gen ((1 ∷ 2 ∷ []) ++ (burst ++ (9 ∷ []))))
    ≡ false
crc16_check-burst_example =
    crc16_check-burst (1 ∷ 2 ∷ []) burst received (9 ∷ []) (omega arith, (omega arith, tt))
      (omega arith, (omega arith, tt)) refl (omega arith) octets_differ

ctz-eq_example : (ctz 0 ≡ none) × (ctz (2 ^ 5 * (2 * 3 + 1)) ≡ some 5)
ctz-eq_example = ctz-eq 5 3 (omega arith)
