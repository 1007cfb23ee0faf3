-- ===== src/Util/Crc.antt =====
-- `crc7_gen`, `crc16_gen` and `crc16_check` of utilities.c. A buffer and its length are one list
-- of octets. The counter `round` of `crc16_gen`, which nothing reads, is left out.
pub mod Register
pub mod Crc16
pub mod Crc7
pub mod Burst
use morsectrl_tools.Prelude.{
  ℕ, zero, suc, ◌+◌, ◌-◌, ◌*◌, ◌/◌, ◌%◌, ◌^◌, bit_and, bit_or, bit_xor, Bool, List, [], ◌∷◌, length,
  ltb, ◌==◌, if◌then◌else◌, u8, u32, ◌<<<◌, ◌>>>◌,
}

-- The body of the inner loop of `crc16_gen`, at bit `jj` of the octet.
pub crc16_bit : ℕ → ℕ → ℕ → ℕ
crc16_bit octet jj crc =
    let val = bit_and (bit_xor (octet >>> jj) (crc >>> 15)) 0x1 in
    let crc' = bit_xor crc (bit_or (val <<< 4) (val <<< 11)) in bit_or (u32 (crc' <<< 1)) val

-- The inner loop with `k` rounds left: `jj` is `k - 1`. It gives `crc` and `bit_count`.
pub crc16_octet : ℕ → ℕ → ℕ → ℕ → ℕ × ℕ
crc16_octet zero octet crc bit_count = (crc, bit_count)
crc16_octet (suc jj) octet crc bit_count =
    let crc' = crc16_bit octet jj crc in
    let rest = crc16_octet jj octet crc' (bit_count - 1) in
    if bit_count - 1 == 0 then (crc', 0) else rest

-- The outer loop, which `bit_count` leaves too.
pub crc16_octets : List ℕ → ℕ → ℕ → ℕ
crc16_octets [] crc bit_count = crc
crc16_octets (octet ∷ buff) crc bit_count =
    let (crc', bit_count') = crc16_octet 8 octet crc bit_count in
    let rest = crc16_octets buff crc' bit_count' in if bit_count' == 0 then crc' else rest

unfoldable pub crc16_gen : List ℕ → ℕ
unfolding crc16_octets crc16_octet crc16_bit
crc16_gen buff = bit_and (crc16_octets buff 0 (length buff * 8)) 0xFFFF

-- A null `buff` is not modelled.
unfoldable pub crc16_check : List ℕ → ℕ → Bool
unfolding crc16_gen
crc16_check buff crc16 = crc16 == crc16_gen buff

-- The body of the inner loop of `crc7_gen`: the register and the octet.
pub crc7_bit : ℕ → ℕ → ℕ
crc7_bit reg octet =
    let reg' = u32 (reg <<< 1) in
    if ltb 0 (bit_and (bit_xor octet reg') 0x80) then bit_xor reg' 9 else reg'

pub crc7_octet : ℕ → ℕ → ℕ → ℕ
crc7_octet zero reg octet = reg
crc7_octet (suc k) reg octet = crc7_octet k (crc7_bit reg octet) (bit_and (octet <<< 1) 0xFF)

-- The outer loop at `ii`, with fuel. `shift_val` is a `uint8_t`, so `ii - 8` is taken mod 256.
-- `number` is a `uint64_t`, below 2 ^ 64, and `bit_count` is at most 64: beyond, the source shifts by
-- more than the width of `number`, which C leaves undefined.
pub crc7_octets : ℕ → ℕ → ℕ → ℕ → ℕ
crc7_octets zero number ii reg = reg
crc7_octets (suc fuel) number ii reg =
    let octet = bit_and (number >>> u8 (ii + 2 ^ 8 - 8)) 0xFF in
    let rest = crc7_octets fuel number (ii - 8) (bit_and (crc7_octet 8 reg octet) 0x7F) in
    if ltb 0 ii then rest else reg

-- Each round lowers `ii` by eight, so `bit_count` rounds are enough.
unfoldable pub crc7_gen : ℕ → ℕ → ℕ
unfolding crc7_octets crc7_octet crc7_bit
crc7_gen number bit_count = u8 (crc7_octets (suc bit_count) number bit_count 0)
