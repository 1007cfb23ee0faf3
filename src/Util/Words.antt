-- ===== src/Util/Words.antt =====
-- The bit helpers of utilities.c and utilities.h, on `uint32_t`.
pub mod Lowest
use morsectrl_tools.Prelude.{
  ℕ, suc, ◌+◌, ◌-◌, ◌*◌, ◌/◌, ◌%◌, ◌^◌, bit_and, Option, none, some, ◌==◌, if◌then◌else◌, u32,
  ◌<<<◌, ◌>>>◌,
}

unfoldable pub popcount : ℕ → ℕ
popcount x0 =
    let x1 = u32 (x0 + 2 ^ 32 - bit_and (x0 >>> 1) 0x55555555) in
    let x2 = u32 (bit_and x1 0x33333333 + bit_and (x1 >>> 2) 0x33333333) in
    let x3 = u32 (x2 + (x2 >>> 4)) in let x4 = bit_and x3 0xF0F0F0F in u32 (x4 * 0x01010101) >>> 24

-- `x &= ~x + 1`: the lowest bit that is set.
unfoldable pub lowest_bit : ℕ → ℕ
lowest_bit x = bit_and x (u32 (2 ^ 32 - x))

-- `if (x & mask) c -= n`
unfoldable pub count_down : ℕ → ℕ → ℕ → ℕ → ℕ
count_down x mask n c = if bit_and x mask == 0 then c else c - n

-- The place of the bit that is left.
pub index_of : ℕ → ℕ
unfolding count_down
index_of x =
    let c = if x == 0 then 32 else 31 in
    let c = count_down x 0x0000FFFF 16 c in
    let c = count_down x 0x00FF00FF 8 c in
    let c = count_down x 0x0F0F0F0F 4 c in
    let c = count_down x 0x33333333 2 c in count_down x 0x55555555 1 c

-- `ctz`; `none` is -1.
unfoldable pub ctz : ℕ → Option ℕ
unfolding lowest_bit index_of
ctz x0 = if x0 == 0 then none else some (index_of (lowest_bit x0))
