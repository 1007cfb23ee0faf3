-- ===== src/Chip/Memtest.antt =====
-- transraw.c: the test of the registers and the memory of the chip. What it prints is left out.
pub mod Pattern
pub mod Verdict
use morsectrl_tools.Prelude.{
  ℕ, zero, suc, ◌+◌, ◌/◌, Bool, true, false, List, [], ◌∷◌, Option, none, some, ℤ, pos, neg,
  is_nonzero, ltb, ◌==◌, if◌then◌else◌, u8,
}
use morsectrl_tools.Util.Text.{same_text}
use morsectrl_tools.Machine.{M, ◌>>=◌, ◌>>◌, ret, Buff, store, load}
use morsectrl_tools.Transport.{
  Transport, raw_read_alloc, raw_write_alloc, buff_free, reg_read, mem_read, mem_write,
}
use morsectrl_tools.Chip.Reset.{unless, write_each}

-- The four octets at an offset: the low half of the offset and the high half of the base value.
abbrev pub octets_at : ℕ → ℕ → List ℕ
octets_at ii base_value =
    u8 ii ∷ u8 (ii / 256) ∷ u8 (base_value / 65536) ∷ u8 (base_value / 16777216) ∷ []

module _ {S : Type 0} where
  -- The loop that fills a buffer, from an offset.
  unfoldable pub fill_from : ℕ → ℕ → ℕ → Buff → M S Buff
  fill_from zero ii base_value b = ret b
  fill_from (suc fuel) ii base_value b =
      if ltb (ii + 3) b.data_len
      then (do b' ← store b ii (octets_at ii base_value); fill_from fuel (ii + 4) base_value b')
      else ret b

  unfoldable pub transport_buff_is_equal : Buff → Buff → M S Bool
  transport_buff_is_equal a b =
      if a.data_len == b.data_len
      then (do left ← load a 0 a.data_len; right ← load b 0 a.data_len; ret (same_text left right))
      else ret false

  -- The search for the octets that differ reads as many of both.
  unfoldable pub memtest_differs : Buff → Buff → M S ℤ
  memtest_differs write_buff read_buff = do
    left ← load write_buff 0 write_buff.data_len
    right ← load read_buff 0 write_buff.data_len
    ret (neg 1)

  unfoldable pub memtest_compare : ℤ → Buff → Buff → M S ℤ
  unfolding transport_buff_is_equal memtest_differs
  memtest_compare r write_buff read_buff = do
    equal ← transport_buff_is_equal write_buff read_buff
    if equal then ret r else memtest_differs write_buff read_buff

  unfoldable pub memtest_with : Transport S → ℕ → ℕ → Option Buff → Option Buff → M S ℤ
  unfolding memtest_compare fill_from unless
  memtest_with t base_addr base_value (some write_buff) (some read_buff) = do
    filled ← fill_from write_buff.data_len 0 base_value write_buff
    r ← mem_write t filled base_addr
    unless r (do
      answer ← mem_read t read_buff base_addr
      unless answer.0 (memtest_compare answer.0 filled answer.1))
  memtest_with t base_addr base_value _ _ = ret (neg 1)

  -- `transraw_memtest`
  unfoldable pub transraw_memtest : Transport S → ℕ → ℕ → ℕ → M S ℤ
  unfolding memtest_with
  transraw_memtest t base_addr size base_value = do
    write_buff ← raw_write_alloc t size
    read_buff ← raw_read_alloc t size
    r ← memtest_with t base_addr base_value write_buff read_buff
    buff_free write_buff
    buff_free read_buff
    ret r

  -- The registers that were written are read back.
  unfoldable pub check_each : Transport S → List (ℕ × ℕ) → M S ℤ
  unfolding unless
  check_each t [] = ret (pos 0)
  check_each t ((address, value) ∷ rest) = do
    answer ← reg_read t address
    unless answer.0 (if value == answer.1 then check_each t rest else ret (neg 1))

  -- Tests of memory, of an address, a size and a base value each, up to the first that fails.
  unfoldable pub test_each : Transport S → List (ℕ × ℕ × ℕ) → M S ℤ
  unfolding transraw_memtest unless
  test_each t [] = ret (pos 0)
  test_each t ((base_addr, size, base_value) ∷ rest) = do
    r ← transraw_memtest t base_addr size base_value
    unless r (test_each t rest)

-- The registers at the banks of the memory, with the values that are written there.
abbrev pub test_registers : List (ℕ × ℕ)
test_registers =
    (0x00100000, 0x12340000)
    ∷ (0x00110000, 0x12340001)
    ∷ (0x00120000, 0x12340002)
    ∷ (0x00130000, 0x12340003)
    ∷ (0x00140000, 0x12340004)
    ∷ (0x00150000, 0x12340005)
    ∷ []

-- Words, one block, a block and a half, two blocks, two and a half, and one beyond 64 KiB.
abbrev pub memory_tests : List (ℕ × ℕ × ℕ)
memory_tests =
    (0x00100000, 64, 0x23450000)
    ∷ (0x00110000, 64, 0x23450000)
    ∷ (0x00100000, 512, 0x34560000)
    ∷ (0x00100000, 768, 0x67890000)
    ∷ (0x00100000, 1024, 0x56780000)
    ∷ (0x00100000, 1280, 0x67890000)
    ∷ (0x00100000, 66304, 0x789A0000)
    ∷ []

module _ {S : Type 0} where
  -- `transraw_test`
  unfoldable pub transraw_test : Transport S → M S ℤ
  unfolding check_each test_each write_each unless
  transraw_test t = do
    chip_id ← reg_read t 0x10054d20
    unless chip_id.0 (do
      written ← write_each t test_registers
      unless written
          (do checked ← check_each t test_registers; unless checked (test_each t memory_tests)))
