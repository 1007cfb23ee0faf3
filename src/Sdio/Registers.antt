-- ===== src/Sdio/Registers.antt =====
-- `sdio_over_spi_read_reg_32bit`, `sdio_over_spi_write_reg_32bit` and
-- `sdio_over_spi_post_hard_reset`. Sleeping is left out.
pub mod Leak
use morsectrl_tools.Prelude.{
  ℕ, zero, suc, ◌+◌, ◌*◌, ◌/◌, ◌%◌, ◌^◌, ◌<◌, ◌≡◌, arith, List, [], ◌∷◌, none, some, ℤ, is_nonzero,
  if◌then◌else◌,
}
use morsectrl_tools.Machine.{M, ◌>>=◌, ◌>>◌, ret, Buff, store, load, through}
use morsectrl_tools.Transport.{TransportOps, etranserr, etranssucc}
use morsectrl_tools.Sdio.Command.{cmd0, cmd63}
use morsectrl_tools.Sdio.Memory.{read_memblock, write_memblock}

-- `htole32` and `le32toh` on the octets in memory.
unfoldable pub to_le32 : ℕ → List ℕ
to_le32 n = (n % 256) ∷ (n / 2 ^ 8 % 256) ∷ (n / 2 ^ 16 % 256) ∷ (n / 2 ^ 24 % 256) ∷ []

unfoldable pub from_le32 : List ℕ → ℕ
from_le32 (a ∷ b ∷ c ∷ d ∷ []) = a + b * 2 ^ 8 + c * 2 ^ 16 + d * 2 ^ 24
from_le32 _ = 0

-- A 32-bit value is read back from the four octets in which it is written.
pub from_le32-to_le32 : (n : ℕ) → n < 2 ^ 32 → from_le32 (to_le32 n) ≡ n
unfolding from_le32 to_le32
from_le32-to_le32 n h = omega arith

module _ {S : Type 0} (tops : TransportOps S) where
  -- The read itself, with the buffer at hand. The buffer is not freed.
  unfoldable pub read_reg_with : Buff → ℕ → M S (ℤ × ℕ)
  read_reg_with read addr = do
    answer ← read_memblock tops read addr
    if is_nonzero answer.0
        then ret (answer.0, 0)
        else (do octets ← load answer.1 0 4; ret (etranssucc, from_le32 octets))

  -- The return code and the value.
  unfoldable pub read_reg_32bit : ℕ → M S (ℤ × ℕ)
  unfolding read_reg_with
  read_reg_32bit addr = elim tops.raw_read [
    | none ↦ ret (etranserr, 0)
    | some f ↦ do
      allocated ← tops.read_alloc 4
      elim allocated [ none ↦ ret (etranserr, 0) | some read ↦ read_reg_with read addr ]
  ]

  -- Nor is this buffer freed.
  unfoldable pub write_reg_32bit : ℕ → ℕ → M S ℤ
  write_reg_32bit addr value = elim tops.raw_write [
    | none ↦ ret etranserr
    | some f ↦ do
      allocated ← tops.write_alloc 4
      elim allocated [
        | none ↦ ret etranserr
        | some write ↦ do
          write' ← store write 0 (to_le32 value)
          answer ← write_memblock tops write' addr
          ret answer.0
      ]
  ]

  -- Both codes are ignored.
  unfoldable pub enter_spi_mode : ℕ → M S (Unit {0})
  enter_spi_mode zero = ret tt
  enter_spi_mode (suc left) = do cmd63 tops; cmd0 tops; enter_spi_mode left

  -- The register writes that get things moving, at most `left` times; `r` is the code so far.
  unfoldable pub start_clocks : (ℕ → ℕ → M S ℤ) → ℕ → ℤ → M S ℤ
  start_clocks reg_write zero r = ret r
  start_clocks reg_write (suc left) r = do
    r0 ← reg_write 0x10054050 0xDEAD
    if is_nonzero r0 then start_clocks reg_write left r0 else (do
      r1 ← reg_write 0x1005406C 0xE5
      if is_nonzero r1 then start_clocks reg_write left r1 else ret r1)

  unfoldable pub post_hard_reset : M S ℤ
  unfolding enter_spi_mode start_clocks
  post_hard_reset = do
    enter_spi_mode 3
    reg_read ← through tops.reg_read
    chip ← reg_read 0x10054d20
    if is_nonzero chip.0 then ret chip.0 else (do
      reg_write ← through tops.reg_write
      r ← start_clocks reg_write 3 chip.0
      if is_nonzero r then ret r else reg_write 0x10054d40 0)
