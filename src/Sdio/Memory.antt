-- ===== src/Sdio/Memory.antt =====
-- `sdio_over_spi_setup_keyhole`, `sdio_over_spi_memblock_common` and its two callers.
pub mod Section
pub mod Tiling
pub mod Balance
use morsectrl_tools.Prelude.{
  ℕ, zero, suc, ◌+◌, ◌-◌, ◌*◌, ◌/◌, ◌%◌, ◌^◌, min, bit_and, Bool, true, false, List, [], ◌∷◌,
  Option, none, some, ℤ, is_nonzero, ◌==◌, if◌then◌else◌, u16, u32, u64, ◌>>>◌,
}
use morsectrl_tools.Machine.{World, Outcome, done, fault, M, ◌>>=◌, ◌>>◌, ret, undefined, Buff}
use morsectrl_tools.Transport.{TransportOps, etranssucc}
use morsectrl_tools.Sdio.Frame.{max_block_size}
use morsectrl_tools.Sdio.Command.{cmd52}
use morsectrl_tools.Sdio.Block.{cmd53}

-- `ALIGN_SIZE` of utilities.h
unfoldable pub align_size : ℕ → ℕ → ℕ
align_size n octets = if n % octets == 0 then n else n + (octets - n % octets)

-- `MIN(current_section_end - chip_mem_addr, remaining_data_len)`: the end is a `uint32_t`, the
-- difference a `size_t`.
unfoldable pub section_size : ℕ → ℕ → ℕ
section_size addr remaining =
    let section_end = u32 (bit_and addr 0xFFFF0000 + 0x10000) in
    min (u64 (section_end + 2 ^ 64 - addr)) remaining

-- `buff->data += n`
abbrev pub advance : ℕ → Buff → Buff
advance n b = record b { data_at = b.data_at + n }

module _ {S : Type 0} (tops : TransportOps S) where
  unfoldable pub setup_keyhole : ℕ → ℕ → M S ℤ
  setup_keyhole addr size = do
    r0 ← cmd52 tops true 2 0x10000 (bit_and (addr >>> 16) 0xFF)
    if is_nonzero r0 then ret r0 else do
      r1 ← cmd52 tops true 2 0x10001 (bit_and (addr >>> 24) 0xFF)
      if is_nonzero r1 then ret r1 else cmd52 tops true 2 0x10002 (bit_and size 0x3)

  -- One turn of the loop behind the keyhole: whole blocks, then the octets that are left, rounded up
  -- to words. `r` is the code so far.
  unfoldable pub transfer_section : Buff → Bool → ℕ → ℕ → ℤ → M S (ℤ × Buff)
  transfer_section buff write addr size r = do
    let octets = size % max_block_size
    let blocks = size / max_block_size
    first ← (if blocks == 0 then ret (r, buff) else cmd53 tops buff write 2 true addr (u16 blocks))
    let rest = advance (size - octets) first.1
    second ←
        (if octets == 0
          then ret (first.0, rest)
          else cmd53 tops rest write 2 false (u32 (addr + size - octets))
              (u16 (align_size octets 4)))
    ret (second.0, advance octets second.1)

  -- The loop, on fuel: a section is at least one octet, so `remaining` rounds are enough. With the
  -- keyhole refused the function returns at once, the buffer's data pointer where it stood.
  unfoldable pub sections_loop : ℕ → Buff → Bool → ℕ → ℕ → ℤ → M S (ℤ × Buff × Bool)
  sections_loop zero buff write addr remaining r = ret (r, buff, true)
  sections_loop (suc fuel) buff write addr zero r = ret (r, buff, true)
  sections_loop (suc fuel) buff write addr (suc n) r = do
    let size = section_size addr (suc n)
    k ← setup_keyhole addr 2
    if is_nonzero k then ret (k, buff, false) else (do
      answer ← transfer_section buff write addr size k
      sections_loop fuel answer.1 write (u32 (addr + size)) (suc n - size) answer.0)

  -- The data pointer and the length are put back at the end, but not on the early return.
  unfoldable pub memblock_common : Buff → Bool → ℕ → M S (ℤ × Buff)
  unfolding sections_loop
  memblock_common buff write addr = do
    answer ← sections_loop buff.data_len buff write addr buff.data_len etranssucc
    let left = answer.1
    ret (
      answer.0,
      if answer.2 then record left { data_at = buff.data_at; data_len = buff.data_len } else left,
    )

  unfoldable pub read_memblock : Buff → ℕ → M S (ℤ × Buff)
  unfolding memblock_common
  read_memblock buff addr = memblock_common buff false addr

  unfoldable pub write_memblock : Buff → ℕ → M S (ℤ × Buff)
  unfolding memblock_common
  write_memblock buff addr = memblock_common buff true addr
