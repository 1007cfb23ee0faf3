-- ===== src/Sdio/Memory/Section.antt =====
-- The loop of `sdio_over_spi_memblock_common` as a run through the list of its sections, and the
-- code that a section returns.
use morsectrl_tools.Prelude.{
  ℕ, zero, suc, ◌+◌, ◌-◌, ◌/◌, ◌%◌, ◌^◌, ◌<◌, ◌≡◌, ◌≢◌, refl, ap, inl, inr, Bool, true, false, List,
  [], ◌∷◌, ℤ, is_nonzero, arith, ◌==◌, Bool-cases, if◌then◌else◌, u16, u32,
}
use morsectrl_tools.Machine.{World, done, M, ◌>>=◌, ret, Buff, continue, bind_cong}
use morsectrl_tools.Transport.{TransportOps, etranssucc}
use morsectrl_tools.Sdio.Block.{cmd53}
use morsectrl_tools.Sdio.Frame.{max_block_size}
use morsectrl_tools.Sdio.Memory.{
  align_size, advance, setup_keyhole, transfer_section, section_size, sections_loop,
  memblock_common,
}
use morsectrl_tools.Sdio.Memory.Tiling.{Tiles, sections, sections-Tiles}

module _ {S : Type 0} (tops : TransportOps S) where
  -- Set the keyhole and transfer, section by section, until the keyhole is refused.
  pub run_sections : Bool → List (ℕ × ℕ) → Buff → ℤ → M S (ℤ × Buff × Bool)
  run_sections write [] buff r = ret (r, buff, true)
  run_sections write ((addr, size) ∷ rest) buff r = do
    k ← setup_keyhole tops addr 2
    if is_nonzero k then ret (k, buff, false) else (do
      answer ← transfer_section tops buff write addr size k
      run_sections write rest answer.1 answer.0)

  sections_loop-run_sections :
      (fuel : ℕ) (buff : Buff) (write : Bool) (addr remaining : ℕ) (r : ℤ) (w : World S)
      → sections_loop tops fuel buff write addr remaining r w
        ≡ run_sections write (sections fuel addr remaining) buff r w
  unfolding sections_loop run_sections
  sections_loop-run_sections zero buff write addr remaining r w = refl
  sections_loop-run_sections (suc fuel) buff write addr zero r w = refl
  sections_loop-run_sections (suc fuel) buff write addr (suc n) r w =
      let size = section_size addr (suc n) in
      bind_cong (setup_keyhole tops addr 2) _ _ w (λ k w'. elim (Bool-cases (is_nonzero k)) [
        | inl bad ↦ rw bad refl
        | inr good ↦ rw good (
            bind_cong (transfer_section tops buff write addr size k) _ _ w' (λ answer w''.
              sections_loop-run_sections fuel answer.1 write (u32 (addr + size)) (suc n - size)
                answer.0 w''))
      ])

  -- What is handed back: the data pointer and the length stand where they stood, if the loop ran to
  -- its end.
  abbrev pub restored : Buff → Bool → Buff → Buff
  restored buff whole left =
      if whole then record left { data_at = buff.data_at; data_len = buff.data_len } else left

  -- Below the top of the address space, `memblock_common` cuts the range of the buffer's length into
  -- sections that cover it, none across a multiple of 2 ^ 16, and transfers them in order.
  pub memblock_common-Tiles :
      (buff : Buff) (write : Bool) (addr : ℕ) (w : World S)
      → addr + buff.data_len < 2 ^ 32
      → (parts : List (ℕ × ℕ)) × Tiles addr buff.data_len parts
        × (memblock_common tops buff write addr w
            ≡ (run_sections write parts buff etranssucc >>= λ answer.
                  ret (answer.0, restored buff answer.2 answer.1))
                w)
  unfolding memblock_common
  memblock_common-Tiles buff write addr w fits =
      let len = buff.data_len in
      (
        sections len addr len,
        sections-Tiles len addr len (omega arith) fits,
        ap (λ o. continue o (λ answer. ret (answer.0, restored buff answer.2 answer.1)))
            (sections_loop-run_sections len buff write addr len etranssucc w),
      )

  -- A section with octets behind its whole blocks returns the code of the last transfer: whatever
  -- the transfer of the blocks returned is lost.
  pub transfer_section-last_code :
      (buff : Buff) (write : Bool) (addr size : ℕ) (r : ℤ) (w : World S) {e e' : ℤ} {b b' : Buff}
      {w' w'' : World S}
      → size / max_block_size ≢ 0
      → size % max_block_size ≢ 0
      → cmd53 tops buff write 2 true addr (u16 (size / max_block_size)) w ≡ done ((e, b), w')
      → cmd53 tops
          (advance (size - size % max_block_size) b)
          write
          2
          false
          (u32 (addr + size - size % max_block_size))
          (u16 (align_size (size % max_block_size) 4))
          w'
        ≡ done ((e', b'), w'')
      → transfer_section tops buff write addr size r w
        ≡ done ((e', advance (size % max_block_size) b'), w'')
  unfolding transfer_section
  transfer_section-last_code buff write addr size r w blocks octets first second =
      let some_blocks : (size / max_block_size == 0) ≡ false = ground arith in
      let some_octets : (size % max_block_size == 0) ≡ false = ground arith in
      rw (some_blocks, first, some_octets, second) refl
