-- ===== src/Tests/Memory.antt =====
-- The transfer of a memory block at concrete inputs, on the small bus.
use morsectrl_tools.Prelude.{ℕ, ◌≡◌, refl, true, false, List, pos, arith}
use morsectrl_tools.Machine.{done, ◌>>=◌, ret, through, overwrite, store, load}
use morsectrl_tools.Transport.{etranssucc, etranserr, buff_free}
use morsectrl_tools.Sdio.Block.{cmd53, cmd53_start, block_size_of}
use morsectrl_tools.Sdio.Frame.{full_trans_size, total_block_size, cmd53_hdr, write_block}
use morsectrl_tools.Sdio.Response.{cmd_find_resp, cmd53_find_ack}
use morsectrl_tools.Sdio.Memory.{align_size, advance, transfer_section, memblock_common}
use morsectrl_tools.Sdio.Memory.Tiling.{Tiles}
use morsectrl_tools.Sdio.Memory.Section.{
  run_sections, restored, memblock_common-Tiles, transfer_section-last_code,
}
use morsectrl_tools.Tests.Host.{start, toy, zeros, alloc_to}

-- Two sections: up to the boundary at 0x20000, and behind it.
memblock_common-Tiles_example :
    (parts : List (ℕ × ℕ)) × Tiles 0x1FFFE 4 parts
    × (memblock_common (toy (alloc_to 300)) (zeros 4) false 0x1FFFE start
        ≡ (run_sections (toy (alloc_to 300)) false parts (zeros 4) etranssucc >>= λ answer.
              ret (answer.0, restored (toy (alloc_to 300)) (zeros 4) answer.2 answer.1))
            start)
memblock_common-Tiles_example =
    memblock_common-Tiles (toy (alloc_to 300)) (zeros 4) false 0x1FFFE start (omega arith)

first_fails :
    cmd53 (toy (alloc_to 300)) (zeros 516) true 2 true 0 1 start
    ≡ done ((etranserr, zeros 516), start)
unfolding cmd53 through block_size_of full_trans_size buff_free
first_fails = refl

second_succeeds :
    cmd53 (toy (alloc_to 300)) (advance 512 (zeros 516)) true 2 false 512 4 start
    ≡ done ((pos 0, advance 512 (zeros 516)), start)
unfolding cmd53 through block_size_of full_trans_size buff_free store load total_block_size
    cmd53_hdr cmd53_start write_block cmd_find_resp cmd53_find_ack overwrite
second_succeeds = refl

-- The failure of the blocks is lost.
first_lost :
    transfer_section (toy (alloc_to 300)) (zeros 516) true 0 516 (pos 0) start
    ≡ done ((pos 0, advance 4 (advance 512 (zeros 516))), start)
unfolding align_size
first_lost =
    transfer_section-last_code (toy (alloc_to 300)) (zeros 516) true 0 516 (pos 0) start
      (omega arith) (omega arith) first_fails second_succeeds
