-- ===== src/Ftdi/Table/Knot.antt =====
-- The table against its source: the functions that go through the table may be given the finished
-- table itself.
use morsectrl_tools.Prelude.{
  ℕ, zero, suc, ◌+◌, ◌-◌, ◌≡◌, refl, ap, inl, inr, Bool, true, false, some, ℤ, is_nonzero,
  Bool-cases, u32,
}
use mathlib.Core.Path.{fun_ext}
use morsectrl_tools.Machine.{
  World, M, bind_cong, bind_same, bind_option_cong, ret, store, ◌>>=◌, Buff,
}
use morsectrl_tools.Transport.{TransportOps, etranssucc}
use morsectrl_tools.Sdio.Command.{
  cmd0, cmd52, cmd63, exchange, exchange_with, alloc_cmd, response_code,
}
use morsectrl_tools.Sdio.Block.{cmd53, with_buffers, transact, fill_frame, process_answer}
use morsectrl_tools.Sdio.Memory.{
  setup_keyhole, transfer_section, sections_loop, memblock_common, section_size, read_memblock,
  write_memblock,
}
use morsectrl_tools.Sdio.Registers.{
  read_reg_32bit, read_reg_with, write_reg_32bit, post_hard_reset, enter_spi_mode, start_clocks,
  to_le32,
}
use morsectrl_tools.Ftdi.{send, alloc}
use morsectrl_tools.Ftdi.Lines.{reset, clock_in}
use morsectrl_tools.Ftdi.Library.{FtdiLibrary, DeviceNode}
use morsectrl_tools.Ftdi.Table.{raw_ops, memory_ops, ftdi_spi_ops, mem_write_over, buff_handle_size}

module _ {S : Type 0} (lib : FtdiLibrary S) (fresh : DeviceNode) where
  abbrev loose : TransportOps S
  loose = raw_ops lib fresh

  abbrev whole : TransportOps S
  whole = ftdi_spi_ops lib fresh

  cmd52_same :
      (write : Bool) (func addr octet : ℕ)
      → cmd52 loose write func addr octet ≡ cmd52 whole write func addr octet
  unfolding cmd52 exchange exchange_with alloc_cmd response_code
  cmd52_same write func addr octet = refl

  cmd53_same :
      (b : Buff) (write : Bool) (func : ℕ) (block_mode : Bool) (addr count : ℕ)
      → cmd53 loose b write func block_mode addr count
        ≡ cmd53 whole b write func block_mode addr count
  unfolding cmd53 with_buffers transact fill_frame process_answer
  cmd53_same b write func block_mode addr count = refl

  setup_keyhole_same :
      (addr size : ℕ) → setup_keyhole loose addr size ≡ setup_keyhole whole addr size
  unfolding setup_keyhole cmd52 exchange exchange_with alloc_cmd response_code
  setup_keyhole_same addr size = refl

  transfer_section_same :
      (b : Buff) (write : Bool) (addr size : ℕ) (r : ℤ)
      → transfer_section loose b write addr size r ≡ transfer_section whole b write addr size r
  unfolding transfer_section cmd53 with_buffers transact fill_frame process_answer
  transfer_section_same b write addr size r = refl

  sections_loop_same :
      (fuel : ℕ) (b : Buff) (write : Bool) (addr remaining : ℕ) (r : ℤ) (w : World S)
      → sections_loop loose fuel b write addr remaining r w
        ≡ sections_loop whole fuel b write addr remaining r w
  unfolding sections_loop
  sections_loop_same zero b write addr remaining r w = refl
  sections_loop_same (suc fuel) b write addr zero r w = refl
  sections_loop_same (suc fuel) b write addr (suc n) r w =
      let size = section_size addr (suc n) in
      rw (setup_keyhole_same addr 2) (
        bind_cong (setup_keyhole whole addr 2) _ _ w (λ k w1. elim (Bool-cases (is_nonzero k)) [
          | inl refused ↦ rw refused refl
          | inr ready ↦
              rw (ready, transfer_section_same b write addr size k)
                (bind_cong (transfer_section whole b write addr size k) _ _ w1 (λ answer w2.
                  sections_loop_same fuel answer.1 write (u32 (addr + size)) (suc n - size) answer.0
                    w2))
        ]))

  memblock_common_same :
      (b : Buff) (write : Bool) (addr : ℕ)
      → memblock_common loose b write addr ≡ memblock_common whole b write addr
  unfolding memblock_common
  memblock_common_same b write addr =
      fun_ext (λ w. rw (sections_loop_same b.data_len b write addr b.data_len etranssucc w) refl)

  read_reg_same : read_reg_32bit loose ≡ read_reg_32bit whole
  unfolding read_reg_32bit read_reg_with read_memblock
  read_reg_same = fun_ext (λ addr. fun_ext (λ w.
      bind_option_cong (alloc lib.malloc buff_handle_size 4) _
        (λ read. read_reg_with loose read addr) (λ read. read_reg_with whole read addr) w
        (λ read w1.
          bind_same (read_memblock loose read addr) (read_memblock whole read addr) _ w1
            (ap (λ m. m w1) (memblock_common_same read false addr)))))

  abbrev write_with : TransportOps S → ℕ → ℕ → Buff → M S ℤ
  write_with tops addr value write = do
    write' ← store write 0 (to_le32 value)
    answer ← write_memblock tops write' addr
    ret answer.0

  write_reg_same : write_reg_32bit loose ≡ write_reg_32bit whole
  unfolding write_reg_32bit write_memblock
  write_reg_same = fun_ext (λ addr. fun_ext (λ value. fun_ext (λ w.
      bind_option_cong (alloc lib.malloc buff_handle_size 4) _ (write_with loose addr value)
        (write_with whole addr value) w
        (λ write w1. bind_cong (store write 0 (to_le32 value)) _ _ w1 (λ write' w2.
          bind_same (write_memblock loose write' addr) (write_memblock whole write' addr)
            (λ answer. ret answer.0) w2
            (ap (λ m. m w2) (memblock_common_same write' true addr)))))))

  mem_read_same : read_memblock loose ≡ read_memblock whole
  unfolding read_memblock
  mem_read_same = fun_ext (λ b. fun_ext (λ addr. memblock_common_same b false addr))

  mem_write_same : mem_write_over loose ≡ mem_write_over whole
  unfolding mem_write_over write_memblock
  mem_write_same = fun_ext (λ b. fun_ext (λ addr. rw (memblock_common_same b true addr) refl))

  send_same : send (memory_ops lib fresh) ≡ send whole
  unfolding send
  send_same = refl

  reset_same : reset lib (memory_ops lib fresh) ≡ reset lib whole
  unfolding reset clock_in post_hard_reset enter_spi_mode start_clocks cmd63 cmd0 exchange
      exchange_with alloc_cmd response_code
  reset_same = refl

  -- Every entry that calls others through the table calls them through this table.
  abbrev pub IsTied : Type 0
  IsTied =
      (whole.reg_read ≡ some (read_reg_32bit whole))
      × (whole.reg_write ≡ some (write_reg_32bit whole))
      × (whole.mem_read ≡ some (read_memblock whole))
      × (whole.mem_write ≡ some (mem_write_over whole))
      × (whole.send ≡ send whole)
      × (whole.reset_device ≡ some (reset lib whole))

  -- The entries of `ftdi_spi_ops` for the registers, the memory, the sending and the reset are the
  -- functions of the source, given the table itself, as `transport->tops` gives it to them.
  pub ftdi_spi_ops-IsTied : IsTied
  ftdi_spi_ops-IsTied = (
    ap some read_reg_same,
    ap some write_reg_same,
    ap some mem_read_same,
    ap some mem_write_same,
    send_same,
    ap some reset_same,
  )
