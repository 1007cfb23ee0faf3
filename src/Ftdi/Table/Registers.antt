-- ===== src/Ftdi/Table/Registers.antt =====
-- Registers through the transport layer, down to libmpsse.
use morsectrl_tools.Prelude.{ℕ, ◌+◌, ◌%◌, ◌^◌, ◌<◌, ◌≡◌, refl, some, ℤ, arith}
use morsectrl_tools.Machine.{World, done}
use morsectrl_tools.Transport.{Transport, ftdi_spi, reg_read, reg_write}
use morsectrl_tools.Sdio.Registers.Leak.{read_reg_32bit-leaks, write_reg_32bit-leaks}
use morsectrl_tools.Ftdi.Lines.{raw_read, raw_write}
use morsectrl_tools.Ftdi.Library.{FtdiLibrary, DeviceNode}
use morsectrl_tools.Ftdi.Table.{raw_ops, ftdi_spi_ops}
use morsectrl_tools.Ftdi.Table.Balance.{Lawful, raw_ops-Bus, alloc-Allocates}

-- The FTDI transport.
abbrev pub ftdi : {S : Type 0} → FtdiLibrary S → DeviceNode → Transport S
ftdi lib fresh = record { type = ftdi_spi; tops = some (ftdi_spi_ops lib fresh) }

module _ {S : Type 0} (lib : FtdiLibrary S) (lawful : Lawful lib) (fresh : DeviceNode) where
  -- Over such libraries, `morsectrl_reg_read` and `morsectrl_reg_write` on the FTDI transport return
  -- for the address of a word, whatever the chip answers, and each leaves one buffer more allocated
  -- than it found.
  pub register-leaks :
      (addr value : ℕ) (w : World S)
      → addr % 4 ≡ 0
      → addr + 4 < 2 ^ 32
      → ((r : ℤ) × (read : ℕ) × (w' : World S) × (reg_read (ftdi lib fresh) addr w
            ≡ done ((r, read), w'))
          × (w'.live ≡ w.live + 1))
        × ((r : ℤ) × (w' : World S) × (reg_write (ftdi lib fresh) addr value w ≡ done (r, w'))
            × (w'.live ≡ w.live + 1))
  unfolding reg_read reg_write
  register-leaks addr value w word fits =
      let ops = raw_ops lib fresh in
      let bus = raw_ops-Bus lib lawful fresh in
      (
        read_reg_32bit-leaks ops bus addr w (raw_read lib) refl
            (alloc-Allocates lib lawful 4 w (omega arith)) word fits,
        write_reg_32bit-leaks ops bus addr value w (raw_write lib) refl word fits,
      )
