-- ===== src/Ftdi/Table/Balance.antt =====
-- The table of the FTDI transport as the bus that SDIO over SPI asks for.
use morsectrl_tools.Prelude.{
  ℕ, ◌+◌, ◌-◌, ◌≤◌, ◌<◌, ◌≡◌, refl, inl, Bool, false, List, length, replicate, min, some, ℤ, ◌==◌,
  if◌then◌else◌, arith,
}
use morsectrl_tools.Machine.{World, done, Buff, length-overwrite}
use morsectrl_tools.Machine.Room.{Holds, SameBuff, store-SameBuff, load-length}
use morsectrl_tools.Sdio.Memory.{align_size}
use morsectrl_tools.Sdio.Command.Exchange.{Allocates, Bus}
use morsectrl_tools.Ftdi.{alloc, raw_read_write}
use morsectrl_tools.Ftdi.Library.{FtdiLibrary, FtdiState, DeviceNode}
use morsectrl_tools.Ftdi.Table.{buff_handle_size, spi_transfer, raw_ops}

-- What is asked of the libraries: memory of the size asked for, the transport's state, and a transfer,
-- good or bad, that fills as many octets as it was given. None of them takes a buffer.
pub record Lawful {S : Type 0} (lib : FtdiLibrary S) : Type 0 where
  pub mallocs :
      (n : ℕ) (w : World S)
      → (memory : List ℕ) × (w' : World S) × (lib.malloc n w ≡ done (some memory, w'))
        × (length memory ≡ n)
        × (w'.live ≡ w.live)
  pub states :
      (w : World S)
      → (state : FtdiState) × (w' : World S) × (lib.get_state w ≡ done (state, w'))
        × (w'.live ≡ w.live)
  pub transfers :
      (handle : ℕ) (octets : List ℕ) (options : ℕ) (w : World S)
      → (status count : ℕ) × (read : List ℕ) × (w' : World S) × (lib.spi_read_write handle octets
            options w
          ≡ done ((status, count, read), w'))
        × (length read ≡ length octets)
        × (w'.live ≡ w.live)

align_size-le : (n : ℕ) → n ≤ align_size n 4
unfolding align_size
align_size-le n = ground arith

module _ {S : Type 0} (lib : FtdiLibrary S) (lawful : Lawful lib) where
  pub alloc-Allocates :
      (n : ℕ) (w : World S) → 0 < n → Allocates (alloc lib.malloc buff_handle_size) n w
  unfolding alloc
  alloc-Allocates n w some_octets =
      let (handle, w1, got, _, same) = lawful.mallocs buff_handle_size w in
      let (memory, w2, got', size, same') = lawful.mallocs (align_size n 4) w1 in
      let junk : List ℕ = replicate (align_size n 4 - n) 0xFF in
      let nonzero : (n == 0) ≡ false = ground arith in
      rw (nonzero, got)
        (rw got' (
          _,
          _,
          refl,
          omega (arith, align_size-le n, size, length-overwrite n junk memory),
          refl,
          omega (arith, same, same'),
        ))

  transfer-done :
      (read write : Buff) (start finish : Bool) (w : World S)
      → Holds read.data_len read
      → Holds write.data_len write
      → (r : ℤ) × (read' : Buff) × (w' : World S) × (spi_transfer lib read write start finish w
          ≡ done ((r, read'), w'))
        × SameBuff read' read
        × (w'.live ≡ w.live)
  unfolding spi_transfer raw_read_write
  transfer-done read write start finish w room room' =
      let size = min read.data_len write.data_len in
      let options = (if start then 2 else 0) + (if finish then 4 else 0) in
      let (state, w1, known, same) = lawful.states w in
      let (octets, loaded, len) = load-length write 0 size w1 (omega (arith, room')) in
      let (status, count, got, w2, moved, len', same') =
        lawful.transfers state.handle octets options w1 in
      let (read', stored, kept) = store-SameBuff read 0 got w2 (omega (arith, room, len, len')) in
      rw (known, loaded, moved, stored) (_, read', w2, refl, kept, omega (arith, same, same'))

  -- Over such libraries the functions of the FTDI transport are a bus as SDIO over SPI asks for.
  pub raw_ops-Bus : (fresh : DeviceNode) → Bus (raw_ops lib fresh)
  raw_ops-Bus fresh = record {
    write_allocates = alloc-Allocates;
    read_allocates = λ n w some_octets. inl (alloc-Allocates n w some_octets);
    transfer = spi_transfer lib;
    raw_read_write-transfer = refl;
    transfers = transfer-done;
  }
