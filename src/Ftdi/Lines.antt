-- ===== src/Ftdi/Lines.antt =====
-- `ftdi_spi_set_cs`, `ftdi_spi_raw_read`, `ftdi_spi_raw_write` and `ftdi_spi_reset`: transfers in one
-- direction, and the lines of the chip.
use morsectrl_tools.Prelude.{
  ℕ, ◌+◌, ◌-◌, ◌/◌, ◌^◌, bit_and, bit_or, Bool, true, false, replicate, Option, none, some, ℤ,
  is_nonzero, ◌==◌, ◌&&◌, not, if◌then◌else◌,
}
use morsectrl_tools.Machine.{M, ◌>>=◌, ◌>>◌, ret, Buff, store, load, through}
use morsectrl_tools.Transport.{TransportOps, buff_free, etranssucc}
use morsectrl_tools.Sdio.Registers.{post_hard_reset}
use morsectrl_tools.Ftdi.{etransftdispierr}
use morsectrl_tools.Ftdi.Library.{FtdiLibrary}

-- `FTDI_SPI_OPTS_CS_START` and `FTDI_SPI_OPTS_CS_FINISH`
unfoldable pub cs_options : Bool → Bool → ℕ
cs_options start finish = (if start then 2 else 0) + (if finish then 4 else 0)

-- The code of a transfer.
unfoldable pub transfer_code : ℕ → ℕ → ℕ → ℤ
transfer_code status size_transferred size =
    if status == 0 && size_transferred == size then etranssucc else etransftdispierr

-- `value &= ~mask` on a `UCHAR`.
unfoldable pub clear_pins : ℕ → ℕ → ℕ
clear_pins value mask = bit_and value (255 - mask)

module _ {S : Type 0} (lib : FtdiLibrary S) where
  unfoldable pub set_cs : Bool → M S ℤ
  set_cs assert = do
    state ← lib.get_state
    status ← lib.toggle_cs state.handle assert
    ret (if status == 0 then etranssucc else etransftdispierr)

  -- Without a buffer only the chip select line is set.
  unfoldable pub only_cs : Bool → Bool → M S ℤ
  unfolding set_cs
  only_cs start finish =
      if finish then set_cs false else if start then set_cs true else ret etransftdispierr

  unfoldable pub raw_read : Option Buff → Bool → Bool → M S (ℤ × Option Buff)
  unfolding only_cs cs_options transfer_code
  raw_read none start finish = do r ← only_cs start finish; ret (r, none)
  raw_read (some read) start finish = do
    state ← lib.get_state
    answer ← lib.spi_read state.handle read.data_len (cs_options start finish)
    read' ← store read 0 answer.2
    ret (transfer_code answer.0 answer.1 read.data_len, some read')

  unfoldable pub raw_write : Option Buff → Bool → Bool → M S ℤ
  unfolding only_cs cs_options transfer_code
  raw_write none start finish = only_cs start finish
  raw_write (some write) start finish = do
    state ← lib.get_state
    octets ← load write 0 write.data_len
    answer ← lib.spi_write state.handle octets (cs_options start finish)
    ret (transfer_code answer.0 answer.1 write.data_len)

  -- The lines of the reset, from the state of the pins: both low, then the chip's reset high, then the
  -- one of JTAG. The flag says that all went well.
  unfoldable pub pull_lines : M S Bool
  unfolding clear_pins set_cs
  pull_lines = do
    state ← lib.get_state
    config ← lib.get_config
    pins ← lib.pin_state state.reset_handle
    if not (pins.0 == 0) then ret false else (do
      let both = bit_or config.reset_pin config.jtag_reset_pin
      let low = clear_pins (bit_and (pins.1 / 2 ^ 8) 0xFF) both
      let dir = bit_or (bit_and pins.1 0xFF) both
      held ← lib.write_gpiol state.reset_handle dir low
      if not (held == 0) then ret false else (do
        r ← set_cs false
        if is_nonzero r then ret false else (do
          let reset_high = bit_or low config.reset_pin
          released ← lib.write_gpiol state.reset_handle dir reset_high
          if not (released == 0) then ret false else (do
            debug ← lib.write_gpiol state.reset_handle dir (bit_or reset_high config.jtag_reset_pin)
            ret (debug == 0)))))

  -- Behind the lines: some clock cycles. The codes are ignored. The data pointer of a buffer that
  -- could not be had is NULL.
  unfoldable pub clock_in : TransportOps S → Option Buff → M S (Unit {0})
  unfolding set_cs
  clock_in tops buff = do
    set_cs false
    b ← through buff
    b' ← store b 0 (replicate b.data_len 0xFF)
    write ← through tops.raw_write
    write (some b') false false
    buff_free (some b')
    ret tt

  -- `ftdi_spi_reset`. The buffer is allocated first, and is not freed where a line fails.
  unfoldable pub reset : TransportOps S → M S ℤ
  unfolding pull_lines clock_in
  reset tops = do
    buff ← tops.write_alloc 18
    fine ← pull_lines
    if not fine then ret etransftdispierr else (do clock_in tops buff; post_hard_reset tops)
