-- ===== src/Ftdi/Channels.antt =====
-- `ftdi_spi_set_spi_and_reset_chan`, `ftdi_spi_init` and `ftdi_spi_deinit`: which of the channels
-- are opened, and the lines that are set.
pub mod Choice
use morsectrl_tools.Prelude.{
  ℕ, zero, suc, ◌+◌, ◌-◌, ◌^◌, bit_or, Bool, List, [], ◌∷◌, ℤ, ltb, ◌==◌, ◌||◌, not, if◌then◌else◌,
}
use morsectrl_tools.Util.Text.{Text}
use morsectrl_tools.Machine.{M, ◌>>=◌, ◌>>◌, ret}
use morsectrl_tools.Transport.{starts_with, etranssucc}
use morsectrl_tools.Ftdi.{etransftdispierr}
use morsectrl_tools.Ftdi.Parse.{FtdiChannel}
use morsectrl_tools.Ftdi.Library.{FtdiLibrary, FtdiState, DeviceNode}

-- `UINT32_MAX`
abbrev pub uint32_max : ℕ
uint32_max = 0xFFFFFFFF

-- `struct morsectrl_ftdi_spi_chan_info`
pub record ChanInfo : Type 0 where
  pub spi_loc_id : ℕ
  pub spi_loc_id_ch : ℕ
  pub reset_loc_id : ℕ
  pub reset_loc_id_ch : ℕ

abbrev pub no_channels : ChanInfo
no_channels = record {
  spi_loc_id = uint32_max;
  spi_loc_id_ch = uint32_max;
  reset_loc_id = uint32_max;
  reset_loc_id_ch = uint32_max;
}

unfoldable pub set_spi_and_reset_chan : ℕ → ℕ → ChanInfo → ChanInfo
set_spi_and_reset_chan loc_id channel_num info =
    if ltb loc_id info.spi_loc_id
    then record info {
      spi_loc_id = loc_id;
      spi_loc_id_ch = channel_num;
      reset_loc_id = info.spi_loc_id;
      reset_loc_id_ch = info.spi_loc_id_ch;
    }
    else if ltb loc_id info.reset_loc_id
    then record info { reset_loc_id = loc_id; reset_loc_id_ch = channel_num }
    else info

-- Any serial number will do where none is configured.
unfoldable pub wanted : Text → DeviceNode → Bool
wanted [] node = Bool.true
wanted (c ∷ serial) node = starts_with (c ∷ serial) node.serial_number

unfoldable pub consider : Text → ℕ → DeviceNode → ChanInfo → ChanInfo
unfolding wanted set_spi_and_reset_chan
consider serial ii node info =
    if wanted serial node then set_spi_and_reset_chan node.loc_id ii info else info

module _ {S : Type 0} (lib : FtdiLibrary S) where
  -- The loop over the channels, `left` of them from number `ii` on. The status is not looked at, and
  -- `node` is what the variable holds.
  unfoldable pub scan_channels : Text → ℕ → ℕ → DeviceNode → ChanInfo → M S ChanInfo
  unfolding consider
  scan_channels serial zero ii node info = ret info
  scan_channels serial (suc left) ii node info = do
    answer ← lib.get_channel_info ii node
    scan_channels serial left (ii + 1) answer.1 (consider serial ii answer.1 info)

  -- `SPI_OpenChannel`, which fills a field of the state, and `SPI_InitChannel`: whether both went
  -- well.
  unfoldable pub open_and_init : ℕ → ℕ → (ℕ → FtdiState) → FtdiChannel → M S Bool
  open_and_init channel_num handle filled config = do
    opened ← lib.open_channel channel_num handle
    lib.put_state (filled opened.1)
    if not (opened.0 == 0)
        then ret Bool.false
        else (do status ← lib.init_channel opened.1 config; ret (status == 0))

  -- From the choice on. A failure leaves open what was opened before.
  unfoldable pub open_chosen : FtdiChannel → ChanInfo → M S ℤ
  unfolding open_and_init
  open_chosen config info = do
    state ← lib.get_state
    spi ← open_and_init info.spi_loc_id_ch state.handle (λ h. record state { handle = h }) config
    if not spi then ret etransftdispierr else (do
      state' ← lib.get_state
      reset ←
          open_and_init info.reset_loc_id_ch state'.reset_handle
            (λ h. record state' { reset_handle = h }) config
      if not reset then ret etransftdispierr else (do
        opened ← lib.get_state
        lib.write_gpiol opened.reset_handle (bit_or config.jtag_reset_pin config.reset_pin) 0xFF
        ret etranssucc))

  -- `ftdi_spi_init`; `fresh` is what the stack holds where `device_node` is.
  unfoldable pub ftdi_spi_init : DeviceNode → M S ℤ
  unfolding scan_channels open_chosen
  ftdi_spi_init fresh = do
    lib.init_libmpsse
    config ← lib.get_config
    channels ← lib.get_num_channels
    if not (channels.0 == 0)
        then ret etransftdispierr
        else (if ltb 4 channels.1 then ret etransftdispierr else (do
          info ← scan_channels config.serial channels.1 0 fresh no_channels
          if info.spi_loc_id_ch == uint32_max || info.reset_loc_id_ch == uint32_max
              then ret etransftdispierr
              else open_chosen config info))

  -- `ftdi_spi_deinit`
  unfoldable pub ftdi_spi_deinit : M S ℤ
  ftdi_spi_deinit = do
    state ← lib.get_state
    lib.close_channel state.handle
    lib.close_channel state.reset_handle
    lib.cleanup_libmpsse
    ret etranssucc
