-- ===== src/Ftdi/Library.antt =====
-- What transport/ftdi_spi.c stands on: libmpsse, libftd2xx and libc as parameters, and where the
-- world outside keeps `transport->state.ftdi_spi` and `transport->config.ftdi_spi`.
use morsectrl_tools.Prelude.{ℕ, Bool, List, Option, ℤ}
use morsectrl_tools.Util.Text.{Text}
use morsectrl_tools.Machine.{M}
use morsectrl_tools.Ftdi.Parse.{FtdiChannel}

-- The fields of `FT_DEVICE_LIST_INFO_NODE` that are looked at.
pub record DeviceNode : Type 0 where
  pub loc_id : ℕ
  pub serial_number : Text

-- `struct morsectrl_ftdi_spi_state`
pub record FtdiState : Type 0 where
  pub handle : ℕ
  pub reset_handle : ℕ

-- A status is `FT_STATUS`, and `FT_OK` is 0. A call that fills a variable gives what it holds then.
pub record FtdiLibrary (S : Type 0) : Type 0 where
  pub malloc : ℕ → M S (Option (List ℕ))
  -- `exit`, seen as a call that would return
  pub exit : ℤ → M S ℤ
  pub init_libmpsse : M S (Unit {0})
  pub cleanup_libmpsse : M S (Unit {0})
  pub get_num_channels : M S (ℕ × ℕ)
  pub get_channel_info : ℕ → DeviceNode → M S (ℕ × DeviceNode)
  pub open_channel : ℕ → ℕ → M S (ℕ × ℕ)
  pub init_channel : ℕ → FtdiChannel → M S ℕ
  pub close_channel : ℕ → M S ℕ
  pub write_gpiol : ℕ → ℕ → ℕ → M S ℕ
  pub toggle_cs : ℕ → Bool → M S ℕ
  -- `currentPinState` of `SPI_GetChannelConfig`
  pub pin_state : ℕ → M S (ℕ × ℕ)
  -- the handle, the number of octets, the options; the status, how many came, and what is in the
  -- octets asked for
  pub spi_read : ℕ → ℕ → ℕ → M S (ℕ × ℕ × List ℕ)
  pub spi_write : ℕ → List ℕ → ℕ → M S (ℕ × ℕ)
  pub spi_read_write : ℕ → List ℕ → ℕ → M S (ℕ × ℕ × List ℕ)
  pub get_state : M S FtdiState
  pub put_state : FtdiState → M S (Unit {0})
  pub get_config : M S FtdiChannel
  pub put_config : FtdiChannel → M S (Unit {0})
