-- ===== src/Ftdi/Table.antt =====
-- `ftdi_spi_ops`: the table of the FTDI transport. The functions that call others through the table
-- are added in the order in which they need each other.
pub mod Knot
pub mod Balance
pub mod Registers
use morsectrl_tools.Prelude.{ℕ, Bool, Option, none, some, ℤ, pos}
use morsectrl_tools.Util.Text.{Text}
use morsectrl_tools.Machine.{M, ◌>>=◌, ◌>>◌, ret, undefined, Buff}
use morsectrl_tools.Transport.{TransportOps, etranssucc}
use morsectrl_tools.Sdio.Memory.{read_memblock, write_memblock}
use morsectrl_tools.Sdio.Registers.{read_reg_32bit, write_reg_32bit}
use morsectrl_tools.Ftdi.{alloc, raw_read_write, send, etransftdispierr}
use morsectrl_tools.Ftdi.Parse.{ftdi_spi_parse, config_error, exited, outside, values, channel_of}
use morsectrl_tools.Ftdi.Library.{FtdiLibrary, DeviceNode}
use morsectrl_tools.Ftdi.Channels.{ftdi_spi_init, ftdi_spi_deinit}
use morsectrl_tools.Ftdi.Lines.{raw_read, raw_write, reset}

-- `sizeof(struct morsectrl_transport_buff)`
abbrev pub buff_handle_size : ℕ
buff_handle_size = 32

module _ {S : Type 0} where
  -- `ftdi_spi_mem_write`. Of the buffer only the data pointer may be left elsewhere.
  unfoldable pub mem_write_over : TransportOps S → Buff → ℕ → M S ℤ
  mem_write_over tops write addr = do answer ← write_memblock tops write addr; ret answer.0

module _ {S : Type 0} (lib : FtdiLibrary S) where
  -- `ftdi_spi_parse` on the configuration. What a refused one leaves there is left out.
  unfoldable pub parse_config : Option Text → Option Text → M S ℤ
  unfolding ftdi_spi_parse channel_of
  parse_config iface_opts cfg_opts = elim (ftdi_spi_parse cfg_opts) [
    | config_error ↦ ret (pos 2)
    | exited ↦ lib.exit etranssucc
    | outside ↦ undefined
    | values v ↦ do lib.put_config (channel_of v); ret etranssucc
  ]

  -- `ftdi_spi_raw_read_write` on the handle of the state.
  unfoldable pub spi_transfer : Buff → Buff → Bool → Bool → M S (ℤ × Buff)
  unfolding raw_read_write
  spi_transfer read write start finish = do
    state ← lib.get_state
    raw_read_write (lib.spi_read_write state.handle) read write start finish

module _ {S : Type 0} (lib : FtdiLibrary S) (fresh : DeviceNode) where
  -- The functions that call none of the others.
  abbrev pub raw_ops : TransportOps S
  raw_ops = record {
    parse = parse_config lib;
    init = ftdi_spi_init lib fresh;
    deinit = ftdi_spi_deinit lib;
    write_alloc = alloc lib.malloc buff_handle_size;
    read_alloc = alloc lib.malloc buff_handle_size;
    send = λ cmd resp. ret (etransftdispierr, resp);
    reg_read = none;
    reg_write = none;
    mem_read = none;
    mem_write = none;
    raw_read = some (raw_read lib);
    raw_write = some (raw_write lib);
    raw_read_write = some (spi_transfer lib);
    reset_device = none;
  }

  -- With the registers and the memory.
  abbrev pub memory_ops : TransportOps S
  memory_ops = record raw_ops {
    reg_read = some (read_reg_32bit raw_ops);
    reg_write = some (write_reg_32bit raw_ops);
    mem_read = some (read_memblock raw_ops);
    mem_write = some (mem_write_over raw_ops);
  }

  abbrev pub ftdi_spi_ops : TransportOps S
  ftdi_spi_ops = record memory_ops {
    send = send memory_ops;
    reset_device = some (reset lib memory_ops);
  }
