-- ===== src/Tests/Adapter.antt =====
-- An FTDI adapter with three channels, and the transport over it.
use morsectrl_tools.Prelude.{
  ℕ, ◌≡◌, refl, ◌⊎◌, true, false, is_nonzero, List, [], ◌∷◌, length, length-replicate, replicate,
  get_or, some, ℤ, arith,
}
use morsectrl_tools.Util.Text.{Text, codes}
use morsectrl_tools.Machine.{done, ret, Buff}
use morsectrl_tools.Machine.Room.{SameBuff}
use morsectrl_tools.Transport.{Transport, reg_read, reg_write}
use morsectrl_tools.Sdio.Memory.{memblock_common, align_size}
use morsectrl_tools.Sdio.Memory.Balance.{memblock_common-balanced}
use morsectrl_tools.Sdio.Block.{cmd53, block_size_of}
use morsectrl_tools.Sdio.Block.Balance.{cmd53-balanced}
use morsectrl_tools.Ftdi.Parse.{default_values, channel_of}
use morsectrl_tools.Ftdi.Library.{FtdiLibrary, DeviceNode}
use morsectrl_tools.Ftdi.Channels.{ChanInfo, no_channels, scan_channels}
use morsectrl_tools.Ftdi.Channels.Choice.{
  Shows, shown, all_shown, Chosen, ports_of, scan_channels-Chosen,
}
use morsectrl_tools.Ftdi.Table.Balance.{Lawful}
use morsectrl_tools.Ftdi.Table.Registers.{ftdi, register-leaks}
use morsectrl_tools.Tests.Host.{Toy, start, zeros, toy, generous, toy-Bus}

abbrev node : ℕ → Text → DeviceNode
node loc serial = record { loc_id = loc; serial_number = serial }

abbrev nodes : List DeviceNode
nodes =
    node 7 (codes "MM1A")
    ∷ node 3 (codes "MM2")
    ∷ node 5 (codes "MM1B")
    ∷ node 4 (codes "MM1A")
    ∷ []

abbrev nth : List DeviceNode → ℕ → DeviceNode
nth ns ii = get_or ns ii (node 0 [])

-- Every call succeeds, and every octet that is read is 0.
abbrev adapter : FtdiLibrary ℕ
adapter = record {
  malloc = λ n. ret (some (replicate n 0));
  exit = λ code. ret code;
  init_libmpsse = ret tt;
  cleanup_libmpsse = ret tt;
  get_num_channels = ret (0, 4);
  get_channel_info = λ ii held. ret (0, nth nodes ii);
  open_channel = λ ii held. ret (0, ii);
  init_channel = λ handle config. ret 0;
  close_channel = λ handle. ret 0;
  write_gpiol = λ handle dir value. ret 0;
  toggle_cs = λ handle level. ret 0;
  pin_state = λ handle. ret (0, 0);
  spi_read = λ handle n options. ret (0, n, replicate n 0);
  spi_write = λ handle octets options. ret (0, length octets);
  spi_read_write = λ handle octets options. ret (0, length octets, replicate (length octets) 0);
  get_state = ret (record { handle = 0; reset_handle = 1 });
  put_state = λ state. ret tt;
  get_config = ret (channel_of default_values);
  put_config = λ config. ret tt;
}

adapter-Lawful : Lawful adapter
adapter-Lawful = record {
  mallocs = λ n w. (replicate n 0, w, refl, length-replicate n 0, refl);
  states = λ w. (record { handle = 0; reset_handle = 1 }, w, refl, refl);
  transfers = λ handle octets options w. (
    0,
    length octets,
    replicate (length octets) 0,
    w,
    refl,
    length-replicate (length octets) 0,
    refl,
  );
}

abbrev chip : Transport ℕ
chip = ftdi adapter (node 0 [])

nodes-Shows : Shows adapter 0 (node 0 []) nodes start start
nodes-Shows = shown 0 0 _ _ _ _ _ _ refl (
    shown 1 0 _ _ _ _ _ _ refl
      (shown 2 0 _ _ _ _ _ _ refl (shown 3 0 _ _ _ _ _ _ refl (all_shown 4 _ _))))

scan_channels-Chosen_example :
    (info : ChanInfo) × (scan_channels adapter (codes "MM1") 4 0 (node 0 []) no_channels start
      ≡ done (info, start))
    × Chosen info (ports_of (codes "MM1") 0 nodes)
scan_channels-Chosen_example =
    scan_channels-Chosen adapter (codes "MM1") (node 0 []) nodes start start nodes-Shows
      (omega arith, (omega arith, (omega arith, (omega arith, tt))))

register-leaks_example :
    ((r : ℤ) × (read : ℕ) × (w' : Toy) × (reg_read chip 0x10054d40 start ≡ done ((r, read), w'))
      × (w'.live ≡ 1))
    × ((r : ℤ) × (w' : Toy) × (reg_write chip 0x10054d40 5 start ≡ done (r, w')) × (w'.live ≡ 1))
register-leaks_example =
    register-leaks adapter adapter-Lawful (node 0 []) 0x10054d40 5 start refl (omega arith)

cmd53-balanced_example :
    (r : ℤ) × (b : Buff) × (w' : Toy) × (cmd53 (toy generous) (zeros 8) false 1 true 0x100 1 start
      ≡ done ((r, b), w'))
    × SameBuff b (zeros 8)
    × (w'.live ≡ 0)
unfolding block_size_of
cmd53-balanced_example =
    cmd53-balanced (toy generous) toy-Bus (zeros 8) false 1 true 0x100 1 8 start refl
      (omega arith, omega arith) (omega (arith, length-replicate {A = ℕ} 8 0))

memblock_common-balanced_example :
    (r : ℤ) × (b : Buff) × (w' : Toy) × (memblock_common (toy generous) (zeros 8) true 0xFFFC start
      ≡ done ((r, b), w'))
    × ((b.data_at ≡ 0) ⊎ (is_nonzero r ≡ true))
    × (length b.memblock ≡ 8)
    × (w'.live ≡ 0)
unfolding align_size
memblock_common-balanced_example =
    memblock_common-balanced (toy generous) toy-Bus (zeros 8) true 0xFFFC start
      (omega (arith, length-replicate {A = ℕ} 8 0)) tt refl (omega arith)
