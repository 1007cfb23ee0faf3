-- ===== src/Tests/Lines.antt =====
-- The two resets: on registers that take every write and keep a trace, and on files that can be
-- written.
use morsectrl_tools.Prelude.{
  ℕ, ◌+◌, ◌-◌, ◌≡◌, refl, true, List, [], ◌∷◌, ◌++◌, length, none, some, ℤ, pos, arith,
}
use morsectrl_tools.Machine.{World, done, M}
use morsectrl_tools.Transport.{TransportOps, Transport, ftdi_spi}
use morsectrl_tools.Chip.Gpio.{Sysfs}
use morsectrl_tools.Chip.Reset.{morsectrl_reset}
use morsectrl_tools.Chip.Trace.{Access, wrote, read}
use morsectrl_tools.Chip.Lines.{Writable, morsectrl_reset-leaks}
use morsectrl_tools.Tests.Host.{Toy, start}

abbrev Kept : Type 0
Kept = List Access

abbrev write_kept : ℕ → ℕ → M Kept ℤ
write_kept address value w =
    done (pos 0, record w { outside = w.outside ++ wrote address value ∷ [] })

abbrev read_kept : ℕ → M Kept (ℤ × ℕ)
read_kept address w = done ((pos 0, 7), record w { outside = w.outside ++ read address 7 ∷ [] })

abbrev registers : TransportOps Kept
registers = record {
  parse = λ iface cfg w. done (pos 0, w);
  init = λ w. done (pos 0, w);
  deinit = λ w. done (pos 0, w);
  write_alloc = λ n w. done (none, w);
  read_alloc = λ n w. done (none, w);
  send = λ cmd resp w. done ((pos 0, resp), w);
  reg_read = some read_kept;
  reg_write = some write_kept;
  mem_read = none;
  mem_write = none;
  raw_read = none;
  raw_write = none;
  raw_read_write = none;
  reset_device = none;
}

abbrev chip : Transport Kept
chip = record { type = ftdi_spi; tops = some registers }

abbrev kept : World Kept → List Access
kept w = w.outside

abbrev untouched : World Kept
untouched = record { outside = []; live = 0 }

-- The world outside is the number of open files.
abbrev files : Sysfs ℕ
files = record {
  open_to_write = λ path w. done (some 3, record w { outside = w.outside + 1 });
  write = λ fd octets w. done (some (length octets), w);
  close = λ fd w. done (pos 0, record w { outside = w.outside - 1 });
  opens_dir = λ path w. done (true, w);
  getenv = λ name. none;
  decimal = λ n. 49 ∷ 50 ∷ [];
}

abbrev open_files : Toy → ℕ
open_files w = w.outside

files-Writable : Writable files open_files
files-Writable = record {
  opens = λ path w. (3, _, refl, refl);
  writes_all = λ fd octets w. (w, refl, refl);
  closes = λ fd w. (pos 0, _, refl, refl);
  looks = λ path w. (true, w, refl, refl);
  decimal-length = λ n. omega arith;
}

morsectrl_reset-leaks_example :
    (w' : Toy) × (morsectrl_reset files 12 start ≡ done (pos 0, w')) × (open_files w' ≡ 3)
morsectrl_reset-leaks_example = morsectrl_reset-leaks files open_files files-Writable 12 start
