-- ===== src/Tests/Words.antt =====
-- The test of memory on a memory that keeps what was written last, whatever the address.
use morsectrl_tools.Prelude.{ℕ, ◌+◌, List, [], ◌++◌, take, replicate, Option, none, some, ℤ, pos}
use morsectrl_tools.Machine.{World, done, M, Buff, overwrite}
use morsectrl_tools.Transport.{TransportOps, Transport, ftdi_spi}
use morsectrl_tools.Chip.Memtest.Verdict.{octets}
use morsectrl_tools.Tests.Host.{zeros}

abbrev Kept : Type 0
Kept = List ℕ

abbrev kept_octets : World Kept → ℕ → ℕ → List ℕ
kept_octets w addr n = take n (w.outside ++ replicate n 0)

abbrev write_octets : Buff → ℕ → M Kept ℤ
write_octets b addr w = done (pos 0, record w { outside = octets b })

abbrev filled_from : Buff → List ℕ → Buff
filled_from b xs = record b { memblock = overwrite b.data_at xs b.memblock }

abbrev read_octets : Buff → ℕ → M Kept (ℤ × Buff)
read_octets b addr w = done ((pos 0, filled_from b (kept_octets w addr b.data_len)), w)

abbrev give : ℕ → M Kept (Option Buff)
give n w = done (some (zeros n), record w { live = w.live + 1 })

abbrev memory_ops : TransportOps Kept
memory_ops = record {
  parse = λ iface cfg w. done (pos 0, w);
  init = λ w. done (pos 0, w);
  deinit = λ w. done (pos 0, w);
  write_alloc = give;
  read_alloc = give;
  send = λ cmd resp w. done ((pos 0, resp), w);
  reg_read = none;
  reg_write = none;
  mem_read = some read_octets;
  mem_write = some write_octets;
  raw_read = none;
  raw_write = none;
  raw_read_write = none;
  reset_device = none;
}

abbrev blank : World Kept
blank = record { outside = []; live = 0 }

abbrev wired_memory : Transport Kept
wired_memory = record { type = ftdi_spi; tops = some memory_ops }
