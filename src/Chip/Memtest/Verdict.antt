-- ===== src/Chip/Memtest/Verdict.antt =====
-- What transraw_memtest says of a memory.
use morsectrl_tools.Prelude.{ℕ, ◌*◌, ◌<◌, ◌≡◌, ◌≢◌, ◌⊎◌, List, take, drop, some, ℤ, pos, neg}
use morsectrl_tools.Machine.{World, done, M, Buff}
use morsectrl_tools.Machine.Room.{Holds, SameBuff}
use morsectrl_tools.Transport.{TransportOps, Transport, mem_read, mem_write}
use morsectrl_tools.Sdio.Command.Exchange.{Allocates}
use morsectrl_tools.Chip.Memtest.Pattern.{pattern}

-- The octets that a buffer says it has.
abbrev pub octets : Buff → List ℕ
octets b = take b.data_len (drop b.data_at b.memblock)

-- The code 0 for the same octets, and -1 for others.
abbrev pub Agree : ℤ → List ℕ → List ℕ → Type 0
Agree r xs ys = ((r ≡ pos 0) × (xs ≡ ys)) ⊎ ((r ≡ neg 1) × (xs ≢ ys))

module _ {S : Type 0} where
  -- A memory behind a transport that gives buffers of one octet or more: it takes every write of a
  -- whole buffer, and a read gives what it contains then.
  pub record Memory (tops : TransportOps S) (contents : World S → ℕ → ℕ → List ℕ) : Type 0 where
    pub write_memory : Buff → ℕ → M S ℤ
    pub read_memory : Buff → ℕ → M S (ℤ × Buff)
    pub mem_write-write_memory : tops.mem_write ≡ some write_memory
    pub mem_read-read_memory : tops.mem_read ≡ some read_memory
    pub write_allocates : (n : ℕ) (w : World S) → 0 < n → Allocates tops.write_alloc n w
    pub read_allocates : (n : ℕ) (w : World S) → 0 < n → Allocates tops.read_alloc n w
    pub writes :
        (b : Buff) (addr : ℕ) (w : World S)
        → Holds b.data_len b
        → (w' : World S) × (write_memory b addr w ≡ done (pos 0, w')) × (w'.live ≡ w.live)
    pub reads :
        (b : Buff) (addr : ℕ) (w : World S)
        → Holds b.data_len b
        → (b' : Buff) × (w' : World S) × (read_memory b addr w ≡ done ((pos 0, b'), w'))
          × SameBuff b' b
          × (octets b' ≡ contents w addr b.data_len)
          × (w'.live ≡ w.live)

module _ {S : Type 0} (t : Transport S) (tops : TransportOps S) (there : t.tops ≡ some tops)
    (contents : World S → ℕ → ℕ → List ℕ) (memory : Memory tops contents) where
  -- The pattern is written, and the code tells whether the memory then contains it.
  abbrev pub Tells : ℕ → ℕ → ℕ → M S ℤ → World S → Type 0
  Tells addr n base_value m w =
      (r : ℤ) × (filled : Buff) × (w0 w1 w' : World S) × (m w ≡ done (r, w'))
      × (octets filled ≡ pattern n 0 base_value)
      × (memory.write_memory filled addr w0 ≡ done (pos 0, w1))
      × Agree r (contents w1 addr (4 * n)) (pattern n 0 base_value)
      × (w'.live ≡ w.live)
