-- ===== src/Sdio/Registers/Leak.antt =====
-- What an access to a register does to the buffers.
use morsectrl_tools.Prelude.{
  ℕ, ◌+◌, ◌%◌, ◌^◌, ◌<◌, ◌≡◌, refl, ap, ◌∙◌, inl, inr, Bool, true, false, Option, none, some, ℤ,
  is_nonzero, Bool-cases, arith,
}
use morsectrl_tools.Machine.{World, done, M, ◌>>=◌, ret, Buff, store}
use morsectrl_tools.Machine.Room.{Holds, store-SameBuff, load-length}
use morsectrl_tools.Transport.{TransportOps, etranserr}
use morsectrl_tools.Sdio.Command.Exchange.{Allocates, Bus}
use morsectrl_tools.Sdio.Memory.{read_memblock, write_memblock}
use morsectrl_tools.Sdio.Memory.Balance.{align_size-eq, memblock_common-balanced}
use morsectrl_tools.Sdio.Registers.{read_reg_32bit, read_reg_with, write_reg_32bit, to_le32}

module _ {S : Type 0} (tops : TransportOps S) (bus : Bus tops) where
  read_reg_with-done :
      (read : Buff) (addr : ℕ) (w : World S)
      → Holds 4 read
      → read.data_len ≡ 4
      → addr % 4 ≡ 0
      → addr + 4 < 2 ^ 32
      → (r : ℤ) × (value : ℕ) × (w' : World S) × (read_reg_with tops read addr w
          ≡ done ((r, value), w'))
        × (w'.live ≡ w.live)
  unfolding read_reg_with read_memblock
  read_reg_with-done read addr w room size word fits =
      let (r, read', w1, run, place, len, same) =
        memblock_common-balanced tops bus read false addr w
          (omega (arith, room, size, align_size-eq read.data_len)) (omega (arith, size)) word
          (omega (arith, size, fits)) in
      elim (Bool-cases (is_nonzero r)) [
        | inl bad ↦ rw (run, bad) (r, 0, w1, refl, same)
        | inr good ↦
            let at : read'.data_at ≡ read.data_at = elim place [
              | inl at ↦ at
              | inr bad ↦ absurd (cc)
            ] in
            let (octets, loaded, _) = load-length read' 0 4 w1 (omega (arith, room, at, len)) in
            rw (run, good, loaded) (_, _, w1, refl, same)
      ]

  abbrev read_allocated : ℕ → M S (ℤ × ℕ)
  read_allocated addr = do
    allocated ← tops.read_alloc 4
    elim allocated [ none ↦ ret (etranserr, 0) | some read ↦ read_reg_with tops read addr ]

  read_reg_32bit-through :
      (addr : ℕ) (w : World S) (raw : Option Buff → Bool → Bool → M S (ℤ × Option Buff))
      → tops.raw_read ≡ some raw
      → read_reg_32bit tops addr w ≡ read_allocated addr w
  unfolding read_reg_32bit
  read_reg_32bit-through addr w raw there =
      ap
        (λ o.
          (elim o as (λ _. M S (ℤ × ℕ)) [
            | none ↦ ret (etranserr, 0)
            | some f ↦ read_allocated addr
          ])
            w)
        there

  -- On such a bus that can also read alone, `sdio_over_spi_read_reg_32bit` of the address of a word
  -- returns, whatever the chip answers. With a buffer to be had, it leaves one more allocated than it
  -- found.
  pub read_reg_32bit-leaks :
      (addr : ℕ) (w : World S) (raw : Option Buff → Bool → Bool → M S (ℤ × Option Buff))
      → tops.raw_read ≡ some raw
      → Allocates tops.read_alloc 4 w
      → addr % 4 ≡ 0
      → addr + 4 < 2 ^ 32
      → (r : ℤ) × (value : ℕ) × (w' : World S) × (read_reg_32bit tops addr w
          ≡ done ((r, value), w'))
        × (w'.live ≡ w.live + 1)
  read_reg_32bit-leaks addr w raw there (read, w1, alloc, room, size, more) word fits =
      let begins = read_reg_32bit-through addr w raw there in
      let (r, value, w2, done_with, same) = read_reg_with-done read addr w1 room size word fits in
      (r, value, w2, begins ∙ rw alloc done_with, omega (arith, same, more))

  abbrev write_allocated : ℕ → ℕ → M S ℤ
  write_allocated addr value = do
    allocated ← tops.write_alloc 4
    elim allocated [
      | none ↦ ret etranserr
      | some write ↦ do
        write' ← store write 0 (to_le32 value)
        answer ← write_memblock tops write' addr
        ret answer.0
    ]

  write_reg_32bit-through :
      (addr value : ℕ) (w : World S) (raw : Option Buff → Bool → Bool → M S ℤ)
      → tops.raw_write ≡ some raw
      → write_reg_32bit tops addr value w ≡ write_allocated addr value w
  unfolding write_reg_32bit
  write_reg_32bit-through addr value w raw there =
      ap
        (λ o.
          (elim o as (λ _. M S ℤ) [ none ↦ ret etranserr | some f ↦ write_allocated addr value ]) w)
        there

  -- So does `sdio_over_spi_write_reg_32bit`, on such a bus that can also write alone.
  pub write_reg_32bit-leaks :
      (addr value : ℕ) (w : World S) (raw : Option Buff → Bool → Bool → M S ℤ)
      → tops.raw_write ≡ some raw
      → addr % 4 ≡ 0
      → addr + 4 < 2 ^ 32
      → (r : ℤ) × (w' : World S) × (write_reg_32bit tops addr value w ≡ done (r, w'))
        × (w'.live ≡ w.live + 1)
  unfolding write_memblock to_le32
  write_reg_32bit-leaks addr value w raw there word fits =
      let begins = write_reg_32bit-through addr value w raw there in
      let (write, w1, alloc, room, size, more) = bus.write_allocates 4 w (omega arith) in
      let (write', stored, (at, len, size')) =
        store-SameBuff write 0 (to_le32 value) w1 (omega (arith, room)) in
      let (r, write'', w2, run, place, len', same) =
        memblock_common-balanced tops bus write' true addr w1
          (omega (arith, room, size, at, len, size', align_size-eq write'.data_len)) tt word
          (omega (arith, size, len, fits)) in
      (r, w2, begins ∙ rw alloc (rw (stored, run) refl), omega (arith, same, more))
