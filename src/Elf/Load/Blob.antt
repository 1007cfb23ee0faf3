-- ===== src/Elf/Load/Blob.antt =====
-- The buffer of a segment.
use morsectrl_tools.Prelude.{
  ℕ, ◌+◌, ◌-◌, ◌≤◌, ◌≡◌, ◌⊎◌, refl, inl, inr, Bool, false, not, ◌&&◌, List, length, take, drop,
  length-take, some, ℤ, pos, neg, is_nonzero, ltb, ◌==◌, Bool-cases, arith,
}
use morsectrl_tools.Machine.{World, done, M, Buff}
use morsectrl_tools.Transport.{Transport, raw_write_alloc, mem_write, buff_free}
use morsectrl_tools.Machine.Room.{Holds}
use morsectrl_tools.Handler.Balance.{MayAllocate, store-done}
use morsectrl_tools.Elf.Load.{elf_file_load_binary_data, blob_with, load_elf_blob}

module _ {S : Type 0} where
  -- What the loading of a segment asks: buffers or none, a write to memory that returns and takes no
  -- buffer, and reads that succeed or fail.
  pub record Loader (io : M S Bool) (t : Transport S) : Type 0 where
    pub allocates : (n : ℕ) (w : World S) → MayAllocate (raw_write_alloc t) n w
    pub writes :
        (b : Buff) (addr : ℕ) (w : World S)
        → (r : ℤ) × (w' : World S) × (mem_write t b addr w ≡ done (r, w')) × (w'.live ≡ w.live)
    pub reads :
        (w : World S) → (ok : Bool) × (w' : World S) × (io w ≡ done (ok, w')) × (w'.live ≡ w.live)

  module _ (io : M S Bool) (t : Transport S) (loader : Loader io t) where
    -- Success leaves one buffer more, failure none.
    Left : M S ℤ → World S → ℕ → Type 0
    Left m w live =
        ((w' : World S) × (m w ≡ done (pos 0, w')) × (w'.live ≡ live + 1))
        ⊎ ((w' : World S) × (m w ≡ done (neg 1, w')) × (w'.live ≡ live))

    blob_with-Left :
        (firmware : List ℕ) (offset size addr : ℕ) (write : Buff) (w : World S) (live : ℕ)
        → offset ≤ length firmware
        → Holds size write
        → w.live ≡ live + 1
        → Left (blob_with io t firmware offset size addr (some write)) w live
    unfolding blob_with elf_file_load_binary_data buff_free Left
    blob_with-Left firmware offset size addr write w live there room one =
        let (ok, w1, asked, same) = loader.reads w in
        let octets = take size (drop offset firmware) in
        let cut = length-take size (drop offset firmware) in
        let inside : (ltb (length firmware) offset && not (size == 0)) ≡ false = ground arith in
        elim (Bool-cases ok) [
          | inr bad ↦
              inr (record w1 { live = w1.live - 1 }, rw (asked, bad) refl, omega (arith, one, same))
          | inl good ↦
              let (write', stored, block) =
                store-done write 0 octets w1 (omega (arith, room, cut)) in
              let (r, w2, written, same') = loader.writes write' addr w1 in
              elim (Bool-cases (is_nonzero r)) [
                | inl failed ↦ inr (
                  record w2 { live = w2.live - 1 },
                  rw (asked, good, inside, stored, written, failed) refl,
                  omega (arith, one, same, same'),
                )
                | inr fine ↦ inl (
                  w2,
                  rw (asked, good, inside, stored, written, fine) refl,
                  omega (arith, one, same, same'),
                )
              ]
        ]

    -- For a segment that begins in the file, load_elf_blob returns 0 and leaves one buffer more than
    -- there was, or -1 and leaves none.
    pub load_elf_blob-leaves :
        (firmware : List ℕ) (offset size addr : ℕ) (w : World S)
        → offset ≤ length firmware
        → ((w' : World S) × (load_elf_blob io t firmware offset size addr w ≡ done (pos 0, w'))
            × (w'.live ≡ w.live + 1))
          ⊎ ((w' : World S) × (load_elf_blob io t firmware offset size addr w ≡ done (neg 1, w'))
              × (w'.live ≡ w.live))
    unfolding load_elf_blob blob_with Left
    load_elf_blob-leaves firmware offset size addr w there = elim (loader.allocates size w) [
      | inr (w1, got, same) ↦ inr (w1, rw got refl, same)
      | inl (write, w1, got, room, len, one) ↦
          elim (blob_with-Left firmware offset size addr write w1 w.live there room one) [
            | inl (w2, run, more) ↦ inl (w2, rw (got, run) refl, more)
            | inr (w2, run, same) ↦ inr (w2, rw (got, run) refl, same)
          ]
    ]
