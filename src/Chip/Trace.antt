-- ===== src/Chip/Trace.antt =====
-- The order of the register accesses of a soft reset.
use morsectrl_tools.Prelude.{ℕ, ◌≡◌, ◌≢◌, ◌⊎◌, List, [], ◌∷◌, ◌++◌, some, ℤ, pos}
use morsectrl_tools.Machine.{World, done, M}
use morsectrl_tools.Transport.{TransportOps, Transport, reg_read, reg_write}
use morsectrl_tools.Chip.Reset.{clear_aon, latch_and_boot}

-- An access to a register, with the value that is written or that a read gives.
pub data Access : Type 0 where
  wrote : ℕ → ℕ → Access
  read : ℕ → ℕ → Access

abbrev pub writes : List (ℕ × ℕ) → List Access
writes [] = []
writes ((address, value) ∷ rest) = wrote address value ∷ writes rest

-- What a soft reset is to do, for a latch register that reads as `latch`.
abbrev pub sequence : ℕ → List Access
sequence latch = writes clear_aon ++ read 0x1005807C latch ∷ writes (latch_and_boot latch)

module _ {S : Type 0} where
  -- Register functions that return a code, good or bad, and keep a trace of the accesses.
  pub record Traced (tops : TransportOps S) (trace : World S → List Access) : Type 0 where
    pub write_register : ℕ → ℕ → M S ℤ
    pub read_register : ℕ → M S (ℤ × ℕ)
    pub reg_write-write_register : tops.reg_write ≡ some write_register
    pub reg_read-read_register : tops.reg_read ≡ some read_register
    pub write_traced :
        (address value : ℕ) (w : World S)
        → (r : ℤ) × (w' : World S) × (write_register address value w ≡ done (r, w'))
          × (trace w' ≡ trace w ++ wrote address value ∷ [])
    pub read_traced :
        (address : ℕ) (w : World S)
        → (r : ℤ × ℕ) × (w' : World S) × (read_register address w ≡ done (r, w'))
          × (trace w' ≡ trace w ++ read address r.1 ∷ [])

  -- All of the accesses are made and the code is 0, or some first ones of them and it is not.
  abbrev pub Follows : (World S → List Access) → List Access → M S ℤ → World S → Type 0
  Follows trace accesses m w =
      (r : ℤ) × (w' : World S) × (made left : List Access) × (m w ≡ done (r, w'))
      × (trace w' ≡ trace w ++ made)
      × (made ++ left ≡ accesses)
      × (((r ≡ pos 0) × (left ≡ [])) ⊎ (r ≢ pos 0))
