-- ===== src/Elf/Records.antt =====
-- The block of the statistics' records holds what is copied into it, and all the records that are
-- counted.
use morsectrl_tools.Prelude.{ℕ, ◌≡◌, ◌⊎◌, List, [], ◌∷◌, ◌++◌, length, take, drop}
use morsectrl_tools.Machine.{World, done, fault}
use morsectrl_tools.Elf.{SectionHeader, copied}

-- The octets of the sections, one section behind the other.
abbrev pub section_octets : List ℕ → List SectionHeader → List ℕ
section_octets image [] = []
section_octets image (shdr ∷ sections) =
    take shdr.sh_size (drop shdr.sh_offset image) ++ section_octets image sections

module _ {S : Type 0} where
  -- The copying leaves the sections behind what stands before the offset, or one of them is not in
  -- the file.
  Copies : List ℕ → ℕ → List SectionHeader → List ℕ → World S → Type 0
  Copies image offset sections block w =
      ((blob : List ℕ) × (copied image offset sections block w ≡ done (blob, w))
        × (blob ≡ take offset block ++ section_octets image sections)
        × (length blob ≡ length block))
      ⊎ (copied image offset sections block w ≡ fault)
