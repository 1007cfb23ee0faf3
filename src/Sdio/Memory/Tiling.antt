-- ===== src/Sdio/Memory/Tiling.antt =====
-- The sections into which `sdio_over_spi_memblock_common` cuts a range of the chip's memory.
use native.Mathlib.Nat.{mod-eq_of_lt}
use morsectrl_tools.Prelude.{
  ℕ, zero, suc, ◌+◌, ◌-◌, ◌*◌, ◌/◌, ◌%◌, ◌^◌, ◌≤◌, ◌<◌, min, bit_and, ◌≡◌, refl, ap, ◌∙◌, List, [],
  ◌∷◌, arith, u32,
}
use morsectrl_tools.Prelude.Bits.{bit_and_shifted, bit_and_mask}
use morsectrl_tools.Sdio.Memory.{section_size}

-- `addr & 0xFFFF0000` clears the low half of a `uint32_t`.
pub bit_and_high : (addr : ℕ) → addr < 2 ^ 32 → bit_and addr 0xFFFF0000 ≡ addr / 2 ^ 16 * 2 ^ 16
bit_and_high addr h =
    bit_and_shifted 16 addr 0xFFFF
    ∙ ap (λ t. t * 2 ^ 16) (bit_and_mask 16 (addr / 2 ^ 16) ∙ mod-eq_of_lt (omega arith))

-- A section ends with the range or at the next multiple of 2 ^ 16, whichever comes first.
pub section_size-eq-min :
    (addr remaining : ℕ)
    → addr < 2 ^ 32
    → addr + remaining ≤ 2 ^ 32
    → section_size addr remaining ≡ min (2 ^ 16 - addr % 2 ^ 16) remaining
unfolding section_size
section_size-eq-min addr remaining h fits = rw (bit_and_high addr h) (omega arith)

-- A cutting of the range from `addr` on, of length `len`, into sections that follow one another,
-- none of which crosses a multiple of 2 ^ 16.
pub data Tiles : ℕ → ℕ → List (ℕ × ℕ) → Type 0 where
  stop : {addr len : ℕ} → len ≡ 0 → Tiles addr len []
  tile :
      {addr len size : ℕ} {rest : List (ℕ × ℕ)}
      → 0 < size
      → size ≤ len
      → addr % 2 ^ 16 + size ≤ 2 ^ 16
      → Tiles (addr + size) (len - size) rest
      → Tiles addr len ((addr, size) ∷ rest)

-- The addresses and sizes that the loop goes through.
abbrev pub sections : ℕ → ℕ → ℕ → List (ℕ × ℕ)
sections zero addr remaining = []
sections (suc fuel) addr zero = []
sections (suc fuel) addr (suc n) =
    let size = section_size addr (suc n) in
    (addr, size) ∷ sections fuel (u32 (addr + size)) (suc n - size)

-- With as much fuel as there are octets, the sections are such a cutting of the whole range.
pub sections-Tiles :
    (fuel addr remaining : ℕ)
    → remaining ≤ fuel
    → addr + remaining < 2 ^ 32
    → Tiles addr remaining (sections fuel addr remaining)
sections-Tiles zero addr remaining le fits = stop (omega arith)
sections-Tiles (suc fuel) addr zero le fits = stop refl
sections-Tiles (suc fuel) addr (suc n) le fits =
    let cut = section_size-eq-min addr (suc n) (omega arith) (omega arith) in
    let size : ℕ = section_size addr (suc n) in
    let next : u32 (addr + size) ≡ addr + size = omega (arith, cut) in
    let rest =
      sections-Tiles fuel (addr + size) (suc n - size) (omega (arith, cut)) (omega (arith, cut)) in
    rw next (tile (omega (arith, cut)) (omega (arith, cut)) (omega (arith, cut)) rest)
