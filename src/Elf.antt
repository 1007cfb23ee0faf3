-- ===== src/Elf.antt =====
-- elf_file.c: the headers and sections of a firmware's file, which is a list of octets, and the
-- records that its statistics are described by. Reading behind the file's end is undefined, as the
-- code tests no offset.
pub mod Load
pub mod Records
use morsectrl_tools.Prelude.{
  ℕ, zero, suc, ◌+◌, ◌*◌, ◌/◌, ◌%◌, ◌^◌, Bool, true, false, ◌&&◌, ◌||◌, List, [], ◌∷◌, ◌++◌, length,
  take, drop, get_or, replicate, Option, none, some, ltb, leb, u32, ◌==◌, if◌then◌else◌,
}
use morsectrl_tools.Util.Text.{Text, codes}
use morsectrl_tools.Machine.{M, ◌>>=◌, ret, undefined, overwrite}
use morsectrl_tools.Transport.{starts_with}
use morsectrl_tools.Sdio.Registers.{from_le32}
use morsectrl_tools.Stats.{OffchipData}

-- `Elf32_Ehdr`, as far as it is read.
pub record FileHeader : Type 0 where
  pub e_phoff : ℕ
  pub e_shoff : ℕ
  pub e_phentsize : ℕ
  pub e_phnum : ℕ
  pub e_shentsize : ℕ
  pub e_shnum : ℕ
  pub e_shstrndx : ℕ

-- `Elf32_Shdr`, as far as it is read.
pub record SectionHeader : Type 0 where
  pub sh_name : ℕ
  pub sh_addr : ℕ
  pub sh_offset : ℕ
  pub sh_size : ℕ

-- The characters up to the terminator; none, if there is none.
unfoldable pub c_string : List ℕ → Option Text
c_string [] = none
c_string (c ∷ s) =
    let rest = c_string s in
    if c == 0 then some [] else elim rest [ none ↦ none | some t ↦ some (c ∷ t) ]

-- `strstr(s, part) != NULL`
unfoldable pub contains : Text → Text → Bool
contains part [] = starts_with part []
contains part (c ∷ s) = starts_with part (c ∷ s) || contains part s

-- A number of two or four octets of a list, at an offset.
abbrev pub u16_at : List ℕ → ℕ → ℕ
u16_at octets i = get_or octets i 0 + get_or octets (i + 1) 0 * 256

abbrev pub u32_at : List ℕ → ℕ → ℕ
u32_at octets i = from_le32 (take 4 (drop i octets))

-- The magic number, and ELF32 in little-endian order.
unfoldable pub is_elf32 : List ℕ → Bool
is_elf32 header =
    get_or header 0 0 == 0x7f
    && get_or header 1 0 == b'E'
    && get_or header 2 0 == b'L'
    && get_or header 3 0 == b'F'
    && get_or header 5 0 == 1
    && get_or header 4 0 == 1

-- The sections whose name contains this describe statistics.
abbrev pub offchip_section : Text
offchip_section = codes "_offchip_"

-- `sizeof(struct statistics_offchip_data)`
abbrev pub record_size : ℕ
record_size = 206

module _ {S : Type 0} where
  -- Octets of the file.
  unfoldable pub slice : List ℕ → ℕ → ℕ → M S (List ℕ)
  slice image offset size =
      if leb (offset + size) (length image) then ret (take size (drop offset image)) else undefined

  unfoldable pub get_file_header : List ℕ → M S (Option FileHeader)
  get_file_header image = do
    header ← slice image 0 52
    if is_elf32 header
        then ret (
            some (record {
              e_phoff = u32_at header 28;
              e_shoff = u32_at header 32;
              e_phentsize = u16_at header 42;
              e_phnum = u16_at header 44;
              e_shentsize = u16_at header 46;
              e_shnum = u16_at header 48;
              e_shstrndx = u16_at header 50;
            }))
        else ret none

  unfoldable pub get_section_header : List ℕ → FileHeader → ℕ → M S SectionHeader
  get_section_header image ehdr ii = do
    header ← slice image (ehdr.e_shoff + ii * ehdr.e_shentsize) 40
    ret (record {
      sh_name = u32_at header 0;
      sh_addr = u32_at header 12;
      sh_offset = u32_at header 16;
      sh_size = u32_at header 20;
    })

  -- The name of a section, in the section of the names. Without a terminator it runs out of the file.
  unfoldable pub section_name : List ℕ → SectionHeader → SectionHeader → M S Text
  section_name image sh_strtab shdr =
      elim (c_string (drop (sh_strtab.sh_offset + shdr.sh_name) image)) [
        | none ↦ undefined
        | some name ↦ ret name
      ]

  -- The headers of the sections of statistics, in the order of the file, from the `ii`-th on.
  unfoldable pub offchip_sections :
      List ℕ → FileHeader → SectionHeader → ℕ → ℕ → M S (List SectionHeader)
  offchip_sections image ehdr sh_strtab zero ii = ret []
  offchip_sections image ehdr sh_strtab (suc left) ii = do
    shdr ← get_section_header image ehdr ii
    name ← section_name image sh_strtab shdr
    rest ← offchip_sections image ehdr sh_strtab left (suc ii)
    ret (if contains offchip_section name then shdr ∷ rest else rest)

-- `total_stats_size`, a `size_t` of 64 bits: 65535 sections of 32-bit sizes stay below 2 ^ 64.
unfoldable pub total_size : List SectionHeader → ℕ
total_size [] = 0
total_size (shdr ∷ sections) = shdr.sh_size + total_size sections

-- `*n_rec`
unfoldable pub count_records : List SectionHeader → ℕ
count_records [] = 0
count_records (shdr ∷ sections) = shdr.sh_size / record_size + count_records sections

module _ {S : Type 0} where
  -- `memcpy` into the block at an `int` offset, given by its 32 bits: a negative one is outside.
  unfoldable pub placed : ℕ → List ℕ → List ℕ → M S (List ℕ)
  placed offset octets block =
      if ltb offset (2 ^ 31) && leb (offset + length octets) (length block)
      then ret (overwrite offset octets block)
      else undefined

  -- The sections are copied into the block, one behind the other.
  unfoldable pub copied : List ℕ → ℕ → List SectionHeader → List ℕ → M S (List ℕ)
  unfolding placed
  copied image offset [] block = ret block
  copied image offset (shdr ∷ sections) block = do
    octets ← slice image shdr.sh_offset shdr.sh_size
    block' ← placed offset octets block
    copied image (u32 (offset + shdr.sh_size)) sections block'

  -- With or without the block: it is cleared before it is tested.
  unfoldable pub filled_block : List ℕ → List SectionHeader → Bool → M S (Option (List ℕ × ℕ))
  filled_block image sections false = if total_size sections == 0 then ret none else undefined
  filled_block image sections true = do
    blob ← copied image 0 sections (replicate (total_size sections) 0)
    ret (some (blob, count_records sections))

  -- `morse_stats_load`, where `malloc` tells whether there is a block: the records' octets and their
  -- number, or none for a return of -1.
  unfoldable pub morse_stats_load : (ℕ → M S Bool) → List ℕ → M S (Option (List ℕ × ℕ))
  morse_stats_load malloc image = do
    header ← get_file_header image
    elim header [
      | none ↦ ret none
      | some ehdr ↦ do
        sh_strtab ← get_section_header image ehdr ehdr.e_shstrndx
        sections ← offchip_sections image ehdr sh_strtab ehdr.e_shnum 0
        there ← malloc (total_size sections)
        filled_block image sections there
    ]

-- A string in a field of `n` octets.
abbrev pub field_string : List ℕ → ℕ → ℕ → Text
field_string octets i n = elim (c_string (take n (drop i octets))) [
  | none ↦ take n (drop i octets)
  | some t ↦ t
]

-- `struct statistics_offchip_data`
unfoldable pub record_of : List ℕ → OffchipData
record_of octets = record {
  type_str = field_string octets 0 50;
  name = field_string octets 50 50;
  key = field_string octets 100 100;
  format = u32_at octets 200;
  tag = u16_at octets 204;
}

-- The array of `n` records that the statistics are looked up in. A read behind the block is
-- undefined.
unfoldable pub records : ℕ → List ℕ → Option (List OffchipData)
unfolding record_of
records zero blob = some []
records (suc n) blob =
    let rest = records n (drop record_size blob) in
    if leb record_size (length blob)
    then elim rest [ none ↦ none | some ds ↦ some (record_of (take record_size blob) ∷ ds) ]
    else none
