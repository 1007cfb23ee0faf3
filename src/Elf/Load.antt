-- ===== src/Elf/Load.antt =====
-- The command `load_elf`: the program's segments, or two sections of a board's configuration, are
-- written to the chip. `io` tells whether the calls of the C library for a read succeed. What the
-- code does not return from is a fault here too.
pub mod Blob
use morsectrl_tools.Prelude.{
  ℕ, zero, suc, ◌+◌, ◌*◌, ◌%◌, ◌^◌, bit_and, Bool, true, false, not, ◌&&◌, ◌||◌, List, [], ◌∷◌,
  length, take, drop, Option, none, some, ℤ, pos, neg, is_neg, is_nonzero, ltb, ◌==◌, if◌then◌else◌,
  u32,
}
use morsectrl_tools.Util.Text.{Text, codes, same_text}
use morsectrl_tools.Machine.{M, ◌>>=◌, ◌>>◌, ret, undefined, Buff, store}
use morsectrl_tools.Transport.{Transport, starts_with, raw_write_alloc, mem_write, buff_free}
use morsectrl_tools.Sdio.Memory.{align_size}
use morsectrl_tools.Handler.{Getopt}
use morsectrl_tools.Handler.Options.{scan}
use morsectrl_tools.Elf.{
  FileHeader, SectionHeader, slice, u32_at, get_file_header, get_section_header, section_name,
}

-- `Elf32_Phdr`, as far as it is used.
pub record ProgramHeader : Type 0 where
  pub p_type : ℕ
  pub p_offset : ℕ
  pub p_paddr : ℕ
  pub p_memsz : ℕ
  pub p_flags : ℕ
  pub p_align : ℕ

unfoldable pub program_header : List ℕ → ProgramHeader
program_header octets = record {
  p_type = u32_at octets 0;
  p_offset = u32_at octets 4;
  p_paddr = u32_at octets 12;
  p_memsz = u32_at octets 20;
  p_flags = u32_at octets 24;
  p_align = u32_at octets 28;
}

-- Not to be loaded, empty, without rights, or in one of the external flashes.
unfoldable pub skipped : ProgramHeader → Bool
skipped p =
    let base = bit_and p.p_paddr 0xFFFF0000 in
    not (p.p_type == 1)
    || p.p_memsz == 0
    || bit_and p.p_flags 7 == 0
    || base == 0x00400000
    || base == 0x00C00000

-- What was found of a board's configuration: 0 for what was not.
pub record BoardConfig : Type 0 where
  pub addr : ℕ
  pub board_offset : ℕ
  pub board_size : ℕ
  pub regdom_offset : ℕ
  pub regdom_size : ℕ

unfoldable pub found_section : Text → Text → SectionHeader → BoardConfig → BoardConfig
found_section country name shdr found =
    if same_text name (codes ".board_config")
    then record found {
      addr = shdr.sh_addr;
      board_offset = shdr.sh_offset;
      board_size = shdr.sh_size;
    }
    else if starts_with (codes ".regdom_") name && same_text (drop 8 name) country
    then record found { regdom_offset = shdr.sh_offset; regdom_size = shdr.sh_size }
    else found

unfoldable pub complete : BoardConfig → Bool
complete found =
    not (found.board_offset == 0 || found.board_size == 0)
    && not (bit_and found.addr 0xFFFF0000 == 0)
    && not (found.regdom_offset == 0 || found.regdom_size == 0)

-- The options of `load_elf`.
pub record LoadOptions : Type 0 where
  pub path : Option Text
  pub country : Option Text
  pub load_bcf : Bool

unfoldable pub load_option : LoadOptions → ℕ → Text → Option LoadOptions
load_option o option optarg =
    if option == b'f'
    then some (record o { path = some optarg })
    else if option == b'b'
    then some (record o { load_bcf = true })
    else if option == b'c'
    then some (record o { country = some optarg })
    else none

module _ {S : Type 0} (io : M S Bool) where
  -- What is read of a file: less than asked for, if the file ends before. Behind the end of the file
  -- the loop waits for octets that never come.
  unfoldable pub elf_file_load_binary_data : List ℕ → ℕ → ℕ → M S (Option (List ℕ))
  elf_file_load_binary_data infile offset size = do
    ok ← io
    if not ok
        then ret none
        else if ltb (length infile) offset && not (size == 0)
        then undefined
        else ret (some (take size (drop offset infile)))

  -- With the buffer there, which stays allocated on success.
  pub blob_with : Transport S → List ℕ → ℕ → ℕ → ℕ → Option Buff → M S ℤ
  blob_with t firmware offset size addr none = ret (neg 1)
  blob_with t firmware offset size addr (some write) = do
    octets ← elf_file_load_binary_data firmware offset size
    elim octets [
      | none ↦ do buff_free (some write); ret (neg 1)
      | some octets ↦ do
        write' ← store write 0 octets
        r ← mem_write t write' addr
        if is_nonzero r then (do buff_free (some write'); ret (neg 1)) else ret (pos 0)
    ]

  unfoldable pub load_elf_blob : Transport S → List ℕ → ℕ → ℕ → ℕ → M S ℤ
  unfolding blob_with
  load_elf_blob t firmware offset size addr = do
    write ← raw_write_alloc t size
    blob_with t firmware offset size addr write

  -- The sections from the `ii`-th on.
  unfoldable pub find_sections :
      List ℕ → FileHeader → SectionHeader → Text → ℕ → ℕ → BoardConfig → M S BoardConfig
  find_sections image ehdr sh_strtab country zero ii found = ret found
  find_sections image ehdr sh_strtab country (suc left) ii found = do
    shdr ← get_section_header image ehdr ii
    name ← section_name image sh_strtab shdr
    find_sections image ehdr sh_strtab country left (suc ii) (found_section country name shdr found)

  -- The board's section, and the regulatory domain's behind it.
  load_found : Transport S → List ℕ → BoardConfig → M S ℤ
  load_found t firmware found = do
    r ← load_elf_blob t firmware found.board_offset found.board_size found.addr
    if is_neg r then ret r else (do
      r' ←
          load_elf_blob t firmware found.regdom_offset found.regdom_size
            (u32 (found.addr + found.board_size))
      if is_neg r' then ret r' else ret (pos 0))

  unfoldable pub load_bcf_sections : Transport S → List ℕ → FileHeader → Text → M S ℤ
  unfolding load_found
  load_bcf_sections t firmware ehdr country = do
    ok ← io
    if not ok then ret (neg 1) else (do
      sh_strtab ← get_section_header firmware ehdr ehdr.e_shstrndx
      found ← find_sections firmware ehdr sh_strtab country ehdr.e_shnum 0 (record {
        addr = 0;
        board_offset = 0;
        board_size = 0;
        regdom_offset = 0;
        regdom_size = 0;
      })
      if complete found then load_found t firmware found else ret (neg 1))

  load_segment : Transport S → List ℕ → ProgramHeader → M S ℤ
  load_segment t firmware p =
      if skipped p
      then ret (pos 0)
      else if p.p_align == 0
      then undefined
      else load_elf_blob t firmware p.p_offset (u32 (align_size p.p_memsz p.p_align)) p.p_paddr

  -- The segments from the `ii`-th on, up to the first that fails.
  unfoldable pub load_segments : Transport S → List ℕ → List ℕ → ℕ → ℕ → M S ℤ
  unfolding load_segment
  load_segments t firmware phdr zero ii = ret (pos 0)
  load_segments t firmware phdr (suc left) ii = do
    octets ← slice phdr (ii * 32) 32
    r ← load_segment t firmware (program_header octets)
    if is_neg r then ret r else load_segments t firmware phdr left (suc ii)

  -- The number of headers that is asked for is `e_phentsize * e_phnum`, as a `uint16_t`.
  unfoldable pub load_blobs : Transport S → List ℕ → FileHeader → M S ℤ
  load_blobs t firmware ehdr = do
    phdr ←
        elf_file_load_binary_data firmware ehdr.e_phoff
          (32 * (ehdr.e_phentsize * ehdr.e_phnum % 2 ^ 16))
    elim phdr [ none ↦ ret (neg 1) | some octets ↦ load_segments t firmware octets ehdr.e_phnum 0 ]

  unfoldable pub load_file_header : List ℕ → M S (Option FileHeader)
  load_file_header infile = do
    octets ← elf_file_load_binary_data infile 0 52
    elim octets [ none ↦ ret none | some header ↦ get_file_header header ]

  -- A country is needed for a board's configuration, and for nothing else.
  load_with : Transport S → List ℕ → LoadOptions → FileHeader → M S ℤ
  load_with t firmware o ehdr = elim o.country [
    | none ↦ if o.load_bcf then ret (neg 1) else load_blobs t firmware ehdr
    | some country ↦ if o.load_bcf then load_bcf_sections t firmware ehdr country else ret (neg 1)
  ]

  load_path : (Text → M S (Option (List ℕ))) → Transport S → LoadOptions → M S ℤ
  unfolding load_with
  load_path fopen t o = elim o.path [
    | none ↦ ret (neg 1)
    | some path ↦ do
      opened ← fopen path
      elim opened [
        | none ↦ ret (neg 1)
        | some firmware ↦ do
          header ← load_file_header firmware
          elim header [ none ↦ ret (neg 1) | some ehdr ↦ load_with t firmware o ehdr ]
      ]
  ]

  -- `load_elf`, where `fopen` gives a file's octets.
  unfoldable pub load_elf :
      Getopt → (Text → M S (Option (List ℕ))) → Transport S → List Text → M S ℤ
  unfolding load_path
  load_elf getopt fopen t argv =
      let start : LoadOptions = record { path = none; country = none; load_bcf = false } in
      if length argv == 0
      then ret (neg 1)
      else elim (scan load_option start (getopt argv (codes "f:drbc:"))) [
        | none ↦ ret (neg 1)
        | some o ↦ load_path fopen t o
      ]
