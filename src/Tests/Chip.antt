-- ===== src/Tests/Chip.antt =====
-- A chip that answers, a file with one section, and a channel.
use morsectrl_tools.Prelude.{
  ℕ, suc, ◌+◌, ◌-◌, ◌^◌, ◌≡◌, ◌⊎◌, refl, inl, Bool, true, List, [], ◌∷◌, replicate,
  length-replicate, some, ℤ, pos, neg, ◌==◌, if◌then◌else◌, u64, arith,
}
use morsectrl_tools.Machine.{done, M, ret, Buff}
use morsectrl_tools.Transport.{TransportOps, Transport, raw_write_alloc, mem_write, nl80211}
use morsectrl_tools.Ftdi.{collect}
use morsectrl_tools.Ftdi.Answer.{answered, waited, hdr_len, collect-AnswersAfter}
use morsectrl_tools.Ftdi.Parse.{default_values, channel_of}
use morsectrl_tools.Ftdi.Parse.Channel.{Decodes, channel_of-Decodes}
use morsectrl_tools.Elf.{SectionHeader}
use morsectrl_tools.Elf.Load.{load_elf_blob}
use morsectrl_tools.Elf.Load.Blob.{Loader, load_elf_blob-leaves}
use morsectrl_tools.Tests.Host.{Toy, start, zeros, toy, generous}

-- The response's bit is there at the third read.
abbrev third_read : ℕ → M ℕ (ℤ × ℕ)
third_read addr w =
    done ((pos 0, if w.outside == 2 then 2 else 0), record w { outside = suc w.outside })

abbrev after : ℕ → Toy
after n = record { outside = n; live = 0 }

abbrev read_back : Buff → ℕ → M ℕ (ℤ × Buff)
read_back b addr = ret (pos 0, b)

collect-AnswersAfter_example :
    collect third_read (λ addr v. ret (pos 0)) read_back (zeros 16) 0 (neg 1) start
    ≡ done (
      (
        pos 0,
        record {
          memblock = replicate 16 0;
          data_at = 0;
          data_len = u64 (hdr_len (zeros 16) + 2 ^ 64 - 4);
        },
      ),
      after 3,
    )
collect-AnswersAfter_example =
    collect-AnswersAfter third_read (λ addr v. ret (pos 0)) read_back (zeros 16) (zeros 16) 0 2
      (neg 1) (pos 0) start (after 3) (after 3) (after 3)
      (waited 1 0 start (after 1) (after 3) refl refl (
        waited 0 0 (after 1) (after 2) (after 3) refl refl
          (answered 2 (after 2) (after 3) refl refl)))
      (omega arith) refl (omega arith) refl

-- A section of one record and four octets more.
abbrev one_section : List SectionHeader
one_section = record { sh_name = 0; sh_addr = 0; sh_offset = 10; sh_size = 210 } ∷ []

abbrev reading : M ℕ Bool
reading = ret true

abbrev writable : TransportOps ℕ
writable = record (toy generous) { mem_write = some (λ b addr. ret (pos 0)) }

abbrev chip : Transport ℕ
chip = record { type = nl80211; tops = some writable }

chip-Loader : Loader reading chip
unfolding raw_write_alloc mem_write
chip-Loader = record {
  allocates = λ n w. inl (
    zeros n,
    record w { live = w.live + 1 },
    refl,
    omega (arith, length-replicate {A = ℕ} n 0),
    refl,
    refl,
  );
  writes = λ b addr w. (pos 0, w, refl, refl);
  reads = λ w. (true, w, refl, refl);
}

load_elf_blob-leaves_example :
    ((w' : Toy) × (load_elf_blob reading chip (replicate 8 1) 4 4 0x100000 start ≡ done (pos 0, w'))
      × (w'.live ≡ 1))
    ⊎ ((w' : Toy) × (load_elf_blob reading chip (replicate 8 1) 4 4 0x100000 start
          ≡ done (neg 1, w'))
        × (w'.live ≡ 0))
load_elf_blob-leaves_example =
    load_elf_blob-leaves reading chip chip-Loader (replicate 8 1) 4 4 0x100000 start (omega arith)

channel_of-Decodes_example :
    ((channel_of default_values).clock_rate ≡ 30000000)
    × Decodes default_values (channel_of default_values).config_options
channel_of-Decodes_example = channel_of-Decodes default_values
