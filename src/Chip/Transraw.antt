-- ===== src/Chip/Transraw.antt =====
-- transraw.c: the command's options and what they ask for. Closing a file is left out.
use morsectrl_tools.Prelude.{
  ℕ, Bool, true, false, List, [], length, Option, none, some, ℤ, pos, neg, ◌==◌, if◌then◌else◌, u32,
}
use morsectrl_tools.Util.Text.{Text, codes}
use morsectrl_tools.Util.Numbers.{strtoul}
use morsectrl_tools.Machine.{M, ◌>>=◌, ◌>>◌, ret, undefined, Buff, load}
use morsectrl_tools.Transport.{
  Transport, raw_read_alloc, raw_write_alloc, buff_free, reg_read, reg_write, mem_read, mem_write,
}
use morsectrl_tools.Handler.{Getopt}
use morsectrl_tools.Handler.Options.{scan}
use morsectrl_tools.Chip.Memtest.{transraw_test}

-- Opening a file to read, with what `get_file_size` gives and what `load_file` reads, if it can;
-- opening one to write; and `fwrite`, with its count.
pub record Files (S : Type 0) : Type 0 where
  pub open_to_read : Text → M S (Option (ℕ × Option (List ℕ)))
  pub open_to_write : Text → M S Bool
  pub fwrite : List ℕ → M S ℕ

-- `transraw_type_t`
pub data TransrawType : Type 0 where
  transraw_unknown transraw_unknown_file transraw_write transraw_write_from_file : TransrawType
  transraw_read transraw_read_to_file transraw_testing : TransrawType

-- What `-w`, `-r` and `-f` make of it; `none` where they do not go together.
unfoldable pub with_write : TransrawType → Option TransrawType
with_write transraw_unknown = some transraw_write
with_write transraw_unknown_file = some transraw_write_from_file
with_write _ = none

unfoldable pub with_read : TransrawType → Option TransrawType
with_read transraw_unknown = some transraw_read
with_read transraw_unknown_file = some transraw_read_to_file
with_read _ = none

unfoldable pub with_file : TransrawType → Option TransrawType
with_file transraw_unknown = some transraw_unknown_file
with_file transraw_read = some transraw_read_to_file
with_file transraw_write = some transraw_write_from_file
with_file _ = none

-- `path` and `write_val` are set wherever the type that the options give needs them.
pub record TransrawOptions : Type 0 where
  pub addr : ℕ
  pub write_val : ℕ
  pub path : Text
  pub type : TransrawType

abbrev pub of_type : TransrawOptions → Option TransrawType → Option TransrawOptions
of_type o none = none
of_type o (some type) = some (record o { type = type })

unfoldable pub transraw_option : TransrawOptions → ℕ → Text → Option TransrawOptions
unfolding with_write with_read with_file
transraw_option o option optarg =
    let number = u32 (strtoul optarg).0 in
    if option == b'a'
    then some (record o { addr = number })
    else if option == b'w'
    then of_type (record o { write_val = number }) (with_write o.type)
    else if option == b'r'
    then of_type o (with_read o.type)
    else if option == b'f'
    then of_type (record o { path = optarg }) (with_file o.type)
    else if option == b't'
    then some (record o { type = transraw_testing })
    else none

module _ {S : Type 0} where
  -- A missing buffer is read through.
  unfoldable pub read_to_file : Files S → Transport S → ℕ → ℕ → Option Buff → M S ℤ
  read_to_file files t addr read_val none = undefined
  read_to_file files t addr read_val (some buff) = do
    answer ← mem_read t buff addr
    octets ← load answer.1 0 read_val
    n ← files.fwrite octets
    buff_free (some buff)
    ret (if n == read_val then answer.0 else neg 1)

  unfoldable pub read_opened : Files S → Transport S → ℕ → ℕ → Bool → M S ℤ
  unfolding read_to_file
  read_opened files t addr read_val false = ret (neg 1)
  read_opened files t addr read_val true = do
    buff ← raw_read_alloc t read_val
    read_to_file files t addr read_val buff

  -- `load_file` lets the data pointer point to a block of its own, or nowhere.
  unfoldable pub write_from_file : Transport S → ℕ → Option (List ℕ) → Option Buff → M S ℤ
  write_from_file t addr octets none = ret (neg 1)
  write_from_file t addr octets (some buff) =
      let block = elim octets as (λ _. List ℕ) [ none ↦ [] | some block ↦ block ] in
      do
        r ← mem_write t (record buff { memblock = block; data_at = 0 }) addr
        buff_free (some buff)
        ret r

  unfoldable pub write_found : Transport S → ℕ → Option (ℕ × Option (List ℕ)) → M S ℤ
  unfolding write_from_file
  write_found t addr none = ret (neg 1)
  write_found t addr (some (size, octets)) = do
    buff ← raw_write_alloc t size
    write_from_file t addr octets buff

  -- What the options ask for. The length of a read to a file is `read_val`, which is not set.
  unfoldable pub transraw_run : Files S → Transport S → ℕ → TransrawType → TransrawOptions → M S ℤ
  unfolding read_opened write_found transraw_test
  transraw_run files t read_val transraw_read_to_file o = do
    opened ← files.open_to_write o.path
    read_opened files t o.addr read_val opened
  transraw_run files t read_val transraw_write_from_file o = do
    found ← files.open_to_read o.path
    write_found t o.addr found
  transraw_run files t read_val transraw_read o = do answer ← reg_read t o.addr; ret (pos 0)
  transraw_run files t read_val transraw_write o = do
    r ← reg_write t o.addr o.write_val
    ret (pos 0)
  transraw_run files t read_val transraw_testing o = transraw_test t
  transraw_run files t read_val _ o = ret (neg 1)

  unfoldable pub transraw_parsed : Files S → Transport S → ℕ → Option TransrawOptions → M S ℤ
  unfolding transraw_run
  transraw_parsed files t read_val none = ret (neg 1)
  transraw_parsed files t read_val (some o) = transraw_run files t read_val o.type o

  -- `transraw`
  unfoldable pub transraw : Getopt → Files S → Transport S → ℕ → List Text → M S ℤ
  unfolding transraw_parsed transraw_option
  transraw getopt files t read_val argv =
      let start : TransrawOptions = record {
        addr = 0;
        write_val = 0;
        path = [];
        type = transraw_unknown;
      } in
      if length argv == 0
      then ret (pos 0)
      else transraw_parsed files t read_val
          (scan transraw_option start (getopt argv (codes "a:f:w:rt")))
