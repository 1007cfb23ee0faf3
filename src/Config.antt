-- ===== src/Config.antt =====
-- config_file.c: the transport, the interface and the transport's options from a file. `malloc` and
-- the contents of fresh memory are parameters; the file is its text, or none if it does not open.
pub mod Append
pub mod Precedence
use morsectrl_tools.Prelude.{
  ℕ, zero, suc, ◌+◌, ◌-◌, Bool, true, false, ◌||◌, List, [], ◌∷◌, ◌++◌, Option, none, some, ℤ, pos,
  neg, is_nonzero, length, take, drop, ltb, leb, ◌==◌, if◌then◌else◌,
}
use morsectrl_tools.Machine.{Outcome, done, fault}
use morsectrl_tools.Util.Text.{Text, codes, is_space, strip_end}
use morsectrl_tools.Transport.{starts_with}

-- A string in a block of memory; the block's size counts the terminator.
pub record CfgBuff : Type 0 where
  pub text : Text
  pub capacity : ℕ

pub record Options : Type 0 where
  pub trans : Option Text
  pub iface : Option Text
  pub cfg : Option CfgBuff

abbrev pub max_line_length : ℕ
max_line_length = 255

abbrev pub max_cfg_length : ℕ
max_cfg_length = 255

-- `config_file_remove_trailing_ws`
abbrev pub remove_trailing_ws : Text → Text
remove_trailing_ws = strip_end

-- The loop of `config_file_remove_leading_ws`, with the rounds left: an equals sign counts as space.
pub leading_ws_loop : ℕ → Text → Text → Text
leading_ws_loop zero buff s = buff
leading_ws_loop (suc left) buff [] = []
leading_ws_loop (suc left) buff (c ∷ s) =
    let rest = leading_ws_loop left buff s in if c == b'=' || is_space c then rest else c ∷ s

unfoldable pub remove_leading_ws : Text → Text
unfolding leading_ws_loop
remove_leading_ws buff = leading_ws_loop max_line_length buff buff

-- `strchr(s, '=')`
unfoldable pub from_equals : Text → Option Text
from_equals [] = none
from_equals (c ∷ s) = if c == b'=' then some (c ∷ s) else from_equals s

-- `strlen` of fresh memory, and what stands before its terminator.
unfoldable pub string_of : List ℕ → Option Text
string_of [] = none
string_of (zero ∷ mem) = some []
string_of (suc c ∷ mem) = elim (string_of mem) [ none ↦ none | some s ↦ some (suc c ∷ s) ]

-- The pieces that `fgets` reads into the line buffer: up to a newline, and at most 254 characters,
-- of which `left` are to come behind `acc`.
unfoldable pub fgets_lines : ℕ → Text → Text → List Text
fgets_lines left [] [] = []
fgets_lines left (c ∷ acc) [] = (c ∷ acc) ∷ []
fgets_lines left acc (c ∷ s) =
    let piece = acc ++ (c ∷ []) in
    let full = c == b'\n' || left == 1 in
    let rest =
      fgets_lines (if full then max_line_length - 1 else left - 1) (if full then [] else piece) s in
    if full then piece ∷ rest else rest

-- `config_file_cfg` from the size test on: append to a buffer that is there.
unfoldable pub append_cfg : Text → CfgBuff → Outcome (ℤ × Option CfgBuff)
append_cfg line b =
    let buff = remove_trailing_ws line in
    let current_size = length b.text in
    let total_size = current_size + length buff + 2 in
    let text = if current_size == 0 then buff else b.text ++ (b',' ∷ buff) in
    if ltb max_cfg_length total_size
    then done (neg 1, some b)
    else if ltb (length text) b.capacity
    then done (pos 0, some (record { text = text; capacity = b.capacity }))
    else fault

-- What a line that was handled gives goes into the options.
pub set_trans : Options → Outcome (ℤ × Option Text) → Outcome (ℤ × Options)
set_trans o fault = fault
set_trans o (done (r, t)) = done (r, record o { trans = t })

pub set_iface : Options → Outcome (ℤ × Option Text) → Outcome (ℤ × Options)
set_iface o fault = fault
set_iface o (done (r, t)) = done (r, record o { iface = t })

pub set_cfg : Options → Outcome (ℤ × Option CfgBuff) → Outcome (ℤ × Options)
set_cfg o fault = fault
set_cfg o (done (r, b)) = done (r, record o { cfg = b })

-- The parser goes on after the code 0.
pub next_line : Outcome (ℤ × Options) → (Options → Outcome (ℤ × Options)) → Outcome (ℤ × Options)
next_line fault k = fault
next_line (done (r, o)) k = if is_nonzero r then done (r, o) else k o

module _ (malloc : ℕ → Bool) (fresh : List ℕ) where
  -- `config_file_passthrough` into a null `*dst`: without an equals sign NULL is measured.
  unfoldable pub passthrough : Text → Outcome (ℤ × Option Text)
  passthrough src = elim (from_equals src) [
    | none ↦ fault
    | some s ↦
        let ptr = remove_leading_ws s in
        if malloc (length ptr + 1)
        then done (pos 0, some (remove_trailing_ws (take (max_cfg_length - 1) ptr)))
        else done (neg 1, none)
  ]

  -- `config_file_cfg`: a first buffer is not cleared before its length is taken.
  unfoldable pub cfg : Text → Option CfgBuff → Outcome (ℤ × Option CfgBuff)
  unfolding append_cfg
  cfg line none =
      if malloc max_cfg_length
      then elim (string_of (take max_cfg_length fresh)) [
        | none ↦ fault
        | some text ↦ append_cfg line (record { text = text; capacity = max_cfg_length })
      ]
      else done (neg 1, none)
  cfg line (some b) = append_cfg line b

  -- A line that names the transport in force: what follows the name and one character more.
  option_line : Options → Text → Text → Outcome (ℤ × Options)
  option_line o name ptr =
      if starts_with name ptr
      then (if ltb (length name) (length ptr)
          then set_cfg o (cfg (drop (length name + 1) ptr) o.cfg)
          else fault)
      else done (pos 0, o)

  other_line : Options → Option Text → Text → Outcome (ℤ × Options)
  other_line o none ptr = done (pos 0, o)
  other_line o (some name) ptr = option_line o name ptr

  iface_line : Options → Option Text → Text → Outcome (ℤ × Options)
  iface_line o none ptr =
      if starts_with (codes "interface") ptr
      then set_iface o (passthrough (drop 9 ptr))
      else other_line o o.trans ptr
  iface_line o (some t) ptr = other_line o o.trans ptr

  trans_line : Options → Option Text → Text → Outcome (ℤ × Options)
  trans_line o none ptr =
      if starts_with (codes "transport") ptr
      then set_trans o (passthrough (drop 9 ptr))
      else iface_line o o.iface ptr
  trans_line o (some t) ptr = iface_line o o.iface ptr

  -- One turn of the loop of `morsectrl_config_file_parse`: the code decides whether it goes on.
  unfoldable pub config_line : Options → Text → Outcome (ℤ × Options)
  unfolding trans_line iface_line other_line option_line set_trans set_iface set_cfg
  config_line o [] = done (pos 0, o)
  config_line o (c ∷ s) =
      if c == b'#' || c == b'\n' || c == 13
      then done (pos 0, o)
      else trans_line o o.trans (remove_leading_ws (c ∷ s))

  unfoldable pub config_lines : List Text → Options → Outcome (ℤ × Options)
  unfolding next_line
  config_lines [] o = done (pos 0, o)
  config_lines (line ∷ lines) o = next_line (config_line o line) (λ o'. config_lines lines o')

  -- `morsectrl_config_file_parse`, of three addresses that are not null.
  unfoldable pub config_file_parse : Option Text → Options → Outcome (ℤ × Options)
  unfolding config_lines fgets_lines
  config_file_parse none o = done (neg 1, o)
  config_file_parse (some file) o =
      if malloc max_line_length
      then config_lines (fgets_lines (max_line_length - 1) [] file) o
      else done (neg 1, o)
