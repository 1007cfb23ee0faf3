-- ===== src/Main.antt =====
-- morsectrl.c: the options, the choice of the command, and the exit code. `getopt_long` and the
-- handlers are parameters: the first as the list of what it returns, with `optarg`.
pub mod ExitCode
pub mod Bracket
use morsectrl_tools.Prelude.{
  ℕ, ◌-◌, Bool, true, false, not, ◌&&◌, ◌||◌, List, [], ◌∷◌, Option, none, some, ℤ, pos, neg,
  negsuc, is_nonzero, length, ◌+◌, ltb, ◌==◌, if◌then◌else◌,
}
use morsectrl_tools.Machine.{World, Outcome, done, fault, M, ◌>>=◌, ◌>>◌, ret}
use morsectrl_tools.Util.Text.{Text, codes, same_text}
use morsectrl_tools.Transport.{
  TransportType, transport_none, nl80211, ftdi_spi, Transport, TransportOps, starts_with, parse,
  init, deinit,
}
use morsectrl_tools.Config.{Options, CfgBuff}

-- An entry of `commands[]`. A handler takes its arguments, its own name first.
pub record CommandEntry (S : Type 0) : Type 0 where
  pub name : Text
  pub handler : Transport S → List Text → M S ℤ
  pub is_intf_cmd : Bool
  pub direct_chip_supported_cmd : Bool

abbrev pub morse_arg_err : ℤ
morse_arg_err = pos 1

abbrev pub morse_cmd_err : ℤ
morse_cmd_err = pos 2

-- `-ENODEV`
abbrev pub enodev : ℤ
enodev = neg 19

-- `ETRANSFTDISPIERR`
abbrev pub etransftdispierr : ℤ
etransftdispierr = pos 4

-- `exit:` maps what is no exit code of a process to `MORSE_CMD_ERR`.
unfoldable pub exit_code : ℤ → ℤ
exit_code (pos n) = if ltb 254 n then morse_cmd_err else pos n
exit_code (negsuc n) = morse_cmd_err

-- What the option loop ends with.
pub data Parsed : Type 0 where
  run : Options → Option Text → Parsed
  help : Options → Parsed
  return : ℤ → Parsed

-- `optarg` as options of the file parser. A block on the stack of `argv` is as long as its text.
pub argv_buff : Text → CfgBuff
argv_buff s = record { text = s; capacity = length s + 1 }

pub cfg_text : Option CfgBuff → Option Text
cfg_text none = none
cfg_text (some b) = some b.text

-- The `switch` of the option loop; the file name is kept beside.
unfoldable pub parse_options : List (ℕ × Text) → Options → Option Text → Parsed
unfolding argv_buff
parse_options [] o file = run o file
parse_options ((opt, optarg) ∷ rest) o file =
    if opt == b'd'
    then parse_options rest o file
    else if opt == b'h'
    then help o
    else if opt == b't'
    then parse_options rest (record o { trans = some optarg }) file
    else if opt == b'i'
    then parse_options rest (record o { iface = some optarg }) file
    else if opt == b'c'
    then parse_options rest (record o { cfg = some (argv_buff optarg) }) file
    else if opt == b'f'
    then parse_options rest o (some optarg)
    else if opt == b'v'
    then return (pos 0)
    else return (pos 1)

abbrev pub is_ftdi : TransportType → Bool
is_ftdi ftdi_spi = true
is_ftdi _ = false

abbrev pub is_nl80211 : TransportType → Bool
is_nl80211 nl80211 = true
is_nl80211 _ = false

abbrev pub is_none : TransportType → Bool
is_none transport_none = true
is_none _ = false

module _ {S : Type 0} (has_reset : S → Bool) where
  -- One of the loops of `usage`: each command that the transport has prints its own lines.
  pub usage_commands : Bool → Transport S → List (CommandEntry S) → M S (Unit {0})
  usage_commands intf t [] = ret tt
  usage_commands intf t (c ∷ commands) = do
    let mine = if intf then c.is_intf_cmd else not c.is_intf_cmd
    let shown = mine && (is_nl80211 t.type || (is_ftdi t.type && c.direct_chip_supported_cmd))
    (if shown then (do c.handler t []; ret tt) else ret tt)
    usage_commands intf t commands

  unfoldable pub usage : Transport S → List (CommandEntry S) → M S (Unit {0})
  unfolding usage_commands
  usage t commands = do usage_commands true t commands; usage_commands false t commands

  -- `init` is called for an interface command, and for `reset` where the transport has one.
  abbrev pub needs_init : CommandEntry S → World S → Bool
  needs_init c w = c.is_intf_cmd || (starts_with c.name (codes "reset") && has_reset w.outside)

  -- From the initialisation to `transport_exit`.
  pub initialise : Transport S → CommandEntry S → M S ℤ
  initialise t c w = (if needs_init c w then init t else ret (pos 0)) w

  unfoldable pub run_command : Transport S → CommandEntry S → List Text → M S ℤ
  unfolding initialise
  run_command t c argv =
      if not c.direct_chip_supported_cmd && is_ftdi t.type then ret etransftdispierr else do
        ready ← initialise t c
        if is_nonzero ready
            then ret ready
            else (do r ← c.handler t argv; if c.is_intf_cmd then (do deinit t; ret r) else ret r)

  -- The loop over `commands[]`: the first of that name.
  pub find_command : Text → List (CommandEntry S) → Option (CommandEntry S)
  find_command name [] = none
  find_command name (c ∷ commands) =
      let rest = find_command name commands in if same_text name c.name then some c else rest

  pub dispatch : Transport S → List (CommandEntry S) → List Text → M S ℤ
  unfolding find_command run_command
  dispatch t commands [] = ret morse_arg_err
  dispatch t commands (name ∷ args) = elim (find_command name commands) [
    | none ↦ ret morse_cmd_err
    | some c ↦ run_command t c (name ∷ args)
  ]

  module _ (nl80211_ops ftdi_spi_ops : TransportOps S) (commands : List (CommandEntry S)) where
    -- From `morsectrl_transport_parse` on.
    pub with_transport : Options → List Text → M S ℤ
    unfolding dispatch
    with_transport o argv = do
      answer ← parse nl80211_ops ftdi_spi_ops o.trans o.iface (cfg_text o.cfg)
      if is_none answer.1.type
          then ret enodev
          else (if is_nonzero answer.0 then ret answer.0 else dispatch answer.1 commands argv)

    -- `main`. The file parser is given as it is called: what it makes of the options.
    unfoldable pub main :
        (Text → Options → Outcome (ℤ × Options)) → List (ℕ × Text) → List Text → M S ℤ
    unfolding with_transport
    main config_file_parse opts argv =
        elim (parse_options opts (record { trans = none; iface = none; cfg = none }) none) [
          | return r ↦ ret r
          | help o ↦ do
            answer ← parse nl80211_ops ftdi_spi_ops o.trans o.iface (cfg_text o.cfg)
            usage answer.1 commands
            ret (exit_code (pos 0))
          | run o none ↦ do r ← with_transport o argv; ret (exit_code r)
          | run o (some file) ↦ elim (config_file_parse file o) [
            | fault ↦ λ w. fault
            | done (r, o') ↦
                if is_nonzero r
                then ret (exit_code r)
                else do r' ← with_transport o' argv; ret (exit_code r')
          ]
        ]
