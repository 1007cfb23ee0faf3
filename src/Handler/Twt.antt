-- ===== src/Handler/Twt.antt =====
-- twt.c: the agreements on a target wake time. The response is allocated before the command, whose
-- memory is not cleared.
pub mod Balance
use morsectrl_tools.Prelude.{
  ℕ, ◌+◌, ◌*◌, ◌%◌, ◌/◌, ◌^◌, Bool, true, false, not, ◌&&◌, ◌||◌, List, [], ◌∷◌, ◌++◌, length, drop,
  Option, none, some, ℤ, pos, neg, ltb, ◌==◌, if◌then◌else◌,
}
use morsectrl_tools.Util.Text.{Text, codes, same_text}
use morsectrl_tools.Util.Numbers.{
  str_to_uint16, str_to_uint64, str_to_uint8_range, str_to_uint32_range,
}
use morsectrl_tools.Machine.{M, ◌>>=◌, ◌>>◌, ret, Buff}
use morsectrl_tools.Transport.{Transport, cmd_alloc, resp_alloc, buff_free}
use morsectrl_tools.Command.{le16, send_command}
use morsectrl_tools.Sdio.Registers.{to_le32}
use morsectrl_tools.Handler.{
  Fields, Getopt, Filled, refused, abandoned, filled, word, assign, usage_if_none,
}
use morsectrl_tools.Handler.Value.{early_then, fail_if}
use morsectrl_tools.Handler.Options.{scan}

-- `twt_subcommands_t`
pub data Subcommand : Type 0 where
  configure force_install_agreement remove_agreement configure_explicit : Subcommand

unfoldable pub subcommand_code : Subcommand → ℕ
subcommand_code configure = 0
subcommand_code force_install_agreement = 1
subcommand_code remove_agreement = 2
subcommand_code configure_explicit = 3

-- Without `MORSE_CLIENT`.
unfoldable pub twt_get_cmd : Text → Option Subcommand
twt_get_cmd str =
    if same_text (codes "conf") str
    then some configure
    else if same_text (codes "install") str
    then some force_install_agreement
    else if same_text (codes "remove") str
    then some remove_agreement
    else if same_text (codes "explicit") str
    then some configure_explicit
    else none

-- A `uint64_t` in memory.
abbrev pub le64 : ℕ → List ℕ
le64 n = to_le32 (n % 2 ^ 32) ++ to_le32 (n / 2 ^ 32)

pub record Agreement : Type 0 where
  pub flow_id : ℕ
  pub wake_duration_us : ℕ
  pub wake_interval_us : ℕ
  pub wake_interval_mantissa : ℕ
  pub wake_interval_exponent : ℕ
  pub target_wake_time : ℕ
  pub setup_cmd : ℕ

abbrev pub no_agreement : Agreement
no_agreement = record {
  flow_id = 0;
  wake_duration_us = 0;
  wake_interval_us = 0;
  wake_interval_mantissa = 0;
  wake_interval_exponent = 0;
  target_wake_time = 0;
  setup_cmd = 0;
}

-- A parsed number, put in its place.
abbrev set_if : Bool × ℕ → (ℕ → Agreement) → Option Agreement
set_if (ok, n) set = if ok then some (set n) else none

unfoldable pub twt_option : Agreement → ℕ → Text → Option Agreement
twt_option a option optarg =
    if option == b'f'
    then set_if (str_to_uint32_range optarg 0 7) (λ n. record a { flow_id = n })
    else if option == b'w'
    then set_if (str_to_uint64 optarg) (λ n. record a { wake_interval_us = n })
    else if option == b'd'
    then set_if (str_to_uint32_range optarg 0 65280) (λ n. record a { wake_duration_us = n })
    else if option == b't'
    then set_if (str_to_uint64 optarg) (λ n. record a { target_wake_time = n })
    else if option == b'c'
    then set_if (str_to_uint32_range optarg 0 7) (λ n. record a { setup_cmd = n })
    else if option == b'm'
    then set_if (str_to_uint16 optarg) (λ n. record a { wake_interval_mantissa = n })
    else if option == b'e'
    then set_if (str_to_uint8_range optarg 0 31) (λ n. record a { wake_interval_exponent = n })
    else none

unfoldable pub twt_remove_option : Agreement → ℕ → Text → Option Agreement
twt_remove_option a option optarg =
    if option == b'f'
    then set_if (str_to_uint32_range optarg 0 7) (λ n. record a { flow_id = n })
    else none

-- The fields that differ between the subcommands.
unfoldable pub interval_fields : Subcommand → Agreement → Fields
interval_fields configure_explicit a =
    (12, a.wake_interval_exponent ∷ []) ∷ (10, le16 a.wake_interval_mantissa []) ∷ []
interval_fields _ a = (10, le64 a.wake_interval_us) ∷ []

unfoldable pub target_fields : Subcommand → Agreement → Fields
target_fields force_install_agreement a = (2, le64 a.target_wake_time) ∷ []
target_fields _ a = []

unfoldable pub twt_fields : Subcommand → Agreement → Fields
unfolding subcommand_code interval_fields target_fields
twt_fields remove_agreement a =
    (1, a.flow_id ∷ []) ∷ (0, subcommand_code remove_agreement ∷ []) ∷ []
twt_fields cmd_id a =
    (1, a.flow_id ∷ []) ∷ (0, subcommand_code cmd_id ∷ []) ∷ interval_fields cmd_id a
    ++ (18, to_le32 a.wake_duration_us) ∷ (22, a.setup_cmd ∷ []) ∷ target_fields cmd_id a

-- The options of a subcommand.
unfoldable pub twt_scan : Getopt → Subcommand → List Text → Option Agreement
twt_scan getopt remove_agreement argv =
    scan twt_remove_option no_agreement (getopt (drop 1 argv) (codes "f:"))
twt_scan getopt cmd_id argv =
    scan twt_option no_agreement (getopt (drop 1 argv) (codes "f:w:d:t:c:m:e:"))

-- Before anything is allocated.
unfoldable pub twt_early : List Text → Option ℤ
unfolding twt_get_cmd
twt_early argv = early_then (usage_if_none argv) (
    early_then (fail_if (ltb (length argv) 3))
      (elim (twt_get_cmd (word argv 1)) [ none ↦ some (neg 1) | some c ↦ none ]))

unfoldable pub twt_fill : Getopt → List Text → Filled
unfolding twt_scan twt_fields twt_get_cmd
twt_fill getopt argv = elim (twt_get_cmd (word argv 1)) [
  | none ↦ refused
  | some cmd_id ↦ elim (twt_scan getopt cmd_id argv) [
    | none ↦ refused
    | some a ↦ filled (twt_fields cmd_id a)
  ]
]

module _ {S : Type 0} where
  pub twt_transmit : Transport S → Filled → Buff → Buff → M S ℤ
  twt_transmit t (filled fields) cmd resp = do
    cmd' ← assign cmd fields
    answer ← send_command t 0xA010 (some cmd') (some resp)
    ret answer.0
  twt_transmit t _ cmd resp = ret (neg 1)

  -- With the response there: the command, and both are freed.
  pub twt_with : Transport S → Filled → Buff → Option Buff → M S ℤ
  unfolding twt_transmit
  twt_with t what resp none = ret (neg 1)
  twt_with t what resp (some cmd) = do r ← twt_transmit t what cmd resp; buff_free (some cmd); ret r

  pub twt_after : Transport S → Filled → Option Buff → M S ℤ
  unfolding twt_with
  twt_after t what none = ret (neg 1)
  twt_after t what (some resp) = do
    cmd ← cmd_alloc t 26
    r ← twt_with t what resp cmd
    buff_free (some resp)
    ret r

  unfoldable pub twt : Getopt → Transport S → List Text → M S ℤ
  unfolding twt_after
  twt getopt t argv = elim (twt_early argv) [
    | some r ↦ ret r
    | none ↦ do resp ← resp_alloc t 0; twt_after t (twt_fill getopt argv) resp
  ]
