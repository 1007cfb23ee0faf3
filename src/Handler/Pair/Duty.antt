-- ===== src/Handler/Pair/Duty.antt =====
-- duty_cycle.c. The floating-point number is a parameter.
use morsectrl_tools.Prelude.{
  ℕ, bit_or, bit_and, Bool, true, false, ◌||◌, not, List, [], ◌∷◌, length, drop, replicate, get_or,
  Option, none, some, ℤ, pos, neg, is_neg, ltb, ◌==◌, if◌then◌else◌,
}
use morsectrl_tools.Util.Text.{Text, codes, same_text}
use morsectrl_tools.Util.Numbers.{str_to_uint32, str_to_uint8_range}
use morsectrl_tools.Machine.{M, ◌>>=◌, ret, Buff, load}
use morsectrl_tools.Transport.{Transport, TransportType, nl80211, ftdi_spi, transport_none}
use morsectrl_tools.Command.{send_command}
use morsectrl_tools.Sdio.Registers.{to_le32}
use morsectrl_tools.Handler.{Getopt, Fields, word, assign}
use morsectrl_tools.Handler.Options.{scan}
use morsectrl_tools.Handler.Pair.{two_buffers}

-- C's `float`, as far as the handler uses it: `strtof`, the comparison, the two limits, and
-- `(uint32_t)(duty_cycle * 100)`.
pub record Floats (F : Type 0) : Type 0 where
  pub strtof : Text → F
  pub below : F → F → Bool
  pub duty_cycle_min : F
  pub duty_cycle_max : F
  pub hundredths : F → ℕ

-- `enum duty_cycle_cmd`
pub data DutyCommand : Type 0 where
  duty_disable duty_enable duty_airtime : DutyCommand

unfoldable pub duty_cycle_parse_cmd : Text → Option DutyCommand
duty_cycle_parse_cmd str =
    if same_text (codes "enable") str
    then some duty_enable
    else if same_text (codes "disable") str
    then some duty_disable
    else if same_text (codes "airtime") str
    then some duty_airtime
    else none

-- `cfg`, `cfg_ext` and `set_cfgs`.
pub record DutyCycle : Type 0 where
  pub omit_control_responses : ℕ
  pub duty_cycle : ℕ
  pub burst_record_unit_us : ℕ
  pub mode : ℕ
  pub set_cfgs : ℕ

-- With the duty cycle set, and what is set.
abbrev pub with_duty : ℕ → ℕ → DutyCycle
with_duty duty set = record {
  omit_control_responses = 0;
  duty_cycle = duty;
  burst_record_unit_us = 0;
  mode = 0;
  set_cfgs = set;
}

unfoldable pub duty_option : DutyCycle → ℕ → Text → Option DutyCycle
duty_option d option optarg =
    let mode = str_to_uint8_range optarg 0 1 in
    let unit = str_to_uint32 optarg in
    if option == b'o'
    then some (record d { omit_control_responses = 1; set_cfgs = bit_or d.set_cfgs 2 })
    else if option == b'm'
    then (if mode.0 then some (record d { mode = mode.1 }) else none)
    else if option == b'u'
    then (if unit.0
        then some (record d { burst_record_unit_us = unit.1; set_cfgs = bit_or d.set_cfgs 8 })
        else none)
    else none

-- The extension is sent where it is set, and the unit in it where that is set.
unfoldable pub duty_fields : DutyCycle → Fields
duty_fields d =
    let extended = not (bit_and d.set_cfgs 4 == 0) in
    let unit = not (bit_and d.set_cfgs 8 == 0) in
    (0, replicate 11 0)
    ∷ (5, d.set_cfgs ∷ [])
    ∷ (1, to_le32 d.duty_cycle)
    ∷ (0, d.omit_control_responses ∷ [])
    ∷ (10, (if extended then d.mode else 0) ∷ [])
    ∷ (6, to_le32 (if extended then (if unit then d.burst_record_unit_us else 0) else 0))
    ∷ []

-- On the FTDI transport the command goes to the firmware, else to the driver.
unfoldable pub duty_message : TransportType → ℕ
duty_message ftdi_spi = 0x0022
duty_message nl80211 = 0xA015
duty_message transport_none = 0xA015

module _ {S : Type 0} where
  -- The mode in the response, where only the airtime is wanted: it is an error unless it is burst.
  unfoldable pub duty_mode : Bool → ℤ → Option Buff → M S ℤ
  duty_mode false r resp = ret r
  duty_mode true r none = ret r
  duty_mode true r (some resp) = do
    mode ← load resp 33 1
    ret (if get_or mode 0 0 == 1 then r else neg 1)

  unfoldable pub get_duty_body : Transport S → Bool → Buff → Buff → M S ℤ
  unfolding duty_mode
  get_duty_body t airtime_only cmd resp = do
    answer ← send_command t 0x0023 (some cmd) (some resp)
    if is_neg answer.0 then ret answer.0 else duty_mode airtime_only answer.0 answer.1

  unfoldable pub get_duty_cycle : Transport S → Bool → M S ℤ
  unfolding get_duty_body
  get_duty_cycle t airtime_only = two_buffers t 11 18 (neg 1) (get_duty_body t airtime_only)

  unfoldable pub set_duty_body : Transport S → DutyCycle → Buff → Buff → M S ℤ
  unfolding duty_fields duty_message
  set_duty_body t d cmd resp = do
    cmd' ← assign cmd (duty_fields d)
    answer ← send_command t (duty_message t.type) (some cmd') (some resp)
    ret answer.0

  unfoldable pub set_duty_cycle : Transport S → DutyCycle → M S ℤ
  unfolding set_duty_body
  set_duty_cycle t d = two_buffers t 11 0 (neg 1) (set_duty_body t d)

module _ {F : Type 0} (floats : Floats F) where
  -- `enable`: the duty cycle in its range, and the options behind it.
  unfoldable pub duty_enabled : Getopt → List Text → Option DutyCycle
  unfolding duty_option
  duty_enabled getopt argv =
      let duty = floats.strtof (word argv 2) in
      if ltb (length argv) 3
      then none
      else if floats.below duty floats.duty_cycle_min || floats.below floats.duty_cycle_max duty
      then none
      else scan duty_option (with_duty (floats.hundredths duty) 5)
          (getopt (drop 2 argv) (codes "m:u:o"))

module _ {S F : Type 0} (floats : Floats F) where
  unfoldable pub duty_after : Getopt → Transport S → List Text → Option DutyCommand → M S ℤ
  unfolding duty_enabled get_duty_cycle set_duty_cycle
  duty_after getopt t argv none = ret (neg 1)
  duty_after getopt t argv (some duty_airtime) = get_duty_cycle t true
  duty_after getopt t argv (some duty_disable) = set_duty_cycle t (with_duty 10000 1)
  duty_after getopt t argv (some duty_enable) = elim (duty_enabled floats getopt argv) [
    | none ↦ ret (neg 1)
    | some d ↦ set_duty_cycle t d
  ]

  -- `duty_cycle`
  unfoldable pub duty_cycle : Getopt → Transport S → List Text → M S ℤ
  unfolding duty_after duty_cycle_parse_cmd
  duty_cycle getopt t argv =
      if length argv == 0
      then ret (pos 0)
      else if length argv == 1
      then get_duty_cycle t false
      else duty_after getopt t argv (duty_cycle_parse_cmd (word argv 1))
