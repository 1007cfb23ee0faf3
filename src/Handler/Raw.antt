-- ===== src/Handler/Raw.antt =====
-- raw.c: the restricted access windows. A window has a priority, or all are switched at once.
pub mod Duration
pub mod Live
use morsectrl_tools.Prelude.{
  ℕ, ◌+◌, ◌-◌, ◌*◌, ◌%◌, ◌/◌, ◌^◌, Bool, true, false, not, ◌&&◌, ◌||◌, List, [], ◌∷◌, ◌++◌, length,
  Option, none, some, ℤ, pos, neg, ltb, ◌==◌, if◌then◌else◌, u8,
}
use morsectrl_tools.Util.Text.{Text, expression_to_int}
use morsectrl_tools.Util.Numbers.{atoi}
use morsectrl_tools.Command.{le16}
use morsectrl_tools.Sdio.Registers.{to_le32}
use morsectrl_tools.Handler.{
  Fields, Handler, Filled, refused, abandoned, filled, word, usage_if_none,
}
use morsectrl_tools.Handler.Switch.{bit}

-- `RAW_CMD_MIN_SLOT_DUR_US` and `RAW_CMD_MAX_SLOT_DUR_US`
abbrev pub min_slot_dur_us : ℕ
min_slot_dur_us = 500

abbrev pub max_slot_dur_us : ℕ
max_slot_dur_us = min_slot_dur_us + (200 * 2048 - 1)

-- What the six further arguments say.
pub record Window : Type 0 where
  pub start_time_us : ℕ
  pub raw_duration_us : ℕ
  pub num_slots : ℕ
  pub cross_slot_boundary : Bool
  pub max_beacon_spread : ℕ
  pub nominal_stas_per_beacon : ℕ

-- The tests of the numbers, the number of slots before the duration.
unfoldable pub window_ok : Window → Bool
window_ok w =
    not (ltb 65535 w.start_time_us)
    && not (ltb w.num_slots 1 || ltb 63 w.num_slots)
    && not (
        ltb w.raw_duration_us (min_slot_dur_us * w.num_slots)
        || ltb (max_slot_dur_us * w.num_slots) w.raw_duration_us)
    && not (ltb 65535 w.max_beacon_spread)
    && not (ltb 65535 w.nominal_stas_per_beacon)

unfoldable pub window : List Text → Option Window
unfolding window_ok
window argv = elim (expression_to_int (word argv 6)) [
  | none ↦ none
  | some cross ↦
      let w : Window = record {
        start_time_us = atoi (word argv 3);
        raw_duration_us = atoi (word argv 4);
        num_slots = atoi (word argv 5);
        cross_slot_boundary = cross;
        max_beacon_spread = atoi (word argv 7);
        nominal_stas_per_beacon = atoi (word argv 8);
      } in
      if window_ok w then some w else none
]

unfoldable pub window_fields : Window → Fields
window_fields w =
    (3, 1 ∷ [])
    ∷ (4, to_le32 w.start_time_us)
    ∷ (12, u8 w.num_slots ∷ [])
    ∷ (8, to_le32 w.raw_duration_us)
    ∷ (13, bit w.cross_slot_boundary ∷ [])
    ∷ (14, le16 w.max_beacon_spread [])
    ∷ (16, le16 w.nominal_stas_per_beacon [])
    ∷ []

-- The fields before the window's.
abbrev switch_fields : ℕ → Bool → Fields
switch_fields enable_type enabled = (0, enable_type ∷ []) ∷ (1, bit enabled ∷ []) ∷ []

-- The window of a priority, where there are nine words.
unfoldable pub raw_window : List Text → Fields → Filled
unfolding window window_fields
raw_window argv fields = elim (window argv) [
  | none ↦ refused
  | some w ↦ filled (fields ++ window_fields w)
]

unfoldable pub raw_priority : List Text → Bool → Filled
unfolding raw_window
raw_priority argv enabled =
    let idx = atoi (word argv 2) in
    let fields = switch_fields 1 enabled ++ (2, u8 idx ∷ []) ∷ [] in
    if ltb 7 idx
    then refused
    else if length argv == 9
    then raw_window argv fields
    else filled (fields ++ (3, 0 ∷ []) ∷ [])

unfoldable pub raw_enabled : List Text → Filled
unfolding raw_priority
raw_enabled argv = elim (expression_to_int (word argv 1)) [
  | none ↦ refused
  | some enabled ↦
      if length argv == 2
      then filled (switch_fields 0 enabled ++ (3, 0 ∷ []) ∷ [])
      else raw_priority argv enabled
]

-- With a wrong number of arguments it returns past the freeing.
unfoldable pub raw : Handler
unfolding raw_enabled
raw = record {
  payload = 18;
  reply = 0;
  message_id = 0xA005;
  in_turn = false;
  early = usage_if_none;
  fill = λ getopt argv.
      if length argv == 2 || length argv == 3 || length argv == 9
      then raw_enabled argv
      else abandoned;
}
