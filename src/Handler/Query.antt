-- ===== src/Handler/Query.antt =====
-- The handlers of health.c, tsf.c and hw_version.c, whose commands carry nothing, and edconfig.c.
use morsectrl_tools.Prelude.{
  ℕ, Bool, false, not, ◌&&◌, ◌||◌, List, [], ◌∷◌, length, Option, none, some, ltb, ◌==◌,
  if◌then◌else◌, u16,
}
use morsectrl_tools.Util.Text.{Text, codes, is_digit, strip_start, same_text}
use morsectrl_tools.Util.Numbers.{atoi}
use morsectrl_tools.Command.{le16}
use morsectrl_tools.Handler.{Handler, Filled, refused, filled, word, usage_if_none}
use morsectrl_tools.Handler.Value.{fail_if}

unfoldable pub health : Handler
health = record {
  payload = 0;
  reply = 0;
  message_id = 0x0019;
  in_turn = false;
  early = usage_if_none;
  fill = λ getopt argv. if length argv == 1 then filled [] else refused;
}

unfoldable pub tsf : Handler
tsf = record {
  payload = 0;
  reply = 8;
  message_id = 0x0028;
  in_turn = false;
  early = λ argv. fail_if (not (length argv == 1));
  fill = λ getopt argv. filled [];
}

unfoldable pub hw_version : Handler
hw_version = record {
  payload = 0;
  reply = 64;
  message_id = 0xA013;
  in_turn = false;
  early = usage_if_none;
  fill = λ getopt argv. if ltb 1 (length argv) then refused else filled [];
}

-- Whether `strtol` with base 10 finds a number.
unfoldable pub has_number : Text → Bool
unfolding strip_start
has_number str = elim (strip_start str) [
  | [] ↦ false
  | c ∷ s ↦
      if c == b'-' || c == b'+' then elim s [ [] ↦ false | d ∷ s' ↦ is_digit d ] else is_digit c
]

-- The target, 0 for energy and 1 for noise.
unfoldable pub ed_target : Text → Option ℕ
ed_target s =
    if same_text (codes "energy") s
    then some 0
    else if same_text (codes "noise") s
    then some 1
    else none

-- A threshold in dBm or on the linear scale.
unfoldable pub ed_scale : Text → Option ℕ
ed_scale s =
    if same_text (codes "dbm") s
    then some 0
    else if same_text (codes "linear") s
    then some 1
    else none

unfoldable pub ed_static : List Text → ℕ → Filled
unfolding ed_scale has_number
ed_static argv param = elim (ed_scale (word argv 3)) [
  | none ↦ refused
  | some linear ↦
      if has_number (word argv 4)
      then filled (
          (2, param ∷ [])
          ∷ (3, linear ∷ [])
          ∷ (0, le16 1 [])
          ∷ (4, le16 (u16 (atoi (word argv 4))) [])
          ∷ [])
      else refused
]

-- Only the mode `static` sets the octets behind the target.
unfoldable pub ed_mode : List Text → ℕ → Filled
unfolding ed_static
ed_mode argv param =
    if same_text (codes "automatic") (word argv 2)
    then filled ((2, param ∷ []) ∷ (0, le16 0 []) ∷ [])
    else if same_text (codes "ignore") (word argv 2)
    then filled ((2, param ∷ []) ∷ (0, le16 2 []) ∷ [])
    else if same_text (codes "jammer") (word argv 2)
    then filled ((2, param ∷ []) ∷ (0, le16 3 []) ∷ [])
    else if same_text (codes "static") (word argv 2) && length argv == 5
    then ed_static argv param
    else refused

unfoldable pub edconfig : Handler
unfolding ed_mode ed_target
edconfig = record {
  payload = 6;
  reply = 0;
  message_id = 0x8023;
  in_turn = false;
  early = usage_if_none;
  fill = λ getopt argv.
      if ltb (length argv) 3 || ltb 5 (length argv)
      then refused
      else elim (ed_target (word argv 1)) [ none ↦ refused | some param ↦ ed_mode argv param ];
}
