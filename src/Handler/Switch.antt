-- ===== src/Handler/Switch.antt =====
-- The handlers whose argument is an expression for on or off.
use morsectrl_tools.Prelude.{
  ℕ, Bool, true, false, List, [], ◌∷◌, length, replicate, Option, none, some, ℤ, neg, ltb, ◌==◌,
  if◌then◌else◌,
}
use morsectrl_tools.Util.Text.{Text, expression_to_int}
use morsectrl_tools.Handler.{
  Handler, Filled, refused, filled, word, usage_if_none, usage_unless, usage_if_alone,
}

-- `uint8_t` of a truth value.
abbrev pub bit : Bool → ℕ
bit b = if b then 1 else 0

-- An expression as a `uint8_t`: -1 is 255.
abbrev pub expression_octet : Text → ℕ
expression_octet s = elim (expression_to_int s) [ none ↦ 255 | some b ↦ bit b ]

-- After the test of the number of arguments, -1 for what is no expression.
abbrev pub unless_expression : (List Text → Option ℤ) → List Text → Option ℤ
unless_expression test argv = elim (test argv) [
  | some r ↦ some r
  | none ↦ elim (expression_to_int (word argv 1)) [ none ↦ some (neg 1) | some b ↦ none ]
]

-- One octet for the expression.
abbrev pub one_bit : List Text → Filled
one_bit argv = elim (expression_to_int (word argv 1)) [
  | none ↦ refused
  | some b ↦ filled ((0, bit b ∷ []) ∷ [])
]

unfoldable pub ampdu : Handler
ampdu = record {
  payload = 1;
  reply = 0;
  message_id = 0xA004;
  in_turn = false;
  early = usage_if_alone;
  fill = λ getopt argv. elim (expression_to_int (word argv 1)) [
    | none ↦ refused
    | some b ↦ filled ((0, 0 ∷ []) ∷ (0, bit b ∷ []) ∷ [])
  ];
}

unfoldable pub cac : Handler
cac = record {
  payload = 1;
  reply = 0;
  message_id = 0xA014;
  in_turn = true;
  early = usage_if_none;
  fill = λ getopt argv. if length argv == 2 then one_bit argv else refused;
}

unfoldable pub dtim_channel_change : Handler
dtim_channel_change = record {
  payload = 1;
  reply = 0;
  message_id = 0x001B;
  in_turn = false;
  early = unless_expression (usage_unless 2);
  fill = λ getopt argv. one_bit argv;
}

unfoldable pub cts_self_ps : Handler
cts_self_ps = record {
  payload = 1;
  reply = 0;
  message_id = 0x001A;
  in_turn = false;
  early = unless_expression (usage_unless 2);
  fill = λ getopt argv. one_bit argv;
}

unfoldable pub long_sleep : Handler
long_sleep = record {
  payload = 1;
  reply = 0;
  message_id = 0x0021;
  in_turn = false;
  early = unless_expression usage_if_alone;
  fill = λ getopt argv. one_bit argv;
}

-- The expression is compared with -1 as a `uint8_t`, which it never is.
unfoldable pub phy_deaf : Handler
phy_deaf = record {
  payload = 1;
  reply = 0;
  message_id = 0x8019;
  in_turn = false;
  early = usage_unless 2;
  fill = λ getopt argv. filled ((0, expression_octet (word argv 1) ∷ []) ∷ []);
}

-- So here.
unfoldable pub tdc_pg_disable : Handler
tdc_pg_disable = record {
  payload = 1;
  reply = 0;
  message_id = 0x8017;
  in_turn = false;
  early = usage_unless 2;
  fill = λ getopt argv. filled ((0, expression_octet (word argv 1) ∷ []) ∷ []);
}

-- Here the `uint8_t` is refused above 1.
unfoldable pub physm_watchdog : Handler
physm_watchdog = record {
  payload = 1;
  reply = 0;
  message_id = 0x100D;
  in_turn = false;
  early = λ argv. elim (usage_unless 2 argv) [
    | some r ↦ some r
    | none ↦ if ltb 1 (expression_octet (word argv 1)) then some (neg 1) else none
  ];
  fill = λ getopt argv. filled ((0, expression_octet (word argv 1) ∷ []) ∷ []);
}

unfoldable pub turbo : Handler
turbo = record {
  payload = 7;
  reply = 0;
  message_id = 0x0018;
  in_turn = false;
  early = unless_expression usage_if_alone;
  fill = λ getopt argv. elim (expression_to_int (word argv 1)) [
    | none ↦ refused
    | some b ↦ filled ((0, replicate 4 0) ∷ (4, replicate 2 0) ∷ (6, bit b ∷ []) ∷ [])
  ];
}

unfoldable pub sig_field_error_evt : Handler
sig_field_error_evt = record {
  payload = 1;
  reply = 0;
  message_id = 0x8011;
  in_turn = false;
  early = unless_expression usage_if_alone;
  fill = λ getopt argv. one_bit argv;
}
