-- ===== src/Handler/Radio.antt =====
-- The handlers of the radio's parameters: antennas, front end, responses and a carrier.
use morsectrl_tools.Prelude.{
  ℕ, Bool, true, false, not, ◌&&◌, ◌||◌, List, [], ◌∷◌, ◌++◌, length, none, some, neg, ltb, ◌==◌,
  if◌then◌else◌, u8, u16,
}
use morsectrl_tools.Util.Text.{Text, codes, expression_to_int, check_string_is_int, same_text}
use morsectrl_tools.Util.Numbers.{atoi, str_to_uint8_range}
use morsectrl_tools.Transport.{starts_with}
use morsectrl_tools.Command.{le16}
use morsectrl_tools.Sdio.Registers.{to_le32}
use morsectrl_tools.Handler.{Fields, Handler, refused, filled, word, usage_if_none, usage_unless}
use morsectrl_tools.Handler.Value.{early_then, fail_if, one_octet}

unfoldable pub antenna : Handler
antenna = record {
  payload = 8;
  reply = 0;
  message_id = 0x8015;
  in_turn = false;
  early = λ argv.
      let tx_antenna = atoi (word argv 1) in
      let rx_antenna = atoi (word argv 2) in
      early_then (usage_unless 3 argv) (
        early_then (fail_if (ltb tx_antenna 1 || ltb 2 tx_antenna))
          (fail_if (ltb rx_antenna 1 || ltb 2 rx_antenna)));
  fill = λ getopt argv.
      filled ((0, to_le32 (atoi (word argv 1))) ∷ (4, to_le32 (atoi (word argv 2))) ∷ []);
}

unfoldable pub fem : Handler
fem = record {
  payload = 16;
  reply = 0;
  message_id = 0x1005;
  in_turn = false;
  early = usage_unless 5;
  fill = λ getopt argv.
      let tx_antenna = atoi (word argv 1) in
      let rx_antenna = atoi (word argv 2) in
      let lna_enabled = atoi (word argv 3) in
      let pa_enabled = atoi (word argv 4) in
      if ltb 2 tx_antenna || ltb 2 rx_antenna || ltb 1 lna_enabled || ltb 1 pa_enabled
      then refused
      else filled (
          (0, to_le32 tx_antenna)
          ∷ (4, to_le32 rx_antenna)
          ∷ (8, to_le32 lna_enabled)
          ∷ (12, to_le32 pa_enabled)
          ∷ []);
}

abbrev is_bandwidth : ℕ → Bool
is_bandwidth n = n == 0 || n == 1 || n == 2 || n == 4 || n == 8 || n == 16

unfoldable pub cr : Handler
cr = record {
  payload = 2;
  reply = 0;
  message_id = 0x1009;
  in_turn = false;
  early = usage_unless 3;
  fill = λ getopt argv.
      let direction = str_to_uint8_range (word argv 1) 0 1 in
      let bw_mhz = str_to_uint8_range (word argv 2) 0 16 in
      if direction.0 && bw_mhz.0 && is_bandwidth bw_mhz.1
      then filled ((1, bw_mhz.1 ∷ []) ∷ (0, direction.1 ∷ []) ∷ [])
      else refused;
}

unfoldable pub keepalive : Handler
keepalive = record {
  payload = 3;
  reply = 0;
  message_id = 0x0033;
  in_turn = false;
  early = λ argv.
      early_then (usage_if_none argv) (fail_if (ltb (length argv) 2 || ltb 3 (length argv)));
  fill = λ getopt argv.
      let period : Fields = (2, 0 ∷ []) ∷ (0, le16 (u16 (atoi (word argv 1))) []) ∷ [] in
      let is_marked = length argv == 3 in
      if not (check_string_is_int (word argv 1))
        || (is_marked && not (same_text (word argv 2) (codes "-a")))
      then refused
      else filled (if is_marked then period ++ ((2, 1 ∷ []) ∷ []) else period);
}

-- `ri` is an `int8_t`: above 127 it is negative, and off is -1.
unfoldable pub ri : Handler
ri = record {
  payload = 1;
  reply = 0;
  message_id = 0x8007;
  in_turn = false;
  early = λ argv. early_then (usage_if_none argv) (fail_if (ltb (length argv) 2));
  fill = λ getopt argv. elim (expression_to_int (word argv 1)) [
    | none ↦ refused
    | some false ↦ one_octet 255
    | some true ↦
        let ri = u8 (atoi (word argv 2)) in
        if not (length argv == 3) || ltb 3 ri then refused else one_octet ri
  ];
}

-- `start` with a frequency and a power.
abbrev starting : List Text → Bool
starting argv =
    starts_with (codes "start") (word argv 1)
    && check_string_is_int (word argv 2)
    && check_string_is_int (word argv 3)

unfoldable pub transmit_cw : Handler
transmit_cw = record {
  payload = 12;
  reply = 0;
  message_id = 0x8020;
  in_turn = false;
  early = λ argv. early_then (usage_if_none argv) (
      if length argv == 2
      then fail_if (not (starts_with (codes "stop") (word argv 1)))
      else if length argv == 4
      then fail_if (not (starting argv))
      else some (neg 1));
  fill = λ getopt argv.
      let on = length argv == 4 in
      filled (
        (0, to_le32 (if on then 1 else 0))
        ∷ (4, to_le32 (if on then atoi (word argv 2) else 0))
        ∷ (8, to_le32 (if on then atoi (word argv 3) else 0))
        ∷ []);
}
