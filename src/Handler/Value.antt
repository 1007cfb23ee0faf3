-- ===== src/Handler/Value.antt =====
-- The handlers whose arguments are numbers at fixed places.
use morsectrl_tools.Prelude.{
  ℕ, bit_and, bit_or, Bool, false, not, ◌&&◌, ◌||◌, [], ◌∷◌, length, Option, none, some, ℤ, neg,
  ltb, ◌==◌, if◌then◌else◌, u8, ◌<<<◌,
}
use morsectrl_tools.Util.Text.{codes, check_string_is_int, same_text}
use morsectrl_tools.Util.Numbers.{atoi, str_to_uint32_range}
use morsectrl_tools.Command.{le16}
use morsectrl_tools.Sdio.Registers.{to_le32}
use morsectrl_tools.Handler.{
  Handler, Filled, refused, filled, word, usage_if_none, usage_unless, usage_if_alone,
}

-- After a first test, a second.
abbrev pub early_then : Option ℤ → Option ℤ → Option ℤ
early_then (some r) next = some r
early_then none next = next

abbrev pub fail_if : Bool → Option ℤ
fail_if b = if b then some (neg 1) else none

abbrev pub one_octet : ℕ → Filled
one_octet n = filled ((0, u8 n ∷ []) ∷ [])

abbrev one_word : ℕ → Filled
one_word n = filled ((0, to_le32 n) ∷ [])

unfoldable pub encmode : Handler
encmode = record {
  payload = 1;
  reply = 0;
  message_id = 0xA001;
  in_turn = false;
  early = usage_unless 2;
  fill = λ getopt argv. one_octet (atoi (word argv 1));
}

unfoldable pub statype : Handler
statype = record {
  payload = 1;
  reply = 0;
  message_id = 0xA000;
  in_turn = false;
  early = usage_unless 2;
  fill = λ getopt argv. one_octet (atoi (word argv 1));
}

unfoldable pub maxampdulen : Handler
maxampdulen = record {
  payload = 4;
  reply = 0;
  message_id = 0x8016;
  in_turn = false;
  early = usage_if_alone;
  fill = λ getopt argv. one_word (atoi (word argv 1));
}

unfoldable pub ifs : Handler
ifs = record {
  payload = 4;
  reply = 0;
  message_id = 0x1003;
  in_turn = false;
  early = usage_unless 2;
  fill =
      λ getopt argv. let ifs = atoi (word argv 1) in if ltb ifs 160 then refused else one_word ifs;
}

-- The mask has 15 bits, and the scale is shifted by 14.
unfoldable pub li : Handler
li = record {
  payload = 2;
  reply = 0;
  message_id = 0xA003;
  in_turn = false;
  early = usage_unless 3;
  fill = λ getopt argv.
      let unscaled_interval = atoi (word argv 1) in
      let scale_idx = u8 (atoi (word argv 2)) in
      if ltb 0x7FFF unscaled_interval
      then refused
      else filled
          ((0, le16 (bit_or (bit_and unscaled_interval 0x7FFF) (scale_idx <<< 14)) []) ∷ []);
}

-- The response is allocated with `sizeof(0)`.
unfoldable pub bsscolor : Handler
bsscolor = record {
  payload = 1;
  reply = 4;
  message_id = 0x0015;
  in_turn = false;
  early = usage_if_none;
  fill = λ getopt argv.
      let color = str_to_uint32_range (word argv 1) 0 7 in
      if length argv == 2 && color.0 then one_octet color.1 else refused;
}

unfoldable pub mcs : Handler
mcs = record {
  payload = 4;
  reply = 0;
  message_id = 0x1000;
  in_turn = false;
  early = usage_unless 2;
  fill = λ getopt argv.
      let mcs = atoi (word argv 1) in
      if same_text (word argv 1) (codes "auto")
      then one_word 0x7FFFFFFF
      else if ltb 10 mcs
      then refused
      else one_word mcs;
}

unfoldable pub txop : Handler
txop = record {
  payload = 1;
  reply = 0;
  message_id = 0x1008;
  in_turn = false;
  early = usage_unless 2;
  fill = λ getopt argv.
      let txop = atoi (word argv 1) in if ltb 10 txop then refused else one_octet txop;
}

unfoldable pub lnabypass : Handler
lnabypass = record {
  payload = 1;
  reply = 0;
  message_id = 0x800F;
  in_turn = false;
  early = λ argv. early_then (usage_unless 2 argv) (fail_if (ltb 1 (u8 (atoi (word argv 1)))));
  fill = λ getopt argv. one_octet (atoi (word argv 1));
}

-- `auto` is `UINT8_MAX`.
unfoldable pub set_agc_gaincode : Handler
set_agc_gaincode = record {
  payload = 4;
  reply = 0;
  message_id = 0x811A;
  in_turn = false;
  early = λ argv. early_then (usage_unless 2 argv) (
      fail_if (
        not (same_text (word argv 1) (codes "auto"))
        && not (str_to_uint32_range (word argv 1) 0 20).0));
  fill = λ getopt argv.
      if same_text (word argv 1) (codes "auto")
      then one_word 255
      else one_word (str_to_uint32_range (word argv 1) 0 20).1;
}

unfoldable pub tx_pkt_lifetime_us : Handler
tx_pkt_lifetime_us = record {
  payload = 4;
  reply = 0;
  message_id = 0x100C;
  in_turn = false;
  early = usage_unless 2;
  fill = λ getopt argv.
      let lifetime_us = atoi (word argv 1) in
      if not (check_string_is_int (word argv 1)) || ltb lifetime_us 50000 || ltb 500000 lifetime_us
      then refused
      else one_word lifetime_us;
}

-- The value is tested as the `uint8_t` that it was cut to.
unfoldable pub bcn_rssi_threshold : Handler
bcn_rssi_threshold = record {
  payload = 1;
  reply = 0;
  message_id = 0x100B;
  in_turn = false;
  early = usage_unless 2;
  fill = λ getopt argv.
      let threshold_db = u8 (atoi (word argv 1)) in
      if not (check_string_is_int (word argv 1)) || ltb 100 threshold_db
      then refused
      else one_octet threshold_db;
}
