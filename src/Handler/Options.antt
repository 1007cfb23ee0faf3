-- ===== src/Handler/Options.antt =====
-- The handlers of ecsa.c, opclass.c and otp.c, whose arguments are options.
use morsectrl_tools.Prelude.{
  ℕ, ◌*◌, Bool, false, ◌&&◌, ◌||◌, List, [], ◌∷◌, ◌++◌, length, drop, Option, none, some, ℤ, pos,
  ltb, ◌==◌, if◌then◌else◌, u8, u32,
}
use morsectrl_tools.Util.Text.{Text, codes}
use morsectrl_tools.Util.Numbers.{atoi, str_to_uint32, str_to_uint8_range}
use morsectrl_tools.Sdio.Registers.{to_le32}
use morsectrl_tools.Handler.{Fields, Handler, Filled, refused, filled, word, usage_if_none}
use morsectrl_tools.Handler.Value.{early_then, fail_if}

-- `while ((option = getopt(...)) != -1)`: the options in turn, up to the first that is refused.
unfoldable pub scan : {A : Type 0} → (A → ℕ → Text → Option A) → A → List (ℕ × Text) → Option A
scan step s [] = some s
scan step s ((option, optarg) ∷ opts) = elim (step s option optarg) [
  | none ↦ none
  | some s' ↦ scan step s' opts
]

-- The fields that the options give, if none is refused.
abbrev pub filled_if : Option Fields → Filled
filled_if none = refused
filled_if (some fields) = filled fields

-- More than the least number of arguments, and less than the largest.
abbrev pub usage_outside : ℕ → ℕ → List Text → Option ℤ
usage_outside lo hi argv =
    early_then (usage_if_none argv) (fail_if (ltb (length argv) lo || ltb hi (length argv)))

-- An octet at an offset, if a number of a range was given.
abbrev pub octet_at : Fields → ℕ → Bool × ℕ → Option Fields
octet_at fields offset (ok, n) = if ok then some (fields ++ (offset, n ∷ []) ∷ []) else none

pub record Ecsa : Type 0 where
  pub freq_khz : ℕ
  pub primary_channel_bandwidth : ℕ
  pub op_channel_bandwidth : ℕ
  pub global_operating_class : ℕ
  pub primary_chan_idx : ℕ
  pub prim_chan_op_class : ℕ

abbrev pub no_ecsa : Ecsa
no_ecsa = record {
  freq_khz = 0;
  primary_channel_bandwidth = 255;
  op_channel_bandwidth = 255;
  global_operating_class = 255;
  primary_chan_idx = 255;
  prim_chan_op_class = 255;
}

unfoldable pub ecsa_option : Ecsa → ℕ → Text → Option Ecsa
ecsa_option e option optarg =
    if option == b'g'
    then some (record e { global_operating_class = u8 (atoi optarg) })
    else if option == b'p'
    then some (record e { primary_channel_bandwidth = u8 (atoi optarg) })
    else if option == b'n'
    then some (record e { primary_chan_idx = u8 (atoi optarg) })
    else if option == b'o'
    then some (record e { op_channel_bandwidth = u8 (atoi optarg) })
    else if option == b'c'
    then some (record e { freq_khz = atoi optarg })
    else if option == b'l'
    then some (record e { prim_chan_op_class = u8 (atoi optarg) })
    else none

unfoldable pub ecsa_fields : Ecsa → Filled
ecsa_fields e =
    if ltb e.freq_khz 750000 || ltb 950000 e.freq_khz
    then refused
    else if e.primary_channel_bandwidth == 255
        || e.global_operating_class == 255
        || e.prim_chan_op_class == 255
        || e.op_channel_bandwidth == 255
        || e.primary_chan_idx == 255
    then refused
    else filled (
        (5, e.primary_channel_bandwidth ∷ [])
        ∷ (4, e.global_operating_class ∷ [])
        ∷ (6, e.primary_chan_idx ∷ [])
        ∷ (0, to_le32 (u32 (e.freq_khz * 1000)))
        ∷ (7, e.op_channel_bandwidth ∷ [])
        ∷ (8, e.prim_chan_op_class ∷ [])
        ∷ [])

unfoldable pub ecsa_info : Handler
unfolding ecsa_fields
ecsa_info = record {
  payload = 9;
  reply = 0;
  message_id = 0xA012;
  in_turn = false;
  early = λ argv. if length argv == 13 then none else some (pos 0);
  fill = λ getopt argv. elim (scan ecsa_option no_ecsa (getopt argv (codes "g:p:n:o:c:l:"))) [
    | none ↦ refused
    | some e ↦ ecsa_fields e
  ];
}

unfoldable pub opclass_option : Fields → ℕ → Text → Option Fields
opclass_option fields option optarg =
    if option == b'l' then octet_at fields 1 (str_to_uint8_range optarg 64 77) else none

-- Without `-l` the second octet is left as it was allocated.
unfoldable pub opclass : Handler
opclass = record {
  payload = 2;
  reply = 0;
  message_id = 0xA007;
  in_turn = false;
  early = usage_outside 2 5;
  fill = λ getopt argv. filled_if (
      scan opclass_option ((0, u8 (atoi (word argv 1)) ∷ []) ∷ [])
        (getopt (drop 1 argv) (codes "l:")));
}

unfoldable pub otp_option : Fields → ℕ → Text → Option Fields
otp_option fields option optarg =
    let bank_val = str_to_uint32 optarg in
    if option == b'w' && bank_val.0
    then some (fields ++ (0, 1 ∷ []) ∷ (2, to_le32 bank_val.1) ∷ [])
    else none

-- A read of a bank.
abbrev pub no_otp : ℕ → Fields
no_otp bank_num = (0, 0 ∷ []) ∷ (1, u8 bank_num ∷ []) ∷ []

unfoldable pub otp : Handler
otp = record {
  payload = 6;
  reply = 4;
  message_id = 0x8014;
  in_turn = false;
  early = usage_if_none;
  fill = λ getopt argv.
      let bank_num = str_to_uint32 (word argv 1) in
      if (length argv == 2 || length argv == 4) && bank_num.0
      then filled_if (scan otp_option (no_otp bank_num.1) (getopt (drop 1 argv) (codes "w:")))
      else refused;
}
