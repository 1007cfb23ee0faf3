-- ===== src/Handler/Choice.antt =====
-- The handlers that take options behind an expression for on or off.
use morsectrl_tools.Prelude.{
  ℕ, true, false, ◌&&◌, ◌||◌, [], ◌∷◌, ◌++◌, length, drop, replicate, Option, none, some, ltb, ◌==◌,
  if◌then◌else◌, u8,
}
use morsectrl_tools.Util.Text.{Text, codes, expression_to_int}
use morsectrl_tools.Util.Numbers.{atoi}
use morsectrl_tools.Sdio.Registers.{to_le32}
use morsectrl_tools.Handler.{Fields, Handler, refused, filled, word, usage_if_alone}
use morsectrl_tools.Handler.Value.{fail_if}
use morsectrl_tools.Handler.Options.{scan, filled_if}

unfoldable pub rate_option : Fields → ℕ → Text → Option Fields
rate_option fields option optarg =
    if option == b'm'
    then some (fields ++ (0, to_le32 (atoi optarg)) ∷ [])
    else if option == b'b'
    then some (fields ++ (4, to_le32 (atoi optarg)) ∷ [])
    else if option == b'f'
    then some (fields ++ (8, to_le32 (atoi optarg)) ∷ [])
    else if option == b't'
    then some (fields ++ (12, u8 (atoi optarg) ∷ []) ∷ [])
    else if option == b's'
    then some (fields ++ (13, u8 (atoi optarg) ∷ []) ∷ [])
    else none

-- All parameters as -1, and disabled.
abbrev no_rate : Fields
no_rate =
    (0, replicate 4 255)
    ∷ (4, replicate 4 255)
    ∷ (8, replicate 4 255)
    ∷ (12, 255 ∷ [])
    ∷ (13, 255 ∷ [])
    ∷ (14, 0 ∷ [])
    ∷ []

unfoldable pub transmissionrate : Handler
transmissionrate = record {
  payload = 15;
  reply = 0;
  message_id = 0x8009;
  in_turn = false;
  early = usage_if_alone;
  fill = λ getopt argv. elim (expression_to_int (word argv 1)) [
    | none ↦ refused
    | some false ↦ filled (no_rate ++ (14, 0 ∷ []) ∷ [])
    | some true ↦ filled_if (
        scan rate_option (no_rate ++ (14, 1 ∷ []) ∷ []) (getopt (drop 1 argv) (codes "m:b:f:t:s:")))
  ];
}

unfoldable pub ndp_option : Fields → ℕ → Text → Option Fields
ndp_option fields option optarg =
    let n = u8 (atoi optarg) in
    if option == b'r' && (n == 0 || n == 1)
    then some (fields ++ (1, n ∷ []) ∷ [])
    else if option == b'b' && (n == 255 || n == 1 || n == 2)
    then some (fields ++ (2, n ∷ []) ∷ [])
    else none

abbrev no_ndp : Fields
no_ndp = (0, 0 ∷ []) ∷ (2, 255 ∷ []) ∷ (1, 0 ∷ []) ∷ []

unfoldable pub ndpprobes : Handler
ndpprobes = record {
  payload = 3;
  reply = 0;
  message_id = 0x800C;
  in_turn = false;
  early = λ argv. fail_if (ltb (length argv) 2);
  fill = λ getopt argv. elim (expression_to_int (word argv 1)) [
    | none ↦ refused
    | some false ↦ filled (no_ndp ++ (0, 0 ∷ []) ∷ [])
    | some true ↦
        filled_if
          (scan ndp_option (no_ndp ++ (0, 1 ∷ []) ∷ []) (getopt (drop 1 argv) (codes "r:b:")))
  ];
}
