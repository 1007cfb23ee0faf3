-- ===== src/Handler/Raw/Duration.antt =====
-- What `raw` writes fits into its command.
use morsectrl_tools.Prelude.{◌≡◌, refl, Bool, true, List}
use morsectrl_tools.Util.Text.{Text, expression_to_int}
use morsectrl_tools.Sdio.Registers.{to_le32}
use morsectrl_tools.Handler.{Fields, word}
use morsectrl_tools.Handler.Fits.{fits, fine, fits-++, fine_if, fine_option}
use morsectrl_tools.Handler.Raw.{window, window_fields, raw_window, raw_priority, raw_enabled}

raw_window-fine :
    (argv : List Text) (fields : Fields)
    → fits 18 fields ≡ true
    → fine 18 (raw_window argv fields) ≡ true
unfolding raw_window fine fits window_fields to_le32
raw_window-fine argv fields h =
    fine_option 18 (window argv) _ (λ w. fits-++ 18 fields (window_fields w) h refl)

raw_priority-fine : (argv : List Text) (enabled : Bool) → fine 18 (raw_priority argv enabled) ≡ true
unfolding raw_priority fine fits
raw_priority-fine argv enabled = let windowed = raw_window-fine argv in search (fine_if, windowed)

-- `raw` stays inside its command.
pub fine-raw_enabled : (argv : List Text) → fine 18 (raw_enabled argv) ≡ true
unfolding raw_enabled fine fits
fine-raw_enabled argv =
    let prioritised = raw_priority-fine argv in
    fine_option 18 (expression_to_int (word argv 1)) _ (λ b. search (fine_if, prioritised))
