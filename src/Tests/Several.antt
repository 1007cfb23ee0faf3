-- ===== src/Tests/Several.antt =====
-- Handlers that send more than one command, on the small transport that answers every command.
use morsectrl_tools.Prelude.{ℕ, ◌+◌, refl, ltb, List, [], ◌∷◌}
use morsectrl_tools.Util.Text.{Text, codes}
use morsectrl_tools.Util.Numbers.{atoi}
use morsectrl_tools.Handler.{Getopt}
use morsectrl_tools.Handler.Balance.{Balanced}
use morsectrl_tools.Handler.Pair.{bw, ocs}
use morsectrl_tools.Handler.Pair.Duty.{Floats, duty_cycle}
use morsectrl_tools.Handler.Pair.Commands.{pair-Balanced}
use morsectrl_tools.Tests.Host.{start, toy, generous, wired}
use morsectrl_tools.Tests.Handlers.{toy-Link}

-- Hundredths of a per cent for a floating-point number.
abbrev whole_floats : Floats ℕ
whole_floats = record {
  strtof = λ s. atoi s;
  below = ltb;
  duty_cycle_min = 1;
  duty_cycle_max = 100;
  hundredths = λ n. n + n;
}

abbrev enable_words : List Text
enable_words = codes "duty_cycle" ∷ codes "enable" ∷ codes "20" ∷ codes "-o" ∷ []

abbrev omit : Getopt
omit argv letters = (b'o', []) ∷ []

pair-Balanced_example :
    Balanced (bw wired enable_words) start
    × Balanced (ocs omit wired enable_words) start
    × Balanced (duty_cycle whole_floats omit wired enable_words) start
pair-Balanced_example =
    pair-Balanced wired (toy generous) refl toy-Link whole_floats omit enable_words start

abbrev channel_words : List Text
channel_words = codes "channel" ∷ codes "-c" ∷ codes "915000" ∷ codes "-a" ∷ []

abbrev full_and_set : Getopt
full_and_set argv letters = (b'c', codes "915000") ∷ (b'a', []) ∷ []

abbrev unknown : Getopt
unknown argv letters = (b'?', []) ∷ []
