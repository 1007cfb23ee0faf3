-- ===== src/Handler/Channel/Freed.antt =====
-- What `channel` does with its four buffers.
use morsectrl_tools.Prelude.{◌≡◌, Bool, true, false, not, ◌&&◌, List, length, some, ℤ, ltb, ◌==◌}
use morsectrl_tools.Util.Text.{Text, codes}
use morsectrl_tools.Machine.{World, done, M}
use morsectrl_tools.Transport.{TransportOps, Transport}
use morsectrl_tools.Handler.{Getopt}
use morsectrl_tools.Handler.Balance.{Link}
use morsectrl_tools.Handler.Channel.{ChannelOptions, no_options, Scanned, left, channel_options}

-- The options hold one that makes the handler return past the freeing.
abbrev is_left : Scanned ChannelOptions → Bool
is_left left = true
is_left _ = false

abbrev pub options_leave : Getopt → List Text → Bool
options_leave getopt argv = is_left (channel_options no_options (getopt argv (codes "c:o:p:n:ajr")))

-- One to twelve words, with such an option.
abbrev pub leaves : Getopt → List Text → Bool
leaves getopt argv =
    not (length argv == 0) && (not (ltb 12 (length argv)) && options_leave getopt argv)

module _ {S : Type 0} (t : Transport S) (tops : TransportOps S) (there : t.tops ≡ some tops)
    (link : Link tops) (getopt : Getopt) (argv : List Text) where
  -- A code, with the word that the buffers are to be freed.
  abbrev Freeing : M S (ℤ × Bool) → World S → Type 0
  Freeing m w = (r : ℤ) × (w' : World S) × (m w ≡ done ((r, true), w')) × (w'.live ≡ w.live)
