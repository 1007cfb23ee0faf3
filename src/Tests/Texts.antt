-- ===== src/Tests/Texts.antt =====
-- The string helpers, the number parsers and the configuration file at concrete inputs.
use morsectrl_tools.Prelude.{
  ℕ, ◌<◌, ◌≡◌, ◌⊎◌, refl, true, List, [], ◌∷◌, ◌++◌, none, some, ℤ, pos, neg, length, ◌==◌,
  if◌then◌else◌, arith,
}
use morsectrl_tools.Machine.{done}
use morsectrl_tools.Util.Text.{Text, codes, hexstr2bin, strip}
use morsectrl_tools.Util.Text.Hex.{to_hex, hexstr2bin-to_hex}
use morsectrl_tools.Util.Text.Strip.{Blank, StartsTight, EndsTight, strip-split}
use morsectrl_tools.Config.{
  CfgBuff, Options, append_cfg, config_file_parse, max_cfg_length, remove_trailing_ws,
}
use morsectrl_tools.Config.Append.{append_cfg-fits}
use morsectrl_tools.Config.Precedence.{Keeps, config_file_parse-Keeps}

abbrev octets : List ℕ
octets = 0xDE ∷ 0x0A ∷ []

hexstr2bin-to_hex_example :
    hexstr2bin (to_hex octets ++ codes "zz") (length octets) ≡ (true, octets)
hexstr2bin-to_hex_example = hexstr2bin-to_hex octets (codes "zz") (omega arith, (omega arith, tt))

abbrev padded : Text
padded = codes "  on\n"

strip-split_example :
    (pre : Text) × (post : Text) × Blank pre
    × Blank post
    × (padded ≡ pre ++ (strip padded ++ post))
    × StartsTight (strip padded)
    × EndsTight (strip padded)
strip-split_example = strip-split padded

abbrev block : CfgBuff
block = record { text = codes "a=1"; capacity = 255 }

append_cfg-fits_example :
    (r : ℤ) × (b' : CfgBuff) × (append_cfg (codes "b=2\n") block ≡ done (r, some b'))
    × (b'.capacity ≡ max_cfg_length)
    × (length b'.text < max_cfg_length)
    × (((r ≡ neg 1) × (b'.text ≡ block.text))
        ⊎ ((r ≡ pos 0)
            × (b'.text ≡ (
                if length block.text == 0
                then remove_trailing_ws (codes "b=2\n")
                else block.text ++ (b',' ∷ remove_trailing_ws (codes "b=2\n"))))))
append_cfg-fits_example = append_cfg-fits (codes "b=2\n") block refl (omega arith)

abbrev given : Options
given = record { trans = some (codes "nl80211"); iface = none; cfg = none }

abbrev file : Text
file = codes "transport=ftdi_spi\ninterface = wlan1\n"

config_file_parse-Keeps_example :
    Keeps given (config_file_parse (λ n. true) (0 ∷ []) (some file) given)
config_file_parse-Keeps_example = config_file_parse-Keeps (λ n. true) (0 ∷ []) (some file) given
