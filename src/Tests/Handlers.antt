-- ===== src/Tests/Handlers.antt =====
-- Handlers on a small transport that answers every command.
use morsectrl_tools.Prelude.{
  ℕ, zero, suc, take, drop, ◌+◌, ◌≡◌, refl, inl, List, [], ◌∷◌, length-replicate, some, ℤ, pos,
  arith,
}
use morsectrl_tools.Util.Text.{Text, codes}
use morsectrl_tools.Machine.{done, fault, M, ◌>>=◌, Buff}
use morsectrl_tools.Transport.{command_size, set_cmd_data_length}
use morsectrl_tools.Command.{send_command}
use morsectrl_tools.Command.Header.{fields}
use morsectrl_tools.Sdio.Command.Exchange.{Allocates}
use morsectrl_tools.Handler.{Getopt, run_handler}
use morsectrl_tools.Handler.Table.{handler_of, run_mbca}
use morsectrl_tools.Handler.Balance.{Link, Balanced, handler_of-Balanced}
use morsectrl_tools.Handler.Raw.{raw}
use morsectrl_tools.Handler.Raw.Live.{raw-live}
use morsectrl_tools.Handler.Sends.{status, code_of, send_command-sends}
use morsectrl_tools.Handler.Twt.{twt}
use morsectrl_tools.Handler.Twt.Balance.{twt-Balanced}
use morsectrl_tools.Tests.Host.{Toy, start, zeros, toy, generous, wired}

pub generous-Allocates : (n : ℕ) (w : Toy) → Allocates generous n w
generous-Allocates n w = (
  zeros n,
  record w { live = w.live + 1 },
  refl,
  omega (arith, length-replicate {A = ℕ} n 0),
  refl,
  refl,
)

pub toy-Link : Link (toy generous)
toy-Link = record {
  write_allocates = λ n w. inl (generous-Allocates n w);
  read_allocates = λ n w. inl (generous-Allocates n w);
  sends = λ cmd resp w. (pos 0, resp, w, refl, (refl, refl), refl);
}

-- The options of `mbca -m 1 -s 2048 -r 1 -g 5 -i 30`.
abbrev mbca_options : Getopt
mbca_options argv letters =
    (b'm', codes "1")
    ∷ (b's', codes "2048")
    ∷ (b'r', codes "1")
    ∷ (b'g', codes "5")
    ∷ (b'i', codes "30")
    ∷ []

abbrev words : ℕ → List Text
words zero = []
words (suc n) = codes "1" ∷ words n

handler_of-Balanced_example :
    Balanced (run_handler mbca_options (handler_of run_mbca) wired (words 11)) start
handler_of-Balanced_example =
    handler_of-Balanced wired (toy generous) refl toy-Link mbca_options run_mbca (words 11) start

-- A window from 0, of 10000 µs in four slots.
abbrev raw_words : List Text
raw_words =
    codes "raw"
    ∷ codes "enable"
    ∷ codes "1"
    ∷ codes "0"
    ∷ codes "10000"
    ∷ codes "4"
    ∷ codes "disable"
    ∷ codes "0"
    ∷ codes "0"
    ∷ []

abbrev no_options : Getopt
no_options argv letters = []

raw-live_example :
    (r : ℤ) × (w' : Toy) × (run_handler no_options raw wired (words 4) start ≡ done (r, w'))
    × (w'.live ≡ 2)
raw-live_example =
    raw-live wired (toy generous) refl toy-Link no_options (words 4) start
      (λ n w some_octets. generous-Allocates n w) (λ n w some_octets. generous-Allocates n w)

send_command-sends_example :
    (cmd' : Buff) × (fields (take command_size (drop cmd'.data_at cmd'.memblock))
      ≡ 1 ∷ 0xA005 ∷ 18 ∷ 0 ∷ 0 ∷ 0 ∷ [])
    × (cmd'.data_at ≡ 0)
    × (cmd'.data_len ≡ 30)
    × (take 0 cmd'.memblock ≡ [])
    × (drop 12 cmd'.memblock ≡ drop 12 (zeros 30).memblock)
    × ((send_command wired 0xA005 (some (set_cmd_data_length (zeros 30) 18)) (some (zeros 16))
            >>= code_of)
          start
        ≡ ((toy generous).send cmd' (zeros 16) >>= status) start)
send_command-sends_example =
    send_command-sends wired (toy generous) 0xA005 18 (zeros 30) (zeros 16) start refl (omega arith)
      (omega arith) (omega arith)

-- A transport that cannot send.
abbrev deaf : Buff → Buff → M ℕ (ℤ × Buff)
deaf cmd resp w = fault

-- The first antenna is out of range.
abbrev fem_words : List Text
fem_words = codes "fem" ∷ codes "3" ∷ codes "0" ∷ codes "0" ∷ codes "0" ∷ []

-- `twt explicit -m 100 -e 10`
abbrev twt_options : Getopt
twt_options argv letters = (b'm', codes "100") ∷ (b'e', codes "10") ∷ []

abbrev twt_words : List Text
twt_words = codes "twt" ∷ codes "explicit" ∷ codes "-m" ∷ codes "100" ∷ codes "-e" ∷ codes "10" ∷ []

twt-Balanced_example : Balanced (twt twt_options wired twt_words) start
twt-Balanced_example = twt-Balanced wired (toy generous) refl toy-Link twt_options twt_words start
