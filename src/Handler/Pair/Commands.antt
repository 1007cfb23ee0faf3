-- ===== src/Handler/Pair/Commands.antt =====
-- bw.c, ocs.c and duty_cycle.c on a transport that may fail.
use morsectrl_tools.Prelude.{
  ℕ, ◌+◌, ◌≡◌, refl, ◌∙◌, inl, inr, Bool, true, false, ◌||◌, List, [], ◌∷◌, length, drop, Option,
  none, some, ℤ, pos, neg, is_neg, ltb, ◌==◌, Bool-cases, Option-cases, u8, u16, arith,
}
use morsectrl_tools.Util.Text.{Text, codes}
use morsectrl_tools.Util.Numbers.{atoi}
use morsectrl_tools.Machine.{World, Buff}
use morsectrl_tools.Machine.Room.{Holds, load-length}
use morsectrl_tools.Transport.{TransportOps, Transport, command_size, response_size}
use morsectrl_tools.Sdio.Registers.{to_le32}
use morsectrl_tools.Handler.{Getopt, Fields, word}
use morsectrl_tools.Handler.Fits.{fits}
use morsectrl_tools.Handler.Options.{scan}
use morsectrl_tools.Handler.Balance.{Link, Balanced, send_command-keeps}
use morsectrl_tools.Handler.Pair.{
  bw_set, bw_word, bw_body, bw, OcsSubcommand, ocs_config, ocs_status, no_config, OcsConfig,
  ocs_option, ocs_subcommand, ocs_config_fields, ocs_fields, ocs_body, ocs_with, ocs,
}
use morsectrl_tools.Handler.Pair.Balance.{two_buffers-Balanced, assign_send-Balanced}
use morsectrl_tools.Handler.Pair.Duty.{
  Floats, DutyCommand, duty_disable, duty_enable, duty_airtime, DutyCycle, with_duty, duty_fields,
  duty_message, duty_mode, get_duty_body, get_duty_cycle, set_duty_body, set_duty_cycle,
  duty_enabled, duty_after, duty_cycle, duty_cycle_parse_cmd,
}

fits-ocs : (o : OcsConfig) → fits 11 (ocs_config_fields o) ≡ true
unfolding fits ocs_config_fields to_le32
fits-ocs o = refl

fits-duty : (d : DutyCycle) → fits 11 (duty_fields d) ≡ true
unfolding fits duty_fields to_le32
fits-duty d = refl

abbrev Fit : Option Fields → Type 0
Fit none = Unit {0}
Fit (some fields) = fits 11 fields ≡ true

ocs_fields-Fit :
    (getopt : Getopt) (argv : List Text) (subcmd : OcsSubcommand)
    → Fit (ocs_fields getopt argv subcmd)
unfolding ocs_fields fits to_le32
ocs_fields-Fit getopt argv ocs_status = elim (Bool-cases (length argv == 2)) [
  | inl two ↦ rw two refl
  | inr other ↦ rw other tt
]
ocs_fields-Fit getopt argv ocs_config = elim (Bool-cases (length argv == 10)) [
  | inr other ↦ rw other tt
  | inl ten ↦
      elim (Option-cases (scan ocs_option no_config (getopt (drop 1 argv) (codes "c:o:p:n:")))) [
        | inl refused ↦ rw (ten, refused) tt
        | inr (o, read) ↦ rw (ten, read) (fits-ocs o)
      ]
]

module _ {S : Type 0} (t : Transport S) (tops : TransportOps S) (there : t.tops ≡ some tops)
    (link : Link tops) where
  bw_set-Balanced :
      (width : ℕ) (cmd resp : Buff) (w : World S)
      → Holds (command_size + 9) cmd
      → Holds (response_size + 7) resp
      → Balanced (bw_set t width cmd resp) w
  unfolding bw_set fits
  bw_set-Balanced width cmd resp w room room' =
      let (freq, loaded, four) = load-length resp 16 4 w (omega (arith, room')) in
      let fields : Fields =
        (0, freq) ∷ (4, u8 width ∷ []) ∷ (5, 0xFF ∷ []) ∷ (6, 0xFF ∷ []) ∷ (7, 0 ∷ []) ∷ [] in
      let fit : fits 9 fields ≡ true = rw four refl in
      let (r, w', run, same) =
        assign_send-Balanced t tops there link 9 0x0001 fields cmd resp w fit room
          (omega (arith, room')) in
      rw loaded (r, w', run, same)

  bw_word-Balanced :
      (argv : List Text) (r : ℤ) (cmd resp : Buff) (w : World S)
      → Holds (command_size + 9) cmd
      → Holds (response_size + 7) resp
      → Balanced (bw_word t argv r cmd (some resp)) w
  unfolding bw_word
  bw_word-Balanced argv r cmd resp w room room' =
      let width = u16 (atoi (word argv 1)) in
      elim (Bool-cases (length argv == 1)) [
        | inl alone ↦ rw alone (r, w, refl, refl)
        | inr more ↦ elim (Bool-cases (length argv == 2)) [
          | inr other ↦ rw (more, other) (neg 1, w, refl, refl)
          | inl two ↦
              elim (Bool-cases
                (width == 1 || width == 2 || width == 4 || width == 8 || width == 16)) [
                  | inl known ↦ rw (more, two, known) (bw_set-Balanced width cmd resp w room room')
                  | inr unknown ↦ rw (more, two, unknown) (neg 1, w, refl, refl)
                ]
        ]
      ]

  bw_body-Balanced :
      (argv : List Text) (cmd resp : Buff) (w : World S)
      → Holds (command_size + 9) cmd
      → Holds (response_size + 7) resp
      → Balanced (bw_body t argv cmd resp) w
  unfolding bw_body
  bw_body-Balanced argv cmd resp w room room' =
      let (r, resp', w1, sent, (at, size), same) =
        send_command-keeps t tops there link 0x0013 cmd resp w (omega (arith, room))
          (omega (arith, room')) in
      let (a, w2, run, same') =
        bw_word-Balanced argv r cmd resp' w1 room (omega (arith, room', at, size)) in
      elim (Bool-cases (is_neg r)) [
        | inl bad ↦ rw (sent, bad) (neg 1, w1, refl, same)
        | inr good ↦ rw (sent, good) (a, w2, run, same' ∙ same)
      ]

  pub bw-Balanced : (argv : List Text) (w : World S) → Balanced (bw t argv) w
  unfolding bw
  bw-Balanced argv w = elim (Bool-cases (length argv == 0)) [
    | inl no_words ↦ rw no_words (pos 0, w, refl, refl)
    | inr words ↦ rw words (
        two_buffers-Balanced t tops there link 9 7 (neg 1) (bw_body t argv) w
          (bw_body-Balanced argv))
  ]

  ocs_body-Balanced :
      (o : Option Fields) (cmd resp : Buff) (w : World S)
      → Fit o
      → Holds (command_size + 11) cmd
      → Holds (response_size + 5) resp
      → Balanced (ocs_body t o cmd resp) w
  unfolding ocs_body
  ocs_body-Balanced none cmd resp w fit room room' = (neg 22, w, refl, refl)
  ocs_body-Balanced (some fields) cmd resp w fit room room' =
      assign_send-Balanced t tops there link 11 0xA017 fields cmd resp w fit room
        (omega (arith, room'))

  ocs_with-Balanced :
      (getopt : Getopt) (argv : List Text) (o : Option OcsSubcommand) (w : World S)
      → Balanced (ocs_with getopt t argv o) w
  unfolding ocs_with
  ocs_with-Balanced getopt argv none w = (neg 22, w, refl, refl)
  ocs_with-Balanced getopt argv (some subcmd) w =
      let fields = ocs_fields getopt argv subcmd in
      two_buffers-Balanced t tops there link 11 5 (neg 12) (ocs_body t fields) w
        (λ cmd resp w1. ocs_body-Balanced fields cmd resp w1 (ocs_fields-Fit getopt argv subcmd))

  pub ocs-Balanced :
      (getopt : Getopt) (argv : List Text) (w : World S) → Balanced (ocs getopt t argv) w
  unfolding ocs
  ocs-Balanced getopt argv w = elim (Bool-cases (ltb (length argv) 2)) [
    | inl few ↦ rw few (neg 22, w, refl, refl)
    | inr enough ↦ rw enough (ocs_with-Balanced getopt argv (ocs_subcommand (word argv 1)) w)
  ]

  duty_mode-Balanced :
      (airtime_only : Bool) (r : ℤ) (resp : Buff) (w : World S)
      → Holds (response_size + 18) resp
      → Balanced (duty_mode airtime_only r (some resp)) w
  unfolding duty_mode
  duty_mode-Balanced false r resp w room = (r, w, refl, refl)
  duty_mode-Balanced true r resp w room =
      let (mode, loaded, _) = load-length resp 33 1 w (omega (arith, room)) in
      rw loaded (_, w, refl, refl)

  get_duty_body-Balanced :
      (airtime_only : Bool) (cmd resp : Buff) (w : World S)
      → Holds (command_size + 11) cmd
      → Holds (response_size + 18) resp
      → Balanced (get_duty_body t airtime_only cmd resp) w
  unfolding get_duty_body
  get_duty_body-Balanced airtime_only cmd resp w room room' =
      let (r, resp', w1, sent, (at, size), same) =
        send_command-keeps t tops there link 0x0023 cmd resp w (omega (arith, room))
          (omega (arith, room')) in
      let (a, w2, run, same') =
        duty_mode-Balanced airtime_only r resp' w1 (omega (arith, room', at, size)) in
      elim (Bool-cases (is_neg r)) [
        | inl bad ↦ rw (sent, bad) (r, w1, refl, same)
        | inr good ↦ rw (sent, good) (a, w2, run, same' ∙ same)
      ]

  get_duty_cycle-Balanced :
      (airtime_only : Bool) (w : World S) → Balanced (get_duty_cycle t airtime_only) w
  unfolding get_duty_cycle
  get_duty_cycle-Balanced airtime_only w =
      two_buffers-Balanced t tops there link 11 18 (neg 1) (get_duty_body t airtime_only) w
        (get_duty_body-Balanced airtime_only)

  set_duty_cycle-Balanced : (d : DutyCycle) (w : World S) → Balanced (set_duty_cycle t d) w
  unfolding set_duty_cycle set_duty_body
  set_duty_cycle-Balanced d w =
      two_buffers-Balanced t tops there link 11 0 (neg 1) (set_duty_body t d) w
        (λ cmd resp w1 room room'.
          assign_send-Balanced t tops there link 11 (duty_message t.type) (duty_fields d) cmd resp
            w1 (fits-duty d) room (omega (arith, room')))

  module _ {F : Type 0} (floats : Floats F) (getopt : Getopt) (argv : List Text) where
    duty_after-Balanced :
        (c : Option DutyCommand) (w : World S) → Balanced (duty_after floats getopt t argv c) w
    unfolding duty_after
    duty_after-Balanced none w = (neg 1, w, refl, refl)
    duty_after-Balanced (some duty_airtime) w = get_duty_cycle-Balanced true w
    duty_after-Balanced (some duty_disable) w = set_duty_cycle-Balanced (with_duty 10000 1) w
    duty_after-Balanced (some duty_enable) w =
        elim (Option-cases (duty_enabled floats getopt argv)) [
          | inl refused ↦ rw (duty_after, refused) (neg 1, w, refl, refl)
          | inr (d, enabled) ↦ rw (duty_after, enabled) (set_duty_cycle-Balanced d w)
        ]

    duty_cycle-Balanced : (w : World S) → Balanced (duty_cycle floats getopt t argv) w
    unfolding duty_cycle
    duty_cycle-Balanced w = elim (Bool-cases (length argv == 0)) [
      | inl no_words ↦ rw no_words (pos 0, w, refl, refl)
      | inr words ↦ elim (Bool-cases (length argv == 1)) [
        | inl alone ↦ rw (words, alone) (get_duty_cycle-Balanced false w)
        | inr more ↦ rw (words, more) (duty_after-Balanced (duty_cycle_parse_cmd (word argv 1)) w)
      ]
    ]

    -- On a transport whose allocations succeed or fail, and whose sending returns, takes no buffer and
    -- leaves the response in its place and size, `bw`, `ocs` and `duty_cycle`, with any arguments and
    -- any floating-point numbers, return without a read or write outside their buffers, printing
    -- aside, and leave as many buffers allocated as they found.
    pub pair-Balanced :
        (w : World S)
        → Balanced (bw t argv) w
          × Balanced (ocs getopt t argv) w
          × Balanced (duty_cycle floats getopt t argv) w
    pair-Balanced w = (bw-Balanced argv w, ocs-Balanced getopt argv w, duty_cycle-Balanced w)
