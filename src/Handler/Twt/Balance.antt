-- ===== src/Handler/Twt/Balance.antt =====
-- `twt` gives back the buffers that it takes, on every path, and stays inside its command.
use morsectrl_tools.Prelude.{◌+◌, ◌≡◌, refl, inl, inr, true, List, some, Option-cases, arith}
use morsectrl_tools.Util.Text.{Text}
use morsectrl_tools.Machine.{World, Buff}
use morsectrl_tools.Transport.{TransportOps, Transport, buff_free, command_size, response_size}
use morsectrl_tools.Sdio.Registers.{to_le32}
use morsectrl_tools.Machine.Room.{Holds}
use morsectrl_tools.Handler.{Getopt, Filled, refused, abandoned, filled, word}
use morsectrl_tools.Handler.Fits.{fits, fine}
use morsectrl_tools.Handler.Balance.{
  Link, Balanced, assign-done, send_command-done, cmd_alloc-done, resp_alloc-done,
}
use morsectrl_tools.Handler.Twt.{
  Subcommand, configure, force_install_agreement, remove_agreement, configure_explicit, Agreement,
  twt_fields, twt_scan, twt_get_cmd, twt_early, twt_fill, twt_transmit, twt_with, twt_after, twt,
  subcommand_code, interval_fields, target_fields,
}

fits-twt_fields : (c : Subcommand) (a : Agreement) → fits 26 (twt_fields c a) ≡ true
unfolding twt_fields fits to_le32 subcommand_code interval_fields target_fields
fits-twt_fields configure a = refl
fits-twt_fields force_install_agreement a = refl
fits-twt_fields remove_agreement a = refl
fits-twt_fields configure_explicit a = refl

fine-twt_fill : (getopt : Getopt) (argv : List Text) → fine 26 (twt_fill getopt argv) ≡ true
unfolding fine twt_fill
fine-twt_fill getopt argv = elim (Option-cases (twt_get_cmd (word argv 1))) [
  | inl e ↦ rw (twt_fill, e) refl
  | inr (c, e) ↦ elim (Option-cases (twt_scan getopt c argv)) [
    | inl e' ↦ rw (twt_fill, e, e') refl
    | inr (a, e') ↦ rw (twt_fill, e, e') (fits-twt_fields c a)
  ]
]

module _ {S : Type 0} (t : Transport S) (tops : TransportOps S) (there : t.tops ≡ some tops)
    (link : Link tops) where
  twt_transmit-done :
      (what : Filled) (cmd resp : Buff) (w : World S)
      → Holds (command_size + 26) cmd
      → Holds response_size resp
      → fine 26 what ≡ true
      → Balanced (twt_transmit t what cmd resp) w
  unfolding twt_transmit fine
  twt_transmit-done refused cmd resp w room room' ok = (_, w, refl, refl)
  twt_transmit-done abandoned cmd resp w room room' ok = (_, w, refl, refl)
  twt_transmit-done (filled fields) cmd resp w room room' ok =
      let (cmd', assigned, (at, size)) = assign-done 26 fields cmd w room ok in
      let (answer, w', sent, same) =
        send_command-done t tops there link 0xA010 cmd' resp w (omega (arith, room, at, size))
          room' in
      rw (assigned, sent) (_, w', refl, same)

  -- On a transport whose allocations succeed or fail, and whose sending returns, takes no buffer and
  -- leaves the response in its place and size, `twt`, with any arguments, returns without a write
  -- outside its command and leaves as many buffers allocated as it found.
  pub twt-Balanced :
      (getopt : Getopt) (argv : List Text) (w : World S) → Balanced (twt getopt t argv) w
  unfolding twt twt_after twt_with buff_free
  twt-Balanced getopt argv w = elim (Option-cases (twt_early argv)) [
    | inr (r, early) ↦ rw (twt, early) (r, w, refl, refl)
    | inl late ↦ elim (link.read_allocates response_size w) [
      | inr (w1, got, same) ↦
          rw (twt, late, resp_alloc-done t tops there link 0 w got) (_, w1, refl, same)
      | inl (resp, w1, got, room, len, one) ↦ elim (link.write_allocates (command_size + 26) w1) [
        | inr (w2, got', same) ↦
            rw
              (
                twt,
                late,
                resp_alloc-done t tops there link 0 w got,
                cmd_alloc-done t tops there link 26 w1 got',
              )
              (_, _, refl, omega (arith, one, same))
        | inl (cmd, w2, got', room', len', two) ↦
            let (r, w3, run, same) =
              twt_transmit-done (twt_fill getopt argv) cmd resp w2 room' room
                (fine-twt_fill getopt argv) in
            rw
              (
                twt,
                late,
                resp_alloc-done t tops there link 0 w got,
                cmd_alloc-done t tops there link 26 w1 got',
                run,
              )
              (r, _, refl, omega (arith, one, two, same))
      ]
    ]
  ]
