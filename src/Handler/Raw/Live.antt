-- ===== src/Handler/Raw/Live.antt =====
-- The buffers that `raw` leaves allocated.
use morsectrl_tools.Prelude.{
  ℕ, ◌+◌, ◌<◌, ◌≡◌, refl, inl, inr, true, false, ◌||◌, ◌==◌, List, length, some, ℤ, pos, neg,
  if◌then◌else◌, Bool-cases, arith,
}
use morsectrl_tools.Util.Text.{Text}
use morsectrl_tools.Machine.{World, done}
use morsectrl_tools.Transport.{TransportOps, Transport, command_size, response_size}
use morsectrl_tools.Sdio.Command.Exchange.{Allocates}
use morsectrl_tools.Handler.{Getopt, transmit, with_both, second_alloc, run_handler}
use morsectrl_tools.Handler.Raw.{raw}
use morsectrl_tools.Handler.Raw.Duration.{fine-raw_enabled}
use morsectrl_tools.Handler.Balance.{
  Link, Balanced, cmd_alloc-done, resp_alloc-done, run_handler-Balanced,
}

module _ {S : Type 0} (t : Transport S) (tops : TransportOps S) (there : t.tops ≡ some tops)
    (link : Link tops) where
  -- With a number of arguments that it knows, nothing is left.
  pub raw-Balanced :
      (getopt : Getopt) (argv : List Text) (w : World S)
      → (length argv == 2 || length argv == 3 || length argv == 9) ≡ true
      → Balanced (run_handler getopt raw t argv) w
  unfolding raw
  raw-Balanced getopt argv w known =
      run_handler-Balanced t tops there link getopt raw argv w (rw known (fine-raw_enabled argv))

  raw-leaks :
      (getopt : Getopt) (argv : List Text) (w : World S)
      → (length argv == 0) ≡ false
      → (length argv == 2 || length argv == 3 || length argv == 9) ≡ false
      → ((n : ℕ) (w : World S) → 0 < n → Allocates tops.write_alloc n w)
      → ((n : ℕ) (w : World S) → 0 < n → Allocates tops.read_alloc n w)
      → (w' : World S) × (run_handler getopt raw t argv w ≡ done (neg 1, w'))
        × (w'.live ≡ w.live + 2)
  unfolding raw run_handler with_both second_alloc transmit
  raw-leaks getopt argv w some_words unknown writes reads =
      let (cmd, w1, got, room, len, one) = writes (command_size + 18) w (omega arith) in
      let (resp, w2, got', room', len', two) = reads (response_size + 0) w1 (omega arith) in
      rw
        (
          run_handler,
          some_words,
          unknown,
          cmd_alloc-done t tops there link 18 w got,
          resp_alloc-done t tops there link 0 w1 got',
        )
        (w2, refl, omega (arith, one, two))

  raw-usage :
      (getopt : Getopt) (argv : List Text) (w : World S)
      → (length argv == 0) ≡ true
      → Balanced (run_handler getopt raw t argv) w
  unfolding raw run_handler
  raw-usage getopt argv w none_given = rw (run_handler, none_given) (pos 0, w, refl, refl)

  -- On a transport whose sending returns, takes no buffer and leaves the response in its place and
  -- size, and where an allocation of one octet or more succeeds, `raw` returns with any arguments: with no word, two, three or nine it leaves as many buffers allocated as it found, and
  -- with any other number two more.
  pub raw-live :
      (getopt : Getopt) (argv : List Text) (w : World S)
      → ((n : ℕ) (w : World S) → 0 < n → Allocates tops.write_alloc n w)
      → ((n : ℕ) (w : World S) → 0 < n → Allocates tops.read_alloc n w)
      → (r : ℤ) × (w' : World S) × (run_handler getopt raw t argv w ≡ done (r, w'))
        × (w'.live
            ≡ w.live
              + (if length argv == 0 || (length argv == 2 || length argv == 3 || length argv == 9)
                  then 0
                  else 2))
  raw-live getopt argv w writes reads = elim (Bool-cases (length argv == 0)) [
    | inl none_given ↦
        let (r, w', run, same) = raw-usage getopt argv w none_given in
        (r, w', run, rw none_given (omega (arith, same)))
    | inr given ↦ elim (Bool-cases (length argv == 2 || length argv == 3 || length argv == 9)) [
      | inl known ↦
          let (r, w', run, same) = raw-Balanced getopt argv w known in
          (r, w', run, rw (given, known) (omega (arith, same)))
      | inr unknown ↦
          let (w', run, two) = raw-leaks getopt argv w given unknown writes reads in
          (neg 1, w', run, rw (given, unknown) two)
    ]
  ]
