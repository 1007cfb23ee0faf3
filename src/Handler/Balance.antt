-- ===== src/Handler/Balance.antt =====
-- A handler gives back the two buffers that it takes, on every path, and stays inside them.
use morsectrl_tools.Prelude.{
  ℕ, ◌+◌, ◌≤◌, ◌≡◌, refl, ◌∙◌, inl, inr, ◌⊎◌, true, List, [], ◌∷◌, length, Option, none, some, ℤ,
  is_neg, leb, Bool-cases, Option-cases, arith,
}
use morsectrl_tools.Util.Text.{Text}
use morsectrl_tools.Machine.{World, Outcome, done, M, Buff, length-overwrite, store, load}
use morsectrl_tools.Transport.{
  TransportOps, Transport, cmd_alloc, resp_alloc, send, buff_free, command_size, response_size,
}
use morsectrl_tools.Command.{command_hdr, send_header, send_command}
use morsectrl_tools.Machine.Room.{Holds}
use morsectrl_tools.Sdio.Command.Exchange.{Allocates}
use morsectrl_tools.Handler.{
  Fields, Getopt, Handler, Filled, refused, abandoned, filled, assign, transmit, with_both,
  second_alloc, run_handler,
}
use morsectrl_tools.Handler.Fits.{fits, fine}
use morsectrl_tools.Handler.Fits.Commands.{fine-fill}
use morsectrl_tools.Handler.Table.{SimpleCommand, handler_of}

-- A block of the same place and size.
abbrev pub SameBlock : Buff → Buff → Type 0
SameBlock b' b = (b'.data_at ≡ b.data_at) × (length b'.memblock ≡ length b.memblock)

module _ {S : Type 0} where
  -- An allocation that succeeds or fails.
  abbrev pub MayAllocate : (ℕ → M S (Option Buff)) → ℕ → World S → Type 0
  MayAllocate alloc n w =
      Allocates alloc n w ⊎ ((w' : World S) × (alloc n w ≡ done (none, w')) × (w'.live ≡ w.live))

  -- What a handler asks of a transport: buffers of the size asked for, or none, and a sending that
  -- returns, good or bad, takes no buffer for good and leaves the response's block its place and size.
  -- nl80211's sending is of this kind; ftdi_spi's is not, as its register accesses leak a buffer each.
  pub record Link (tops : TransportOps S) : Type 0 where
    pub write_allocates : (n : ℕ) (w : World S) → MayAllocate tops.write_alloc n w
    pub read_allocates : (n : ℕ) (w : World S) → MayAllocate tops.read_alloc n w
    pub sends :
        (cmd resp : Buff) (w : World S)
        → (r : ℤ) × (resp' : Buff) × (w' : World S) × (tops.send cmd resp w ≡ done ((r, resp'), w'))
          × SameBlock resp' resp
          × (w'.live ≡ w.live)

  -- A step that returns, with as many buffers as before.
  abbrev pub Balanced : {A : Type 0} → M S A → World S → Type 0
  Balanced {A} m w = (a : A) × (w' : World S) × (m w ≡ done (a, w')) × (w'.live ≡ w.live)

  pub store-done :
      (b : Buff) (i : ℕ) (octets : List ℕ) (w : World S)
      → Holds (i + length octets) b
      → (b' : Buff) × (store b i octets w ≡ done (b', w)) × SameBlock b' b
  unfolding store
  store-done b i octets w room =
      let inside : leb (b.data_at + i + length octets) (length b.memblock) ≡ true = ground arith in
      rw inside (_, refl, (refl, length-overwrite (b.data_at + i) octets b.memblock))

  pub assign-done :
      (payload : ℕ) (fields : Fields) (b : Buff) (w : World S)
      → Holds (command_size + payload) b
      → fits payload fields ≡ true
      → (b' : Buff) × (assign b fields w ≡ done (b', w)) × SameBlock b' b
  unfolding assign fits
  assign-done payload [] b w room h = (b, refl, (refl, refl))
  assign-done payload ((offset, octets) ∷ fields) b w room h =
      let inside : offset + length octets ≤ payload = ground arith in
      let rest : fits payload fields ≡ true = ground arith in
      let (b', stored, (at, size)) =
        store-done b (command_size + offset) octets w (omega (arith, room, inside)) in
      let (b'', assigned, (at', size')) =
        assign-done payload fields b' w (omega (arith, room, at, size)) rest in
      rw (stored, assigned) (b'', refl, (at' ∙ at, size' ∙ size))

  module _ (t : Transport S) (tops : TransportOps S) (there : t.tops ≡ some tops)
      (link : Link tops) where
    -- The sending of a command returns, and the response is where it was.
    pub send_command-keeps :
        (message_id : ℕ) (cmd resp : Buff) (w : World S)
        → Holds command_size cmd
        → Holds response_size resp
        → (r : ℤ) × (resp' : Buff) × (w' : World S) × (send_command t message_id
              (some cmd)
              (some resp)
              w
            ≡ done ((r, some resp'), w'))
          × SameBlock resp' resp
          × (w'.live ≡ w.live)
    unfolding send_command send_header send load command_hdr
    send_command-keeps message_id cmd resp w room room' =
        let (cmd', stored, (at, size)) =
          store-done cmd 0 (command_hdr message_id cmd.data_len) w (omega (arith, room)) in
        let (r, resp', w', sent, (at', size'), same) = link.sends cmd' resp w in
        elim (Bool-cases (is_neg r)) [
          | inl bad ↦ rw (stored, there, sent, bad) (_, _, w', refl, (at', size'), same)
          | inr good ↦
              let inside : leb (resp'.data_at + 12 + 4) (length resp'.memblock) ≡ true =
                ground arith in
              rw (stored, there, sent, good, inside) (_, _, w', refl, (at', size'), same)
        ]

    pub send_command-done :
        (message_id : ℕ) (cmd resp : Buff) (w : World S)
        → Holds command_size cmd
        → Holds response_size resp
        → Balanced (send_command t message_id (some cmd) (some resp)) w
    send_command-done message_id cmd resp w room room' =
        let (r, resp', w', sent, kept, same) =
          send_command-keeps message_id cmd resp w room room' in
        ((r, some resp'), w', sent, same)

    transmit-done :
        (h : Handler) (what : Filled) (cmd resp : Buff) (w : World S)
        → Holds (command_size + h.payload) cmd
        → Holds response_size resp
        → fine h.payload what ≡ true
        → (r : ℤ) × (w' : World S) × (transmit h t what cmd resp w ≡ done ((r, true), w'))
          × (w'.live ≡ w.live)
    unfolding transmit fine
    transmit-done h refused cmd resp w room room' ok = (_, w, refl, refl)
    transmit-done h abandoned cmd resp w room room' ok = absurd (cc ok)
    transmit-done h (filled fields) cmd resp w room room' ok =
        let (cmd', assigned, (at, size)) = assign-done h.payload fields cmd w room ok in
        let (answer, w', sent, same) =
          send_command-done h.message_id cmd' resp w (omega (arith, room, at, size)) room' in
        rw (assigned, sent) (_, w', refl, same)

    pub cmd_alloc-done :
        (n : ℕ) (w : World S) {o : Outcome (Option Buff × World S)}
        → tops.write_alloc (command_size + n) w ≡ o
        → cmd_alloc t n w ≡ o
    unfolding cmd_alloc
    cmd_alloc-done n w e = rw there e

    pub resp_alloc-done :
        (n : ℕ) (w : World S) {o : Outcome (Option Buff × World S)}
        → tops.read_alloc (response_size + n) w ≡ o
        → resp_alloc t n w ≡ o
    unfolding resp_alloc
    resp_alloc-done n w e = rw there e

    -- For any handler of the common form whose arguments, at this call, are refused with the buffers
    -- freed or give fields that fit: whether each buffer could be had or not and whatever the transport
    -- and the firmware answered, it returns, with as many buffers allocated as before.
    pub run_handler-Balanced :
        (getopt : Getopt) (h : Handler) (argv : List Text) (w : World S)
        → fine h.payload (h.fill getopt argv) ≡ true
        → Balanced (run_handler getopt h t argv) w
    unfolding run_handler with_both second_alloc buff_free
    run_handler-Balanced getopt h argv w ok =
        let n = command_size + h.payload in
        let m = response_size + h.reply in
        elim (Option-cases (h.early argv)) [
          | inr (r, early) ↦ rw (run_handler, early) (r, w, refl, refl)
          | inl late ↦ elim (link.write_allocates n w) [
            | inl (cmd, w1, got, room, len, one) ↦ elim (link.read_allocates m w1) [
              | inl (resp, w2, got', room', len', two) ↦
                  let (r, w3, run, same) =
                    transmit-done h (h.fill getopt argv) cmd resp w2 room (omega (arith, room'))
                      ok in
                  rw
                    (
                      run_handler,
                      late,
                      cmd_alloc-done h.payload w got,
                      resp_alloc-done h.reply w1 got',
                      run,
                    )
                    (r, _, refl, omega (arith, one, two, same))
              | inr (w2, got', same) ↦
                  rw
                    (
                      run_handler,
                      late,
                      cmd_alloc-done h.payload w got,
                      resp_alloc-done h.reply w1 got',
                    )
                    (_, _, refl, omega (arith, one, same))
            ]
            | inr (w1, got, same) ↦ elim (Bool-cases h.in_turn) [
              | inl turn ↦
                  rw (run_handler, late, cmd_alloc-done h.payload w got, turn) (_, w1, refl, same)
              | inr both ↦ elim (link.read_allocates m w1) [
                | inl (resp, w2, got', room', len', one) ↦
                    rw
                      (
                        run_handler,
                        late,
                        cmd_alloc-done h.payload w got,
                        both,
                        resp_alloc-done h.reply w1 got',
                      )
                      (_, _, refl, omega (arith, one, same))
                | inr (w2, got', same') ↦
                    rw
                      (
                        run_handler,
                        late,
                        cmd_alloc-done h.payload w got,
                        both,
                        resp_alloc-done h.reply w1 got',
                      )
                      (_, w2, refl, same' ∙ same)
              ]
            ]
          ]
        ]

    -- On a transport whose allocations succeed or fail, and whose sending returns, takes no buffer and
    -- leaves the response in its place and size, every command of the table that has the common form,
    -- with any arguments, returns without a read or write outside its buffers, printing aside, and
    -- leaves as many buffers allocated as it found.
    pub handler_of-Balanced :
        (getopt : Getopt) (c : SimpleCommand) (argv : List Text) (w : World S)
        → Balanced (run_handler getopt (handler_of c) t argv) w
    handler_of-Balanced getopt c argv w =
        run_handler-Balanced getopt (handler_of c) argv w (fine-fill c getopt argv)
