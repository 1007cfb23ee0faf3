-- ===== src/Sdio/Command/Exchange.antt =====
-- The exchange of a command gives back the two buffers that it takes, on every path.
use morsectrl_tools.Prelude.{
  ℕ, ◌+◌, ◌<◌, ◌≡◌, refl, ◌∙◌, inl, inr, ◌⊎◌, Bool, true, List, length, Option, none, some, ℤ,
  is_nonzero, leb, Bool-cases, arith,
}
use morsectrl_tools.Machine.{World, done, M, Buff, load, through}
use morsectrl_tools.Machine.Room.{Holds, SameBuff, store-SameBuff}
use morsectrl_tools.Transport.{TransportOps, buff_free, etranserr}
use morsectrl_tools.Sdio.Frame.{hdr_len, hdr_extra_len}
use morsectrl_tools.Sdio.Command.{exchange, exchange_with, response_code, alloc_cmd}

module _ {S : Type 0} where
  -- An allocation that succeeds: one buffer more, with the room asked for, and that length.
  abbrev pub Allocates : (ℕ → M S (Option Buff)) → ℕ → World S → Type 0
  Allocates alloc n w =
      (b : Buff) × (w' : World S) × (alloc n w ≡ done (some b, w'))
      × Holds n b
      × (b.data_len ≡ n)
      × (w'.live ≡ w.live + 1)

  -- What the exchange asks of a bus: a buffer to write from, a buffer to read into or none, where
  -- any octets are asked for, and,
  -- for buffers as long as they say, a transfer, good or bad, that takes no buffer and leaves the
  -- one that is read into its place and size.
  pub record Bus (tops : TransportOps S) : Type 0 where
    pub write_allocates : (n : ℕ) (w : World S) → 0 < n → Allocates tops.write_alloc n w
    pub read_allocates :
        (n : ℕ) (w : World S)
        → 0 < n
        → Allocates tops.read_alloc n w
          ⊎ ((w' : World S) × (tops.read_alloc n w ≡ done (none, w')) × (w'.live ≡ w.live))
    pub transfer : Buff → Buff → Bool → Bool → M S (ℤ × Buff)
    pub raw_read_write-transfer : tops.raw_read_write ≡ some transfer
    pub transfers :
        (read write : Buff) (start finish : Bool) (w : World S)
        → Holds read.data_len read
        → Holds write.data_len write
        → (r : ℤ) × (read' : Buff) × (w' : World S) × (transfer read write start finish w
            ≡ done ((r, read'), w'))
          × SameBuff read' read
          × (w'.live ≡ w.live)

  response_code-done :
      (tops : TransportOps S) (r : ℤ) (resp : Buff) (w : World S)
      → Holds (hdr_len + hdr_extra_len) resp
      → (r' : ℤ) × (response_code tops r resp w ≡ done (r', w))
  unfolding response_code load
  response_code-done tops r resp w room = elim (Bool-cases (is_nonzero r)) [
    | inl bad ↦ rw bad (r, refl)
    | inr good ↦
        let inside : leb (resp.data_at + hdr_len + hdr_extra_len) (length resp.memblock) ≡ true =
          ground arith in
        rw (good, inside) (_, refl)
  ]

  module _ (tops : TransportOps S) (bus : Bus tops) where
    exchange_with-done :
        (cmd resp : Buff) (frame : List ℕ) (w : World S)
        → Holds (length frame) cmd
        → Holds cmd.data_len cmd
        → Holds resp.data_len resp
        → Holds (hdr_len + hdr_extra_len) resp
        → (r : ℤ) × (w' : World S) × (exchange_with tops cmd resp frame w ≡ done (r, w'))
          × (w'.live ≡ w.live)
    unfolding exchange_with through
    exchange_with-done cmd resp frame w room whole whole' room' =
        let (cmd', stored, (at, len, size)) = store-SameBuff cmd 0 frame w (omega (arith, room)) in
        let there = bus.raw_read_write-transfer in
        let (r, read', w', moved, (at', len', size'), same) =
          bus.transfers resp cmd' true true w whole' (omega (arith, at, len, size, whole)) in
        let (r', answered) =
          response_code-done tops r read' w' (omega (arith, at', size', room')) in
        rw (stored, there, moved, answered) (r', w', refl, same)

    -- The command of an exchange.
    abbrev pub IsShort : ℕ → Type 0
    IsShort cmd = ((cmd ≡ 0) ⊎ (cmd ≡ 63)) ⊎ (cmd ≡ 52)

    alloc_cmd-short :
        (cmd : ℕ) (w : World S)
        → IsShort cmd
        → alloc_cmd tops cmd w ≡ tops.write_alloc (hdr_len + hdr_extra_len) w
    unfolding alloc_cmd
    alloc_cmd-short cmd w (inl (inl e)) = rw e refl
    alloc_cmd-short cmd w (inl (inr e)) = rw e refl
    alloc_cmd-short cmd w (inr e) = rw e refl

    -- On such a bus the exchange of command 0, 63 or 52 returns, whether the response buffer could be
    -- had or not and whatever the transfer and the response were, and it leaves as many buffers
    -- allocated as it found.
    pub exchange-balanced :
        (cmd : ℕ) (frame : List ℕ) (w : World S)
        → IsShort cmd
        → length frame ≡ hdr_len + hdr_extra_len
        → (r : ℤ) × (w' : World S) × (exchange tops cmd frame w ≡ done (r, w')) × (w'.live ≡ w.live)
    unfolding exchange buff_free through
    exchange-balanced cmd frame w short size =
        let (b, w1, alloc, room, len, more) =
          bus.write_allocates (hdr_len + hdr_extra_len) w (omega arith) in
        let asked = alloc_cmd-short cmd w short ∙ alloc in
        elim (bus.read_allocates b.data_len w1 (omega (arith, len))) [
          | inr (w2, refused, same) ↦
              rw (asked, refused) (etranserr, _, refl, omega (arith, more, same))
          | inl (b', w2, alloc', room', len', more') ↦
              let (r, w3, exchanged, same) =
                exchange_with-done b b' frame w2 (omega (arith, room, size))
                  (omega (arith, room, len)) (omega (arith, room', len'))
                  (omega (arith, room', len)) in
              rw (asked, alloc', exchanged) (r, _, refl, omega (arith, more, more', same))
        ]
