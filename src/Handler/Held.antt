-- ===== src/Handler/Held.antt =====
-- Buffers that may have been had or not, counted alike.
use morsectrl_tools.Prelude.{ℕ, ◌+◌, ◌-◌, ◌≡◌, refl, inl, inr, Option, none, some, ℤ, arith}
use morsectrl_tools.Machine.{World, done, M, Buff}
use morsectrl_tools.Machine.Room.{Holds}
use morsectrl_tools.Transport.{
  TransportOps, Transport, cmd_alloc, resp_alloc, buff_free, command_size, response_size, etranserr,
  etranssucc,
}
use morsectrl_tools.Handler.Balance.{Link, cmd_alloc-done, resp_alloc-done}

abbrev pub held : Option Buff → ℕ
held none = 0
held (some b) = 1

-- Room for `n` octets, if there is a buffer.
abbrev pub RoomIn : ℕ → Option Buff → Type 0
RoomIn n none = Unit {0}
RoomIn n (some b) = Holds n b

module _ {S : Type 0} where
  -- An allocation, whether it succeeds or fails.
  abbrev pub Gives : M S (Option Buff) → ℕ → World S → Type 0
  Gives m n w =
      (o : Option Buff) × (w' : World S) × (m w ≡ done (o, w'))
      × RoomIn n o
      × (w'.live ≡ w.live + held o)

  -- The freeing of what was had, or of nothing.
  pub buff_free-held :
      (o : Option Buff) (w : World S)
      → (r : ℤ) × (w' : World S) × (buff_free o w ≡ done (r, w')) × (w'.live ≡ w.live - held o)
  unfolding buff_free
  buff_free-held none w = (etranserr, w, refl, omega arith)
  buff_free-held (some b) w = (etranssucc, _, refl, refl)

module _ {S : Type 0} (t : Transport S) (tops : TransportOps S) (there : t.tops ≡ some tops)
    (link : Link tops) where
  pub cmd_alloc-Gives : (n : ℕ) (w : World S) → Gives (cmd_alloc t n) (command_size + n) w
  cmd_alloc-Gives n w = elim (link.write_allocates (command_size + n) w) [
    | inl (b, w1, got, room, len, one) ↦
        (some b, w1, cmd_alloc-done t tops there link n w got, room, one)
    | inr (w1, got, same) ↦
        (none, w1, cmd_alloc-done t tops there link n w got, tt, omega (arith, same))
  ]

  pub resp_alloc-Gives : (n : ℕ) (w : World S) → Gives (resp_alloc t n) (response_size + n) w
  resp_alloc-Gives n w = elim (link.read_allocates (response_size + n) w) [
    | inl (b, w1, got, room, len, one) ↦
        (some b, w1, resp_alloc-done t tops there link n w got, room, one)
    | inr (w1, got, same) ↦
        (none, w1, resp_alloc-done t tops there link n w got, tt, omega (arith, same))
  ]
