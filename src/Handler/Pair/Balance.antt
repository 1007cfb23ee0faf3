-- ===== src/Handler/Pair/Balance.antt =====
-- Such a handler gives back its two buffers.
use morsectrl_tools.Prelude.{ℕ, ◌+◌, ◌≡◌, refl, true, Option, none, some, ℤ, arith}
use morsectrl_tools.Machine.{World, M, ◌>>=◌, ret, Buff}
use morsectrl_tools.Machine.Room.{Holds}
use morsectrl_tools.Transport.{TransportOps, Transport, command_size, response_size}
use morsectrl_tools.Command.{send_command}
use morsectrl_tools.Handler.{Fields, assign}
use morsectrl_tools.Handler.Fits.{fits}
use morsectrl_tools.Handler.Balance.{Link, Balanced, assign-done, send_command-keeps}
use morsectrl_tools.Handler.Held.{RoomIn, buff_free-held, cmd_alloc-Gives, resp_alloc-Gives}
use morsectrl_tools.Handler.Pair.{with_two, two_buffers}

module _ {S : Type 0} where
  with_two-Balanced :
      (failed : ℤ) (body : Buff → Buff → M S ℤ) (n m : ℕ) (o1 o2 : Option Buff) (w : World S)
      → ((cmd resp : Buff) → Holds n cmd → Holds m resp → Balanced (body cmd resp) w)
      → RoomIn n o1
      → RoomIn m o2
      → Balanced (with_two failed body o1 o2) w
  unfolding with_two
  with_two-Balanced failed body n m none o2 w inside room1 room2 = (failed, w, refl, refl)
  with_two-Balanced failed body n m (some b1) none w inside room1 room2 = (failed, w, refl, refl)
  with_two-Balanced failed body n m (some b1) (some b2) w inside room1 room2 =
      inside b1 b2 room1 room2

module _ {S : Type 0} (t : Transport S) (tops : TransportOps S) (there : t.tops ≡ some tops)
    (link : Link tops) where
  -- Where the work with both buffers gives none away, nor does the whole.
  pub two_buffers-Balanced :
      (payload reply : ℕ) (failed : ℤ) (body : Buff → Buff → M S ℤ) (w : World S)
      → ((cmd resp : Buff) (w : World S)
          → Holds (command_size + payload) cmd
          → Holds (response_size + reply) resp
          → Balanced (body cmd resp) w)
      → Balanced (two_buffers t payload reply failed body) w
  unfolding two_buffers
  two_buffers-Balanced payload reply failed body w inside =
      let (o1, w1, got1, room1, more1) = cmd_alloc-Gives t tops there link payload w in
      let (o2, w2, got2, room2, more2) = resp_alloc-Gives t tops there link reply w1 in
      let (r, w3, run, same) =
        with_two-Balanced failed body (command_size + payload) (response_size + reply) o1 o2 w2
          (λ cmd resp. inside cmd resp w2) room1 room2 in
      let (r1, w4, free1, less1) = buff_free-held o1 w3 in
      let (r2, w5, free2, less2) = buff_free-held o2 w4 in
      rw got1 (
        rw got2 (
          rw run
            (rw free1 (rw free2 (r, w5, refl, omega (arith, more1, more2, same, less1, less2))))))

  -- Fields that fit, and one command.
  pub assign_send-Balanced :
      (payload message_id : ℕ) (fields : Fields) (cmd resp : Buff) (w : World S)
      → fits payload fields ≡ true
      → Holds (command_size + payload) cmd
      → Holds response_size resp
      → Balanced
          (do
            cmd' ← assign cmd fields
            answer ← send_command t message_id (some cmd') (some resp)
            ret answer.0)
          w
  assign_send-Balanced payload message_id fields cmd resp w fit room room' =
      let (cmd', assigned, (at, size)) = assign-done payload fields cmd w room fit in
      let (r, resp', w', sent, _, same) =
        send_command-keeps t tops there link message_id cmd' resp w (omega (arith, room, at, size))
          room' in
      rw (assigned, sent) (r, w', refl, same)
