-- ===== src/Handler/Channel/Balance.antt =====
-- The four buffers of `channel`.
use morsectrl_tools.Prelude.{
  ◌+◌, ◌≡◌, refl, ◌∙◌, inl, inr, true, ◌||◌, some, ℤ, neg, is_neg, ltb, Bool-cases, arith,
}
use morsectrl_tools.Machine.{World, M, ret, Buff}
use morsectrl_tools.Machine.Room.{Holds}
use morsectrl_tools.Transport.{TransportOps, Transport, command_size, response_size}
use morsectrl_tools.Sdio.Registers.{to_le32}
use morsectrl_tools.Handler.Fits.{fits}
use morsectrl_tools.Handler.Balance.{Link, Balanced, assign-done, send_command-keeps}
use morsectrl_tools.Handler.Channel.{
  ChannelOptions, set_channel_fields, unless_failed, get_others, get_channels, set_and_get,
}

fits-set : (o : ChannelOptions) → fits 9 (set_channel_fields o) ≡ true
unfolding fits set_channel_fields to_le32
fits-set o = refl

module _ {S : Type 0} where
  unless_failed-Balanced :
      (r : ℤ) (next : M S ℤ) (w : World S) → Balanced next w → Balanced (unless_failed r next) w
  unfolding unless_failed
  unless_failed-Balanced r next w (a, w', run, same) = elim (Bool-cases (is_neg r)) [
    | inl bad ↦ rw bad (r, w, refl, refl)
    | inr good ↦ rw good (a, w', run, same)
  ]

module _ {S : Type 0} (t : Transport S) (tops : TransportOps S) (there : t.tops ≡ some tops)
    (link : Link tops) where
  get_others-Balanced :
      (cmd resp : Buff) (w : World S)
      → Holds command_size cmd
      → Holds response_size resp
      → Balanced (get_others t cmd (some resp)) w
  unfolding get_others
  get_others-Balanced cmd resp w room room' =
      let (r, resp1, w1, dtim, (at, size), same) =
        send_command-keeps t tops there link 0x001C cmd resp w room room' in
      let (r2, resp2, w2, current, _, same2) =
        send_command-keeps t tops there link 0x001D cmd resp1 w1 room
          (omega (arith, room', at, size)) in
      let (a, w', run, same') = unless_failed-Balanced r _ w1 (r2, w2, rw current refl, same2) in
      rw dtim (a, w', run, same' ∙ same)

  get_channels-Balanced :
      (o : ChannelOptions) (cmd resp : Buff) (w : World S)
      → Holds command_size cmd
      → Holds response_size resp
      → Balanced (get_channels t o cmd resp) w
  unfolding get_channels
  get_channels-Balanced o cmd resp w room room' =
      let (r, resp1, w1, full, (at, size), same) =
        send_command-keeps t tops there link 0x0013 cmd resp w room room' in
      let (a2, w2, others, same2) =
        get_others-Balanced cmd resp1 w1 room (omega (arith, room', at, size)) in
      elim (Bool-cases o.get_all_channels) [
        | inl all ↦
            let (a, w', run, same') = unless_failed-Balanced r _ w1 (a2, w2, others, same2) in
            rw (full, all) (a, w', run, same' ∙ same)
        | inr one ↦
            let (a, w', run, same') = unless_failed-Balanced r (ret r) w1 (r, w1, refl, refl) in
            rw (full, one) (a, w', run, same' ∙ same)
      ]

  pub set_and_get-Balanced :
      (o : ChannelOptions) (cmd_set resp_set cmd_get resp_get : Buff) (w : World S)
      → Holds (command_size + 9) cmd_set
      → Holds response_size resp_set
      → Holds command_size cmd_get
      → Holds response_size resp_get
      → Balanced (set_and_get t o cmd_set resp_set cmd_get resp_get) w
  unfolding set_and_get
  set_and_get-Balanced o cmd_set resp_set cmd_get resp_get w room1 room2 room3 room4 =
      elim (Bool-cases o.set_freq) [
        | inr only_get ↦ rw only_get (get_channels-Balanced o cmd_get resp_get w room3 room4)
        | inl set_it ↦ elim (Bool-cases (ltb o.freq_khz 750000 || ltb 950000 o.freq_khz)) [
          | inl outside ↦ rw (set_it, outside) (neg 1, w, refl, refl)
          | inr inside ↦
              let (cmd', assigned, (at, size)) =
                assign-done 9 (set_channel_fields o) cmd_set w room1 (fits-set o) in
              let (r, resp', w1, sent, _, same) =
                send_command-keeps t tops there link 0x0001 cmd' resp_set w
                  (omega (arith, room1, at, size)) room2 in
              let (a, w', run, same') =
                unless_failed-Balanced r (get_channels t o cmd_get resp_get) w1
                  (get_channels-Balanced o cmd_get resp_get w1 room3 room4) in
              rw (set_it, inside, assigned, sent) (a, w', run, same' ∙ same)
        ]
      ]
