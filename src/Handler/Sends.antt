-- ===== src/Handler/Sends.antt =====
-- What a handler sends, and that it sends nothing where it refuses its arguments.
use morsectrl_tools.Prelude.{
  ℕ, ◌+◌, ◌%◌, ◌^◌, ◌<◌, ◌≡◌, refl, ◌∙◌, ap, true, List, [], ◌∷◌, length, take, drop, Option, some,
  ℤ, leb, inl, inr, Bool-cases, is_neg, if◌then◌else◌, arith,
}
use morsectrl_tools.Util.Text.{Text}
use morsectrl_tools.Machine.{
  World, M, ◌>>=◌, ret, Buff, overwrite, take-drop-overwrite, store, load, bind_cong, continue,
  continue_assoc,
}
use morsectrl_tools.Transport.{
  TransportOps, TransportType, Transport, send, command_size, set_cmd_data_length,
}
use morsectrl_tools.Command.{command_hdr, send_header, send_command, signed32}
use morsectrl_tools.Command.Header.{fields, fields-command_hdr}
use morsectrl_tools.Sdio.Registers.{from_le32}
use morsectrl_tools.Machine.Room.{Holds, take-overwrite-before, drop-overwrite-behind}
use morsectrl_tools.Handler.{Handler}

length-command_hdr : (message_id n : ℕ) → length (command_hdr message_id n) ≡ command_size
unfolding command_hdr
length-command_hdr message_id n = refl

header-fields :
    (message_id n : ℕ) (b : Buff)
    → message_id < 2 ^ 16
    → n < 2 ^ 16
    → Holds command_size b
    → (hdr : List ℕ) → hdr ≡ command_hdr message_id (set_cmd_data_length b n).data_len
    → fields (take command_size (drop b.data_at (overwrite (b.data_at + 0) hdr b.memblock)))
      ≡ 1 ∷ message_id ∷ n ∷ 0 ∷ 0 ∷ 0 ∷ []
unfolding command_hdr
header-fields message_id n b small fit room hdr e =
    let size : length hdr ≡ command_size = ap length e in
    let written = take-drop-overwrite (b.data_at + 0) hdr b.memblock (omega (arith, size, room)) in
    let at : b.data_at + 0 ≡ b.data_at = omega arith in
    let back : take command_size (drop b.data_at (overwrite b.data_at hdr b.memblock)) ≡ hdr =
      cc (written, size, at) in
    rw (at, back, e) (fields-command_hdr b message_id n small fit)

module _ {S : Type 0} where
  -- The code for an answer: the transport's if that is negative, the firmware's status otherwise.
  abbrev pub status : ℤ × Buff → M S ℤ
  status answer =
      if is_neg answer.0
      then ret answer.0
      else (do status ← load answer.1 12 4; ret (signed32 (from_le32 status)))

  -- The same, with the response.
  abbrev answered : ℤ × Buff → M S (ℤ × Option Buff)
  answered answer =
      if is_neg answer.0
      then ret (answer.0, some answer.1)
      else (do status ← load answer.1 12 4; ret (signed32 (from_le32 status), some answer.1))

  abbrev pub code_of : ℤ × Option Buff → M S ℤ
  code_of answer = ret answer.0

  status-eq :
      (answer : ℤ × Buff) (w : World S) → continue (answered answer w) code_of ≡ status answer w
  unfolding load
  status-eq answer w = elim (Bool-cases (is_neg answer.0)) [
    | inl bad ↦ rw bad refl
    | inr good ↦ elim (Bool-cases (leb (answer.1.data_at + 12 + 4) (length answer.1.memblock))) [
      | inl inside ↦ rw (good, inside) refl
      | inr outside ↦ rw (good, outside) refl
    ]
  ]

  send-tops :
      (t : Transport S) (tops : TransportOps S) (cmd resp : Buff) (w : World S)
      → t.tops ≡ some tops
      → send t cmd resp w ≡ tops.send cmd resp w
  unfolding send
  send-tops t tops cmd resp w there = rw there refl

  -- For a command's buffer whose length was set for `n` octets, `send_command` calls the transport
  -- once, with a buffer that begins with the message's number and `n` in the firmware's layout, has
  -- its place and its length, and holds the same octets before these twelve and behind them; and it
  -- returns the code of the answer.
  pub send_command-sends :
      (t : Transport S) (tops : TransportOps S) (message_id n : ℕ) (b resp : Buff) (w : World S)
      → t.tops ≡ some tops
      → message_id < 2 ^ 16
      → n < 2 ^ 16
      → Holds command_size b
      → (cmd' : Buff) × (fields (take command_size (drop cmd'.data_at cmd'.memblock))
          ≡ 1 ∷ message_id ∷ n ∷ 0 ∷ 0 ∷ 0 ∷ [])
        × (cmd'.data_at ≡ b.data_at)
        × (cmd'.data_len ≡ command_size + n)
        × (take b.data_at cmd'.memblock ≡ take b.data_at b.memblock)
        × (drop (b.data_at + command_size) cmd'.memblock
            ≡ drop (b.data_at + command_size) b.memblock)
        × ((send_command t message_id (some (set_cmd_data_length b n)) (some resp) >>= code_of) w
            ≡ (tops.send cmd' resp >>= status) w)
  unfolding send_command send_header store set_cmd_data_length
  send_command-sends t tops message_id n b resp w there small fits room =
      let hdr = command_hdr message_id (command_size + n % 2 ^ 16) in
      let size : length hdr ≡ command_size =
        length-command_hdr message_id (command_size + n % 2 ^ 16) in
      let inside : leb (b.data_at + 0 + length hdr) (length b.memblock) ≡ true = ground arith in
      let at : b.data_at + 0 ≡ b.data_at = omega arith in
      let cmd' : Buff = record b {
        memblock = overwrite (b.data_at + 0) hdr b.memblock;
        data_len = command_size + n % 2 ^ 16;
      } in
      (
        cmd',
        header-fields message_id n b small fits room hdr refl,
        refl,
        omega (arith, fits),
        ap (λ i. take b.data_at (overwrite i hdr b.memblock)) at
            ∙ take-overwrite-before b.data_at hdr b.memblock,
        drop-overwrite-behind (b.data_at + 0) (b.data_at + command_size) hdr b.memblock
            (omega (arith, size)) (omega (arith, room)),
        rw inside (
            continue_assoc (send t cmd' resp w) answered code_of
            ∙ ap (λ o. continue o (λ a w. continue (answered a w) code_of))
                (send-tops t tops cmd' resp w there)
            ∙ bind_cong (tops.send cmd' resp) _ status w status-eq),
      )

  -- A transport with another function for sending.
  abbrev pub sending_by :
      (Buff → Buff → M S (ℤ × Buff)) → TransportType → TransportOps S → Transport S
  sending_by other type tops = record { type = type; tops = some (record tops { send = other }) }
