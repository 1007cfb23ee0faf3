-- ===== src/Command/Header.antt =====
-- The firmware's side of `struct command_hdr`: the fields at their offsets.
use morsectrl_tools.Prelude.{ℕ, ◌+◌, ◌*◌, ◌^◌, ◌<◌, ◌≡◌, refl, List, [], ◌∷◌, get_or, arith, map}
use morsectrl_tools.Machine.{Buff}
use morsectrl_tools.Transport.{set_cmd_data_length}
use morsectrl_tools.Command.{command_hdr}

-- The `uint16_t` at an offset.
abbrev pub field : List ℕ → ℕ → ℕ
field octets i = get_or octets i 0 + get_or octets (i + 1) 0 * 256

-- flags, message_id, len, host_id, vif_id and pad.
abbrev pub fields : List ℕ → List ℕ
fields octets = map (field octets) (0 ∷ 2 ∷ 4 ∷ 6 ∷ 8 ∷ 10 ∷ [])

-- For a buffer whose length was set for `n` octets of payload, the header that is sent carries the
-- message's number and `n`, for numbers of 16 bits; flags is 1 and the other fields are 0.
pub fields-command_hdr :
    (b : Buff) (message_id n : ℕ)
    → message_id < 2 ^ 16
    → n < 2 ^ 16
    → fields (command_hdr message_id (set_cmd_data_length b n).data_len)
      ≡ 1 ∷ message_id ∷ n ∷ 0 ∷ 0 ∷ 0 ∷ []
unfolding command_hdr set_cmd_data_length
fields-command_hdr b message_id n small fits =
    let e1 : field (command_hdr message_id (set_cmd_data_length b n).data_len) 2 ≡ message_id =
      omega arith in
    let e2 : field (command_hdr message_id (set_cmd_data_length b n).data_len) 4 ≡ n =
      omega arith in
    rw (e1, e2) refl
