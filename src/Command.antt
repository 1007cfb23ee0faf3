-- ===== src/Command.antt =====
-- command.c and the headers of command.h. The host stores its words the little-endian way.
pub mod Header
use morsectrl_tools.Prelude.{
  ℕ, suc, ◌+◌, ◌-◌, ◌*◌, ◌/◌, ◌%◌, ◌^◌, Bool, List, [], ◌∷◌, Option, none, some, ℤ, pos, neg,
  negsuc, is_neg, ltb, if◌then◌else◌, u16,
}
use morsectrl_tools.Machine.{M, ◌>>=◌, ret, Buff, store, load}
use morsectrl_tools.Transport.{Transport, send, command_size}
use morsectrl_tools.Sdio.Registers.{from_le32}

-- A `uint16_t` in memory.
abbrev pub le16 : ℕ → List ℕ → List ℕ
le16 n rest = (n % 256) ∷ (n / 256 % 256) ∷ rest

-- `struct command_hdr`: flags, message_id, len, host_id, vif_id and pad.
unfoldable pub command_hdr : ℕ → ℕ → List ℕ
command_hdr message_id data_len = le16 1 (
    le16 (u16 message_id)
      (le16 (u16 (data_len + 2 ^ 64 - command_size)) (le16 0 (le16 0 (le16 0 [])))))

-- A `uint32_t` taken for an `int`.
abbrev pub signed32 : ℕ → ℤ
signed32 n = if ltb n (2 ^ 31) then pos n else negsuc (2 ^ 32 - n - 1)

-- `-ENOMEM`
abbrev pub enomem : ℤ
enomem = neg 12

module _ {S : Type 0} where
  unfoldable pub send_header : Transport S → ℕ → Buff → Buff → M S (ℤ × Option Buff)
  send_header transport message_id cmd resp = do
    cmd' ← store cmd 0 (command_hdr message_id cmd.data_len)
    answer ← send transport cmd' resp
    if is_neg answer.0
        then ret (answer.0, some answer.1)
        else (do status ← load answer.1 12 4; ret (signed32 (from_le32 status), some answer.1))

  -- `morsectrl_send_command`: the return code, and the response buffer as it is left.
  unfoldable pub send_command : Transport S → ℕ → Option Buff → Option Buff → M S (ℤ × Option Buff)
  unfolding send_header
  send_command transport message_id none resp = ret (enomem, resp)
  send_command transport message_id (some cmd) none = ret (enomem, none)
  send_command transport message_id (some cmd) (some resp) =
      send_header transport message_id cmd resp
