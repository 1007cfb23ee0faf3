-- ===== src/Handler/Pair.antt =====
-- Handlers with two buffers that send more than one command, look into the response, or choose what
-- they send: bw.c and ocs.c. What they print is left out.
pub mod Duty
pub mod Balance
pub mod Commands
use morsectrl_tools.Prelude.{
  ℕ, ◌+◌, ◌*◌, ◌-◌, Bool, true, false, ◌||◌, not, List, [], ◌∷◌, length, drop, Option, none, some,
  ℤ, pos, neg, is_neg, ltb, ◌==◌, if◌then◌else◌, u8, u16, u32,
}
use morsectrl_tools.Util.Text.{Text, codes, same_text}
use morsectrl_tools.Util.Numbers.{atoi, str_to_uint32}
use morsectrl_tools.Machine.{M, ◌>>=◌, ◌>>◌, ret, Buff, load}
use morsectrl_tools.Transport.{Transport, cmd_alloc, resp_alloc, buff_free}
use morsectrl_tools.Command.{send_command}
use morsectrl_tools.Sdio.Registers.{to_le32}
use morsectrl_tools.Handler.{Getopt, Fields, word, assign}
use morsectrl_tools.Handler.Options.{scan}

module _ {S : Type 0} where
  unfoldable pub with_two : ℤ → (Buff → Buff → M S ℤ) → Option Buff → Option Buff → M S ℤ
  with_two failed body (some cmd) (some resp) = body cmd resp
  with_two failed body _ _ = ret failed

  -- A command and a response, the work with both, or a code where one is missing, and the freeing.
  unfoldable pub two_buffers : Transport S → ℕ → ℕ → ℤ → (Buff → Buff → M S ℤ) → M S ℤ
  unfolding with_two
  two_buffers t payload reply failed body = do
    cmd ← cmd_alloc t payload
    resp ← resp_alloc t reply
    r ← with_two failed body cmd resp
    buff_free cmd
    buff_free resp
    ret r

  -- `operating_channel_bw_mhz` of the request; the octet for the power is sent as it was allocated.
  unfoldable pub bw_set : Transport S → ℕ → Buff → Buff → M S ℤ
  bw_set t width cmd resp = do
    freq ← load resp 16 4
    cmd' ←
        assign cmd
          ((0, freq) ∷ (4, u8 width ∷ []) ∷ (5, 0xFF ∷ []) ∷ (6, 0xFF ∷ []) ∷ (7, 0 ∷ []) ∷ [])
    set ← send_command t 0x0001 (some cmd') (some resp)
    ret set.0

  -- The width that is asked for, with the response to the first command.
  unfoldable pub bw_word : Transport S → List Text → ℤ → Buff → Option Buff → M S ℤ
  unfolding bw_set
  bw_word t argv r cmd none = ret r
  bw_word t argv r cmd (some resp) =
      let width = u16 (atoi (word argv 1)) in
      if length argv == 1
      then ret r
      else if not (length argv == 2)
      then ret (neg 1)
      else if width == 1 || width == 2 || width == 4 || width == 8 || width == 16
      then bw_set t width cmd resp
      else ret (neg 1)

  unfoldable pub bw_body : Transport S → List Text → Buff → Buff → M S ℤ
  unfolding bw_word
  bw_body t argv cmd resp = do
    get ← send_command t 0x0013 (some cmd) (some resp)
    if is_neg get.0 then ret (neg 1) else bw_word t argv get.0 cmd get.1

  -- `bw`
  unfoldable pub bw : Transport S → List Text → M S ℤ
  unfolding two_buffers bw_body
  bw t argv = if length argv == 0 then ret (pos 0) else two_buffers t 9 7 (neg 1) (bw_body t argv)

-- `struct command_ocs_config_req`, cleared first.
pub record OcsConfig : Type 0 where
  pub operating_channel_freq_hz : ℕ
  pub operating_channel_bw_mhz : ℕ
  pub primary_channel_bw_mhz : ℕ
  pub primary_1mhz_channel_index : ℕ

abbrev pub no_config : OcsConfig
no_config = record {
  operating_channel_freq_hz = 0;
  operating_channel_bw_mhz = 0;
  primary_channel_bw_mhz = 0;
  primary_1mhz_channel_index = 0;
}

-- With the number that the argument is, if it is one.
abbrev number_or_none : Text → (ℕ → OcsConfig) → Option OcsConfig
number_or_none optarg set =
    let val = str_to_uint32 optarg in if val.0 then some (set val.1) else none

unfoldable pub ocs_option : OcsConfig → ℕ → Text → Option OcsConfig
ocs_option o option optarg =
    if option == b'c'
    then number_or_none optarg (λ n. record o { operating_channel_freq_hz = u32 (n * 1000) })
    else if option == b'o'
    then number_or_none optarg (λ n. record o { operating_channel_bw_mhz = u8 n })
    else if option == b'p'
    then number_or_none optarg (λ n. record o { primary_channel_bw_mhz = u8 n })
    else if option == b'n'
    then number_or_none optarg (λ n. record o { primary_1mhz_channel_index = u8 n })
    else none

-- `enum ocs_subcmd`
pub data OcsSubcommand : Type 0 where
  ocs_config ocs_status : OcsSubcommand

unfoldable pub ocs_subcommand : Text → Option OcsSubcommand
ocs_subcommand s =
    if same_text (codes "config") s
    then some ocs_config
    else if same_text (codes "status") s
    then some ocs_status
    else none

unfoldable pub ocs_config_fields : OcsConfig → Fields
ocs_config_fields o =
    (0, to_le32 1)
    ∷ (4, to_le32 o.operating_channel_freq_hz)
    ∷ (8, o.operating_channel_bw_mhz ∷ [])
    ∷ (9, o.primary_channel_bw_mhz ∷ [])
    ∷ (10, o.primary_1mhz_channel_index ∷ [])
    ∷ []

-- The request, or `none` for `-EINVAL`. The words are counted without the command's name.
unfoldable pub ocs_fields : Getopt → List Text → OcsSubcommand → Option Fields
unfolding ocs_option ocs_config_fields
ocs_fields getopt argv ocs_config =
    if not (length argv == 10)
    then none
    else elim (scan ocs_option no_config (getopt (drop 1 argv) (codes "c:o:p:n:"))) [
      | none ↦ none
      | some o ↦ some (ocs_config_fields o)
    ]
ocs_fields getopt argv ocs_status =
    if not (length argv == 2) then none else some ((0, to_le32 2) ∷ [])

module _ {S : Type 0} where
  unfoldable pub ocs_body : Transport S → Option Fields → Buff → Buff → M S ℤ
  ocs_body t none cmd resp = ret (neg 22)
  ocs_body t (some fields) cmd resp = do
    cmd' ← assign cmd fields
    answer ← send_command t 0xA017 (some cmd') (some resp)
    ret answer.0

  unfoldable pub ocs_with : Getopt → Transport S → List Text → Option OcsSubcommand → M S ℤ
  unfolding two_buffers ocs_body ocs_fields
  ocs_with getopt t argv none = ret (neg 22)
  ocs_with getopt t argv (some subcmd) =
      two_buffers t 11 5 (neg 12) (ocs_body t (ocs_fields getopt argv subcmd))

  -- `ocs`
  unfoldable pub ocs : Getopt → Transport S → List Text → M S ℤ
  unfolding ocs_with ocs_subcommand
  ocs getopt t argv =
      if ltb (length argv) 2
      then ret (neg 22)
      else ocs_with getopt t argv (ocs_subcommand (word argv 1))
