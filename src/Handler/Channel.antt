-- ===== src/Handler/Channel.antt =====
-- channel.c with channel.h, and chan_query.c: the handlers that may return past the freeing.
-- What they print of a response is left out.
pub mod Balance
pub mod Freed
use morsectrl_tools.Prelude.{
  ℕ, suc, ◌+◌, ◌*◌, Bool, true, false, ◌||◌, not, List, [], ◌∷◌, length, Option, none, some, ℤ, pos,
  neg, is_neg, ltb, leb, ◌==◌, if◌then◌else◌, u8, u16, u32,
}
use morsectrl_tools.Util.Text.{Text, codes}
use morsectrl_tools.Util.Numbers.{atoi}
use morsectrl_tools.Machine.{M, ◌>>=◌, ◌>>◌, ret, Buff, load, through}
use morsectrl_tools.Transport.{Transport, cmd_alloc, resp_alloc, buff_free}
use morsectrl_tools.Command.{send_command}
use morsectrl_tools.Sdio.Registers.{to_le32, from_le32}
use morsectrl_tools.Handler.{Getopt, Fields, word, assign}

-- What the options of `channel` say.
pub record ChannelOptions : Type 0 where
  pub freq_khz : ℕ
  pub op_channel_bandwidth : ℕ
  pub primary_channel_bandwidth : ℕ
  pub primary_1mhz_channel_index : ℕ
  pub s1g_chan_power : ℕ
  pub set_freq : Bool
  pub get_all_channels : Bool

abbrev pub no_options : ChannelOptions
no_options = record {
  freq_khz = 0;
  op_channel_bandwidth = 0xFF;
  primary_channel_bandwidth = 0xFF;
  primary_1mhz_channel_index = 0xFF;
  s1g_chan_power = 1;
  set_freq = false;
  get_all_channels = false;
}

-- How the options end: they are read, `goto exit`, or `return -1` past the freeing.
pub data Scanned (A : Type 0) : Type 0 where
  scanned : A → Scanned A
  stopped left : Scanned A

-- One option; `j` is about the printing.
unfoldable pub channel_option : ChannelOptions → ℕ → Text → Scanned ChannelOptions
channel_option o option optarg =
    if option == b'c'
    then scanned (record o { freq_khz = atoi optarg; set_freq = true })
    else if option == b'o'
    then scanned (record o { op_channel_bandwidth = u8 (atoi optarg); set_freq = true })
    else if option == b'p'
    then scanned (record o { primary_channel_bandwidth = u8 (atoi optarg); set_freq = true })
    else if option == b'n'
    then scanned (record o { primary_1mhz_channel_index = u8 (atoi optarg); set_freq = true })
    else if option == b'j'
    then scanned o
    else if option == b'a'
    then scanned (record o { get_all_channels = true })
    else if option == b'r'
    then scanned (record o { s1g_chan_power = 0 })
    else if option == b'?'
    then left
    else stopped

unfoldable pub channel_options : ChannelOptions → List (ℕ × Text) → Scanned ChannelOptions
unfolding channel_option
channel_options o [] = scanned o
channel_options o ((option, optarg) ∷ opts) = elim (channel_option o option optarg) [
  | scanned o' ↦ channel_options o' opts
  | stopped ↦ stopped
  | left ↦ left
]

-- `struct command_set_channel_req`
unfoldable pub set_channel_fields : ChannelOptions → Fields
set_channel_fields o =
    (0, to_le32 (u32 (o.freq_khz * 1000)))
    ∷ (4, o.op_channel_bandwidth ∷ [])
    ∷ (5, o.primary_channel_bandwidth ∷ [])
    ∷ (6, o.primary_1mhz_channel_index ∷ [])
    ∷ (7, 0 ∷ [])
    ∷ (8, o.s1g_chan_power ∷ [])
    ∷ []

module _ {S : Type 0} where
  -- The next command, unless the last one failed.
  unfoldable pub unless_failed : ℤ → M S ℤ → M S ℤ
  unless_failed r next = if is_neg r then ret r else next

  -- The DTIM channel and the current one.
  unfoldable pub get_others : Transport S → Buff → Option Buff → M S ℤ
  unfolding unless_failed
  get_others t cmd_get resp_get = do
    dtim ← send_command t 0x001C (some cmd_get) resp_get
    unless_failed dtim.0 (do current ← send_command t 0x001D (some cmd_get) dtim.1; ret current.0)

  -- The full channel, and the others if they are asked for.
  unfoldable pub get_channels : Transport S → ChannelOptions → Buff → Buff → M S ℤ
  unfolding get_others
  get_channels t o cmd_get resp_get = do
    full ← send_command t 0x0013 (some cmd_get) (some resp_get)
    unless_failed full.0 (if o.get_all_channels then get_others t cmd_get full.1 else ret full.0)

  -- The channel is set first, if an option says so.
  unfoldable pub set_and_get : Transport S → ChannelOptions → Buff → Buff → Buff → Buff → M S ℤ
  unfolding get_channels set_channel_fields
  set_and_get t o cmd_set resp_set cmd_get resp_get =
      if not o.set_freq
      then get_channels t o cmd_get resp_get
      else if ltb o.freq_khz 750000 || ltb 950000 o.freq_khz
      then ret (neg 1)
      else (do
        cmd_set' ← assign cmd_set (set_channel_fields o)
        set ← send_command t 0x0001 (some cmd_set') (some resp_set)
        unless_failed set.0 (get_channels t o cmd_get resp_get))

  -- What follows the options: the code, and whether the buffers are freed.
  unfoldable pub channel_scanned :
      Transport S → Scanned ChannelOptions → Buff → Buff → Buff → Buff → M S (ℤ × Bool)
  unfolding set_and_get
  channel_scanned t stopped cmd_set resp_set cmd_get resp_get = ret (neg 1, true)
  channel_scanned t left cmd_set resp_set cmd_get resp_get = ret (neg 1, false)
  channel_scanned t (scanned o) cmd_set resp_set cmd_get resp_get = do
    r ← set_and_get t o cmd_set resp_set cmd_get resp_get
    ret (r, true)

  unfoldable pub channel_with :
      Getopt → Transport S → List Text → Buff → Buff → Buff → Buff → M S (ℤ × Bool)
  unfolding channel_scanned channel_options
  channel_with getopt t argv cmd_set resp_set cmd_get resp_get =
      let options = channel_options no_options (getopt argv (codes "c:o:p:n:ajr")) in
      if ltb 12 (length argv)
      then ret (neg 1, true)
      else channel_scanned t options cmd_set resp_set cmd_get resp_get

  unfoldable pub channel_after :
      Getopt
      → Transport S
      → List Text
      → Option Buff
      → Option Buff
      → Option Buff
      → Option Buff
      → M S (ℤ × Bool)
  unfolding channel_with
  channel_after getopt t argv (some cmd_set) (some resp_set) (some cmd_get) (some resp_get) =
      channel_with getopt t argv cmd_set resp_set cmd_get resp_get
  channel_after getopt t argv _ _ _ _ = ret (neg 1, true)

  -- `channel`
  unfoldable pub channel : Getopt → Transport S → List Text → M S ℤ
  unfolding channel_after
  channel getopt t argv = if length argv == 0 then ret (pos 0) else (do
    cmd_set ← cmd_alloc t 9
    resp_set ← resp_alloc t 0
    cmd_get ← cmd_alloc t 0
    resp_get ← resp_alloc t 7
    done ← channel_after getopt t argv cmd_set resp_set cmd_get resp_get
    if not done.1 then ret done.0 else (do
      buff_free cmd_set
      buff_free resp_set
      buff_free cmd_get
      buff_free resp_get
      ret done.0))

-- The options of `chan_query`.
unfoldable pub query_options : List (ℕ × Text) → Scanned (Unit {0})
query_options [] = scanned tt
query_options ((option, optarg) ∷ opts) =
    let rest = query_options opts in
    if option == b'j' then rest else if option == b'?' then left else stopped

module _ {S : Type 0} where
  unfoldable pub query_scanned : Transport S → Scanned (Unit {0}) → Buff → Buff → M S (ℤ × Bool)
  query_scanned t stopped cmd resp = ret (neg 1, true)
  query_scanned t left cmd resp = ret (neg 1, false)
  query_scanned t (scanned u) cmd resp = do
    answer ← send_command t 0xA011 (some cmd) (some resp)
    ret (answer.0, true)

  -- With one buffer missing, the other is not freed.
  unfoldable pub query_after :
      Getopt → Transport S → List Text → Option Buff → Option Buff → M S (ℤ × Bool)
  unfolding query_scanned query_options
  query_after getopt t argv (some cmd) (some resp) =
      if ltb (length argv) 3
      then query_scanned t (query_options (getopt argv (codes "j"))) cmd resp
      else ret (neg 1, true)
  query_after getopt t argv _ _ = ret (neg 1, false)

  -- `chan_query`
  unfoldable pub chan_query : Getopt → Transport S → List Text → M S ℤ
  unfolding query_after
  chan_query getopt t argv = if length argv == 0 then ret (pos 0) else (do
    cmd ← cmd_alloc t 0
    resp ← resp_alloc t 1789
    done ← query_after getopt t argv cmd resp
    if not done.1 then ret done.0 else (do buff_free cmd; buff_free resp; ret done.0))
