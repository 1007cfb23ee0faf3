-- ===== src/Handler/Mesh.antt =====
-- The handlers of mesh_config.c, mbca.c, mbssid.c and uapsd.c: options with numbers of a range.
use morsectrl_tools.Prelude.{
  ℕ, ◌-◌, ◌*◌, ◌%◌, ◌/◌, Bool, true, false, not, ◌&&◌, ◌||◌, List, [], ◌∷◌, ◌++◌, length, replicate,
  take, Option, none, some, ltb, ◌==◌, if◌then◌else◌, u16,
}
use morsectrl_tools.Util.Text.{Text, codes, hexstr2bin}
use morsectrl_tools.Util.Numbers.{str_to_uint8_range, str_to_uint16_range, str_to_uint32_range}
use morsectrl_tools.Command.{le16}
use morsectrl_tools.Sdio.Registers.{to_le32}
use morsectrl_tools.Handler.{Fields, Handler, Filled, refused, filled, usage_unless}
use morsectrl_tools.Handler.Options.{scan, filled_if, usage_outside, octet_at}

-- The identifier of a mesh, of at most 32 octets, each as two digits.
unfoldable pub mesh_id : Fields → Text → Option Fields
mesh_id fields optarg =
    let len = length optarg in
    let bin = hexstr2bin optarg (len / 2) in
    if len == 0 || len % 2 == 1 || ltb 32 (len / 2) || not bin.0
    then none
    else some (fields ++ (1, bin.1) ∷ (0, len / 2 ∷ []) ∷ [])

unfoldable pub mesh_option : Fields → ℕ → Text → Option Fields
unfolding mesh_id
mesh_option fields option optarg =
    if option == b'b'
    then octet_at fields 33 (str_to_uint8_range optarg 0 1)
    else if option == b'm'
    then mesh_id fields optarg
    else if option == b'p'
    then octet_at fields 34 (str_to_uint8_range optarg 0 10)
    else none

unfoldable pub mesh_config : Handler
mesh_config = record {
  payload = 35;
  reply = 0;
  message_id = 0xA018;
  in_turn = false;
  early = usage_outside 5 7;
  fill = λ getopt argv.
      filled_if (scan mesh_option ((0, replicate 35 0) ∷ []) (getopt argv (codes "m:b:p:")));
}

-- A `uint16_t` at an offset.
abbrev half_at : Fields → ℕ → Bool × ℕ → Option Fields
half_at fields offset (ok, n) = if ok then some (fields ++ (offset, le16 n []) ∷ []) else none

unfoldable pub mbca_option : Fields → ℕ → Text → Option Fields
mbca_option fields option optarg =
    let secs = str_to_uint8_range optarg 30 65 in
    if option == b'm'
    then octet_at fields 0 (str_to_uint8_range optarg 1 3)
    else if option == b's'
    then half_at fields 3 (str_to_uint16_range optarg 2048 10240)
    else if option == b'r'
    then octet_at fields 1 (str_to_uint8_range optarg 1 255)
    else if option == b'g'
    then octet_at fields 2 (str_to_uint8_range optarg 5 100)
    else if option == b'i'
    then half_at fields 5 (secs.0, u16 (secs.1 * 1000))
    else none

unfoldable pub mbca : Handler
mbca = record {
  payload = 7;
  reply = 0;
  message_id = 0xA019;
  in_turn = true;
  early = usage_unless 11;
  fill = λ getopt argv.
      filled_if (scan mbca_option ((0, replicate 7 0) ∷ []) (getopt argv (codes "m:s:r:g:i:")));
}

pub record Mbssid : Type 0 where
  pub fields : Fields
  pub max_bssid_indicator : ℕ
  pub transmitter_iface : Text

-- `strncpy` fills up with zeros.
abbrev pub padded_name : Text → List ℕ
padded_name s = take 15 s ++ replicate (15 - length s) 0

unfoldable pub mbssid_option : Mbssid → ℕ → Text → Option Mbssid
mbssid_option m option optarg =
    let indicator = str_to_uint8_range optarg 0 2 in
    if option == b'm'
    then if indicator.0
      then some (record m {
        fields = m.fields ++ (0, indicator.1 ∷ []) ∷ [];
        max_bssid_indicator = indicator.1;
      })
      else none
    else if option == b't'
    then some
        (record m { fields = m.fields ++ (1, padded_name optarg) ∷ []; transmitter_iface = optarg })
    else none

unfoldable pub mbssid_fields : Mbssid → Filled
mbssid_fields m =
    if m.max_bssid_indicator == 0 || length m.transmitter_iface == 0
    then refused
    else filled m.fields

unfoldable pub mbssid : Handler
unfolding mbssid_fields
mbssid = record {
  payload = 17;
  reply = 0;
  message_id = 0xA016;
  in_turn = false;
  early = usage_outside 2 5;
  fill = λ getopt argv.
      let start : Mbssid = record {
        fields = (0, replicate 17 0) ∷ [];
        max_bssid_indicator = 0;
        transmitter_iface = [];
      } in
      elim (scan mbssid_option start (getopt argv (codes "t:m:"))) [
        | none ↦ refused
        | some m ↦ mbssid_fields m
      ];
}

pub record Uapsd : Type 0 where
  pub fields : Fields
  pub is_auto_trigger_enabled : ℕ
  pub timeout_in_ms : ℕ

unfoldable pub uapsd_option : Uapsd → ℕ → Text → Option Uapsd
uapsd_option u option optarg =
    let enabled = str_to_uint8_range optarg 0 1 in
    let timeout = str_to_uint32_range optarg 100 10000 in
    if option == b'a'
    then if enabled.0
      then some (record u {
        fields = u.fields ++ (0, enabled.1 ∷ []) ∷ [];
        is_auto_trigger_enabled = enabled.1;
      })
      else none
    else if option == b't'
    then if timeout.0
      then some
          (record u { fields = u.fields ++ (1, to_le32 timeout.1) ∷ []; timeout_in_ms = timeout.1 })
      else none
    else none

-- The flag that was not given is 255, which is compared with -1: so it passes.
unfoldable pub uapsd_fields : Uapsd → Filled
uapsd_fields u =
    if (u.is_auto_trigger_enabled == 1 && u.timeout_in_ms == 0)
      || (u.is_auto_trigger_enabled == 0 && not (u.timeout_in_ms == 0))
    then refused
    else filled u.fields

unfoldable pub uapsd : Handler
unfolding uapsd_fields
uapsd = record {
  payload = 5;
  reply = 1;
  message_id = 0x0040;
  in_turn = false;
  early = usage_outside 2 7;
  fill = λ getopt argv.
      let start : Uapsd = record {
        fields = (0, replicate 5 0) ∷ [];
        is_auto_trigger_enabled = 255;
        timeout_in_ms = 0;
      } in
      elim (scan uapsd_option start (getopt argv (codes "a:t:"))) [
        | none ↦ refused
        | some u ↦ uapsd_fields u
      ];
}
