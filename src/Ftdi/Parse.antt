-- ===== src/Ftdi/Parse.antt =====
-- `ftdi_spi_parse`: the comma-separated configuration of the FTDI channel. `strsep` is written out
-- after its documentation.
pub mod Channel
use morsectrl_tools.Prelude.{
  ℕ, suc, ◌+◌, ◌*◌, ◌%◌, ◌^◌, bit_or, Bool, true, false, ◌&&◌, List, [], ◌∷◌, length, drop, get_or,
  Option, none, some, ltb, ◌==◌, if◌then◌else◌, u8,
}
use morsectrl_tools.Util.Text.{Text, codes, expression_to_int}
use morsectrl_tools.Util.Numbers.{str_to_uint32}
use morsectrl_tools.Transport.{starts_with}

-- The values that are read, before they are turned into the channel's.
pub record ChannelValues : Type 0 where
  pub cpol : Bool
  pub cpha : Bool
  pub cs_active_low : Bool
  pub cs_pin : ℕ
  pub freq_khz : ℕ
  pub latency : ℕ
  pub reset_pin_num : ℕ
  pub jtag_reset_pin_num : ℕ
  pub reset_ms : ℕ
  pub serial_num : Text

abbrev pub default_values : ChannelValues
default_values = record {
  cpol = false;
  cpha = false;
  cs_active_low = true;
  cs_pin = 0;
  freq_khz = 30000;
  latency = 0;
  reset_pin_num = 1;
  jtag_reset_pin_num = 0;
  reset_ms = 100;
  serial_num = [];
}

-- What a keyword makes of a part: it is another's, its value is taken, the process exits with a
-- message, or the code reads behind the part's terminator, since nothing follows the keyword. What
-- stands there is left open: the next part, where `strsep` cut the string at a comma.
pub data Part : Type 0 where
  others : Part
  taken : ChannelValues → Part
  exits : Part
  past_end : Part

-- With the value behind the keyword and one character more.
abbrev keyed : Text → Text → (Text → Part) → Part
keyed key str use_value =
    if starts_with key str
    then if ltb (length key) (length str) then use_value (drop (suc (length key)) str) else past_end
    else others

-- `ftdi_spi_get_bool`: what is no expression is -1, and so true.
unfoldable pub get_bool : Text → (Bool → ChannelValues) → Text → Part
get_bool key set str =
    keyed key str
      (λ value. elim (expression_to_int value) [ none ↦ taken (set true) | some b ↦ taken (set b) ])

unfoldable pub get_uint32 : Text → (ℕ → ChannelValues) → Text → Part
get_uint32 key set str =
    keyed key str (λ value.
      let parsed = str_to_uint32 value in if parsed.0 then taken (set parsed.1) else others)

unfoldable pub get_uint8 : Text → (ℕ → ChannelValues) → Text → Part
unfolding get_uint32
get_uint8 key set str = get_uint32 key (λ n. set (u8 n)) str

-- `ftdi_spi_get_string`, into 16 octets.
unfoldable pub get_string : Text → (Text → ChannelValues) → Text → Part
get_string key set str =
    let value = drop (suc (length key)) str in
    if ltb (suc (length key)) (length str)
      && starts_with key str
      && get_or str (length key) 0 == b'='
    then if ltb (length value) 16 then taken (set value) else others
    else others

unfoldable pub print_config_usage : Text → Text → Part
print_config_usage key str = if starts_with key str then exits else others

-- The first keyword that a part belongs to.
unfoldable pub first_of : List (Text → Part) → Text → Part
first_of [] str = others
first_of (key ∷ keys) str =
    let rest = first_of keys str in
    elim (key str) [ others ↦ rest | taken v ↦ taken v | exits ↦ exits | past_end ↦ past_end ]

unfoldable pub part : ChannelValues → Text → Part
unfolding first_of get_bool get_uint32 get_uint8 get_string print_config_usage
part v = first_of (
    get_bool (codes "cpol") (λ b. record v { cpol = b })
    ∷ get_bool (codes "cpha") (λ b. record v { cpha = b })
    ∷ get_uint32 (codes "freq_khz") (λ n. record v { freq_khz = n })
    ∷ get_uint8 (codes "latency") (λ n. record v { latency = n })
    ∷ get_bool (codes "cs_pol") (λ b. record v { cs_active_low = b })
    ∷ get_uint32 (codes "cs_pin") (λ n. record v { cs_pin = n })
    ∷ get_uint8 (codes "reset_pin_num") (λ n. record v { reset_pin_num = n })
    ∷ get_uint8 (codes "jtag_reset_pin_num") (λ n. record v { jtag_reset_pin_num = n })
    ∷ get_uint32 (codes "reset_ms") (λ n. record v { reset_ms = n })
    ∷ get_string (codes "serial_num") (λ s. record v { serial_num = s })
    ∷ print_config_usage (codes "help")
    ∷ [])

-- `strsep(&cpy, ",")`, over and over: the parts between the commas, the empty ones too.
unfoldable pub split_commas : Text → List Text
split_commas [] = [] ∷ []
split_commas (c ∷ s) =
    let rest = split_commas s in
    if c == b',' then [] ∷ rest else elim rest [ [] ↦ (c ∷ []) ∷ [] | p ∷ ps ↦ (c ∷ p) ∷ ps ]

-- The configuration is wrong, the process exits, the code reads behind a terminator, or the values.
pub data Parts : Type 0 where
  config_error : Parts
  exited : Parts
  outside : Parts
  values : ChannelValues → Parts

-- The parts in turn; a part of no keyword is an error, which is returned behind the last part.
unfoldable pub parts : Bool → ChannelValues → List Text → Parts
unfolding part
parts error v [] = if error then config_error else values v
parts error v (str ∷ strs) = elim (part v str) [
  | others ↦ parts true v strs
  | taken v' ↦ parts error v' strs
  | exits ↦ exited
  | past_end ↦ outside
]

-- `struct morsectrl_ftdi_spi_cfg`
pub record FtdiChannel : Type 0 where
  pub clock_rate : ℕ
  pub latency_timer : ℕ
  pub config_options : ℕ
  pub reset_pin : ℕ
  pub jtag_reset_pin : ℕ
  pub reset_time_ms : ℕ
  pub serial : Text

-- The clock in Hz, between 1 kHz and 30 MHz.
unfoldable pub clock_rate_of : ℕ → ℕ
clock_rate_of freq_khz =
    if ltb 30000 freq_khz
    then 30000 * 1000
    else if ltb freq_khz 1
    then 1 * 1000
    else freq_khz * 1000

unfoldable pub mode_option : Bool → Bool → ℕ
mode_option false false = 0
mode_option false true = 1
mode_option true false = 2
mode_option true true = 3

-- The lines DBUS3 to DBUS7, and DBUS3 for any other number.
unfoldable pub cs_option : ℕ → ℕ
cs_option cs_pin =
    if cs_pin == 3
    then 0x0
    else if cs_pin == 4
    then 0x4
    else if cs_pin == 5
    then 0x8
    else if cs_pin == 6
    then 0xC
    else if cs_pin == 7
    then 0x10
    else 0x0

unfoldable pub polarity_option : Bool → ℕ
polarity_option cs_active_low = if cs_active_low then 0x20 else 0x0

-- `BIT(pin + FTDI_SPI_GPIO_OFFSET)` as a `UCHAR`. A shift of 64 or more is undefined; here it gives
-- 0, as for any pin above 3.
abbrev pub pin_bit : ℕ → ℕ
pin_bit pin = u8 (2 ^ (pin + 4))

unfoldable pub channel_of : ChannelValues → FtdiChannel
unfolding clock_rate_of mode_option cs_option polarity_option
channel_of v = record {
  clock_rate = clock_rate_of v.freq_khz;
  latency_timer = v.latency;
  config_options =
      bit_or (bit_or (mode_option v.cpol v.cpha) (polarity_option v.cs_active_low))
        (cs_option v.cs_pin);
  reset_pin = pin_bit v.reset_pin_num;
  jtag_reset_pin = pin_bit v.jtag_reset_pin_num;
  reset_time_ms = v.reset_ms;
  serial = v.serial_num;
}

-- The options that are given, or none: the values, or how the parsing ends otherwise.
unfoldable pub ftdi_spi_parse : Option Text → Parts
unfolding parts split_commas
ftdi_spi_parse none = values default_values
ftdi_spi_parse (some cfg_opts) = parts false default_values (split_commas cfg_opts)
