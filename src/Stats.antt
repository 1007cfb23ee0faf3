-- ===== src/Stats.antt =====
-- stats.c and offchip_statistics.c: the statistics come as a list of tags, lengths and values, which
-- is read up to the response's length. A table from the firmware's file says what each tag is.
-- Of the output, what is handed to a formatter is modelled, but not its text.
pub mod Bound
pub mod Stream
pub mod Signed
use morsectrl_tools.Prelude.{
  ℕ, zero, suc, ◌+◌, ◌-◌, ◌*◌, ◌/◌, ◌%◌, ◌^◌, bit_and, Bool, true, false, not, ◌&&◌, ◌||◌, List, [],
  ◌∷◌, length, take, drop, Option, none, some, ℤ, pos, neg, negsuc, is_nonzero, ltb, leb, ◌==◌,
  if◌then◌else◌, u16, u32,
}
use morsectrl_tools.Util.Text.{Text, codes, same_text}
use morsectrl_tools.Machine.{M, ◌>>=◌, ◌>>◌, ret, undefined, Buff}
use morsectrl_tools.Transport.{
  Transport, cmd_alloc, resp_alloc, buff_free, starts_with, response_size,
}
use morsectrl_tools.Command.{send_command, signed32}

-- `struct statistics_offchip_data`
pub record OffchipData : Type 0 where
  pub type_str : Text
  pub name : Text
  pub key : Text
  pub format : ℕ
  pub tag : ℕ

-- `get_stats_offchip`: the first record with the tag.
unfoldable pub get_stats_offchip : List OffchipData → ℕ → Option OffchipData
get_stats_offchip [] tag = none
get_stats_offchip (d ∷ stats) tag = if d.tag == tag then some d else get_stats_offchip stats tag

-- `MORSE_STATS_FMT_DEC`, `MORSE_STATS_FMT_U_DEC` and `MORSE_STATS_FMT_LAST`
abbrev pub fmt_dec : ℕ
fmt_dec = 0

abbrev pub fmt_u_dec : ℕ
fmt_u_dec = 1

abbrev pub fmt_last : ℕ
fmt_last = 13

-- The format that a record is printed with. The code writes it back into the record, where it stays
-- the same.
unfoldable pub format_of : OffchipData → ℕ
format_of d =
    let format =
      if d.format == fmt_dec && starts_with (codes "uint") d.type_str
      then fmt_u_dec
      else d.format in
    if ltb fmt_last format then fmt_last else format

-- What is done with a value: it is formatted under a key, dumped as unknown, or left out.
pub data Item : Type 0 where
  formatted : Text → ℕ → List ℕ → Item
  unknown : ℕ → List ℕ → Item
  filtered : Item

unfoldable pub item : List OffchipData → Option Text → ℕ → List ℕ → Item
unfolding get_stats_offchip format_of
item stats filter tag value = elim (get_stats_offchip stats tag) [
  | none ↦ unknown tag value
  | some d ↦ elim filter [
    | none ↦ formatted d.key (format_of d) value
    | some key ↦ if same_text d.key key then formatted d.key (format_of d) value else filtered
  ]
]

-- How the reading ends: at the end, at a value with a wrong length, with a read outside the block, or
-- without fuel.
pub data Finish : Type 0 where
  finished : Finish
  malformed : ℕ → ℕ → Finish
  outside_block : Finish
  exhausted : Finish

-- `resp_sz > STATS_TLV_OVERHEAD` is a comparison of `size_t`: a negative `int` is large.
unfoldable pub goes_on : ℤ → Bool
goes_on (pos n) = ltb 4 n
goes_on (negsuc n) = true

-- `len > resp_sz` is one of `int`.
unfoldable pub too_long : ℕ → ℤ → Bool
too_long len (pos n) = ltb n len
too_long len (negsuc n) = true

-- `resp_sz -= STATS_TLV_OVERHEAD + len`
unfoldable pub less : ℤ → ℕ → ℤ
less (pos n) k = if leb k n then pos (n - k) else negsuc (k - n - 1)
less (negsuc n) k = negsuc (n + k)

-- A `uint16_t` of the host.
abbrev pub half : ℕ → ℕ → ℕ
half a b = a + b * 256

module _ (stats : List OffchipData) (filter : Option Text) where
  -- A value and what follows it, which is read by `go`.
  unfoldable pub tlv_value :
      (ℤ → List ℕ → List Item × Finish) → ℤ → ℕ → ℕ → List ℕ → List Item × Finish
  tlv_value go resp_sz tag len buf =
      let rest = go (less resp_sz (4 + len)) (drop len buf) in
      if too_long len resp_sz || len == 0
      then ([], malformed tag len)
      else if leb len (length buf)
      then (item stats filter tag (take len buf) ∷ rest.0, rest.1)
      else ([], outside_block)

  unfoldable pub tagged : (ℤ → List ℕ → List Item × Finish) → ℤ → List ℕ → List Item × Finish
  unfolding tlv_value
  tagged go resp_sz (t ∷ t' ∷ l ∷ l' ∷ buf) = tlv_value go resp_sz (half t t') (half l l') buf
  tagged go resp_sz _ = ([], outside_block)

  -- The loop, with the octets from `buf` to the end of the block.
  unfoldable pub walk : ℕ → ℤ → List ℕ → List Item × Finish
  unfolding tagged
  walk zero resp_sz buf = ([], exhausted)
  walk (suc fuel) resp_sz buf =
      if goes_on resp_sz then tagged (walk fuel) resp_sz buf else ([], finished)

-- `int resp_sz = rsp_tbuff->data_len - sizeof(struct response)`
unfoldable pub size_of_response : Buff → ℤ
size_of_response resp = signed32 (u32 (resp.data_len + 2 ^ 64 - response_size))

-- The octets from `resp->stats` to the end of the block.
unfoldable pub stats_of : Buff → List ℕ
stats_of resp = drop (resp.data_at + response_size) resp.memblock

module _ {S : Type 0} (stats : List OffchipData) (filter : Option Text) where
  -- The items of a response. A read outside the block is undefined. There is fuel for each octet that
  -- the response may have, and one round more.
  unfoldable pub report : Buff → M S (List Item)
  report resp =
      let octets = stats_of resp in
      let walked = walk stats filter (length octets + 2) (size_of_response resp) octets in
      elim walked.1 [ outside_block ↦ undefined | _ ↦ ret walked.0 ]

  -- The second attempt, with the number of the old command; its text is only printed.
  retry : Transport S → ℕ → Buff → Option Buff → M S (ℤ × List Item)
  retry t cmd cmd_tbuff none = ret (neg 1, [])
  retry t cmd cmd_tbuff (some rsp_tbuff) = do
    answer ← send_command t (bit_and 0xDF cmd) (some cmd_tbuff) (some rsp_tbuff)
    ret (answer.0, [])

  exchange_stats : Transport S → ℕ → Bool → Buff → Buff → M S (ℤ × List Item)
  unfolding retry
  exchange_stats t cmd reset cmd_tbuff rsp_tbuff = do
    answer ← send_command t cmd (some cmd_tbuff) (some rsp_tbuff)
    if is_nonzero answer.0 then retry t cmd cmd_tbuff answer.1 else elim answer.1 [
      | none ↦ ret (pos 0, [])
      | some resp ↦ if reset then ret (pos 0, []) else (do items ← report resp; ret (pos 0, items))
    ]

  with_stats_buffers : Transport S → ℕ → Bool → Option Buff → Option Buff → M S (ℤ × List Item)
  unfolding exchange_stats
  with_stats_buffers t cmd reset (some cmd_tbuff) (some rsp_tbuff) =
      exchange_stats t cmd reset cmd_tbuff rsp_tbuff
  with_stats_buffers t cmd reset _ _ = ret (neg 1, [])

  -- `morsectrl_stats_cmd`: the code, and the items.
  unfoldable pub morsectrl_stats_cmd : Transport S → ℕ → Bool → M S (ℤ × List Item)
  unfolding with_stats_buffers
  morsectrl_stats_cmd t cmd reset = do
    cmd_tbuff ← cmd_alloc t 0
    rsp_tbuff ← resp_alloc t 2048
    answer ← with_stats_buffers t (if reset then cmd + 1 else cmd) reset cmd_tbuff rsp_tbuff
    buff_free cmd_tbuff
    buff_free rsp_tbuff
    ret answer

-- The octets of a number, the lowest first.
unfoldable pub from_octets : List ℕ → ℕ
from_octets [] = 0
from_octets (o ∷ octets) = o + 256 * from_octets octets

-- The sizes that the C types have.
abbrev has_type : ℕ → Bool
has_type size = size == 1 || size == 2 || size == 4 || size == 8

-- `get_unsigned_value_as_uint64`, for as many octets as there are in `buf`.
unfoldable pub get_unsigned_value_as_uint64 : List ℕ → ℕ
get_unsigned_value_as_uint64 buf = if has_type (length buf) then from_octets buf else 0

-- `get_signed_value_as_int64`: the highest bit is the sign.
unfoldable pub get_signed_value_as_int64 : List ℕ → ℤ
get_signed_value_as_int64 buf =
    let n = from_octets buf in
    let whole = 256 ^ length buf in
    if has_type (length buf)
    then (if ltb n (whole / 2) then pos n else negsuc (whole - n - 1))
    else pos 0
