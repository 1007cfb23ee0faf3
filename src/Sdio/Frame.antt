-- ===== src/Sdio/Frame.antt =====
-- What `sdio_over_spi_prep_cmd`, `sdio_over_spi_calc_cmd_crc_octet`, `sdio_over_spi_cmd52` and
-- `sdio_over_spi_cmd53` put on the bus. A header is seven octets, the first one junk.
pub mod Decode
pub mod Extended
pub mod DataBlock
use morsectrl_tools.Prelude.{
  ℕ, ◌+◌, ◌*◌, ◌/◌, ◌%◌, ◌^◌, bit_and, bit_or, Bool, true, false, List, [], ◌∷◌, ◌++◌, replicate,
  u8, u16, u32, ◌<<<◌, ◌>>>◌, if◌then◌else◌,
}
use morsectrl_tools.Util.Crc.{crc7_gen, crc16_gen}

abbrev pub junk_token : ℕ
junk_token = 0xFF

abbrev pub hdr_len : ℕ
hdr_len = 7

abbrev pub hdr_extra_len : ℕ
hdr_extra_len = 13

-- `sdio_over_spi_calc_cmd_crc_octet` of five octets. The `|` of the `uint64_t` fields.
unfoldable pub calc_cmd_crc_octet : ℕ → ℕ → ℕ → ℕ → ℕ → ℕ
calc_cmd_crc_octet d0 d1 d2 d3 d4 =
    let number =
      bit_or (d0 <<< 32) (bit_or (d1 <<< 24) (bit_or (d2 <<< 16) (bit_or (d3 <<< 8) d4))) in
    u8 (bit_or (crc7_gen number 40 <<< 1) 1)

-- `sdio_over_spi_prep_cmd`, the arguments and the checksum: a header.
unfoldable pub cmd_hdr : ℕ → ℕ → ℕ → ℕ → ℕ → List ℕ
cmd_hdr cmd d1 d2 d3 d4 =
    let start = 0x40 + bit_and cmd 0x3F in
    junk_token ∷ start ∷ d1 ∷ d2 ∷ d3 ∷ d4 ∷ calc_cmd_crc_octet start d1 d2 d3 d4 ∷ []

-- A header and the junk that clocks the response in, as `cmd0`, `cmd63` and `cmd52` send it.
unfoldable pub short_frame : ℕ → ℕ → ℕ → ℕ → ℕ → List ℕ
unfolding cmd_hdr
short_frame cmd d1 d2 d3 d4 = cmd_hdr cmd d1 d2 d3 d4 ++ replicate hdr_extra_len junk_token

-- The four argument octets of CMD52: `func` and `data` are `uint8_t`, `addr` is `uint32_t`.
unfoldable pub cmd52_frame : Bool → ℕ → ℕ → ℕ → List ℕ
unfolding short_frame
cmd52_frame write func addr data' =
    let d1 = u8 (bit_or (u8 (func <<< 4)) (addr >>> 15)) in
    let d1' = if write then bit_or d1 0x80 else d1 in
    short_frame 52 d1' (u8 (addr >>> 7)) (u8 (addr <<< 1)) data'

-- The seven octets of the header of CMD53; `count` is `uint16_t`. `fill_frame` puts behind it the
-- octets that `sdio_over_spi_prep_cmd` clears there.
unfoldable pub cmd53_hdr : Bool → ℕ → Bool → ℕ → ℕ → List ℕ
unfolding cmd_hdr
cmd53_hdr write func block_mode addr count =
    let low = bit_and addr 0xFFFF in
    let d1 = u8 (func <<< 4) in
    let d1 = bit_or d1 (if write then 0x80 else 0) in
    let d1 = bit_or d1 (if block_mode then 0x8 else 0) in
    let d1 = u8 (bit_or (bit_or d1 0x4) (low >>> 15)) in
    let d3 = bit_or (u8 (low <<< 1)) (bit_and (count >>> 8) 0x1) in
    cmd_hdr 53 d1 (u8 (low >>> 7)) d3 (u8 count)

-- `fn_max_block_size[SDIO_FUNC_MEM_BLOCK]`
abbrev pub max_block_size : ℕ
max_block_size = 512

-- A data block of a write: start token, data, checksum and the delay behind it.
unfoldable pub write_block : Bool → List ℕ → ℕ → List ℕ
write_block block_mode block delay =
    let crc16 = crc16_gen block in
    (if block_mode then 0xFC else 0xFE)
    ∷ (block ++ (u8 (crc16 >>> 8) ∷ bit_and crc16 0xFF ∷ replicate delay junk_token))

-- `post_block_delay_bytes`
unfoldable pub post_block_delay : Bool → Bool → ℕ
post_block_delay true true = 250
post_block_delay true false = 30
post_block_delay false true = 30
post_block_delay false false = 250

-- `total_block_size`: token, data, checksum and delay. A read in block mode has a shorter one.
unfoldable pub total_block_size : Bool → Bool → ℕ → ℕ
unfolding post_block_delay
total_block_size true block_mode block_size = 1 + block_size + 2 + post_block_delay true block_mode
total_block_size false true block_size = 2 + block_size + post_block_delay false true
total_block_size false false block_size = 4 + block_size + 4 + post_block_delay false false

-- `full_trans_size`
unfoldable pub full_trans_size : Bool → Bool → ℕ → ℕ → ℕ
unfolding total_block_size
full_trans_size true false block_size count =
    hdr_len + 4 + 4 + total_block_size true false block_size
full_trans_size true true block_size count =
    hdr_len + 4 + 4 + count * total_block_size true true block_size
full_trans_size false false block_size count = hdr_len + 4 + total_block_size false false block_size
full_trans_size false true block_size count =
    hdr_len + 4 + 4 + total_block_size false true block_size * count
