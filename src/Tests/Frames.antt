-- ===== src/Tests/Frames.antt =====
-- Frames, blocks and tokens of the bus at concrete inputs.
use morsectrl_tools.Prelude.{
  ℕ, ◌+◌, ◌≡◌, ◌↔◌, true, List, [], ◌∷◌, ◌++◌, some, length, arith, if◌then◌else◌, ◌%◌, ◌^◌,
}
use morsectrl_tools.Sdio.Frame.{cmd52_frame, cmd53_hdr, write_block}
use morsectrl_tools.Sdio.Frame.Decode.{decode_cmd52, decode-cmd52_frame}
use morsectrl_tools.Sdio.Frame.Extended.{decode_cmd53, decode-cmd53_hdr}
use morsectrl_tools.Sdio.Frame.DataBlock.{decode_block, decode-write_block}
use morsectrl_tools.Sdio.Response.{cmd53_find_token}
use morsectrl_tools.Sdio.Response.Found.{TokenAt, cmd53_find_token_iff}

decode-cmd52_frame_example :
    decode_cmd52 (cmd52_frame true 1 0x10000 0xAB)
    ≡ some (record { write = true; func = 1; addr = 0x10000; value = 0xAB })
decode-cmd52_frame_example =
    decode-cmd52_frame true 1 0x10000 0xAB (omega arith) (omega arith) (omega arith)

decode-cmd53_hdr_example :
    decode_cmd53 (cmd53_hdr true 2 true 0x10054D40 300)
    ≡ some (record {
      write = true;
      func = 2;
      block_mode = true;
      incrementing = true;
      addr = 0x10054D40 % 2 ^ 16;
      count = 300;
    })
decode-cmd53_hdr_example = decode-cmd53_hdr true 2 true 0x10054D40 300 (omega arith) (omega arith)

abbrev block : List ℕ
block = 7 ∷ 8 ∷ 9 ∷ []

decode-write_block_example :
    decode_block (length block) (write_block true block 2 ++ (1 ∷ []))
    ≡ some (if true then 0xFC else 0xFE, block)
decode-write_block_example = decode-write_block true block 2 (1 ∷ [])

cmd53_find_token_iff_example :
    (cmd53_find_token (0xFF ∷ 0xFE ∷ 5 ∷ []) ≡ some 2)
    ↔ ((n : ℕ) × TokenAt (0xFF ∷ 0xFE ∷ 5 ∷ []) n × (2 ≡ n + 1))
cmd53_find_token_iff_example = cmd53_find_token_iff (0xFF ∷ 0xFE ∷ 5 ∷ []) 2
