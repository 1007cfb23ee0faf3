-- ===== src/Sdio/Command.antt =====
-- `sdio_over_spi_cmd0`, `sdio_over_spi_cmd63` and `sdio_over_spi_cmd52`: one frame out, one response
-- back.
pub mod Exchange
use morsectrl_tools.Prelude.{
  ℕ, ◌+◌, Bool, true, false, List, Option, none, some, ℤ, is_nonzero, ◌==◌, ◌||◌, if◌then◌else◌,
}
use morsectrl_tools.Machine.{
  World, Outcome, done, fault, M, ◌>>=◌, ◌>>◌, ret, undefined, Buff, store, load, through,
}
use morsectrl_tools.Transport.{TransportOps, buff_free, etranserr, etranssucc}
use morsectrl_tools.Sdio.Frame.{hdr_len, hdr_extra_len, short_frame, cmd52_frame}
use morsectrl_tools.Sdio.Response.{cmd_find_resp}

module _ {S : Type 0} (tops : TransportOps S) where
  -- `sdio_over_spi_alloc_cmd`
  unfoldable pub alloc_cmd : ℕ → M S (Option Buff)
  alloc_cmd cmd =
      if cmd == 0 || cmd == 63 || cmd == 52
      then tops.write_alloc (hdr_len + hdr_extra_len)
      else ret none

  -- The return code, once the bus has returned `r`.
  unfoldable pub response_code : ℤ → Buff → M S ℤ
  response_code r resp = if is_nonzero r then ret r else do
    octets ← load resp hdr_len hdr_extra_len
    ret (elim (cmd_find_resp octets) [ none ↦ etranserr | some k ↦ r ])

  -- From the frame to the return code, with both buffers at hand.
  unfoldable pub exchange_with : Buff → Buff → List ℕ → M S ℤ
  unfolding response_code
  exchange_with cmd_buff resp_buff frame = do
    cmd_buff' ← store cmd_buff 0 frame
    raw ← through tops.raw_read_write
    answer ← raw resp_buff cmd_buff' true true
    response_code answer.0 answer.1

  -- What the three functions share: `cmd_buff->data_len` is read before `cmd_buff` is tested.
  unfoldable pub exchange : ℕ → List ℕ → M S ℤ
  unfolding alloc_cmd exchange_with
  exchange cmd frame = do
    allocated ← alloc_cmd cmd
    cmd_buff ← through allocated
    answer ← tops.read_alloc cmd_buff.data_len
    r ← elim answer [
      | none ↦ ret etranserr
      | some resp_buff ↦ exchange_with cmd_buff resp_buff frame
    ]
    buff_free (some cmd_buff)
    buff_free answer
    ret r

  unfoldable pub cmd0 : M S ℤ
  unfolding exchange
  cmd0 = exchange 0 (short_frame 0 0 0 0 0)

  unfoldable pub cmd63 : M S ℤ
  unfolding exchange
  cmd63 = exchange 63 (short_frame 63 0 0 0 0)

  -- A read leaves `*data` alone too: the octet of the response is not taken over.
  unfoldable pub cmd52 : Bool → ℕ → ℕ → ℕ → M S ℤ
  unfolding exchange
  cmd52 write func addr data' = exchange 52 (cmd52_frame write func addr data')
