-- ===== src/Sdio/Block.antt =====
-- `sdio_over_spi_cmd53`: a transaction with its data blocks.
pub mod Room
pub mod Balance
use morsectrl_tools.Prelude.{
  ℕ, zero, suc, ◌+◌, ◌-◌, ◌*◌, ◌^◌, Bool, true, false, [], ◌∷◌, ◌++◌, List, replicate, get_elem?,
  get_or, Option, none, some, ℤ, pos, is_nonzero, if◌then◌else◌, u16,
}
use morsectrl_tools.Machine.{M, ◌>>=◌, ◌>>◌, ret, Buff, store, load, through}
use morsectrl_tools.Util.Crc.{crc16_check}
use morsectrl_tools.Transport.{TransportOps, buff_free, etranserr}
use morsectrl_tools.Sdio.Frame.{
  junk_token, hdr_len, hdr_extra_len, cmd53_hdr, write_block, post_block_delay, total_block_size,
  full_trans_size,
}
use morsectrl_tools.Sdio.Response.{cmd_find_resp, cmd53_find_token, cmd53_find_ack}

-- `block_mode ? fn_max_block_size[func] : count`
unfoldable pub block_size_of : Bool → ℕ → ℕ → Option ℕ
block_size_of true func count = get_elem? (4 ∷ 8 ∷ 512 ∷ []) func
block_size_of false func count = some count

-- Where the data starts in the frame, and where the answer to it is looked for.
abbrev pub write_offset : ℕ
write_offset = 15

abbrev pub read_offset : ℕ
read_offset = 11

module _ {S : Type 0} where
  -- The blocks of a write, `left` of them from number `ii` on.
  pub write_blocks : Bool → ℕ → ℕ → ℕ → ℕ → Buff → Buff → M S Buff
  write_blocks block_mode block_size total zero ii data' full = ret full
  write_blocks block_mode block_size total (suc left) ii data' full = do
    block ← load data' (ii * block_size) block_size
    let delay = post_block_delay true block_mode
    full' ← store full (write_offset + ii * total) (write_block block_mode block delay)
    write_blocks block_mode block_size total left (ii + 1) data' full'

  -- The acknowledgements of a write.
  pub process_acks : ℕ → ℕ → ℕ → Buff → M S Bool
  process_acks total zero ii resp = ret true
  process_acks total (suc left) ii resp = do
    octets ← load resp (write_offset + ii * total) total
    elim (cmd53_find_ack octets) [
      | none ↦ ret false
      | some k ↦ process_acks total left (ii + 1) resp
    ]

  -- The blocks of a read: a block is copied once its checksum holds. `load` asks for the whole
  -- window that the search may look at.
  pub process_read : ℕ → ℕ → ℕ → ℕ → ℕ → Buff → Buff → M S (Bool × Buff)
  process_read delay block_size zero ii ptr resp data' = ret (true, data')
  process_read delay block_size (suc left) ii ptr resp data' = do
    window ← load resp ptr delay
    elim (cmd53_find_token window) [
      | none ↦ ret (false, data')
      | some k ↦ do
        block ← load resp (ptr + k) block_size
        sum ← load resp (ptr + k + block_size) 2
        if crc16_check block (u16 (get_or sum 0 0 * 2 ^ 8 + get_or sum 1 0))
            then (do
              data'' ← store data' (ii * block_size) block
              process_read delay block_size left (ii + 1) (ptr + k + block_size + 4) resp data'')
            else ret (false, data')
    ]

-- What `sdio_over_spi_prep_cmd` and the arguments leave at the front of the frame: the header, and
-- 13 octets of junk behind it, whatever the frame's size.
unfoldable pub cmd53_start : Bool → ℕ → Bool → ℕ → ℕ → List ℕ
unfolding cmd53_hdr
cmd53_start write func block_mode addr count =
    cmd53_hdr write func block_mode addr count ++ replicate hdr_extra_len junk_token

module _ {S : Type 0} (tops : TransportOps S) where
  -- The frame that is sent.
  unfoldable pub fill_frame : Buff → Bool → ℕ → Bool → ℕ → ℕ → ℕ → Buff → M S Buff
  unfolding write_blocks cmd53_start
  fill_frame data' true func block_mode addr count block_size full = do
    full' ← store full 0 (cmd53_start true func block_mode addr count)
    full'' ← store full' hdr_len (replicate (write_offset - hdr_len) junk_token)
    let total = total_block_size true block_mode block_size
    write_blocks block_mode block_size total (if block_mode then count else 1) 0 data' full''
  fill_frame data' false func block_mode addr count block_size full = do
    full' ← store full 0 (cmd53_start false func block_mode addr count)
    store full' hdr_len (replicate (full'.data_len - hdr_len) junk_token)

  -- What follows a good response.
  unfoldable pub process_answer : Buff → Bool → Bool → ℕ → ℕ → Buff → M S (ℤ × Buff)
  unfolding process_acks process_read
  process_answer data' true block_mode count block_size resp = do
    let total = total_block_size true block_mode block_size
    acked ← process_acks total (if block_mode then count else 1) 0 resp
    ret (if acked then pos 0 else etranserr, data')
  process_answer data' false block_mode count block_size resp = do
    let delay = post_block_delay false block_mode
    answer ←
        process_read delay block_size (if block_mode then count else 1) 0 read_offset resp data'
    ret (if answer.0 then pos 0 else etranserr, answer.1)

  unfoldable pub transact : Buff → Bool → ℕ → Bool → ℕ → ℕ → ℕ → Buff → Buff → M S (ℤ × Buff)
  unfolding fill_frame process_answer
  transact data' write func block_mode addr count block_size full resp = do
    full' ← fill_frame data' write func block_mode addr count block_size full
    raw ← through tops.raw_read_write
    answer ← raw resp full' true true
    if is_nonzero answer.0 then ret (answer.0, data') else do
      octets ← load answer.1 hdr_len 4
      elim (cmd_find_resp octets) [
        | none ↦ ret (etranserr, data')
        | some k ↦ process_answer data' write block_mode count block_size answer.1
      ]

  -- With a buffer missing, both are given back.
  unfoldable pub with_buffers :
      Buff → Bool → ℕ → Bool → ℕ → ℕ → ℕ → Option Buff → Option Buff → M S (ℤ × Buff)
  unfolding transact
  with_buffers data' write func block_mode addr count block_size (some full) (some resp) =
      transact data' write func block_mode addr count block_size full resp
  with_buffers data' write func block_mode addr count block_size _ _ = ret (etranserr, data')

  -- The return code, and the caller's buffer as it is left.
  unfoldable pub cmd53 : Buff → Bool → ℕ → Bool → ℕ → ℕ → M S (ℤ × Buff)
  unfolding with_buffers
  cmd53 data' write func block_mode addr count = do
    block_size ← through (block_size_of block_mode func count)
    let size = full_trans_size write block_mode block_size count
    full ← tops.write_alloc size
    resp ← tops.read_alloc size
    answer ← with_buffers data' write func block_mode addr count block_size full resp
    buff_free full
    buff_free resp
    ret answer
