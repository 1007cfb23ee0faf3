-- ===== src/Sdio/Block/Balance.antt =====
-- `sdio_over_spi_cmd53` from its buffers to its code, on a bus that can transfer.
use morsectrl_tools.Prelude.{
  ℕ, zero, suc, ◌+◌, ◌-◌, ◌*◌, ◌≤◌, ◌<◌, ◌≡◌, refl, ◌∙◌, inl, inr, Bool, true, false, replicate,
  length-replicate, none, some, ℤ, is_nonzero, Bool-cases, Option-cases, if◌then◌else◌, arith,
}
use morsectrl_tools.Machine.{
  ◌>>=◌, World, done, M, ret, bind_missing, bind_found, Buff, load, through,
}
use morsectrl_tools.Machine.Room.{Holds, SameBuff, store-SameBuff, load-length}
use morsectrl_tools.Transport.{TransportOps, buff_free, etranserr}
use morsectrl_tools.Sdio.Frame.{
  junk_token, hdr_len, cmd53_hdr, cmd_hdr, post_block_delay, total_block_size, full_trans_size,
}
use morsectrl_tools.Sdio.Response.{cmd_find_resp}
use morsectrl_tools.Sdio.Command.Exchange.{Bus}
use morsectrl_tools.Sdio.Block.{
  write_offset, cmd53_start, fill_frame, process_answer, transact, with_buffers, cmd53,
  block_size_of,
}
use morsectrl_tools.Sdio.Block.Room.{write_blocks-SameBuff, process_acks-done, process_read-done}

-- `loop_count`
abbrev pub blocks : Bool → ℕ → ℕ
blocks block_mode count = if block_mode then count else 1

-- Block mode moves one block at least: without one the frame is shorter than its cleared front. It
-- reads at most six: with more, tokens that come late lead the search behind the answer.
abbrev pub FewBlocks : Bool → Bool → ℕ → Type 0
FewBlocks write false count = Unit {0}
FewBlocks true true count = 1 ≤ count
FewBlocks false true count = (1 ≤ count) × (count ≤ 6)

full_trans_size-write :
    (block_mode : Bool) (block_size count : ℕ)
    → full_trans_size true block_mode block_size count
      ≡ write_offset + blocks block_mode count * total_block_size true block_mode block_size
unfolding full_trans_size
full_trans_size-write true block_size count = omega arith
full_trans_size-write false block_size count = omega arith

full_trans_size-read :
    (block_mode : Bool) (block_size count : ℕ)
    → 11 ≤ full_trans_size false block_mode block_size count
unfolding full_trans_size
full_trans_size-read true block_size count = omega arith
full_trans_size-read false block_size count = omega arith

-- The answer of a read is as long as the search for its blocks may look.
read_room :
    (block_mode : Bool) (block_size count : ℕ)
    → FewBlocks false block_mode count
    → 11 + blocks block_mode count * (post_block_delay false block_mode + block_size + 3)
      ≤ full_trans_size false block_mode block_size count + 2
unfolding full_trans_size total_block_size post_block_delay
read_room true block_size count (one, few) = omega (arith, one, few)
read_room false block_size count few = omega arith

-- The frame has room for what `sdio_over_spi_prep_cmd` writes.
start_room :
    (write block_mode : Bool) (block_size count : ℕ)
    → FewBlocks write block_mode count
    → 20 ≤ full_trans_size write block_mode block_size count
unfolding full_trans_size total_block_size post_block_delay
start_room true true block_size (suc count) few = omega arith
start_room true true block_size zero few = absurd (omega (arith, few))
start_room true false block_size count few = omega arith
start_room false true block_size (suc count) few = omega arith
start_room false true block_size zero (one, few) = absurd (omega (arith, one))
start_room false false block_size count few = omega arith

module _ {S : Type 0} (tops : TransportOps S) where
  fill_frame-SameBuff :
      (data' full : Buff) (write : Bool) (func : ℕ) (block_mode : Bool) (addr count block_size : ℕ)
      (w : World S)
      → FewBlocks write block_mode count
      → Holds (blocks block_mode count * block_size) data'
      → full.data_len ≡ full_trans_size write block_mode block_size count
      → Holds full.data_len full
      → (full' : Buff) × (fill_frame tops data' write func block_mode addr count block_size full w
          ≡ done (full', w))
        × SameBuff full' full
  unfolding fill_frame cmd53_start cmd53_hdr cmd_hdr
  fill_frame-SameBuff data' full true func block_mode addr count block_size w few room size whole =
      let need = full_trans_size-write block_mode block_size count in
      let (full1, hdr, (at, len, size1)) =
        store-SameBuff full 0 (cmd53_start true func block_mode addr count) w
          (omega (arith, whole, size, start_room true block_mode block_size count few)) in
      let (full2, junk, (at', len', size2)) =
        store-SameBuff full1 hdr_len (replicate (write_offset - hdr_len) junk_token) w
          (omega (arith, whole, size, need, at, size1)) in
      let (full3, rest, (at'', len'', size3)) =
        write_blocks-SameBuff block_mode block_size (blocks block_mode count) 0 data' full2 w
          (omega (arith, room)) (omega (arith, whole, size, need, at, size1, at', size2)) in
      rw (hdr, junk, rest)
        (full3, refl, (at'' ∙ at' ∙ at, len'' ∙ len' ∙ len, size3 ∙ size2 ∙ size1))
  fill_frame-SameBuff data' full false func block_mode addr count block_size w few room size whole =
      let need = full_trans_size-read block_mode block_size count in
      let (full1, hdr, (at, len, size1)) =
        store-SameBuff full 0 (cmd53_start false func block_mode addr count) w
          (omega (arith, whole, size, start_room false block_mode block_size count few)) in
      let fill = length-replicate (full1.data_len - hdr_len) junk_token in
      let (full2, junk, (at', len', size2)) =
        store-SameBuff full1 hdr_len (replicate (full1.data_len - hdr_len) junk_token) w
          (omega (arith, fill, whole, size, need, len, at, size1)) in
      rw (hdr, junk) (full2, refl, (at' ∙ at, len' ∙ len, size2 ∙ size1))

  process_answer-done :
      (data' resp : Buff) (write block_mode : Bool) (count block_size : ℕ) (w : World S)
      → FewBlocks write block_mode count
      → Holds (blocks block_mode count * block_size) data'
      → Holds (full_trans_size write block_mode block_size count) resp
      → (r : ℤ) × (data'' : Buff) × (process_answer tops data' write block_mode count block_size
            resp w
          ≡ done ((r, data''), w))
        × SameBuff data'' data'
  unfolding process_answer
  process_answer-done data' resp true block_mode count block_size w few room whole =
      let need = full_trans_size-write block_mode block_size count in
      let (acked, acks) =
        process_acks-done (total_block_size true block_mode block_size) (blocks block_mode count) 0
          resp w (omega (arith, whole, need)) in
      rw acks (_, data', refl, (refl, refl, refl))
  process_answer-done data' resp false block_mode count block_size w few room whole =
      let need = read_room block_mode block_size count few in
      let (good, data'', read, same) =
        process_read-done (post_block_delay false block_mode) block_size (blocks block_mode count) 0
          11 resp data' w (omega (arith, whole, need)) (omega (arith, room)) in
      rw read (_, data'', refl, same)

  large :
      (write block_mode : Bool) (block_size count : ℕ)
      → 11 ≤ full_trans_size write block_mode block_size count
  large true block_mode block_size count =
      omega (arith, full_trans_size-write block_mode block_size count)
  large false block_mode block_size count = full_trans_size-read block_mode block_size count

  -- From the search for the response on.
  abbrev checked : Buff → Buff → Bool → Bool → ℕ → ℕ → M S (ℤ × Buff)
  checked data' resp write block_mode count block_size = do
    octets ← load resp hdr_len 4
    elim (cmd_find_resp octets) [
      | none ↦ ret (etranserr, data')
      | some k ↦ process_answer tops data' write block_mode count block_size resp
    ]

  checked-done :
      (data' resp : Buff) (write block_mode : Bool) (count block_size : ℕ) (w : World S)
      → FewBlocks write block_mode count
      → Holds (blocks block_mode count * block_size) data'
      → Holds (full_trans_size write block_mode block_size count) resp
      → (r : ℤ) × (data'' : Buff) × (checked data' resp write block_mode count block_size w
          ≡ done ((r, data''), w))
        × SameBuff data'' data'
  checked-done data' resp write block_mode count block_size w few room whole =
      let (octets, loaded, _) =
        load-length resp hdr_len 4 w
          (omega (arith, whole, large write block_mode block_size count)) in
      elim (Option-cases (cmd_find_resp octets)) [
        | inl missing ↦ (
          etranserr,
          data',
          bind_missing (load resp hdr_len 4) cmd_find_resp (ret (etranserr, data')) (λ k. rest) w
              loaded missing,
          (refl, refl, refl),
        )
        | inr (k, found) ↦
            let (r, data'', processed, same) =
              process_answer-done data' resp write block_mode count block_size w few room whole in
            let here =
              bind_found (load resp hdr_len 4) cmd_find_resp (ret (etranserr, data')) (λ k. rest) w
                loaded found in
            (r, data'', here ∙ processed, same)
      ]
    where
      rest : M S (ℤ × Buff)
      rest = process_answer tops data' write block_mode count block_size resp

  -- From the transfer on.
  abbrev sent : Buff → Buff → Buff → Bool → Bool → ℕ → ℕ → M S (ℤ × Buff)
  sent data' full resp write block_mode count block_size = do
    raw ← through tops.raw_read_write
    answer ← raw resp full true true
    if is_nonzero answer.0
        then ret (answer.0, data')
        else checked data' answer.1 write block_mode count block_size

  module _ (bus : Bus tops) where
    sent-done :
        (data' full resp : Buff) (write block_mode : Bool) (count block_size : ℕ) (w : World S)
        → FewBlocks write block_mode count
        → Holds (blocks block_mode count * block_size) data'
        → Holds full.data_len full
        → resp.data_len ≡ full_trans_size write block_mode block_size count
        → Holds resp.data_len resp
        → (r : ℤ) × (data'' : Buff) × (w' : World S) × (sent data' full resp write block_mode count
              block_size w
            ≡ done ((r, data''), w'))
          × SameBuff data'' data'
          × (w'.live ≡ w.live)
    unfolding through
    sent-done data' full resp write block_mode count block_size w few room whole size' whole' =
        let there = bus.raw_read_write-transfer in
        let (r, resp', w', moved, (at', len', size2), same) =
          bus.transfers resp full true true w whole' whole in
        elim (Bool-cases (is_nonzero r)) [
          | inl bad ↦ rw (there, moved, bad) (r, data', w', refl, (refl, refl, refl), same)
          | inr good ↦
              let (r', data'', answered, kept) =
                checked-done data' resp' write block_mode count block_size w' few room
                  (omega (arith, whole', size', at', size2)) in
              rw (there, moved, good) (r', data'', w', answered, kept, same)
        ]

    transact-done :
        (data' full resp : Buff) (write : Bool) (func : ℕ) (block_mode : Bool)
        (addr count block_size : ℕ) (w : World S)
        → FewBlocks write block_mode count
        → Holds (blocks block_mode count * block_size) data'
        → full.data_len ≡ full_trans_size write block_mode block_size count
        → Holds full.data_len full
        → resp.data_len ≡ full_trans_size write block_mode block_size count
        → Holds resp.data_len resp
        → (r : ℤ) × (data'' : Buff) × (w' : World S) × (transact tops data' write func block_mode
              addr count block_size full resp w
            ≡ done ((r, data''), w'))
          × SameBuff data'' data'
          × (w'.live ≡ w.live)
    unfolding transact
    transact-done data' full resp write func block_mode addr count block_size w few room size whole
          size' whole' =
        let (full', filled, (at, len, size1)) =
          fill_frame-SameBuff data' full write func block_mode addr count block_size w few room size
            whole in
        rw filled (
          sent-done data' full' resp write block_mode count block_size w few room
            (omega (arith, whole, at, len, size1)) size' whole')

    -- On such a bus, with room in the caller's buffer for the blocks, in block mode one at least, and
    -- for a read in block mode at most six, `sdio_over_spi_cmd53` returns, whatever the chip answers: it reads and writes
    -- inside its buffers only, leaves the caller's in its place and size, and leaves as many buffers
    -- allocated as it found.
    pub cmd53-balanced :
        (data' : Buff) (write : Bool) (func : ℕ) (block_mode : Bool) (addr count block_size : ℕ)
        (w : World S)
        → block_size_of block_mode func count ≡ some block_size
        → FewBlocks write block_mode count
        → Holds (blocks block_mode count * block_size) data'
        → (r : ℤ) × (data'' : Buff) × (w' : World S) × (cmd53 tops data' write func block_mode addr
              count w
            ≡ done ((r, data''), w'))
          × SameBuff data'' data'
          × (w'.live ≡ w.live)
    unfolding cmd53 with_buffers buff_free through
    cmd53-balanced data' write func block_mode addr count block_size w known few room =
        let size = full_trans_size write block_mode block_size count in
        let positive : 0 < size = omega (arith, large write block_mode block_size count) in
        let (full, w1, alloc, whole, len, more) = bus.write_allocates size w positive in
        elim (bus.read_allocates size w1 positive) [
          | inr (w2, refused, same) ↦
              rw (known, alloc, refused)
                (etranserr, data', _, refl, (refl, refl, refl), omega (arith, more, same))
          | inl (resp, w2, alloc', whole', len', more') ↦
              let (r, data'', w3, moved, kept, same) =
                transact-done data' full resp write func block_mode addr count block_size w2 few
                  room len (omega (arith, whole, len)) len' (omega (arith, whole', len')) in
              rw (known, alloc, alloc', moved)
                (r, data'', _, refl, kept, omega (arith, more, more', same))
        ]
