-- ===== src/Sdio/Block/Room.antt =====
-- Where `sdio_over_spi_cmd53` reads and writes: the frame, the answer and the caller's buffer.
use morsectrl_tools.Prelude.{
  ℕ, zero, suc, ◌+◌, ◌*◌, ◌≤◌, ◌≡◌, refl, ap, ◌∙◌, inl, inr, Bool, true, false, List, length,
  Bool-cases, Option-cases, if◌then◌else◌, u16, ◌^◌, get_or, arith,
}
use morsectrl_tools.Machine.{
  ◌>>=◌, World, done, M, ret, bind_missing, bind_found, Buff, store, load,
}
use morsectrl_tools.Machine.Room.{Holds, SameBuff, SameBuff-trans, store-SameBuff, load-length}
use morsectrl_tools.Util.Crc.{crc16_check}
use morsectrl_tools.Sdio.Frame.{write_block, post_block_delay, total_block_size}
use morsectrl_tools.Sdio.Frame.DataBlock.{length-write_block}
use morsectrl_tools.Sdio.Response.{cmd53_find_token, cmd53_find_ack}
use morsectrl_tools.Sdio.Response.Found.{cmd53_find_token-lt}
use morsectrl_tools.Sdio.Block.{write_offset, write_blocks, process_acks, process_read}

module _ {S : Type 0} where
  pub write_blocks-SameBuff :
      (block_mode : Bool) (block_size left ii : ℕ) (data' full : Buff) (w : World S)
      → Holds (ii * block_size + left * block_size) data'
      → (let total = total_block_size true block_mode block_size in
          Holds (write_offset + (ii * total + left * total)) full)
      → (full' : Buff) × (write_blocks block_mode block_size
            (total_block_size true block_mode block_size)
            left
            ii
            data'
            full
            w
          ≡ done (full', w))
        × SameBuff full' full
  unfolding write_blocks
  write_blocks-SameBuff block_mode block_size zero ii data' full w room room' =
      (full, refl, (refl, refl, refl))
  write_blocks-SameBuff block_mode block_size (suc left) ii data' full w room room' =
      let total = total_block_size true block_mode block_size in
      let (block, loaded, size) =
        load-length data' (ii * block_size) block_size w (omega (arith, room)) in
      let octets = write_block block_mode block (post_block_delay true block_mode) in
      let whole : length octets ≡ total =
        length-write_block block_mode block ∙ ap (total_block_size true block_mode) size in
      let (full1, stored, (at, len, size1)) =
        store-SameBuff full (write_offset + ii * total) octets w (omega (arith, room', whole)) in
      let (full', more, same) =
        write_blocks-SameBuff block_mode block_size left (ii + 1) data' full1 w
          (omega (arith, room)) (omega (arith, room', at, size1)) in
      rw (loaded, stored, more) (full', refl, SameBuff-trans full' full1 full same (at, len, size1))

  pub process_acks-done :
      (total left ii : ℕ) (resp : Buff) (w : World S)
      → Holds (write_offset + (ii * total + left * total)) resp
      → (acked : Bool) × (process_acks total left ii resp w ≡ done (acked, w))
  unfolding process_acks
  process_acks-done total zero ii resp w room = (true, refl)
  process_acks-done total (suc left) ii resp w room =
      let (octets, loaded, _) =
        load-length resp (write_offset + ii * total) total w (omega (arith, room)) in
      elim (Option-cases (cmd53_find_ack octets)) [
        | inl missing ↦
            (false, bind_missing looked_at cmd53_find_ack (ret false) (λ k. more) w loaded missing)
        | inr (k, found) ↦
            let (acked, rest) =
              process_acks-done total left (ii + 1) resp w (omega (arith, room)) in
            (
              acked,
              bind_found looked_at cmd53_find_ack (ret false) (λ k. more) w loaded found ∙ rest,
            )
      ]
    where
      looked_at : M S (List ℕ)
      looked_at = load resp (write_offset + ii * total) total

      more : M S Bool
      more = process_acks total left (ii + 1) resp

  pub process_read-done :
      (delay block_size left ii ptr : ℕ) (resp data' : Buff) (w : World S)
      → resp.data_at + (ptr + left * (delay + block_size + 3)) ≤ length resp.memblock + 2
      → Holds (ii * block_size + left * block_size) data'
      → (good : Bool) × (data'' : Buff) × (process_read delay block_size left ii ptr resp data' w
          ≡ done ((good, data''), w))
        × SameBuff data'' data'
  unfolding process_read
  process_read-done delay block_size zero ii ptr resp data' w room room' =
      (true, data', refl, (refl, refl, refl))
  process_read-done delay block_size (suc left) ii ptr resp data' w room room' =
      let (octets, loaded, size) = load-length resp ptr delay w (omega (arith, room)) in
      elim (Option-cases (cmd53_find_token octets)) [
        | inl missing ↦ (
          false,
          data',
          bind_missing looked_at cmd53_find_token (ret (false, data')) copy_block w loaded missing,
          (refl, refl, refl),
        )
        | inr (k, found) ↦
            let near = cmd53_find_token-lt octets k found in
            let (block, got, block_length) =
              load-length resp (ptr + k) block_size w (omega (arith, room, near, size)) in
            let (sum, got_sum, _) =
              load-length resp (ptr + k + block_size) 2 w (omega (arith, room, near, size)) in
            let here =
              bind_found looked_at cmd53_find_token (ret (false, data')) copy_block w loaded
                found in
            elim (Bool-cases (crc16_check block (u16 (get_or sum 0 0 * 2 ^ 8 + get_or sum 1 0)))) [
              | inr bad ↦ (false, data', here ∙ rw (got, got_sum, bad) refl, (refl, refl, refl))
              | inl right ↦
                  let (data1, stored, (at, len, size1)) =
                    store-SameBuff data' (ii * block_size) block w
                      (omega (arith, room', block_length)) in
                  let (good, data2, rest, same) =
                    process_read-done delay block_size left (ii + 1) (ptr + k + block_size + 4) resp
                      data1 w (omega (arith, room, near, size)) (omega (arith, room', at, size1)) in
                  (
                    good,
                    data2,
                    here ∙ rw (got, got_sum, right, stored) rest,
                    SameBuff-trans data2 data1 data' same (at, len, size1),
                  )
            ]
      ]
    where
      looked_at : M S (List ℕ)
      looked_at = load resp ptr delay

      copy_block : ℕ → M S (Bool × Buff)
      copy_block k = do
        block ← load resp (ptr + k) block_size
        sum ← load resp (ptr + k + block_size) 2
        if crc16_check block (u16 (get_or sum 0 0 * 2 ^ 8 + get_or sum 1 0))
            then (do
              data'' ← store data' (ii * block_size) block
              process_read delay block_size left (ii + 1) (ptr + k + block_size + 4) resp data'')
            else ret (false, data')
