-- ===== src/Ftdi/Answer.antt =====
-- What `ftdi_spi_send` makes of a chip that answers in time.
use morsectrl_tools.Prelude.{
  ℕ, zero, suc, ◌+◌, ◌-◌, ◌*◌, ◌^◌, ◌<◌, ◌≡◌, refl, bit_and, true, false, length, take, drop,
  get_or, ℤ, pos, leb, ◌==◌, u64, arith,
}
use morsectrl_tools.Machine.{World, done, M, Buff, load}
use morsectrl_tools.Machine.Room.{Holds}
use morsectrl_tools.Ftdi.{poll, collect}

-- The length that the response's header gives.
abbrev pub hdr_len : Buff → ℕ
hdr_len b =
    let len = take 2 (drop (b.data_at + 4) b.memblock) in get_or len 0 0 + get_or len 1 0 * 2 ^ 8

module _ {S : Type 0} where
  -- Reading the status register from the first world to the last: so many times without the
  -- response's bit, and then with it.
  pub data AnswersAfter (reg_read : ℕ → M S (ℤ × ℕ)) : ℕ → World S → World S → Type 0 where
    answered :
        (status : ℕ) (w w' : World S)
        → reg_read 0x100A6060 w ≡ done ((pos 0, status), w')
        → (bit_and status 2 == 0) ≡ false
        → AnswersAfter reg_read 0 w w'
    waited :
        (k status : ℕ) (w w1 w' : World S)
        → reg_read 0x100A6060 w ≡ done ((pos 0, status), w1)
        → (bit_and status 2 == 0) ≡ true
        → AnswersAfter reg_read k w1 w'
        → AnswersAfter reg_read (suc k) w w'

  poll-AnswersAfter :
      (reg_read : ℕ → M S (ℤ × ℕ)) (left k : ℕ) (w w' : World S) (r : ℤ)
      → AnswersAfter reg_read k w w'
      → k < left
      → poll reg_read left r w ≡ done ((pos 0, true), w')
  unfolding poll
  poll-AnswersAfter reg_read zero k w w' r answer soon = absurd (omega arith)
  poll-AnswersAfter reg_read (suc left) k w w' r (answered status _ _ read set) soon =
      rw (read, set) refl
  poll-AnswersAfter reg_read (suc left) k w w' r (waited k' status _ w1 _ read unset later) soon =
      rw (read, unset) (poll-AnswersAfter reg_read left k' w1 w' (pos 0) later (omega arith))

  -- A chip that shows its response within 30 reads of the status register, and whose memory can be
  -- read: the part of `ftdi_spi_send` behind the trigger returns 0 and the response as it was read,
  -- with the length of its header.
  pub collect-AnswersAfter :
      (reg_read : ℕ → M S (ℤ × ℕ)) (reg_write : ℕ → ℕ → M S ℤ)
      (mem_read : Buff → ℕ → M S (ℤ × Buff)) (resp read : Buff) (resp_addr k : ℕ) (r cleared : ℤ)
      (w w1 w2 w3 : World S)
      → AnswersAfter reg_read k w w1
      → k < 30
      → mem_read resp resp_addr w1 ≡ done ((pos 0, read), w2)
      → Holds 6 read
      → reg_write 0x100A6068 2 w2 ≡ done (cleared, w3)
      → collect reg_read reg_write mem_read resp resp_addr r w
        ≡ done ((pos 0, record read { data_len = u64 (hdr_len read + 2 ^ 64 - 4) }), w3)
  unfolding collect load
  collect-AnswersAfter reg_read reg_write mem_read resp read resp_addr k r cleared w w1 w2 w3 answer
        soon got room wrote =
      let polled = poll-AnswersAfter reg_read 30 k w w1 r answer soon in
      let inside : leb (read.data_at + 4 + 2) (length read.memblock) ≡ true = ground arith in
      rw (polled, got, wrote, inside) refl
