-- ===== src/Ftdi/Timeout.antt =====
-- What `ftdi_spi_send` makes of a chip that does not answer.
use morsectrl_tools.Prelude.{ℕ, zero, suc, ◌≡◌, refl, bit_and, true, false, ℤ, pos, ◌==◌, ==_iff}
use morsectrl_tools.Machine.{World, done, M, Buff}
use morsectrl_tools.Ftdi.{poll, collect}

module _ {S : Type 0} where
  -- A status register that can be read and whose response bit is never set.
  abbrev pub Silent : (ℕ → M S (ℤ × ℕ)) → Type 0
  Silent reg_read =
      (w : World S)
      → (status : ℕ) × (w' : World S) × (reg_read 0x100A6060 w ≡ done ((pos 0, status), w'))
        × (bit_and status 2 ≡ 0)

  -- Any number of polls of such a chip from the code 0 ends without the bit, under the code 0.
  poll-Silent :
      (reg_read : ℕ → M S (ℤ × ℕ)) (left : ℕ) (w : World S)
      → Silent reg_read
      → (w' : World S) × (poll reg_read left (pos 0) w ≡ done ((pos 0, false), w'))
  unfolding poll
  poll-Silent reg_read zero w silent = (w, refl)
  poll-Silent reg_read (suc left) w silent =
      let (status, w1, read, unset) = silent w in
      let (w', later) = poll-Silent reg_read left w1 silent in
      let test : (bit_and status 2 == 0) ≡ true = (==_iff (bit_and status 2) 0).1 unset in
      rw (read, test) (w', later)

  -- A chip whose status register can be read and never shows a response: the part of `ftdi_spi_send`
  -- behind the trigger returns all the same, with the code 0 of a success and the response buffer
  -- untouched.
  pub collect-Silent :
      (reg_read : ℕ → M S (ℤ × ℕ)) (reg_write : ℕ → ℕ → M S ℤ)
      (mem_read : Buff → ℕ → M S (ℤ × Buff)) (resp : Buff) (resp_addr : ℕ) (w : World S)
      → Silent reg_read
      → (w' : World S) × (collect reg_read reg_write mem_read resp resp_addr (pos 0) w
          ≡ done ((pos 0, resp), w'))
  unfolding collect
  collect-Silent reg_read reg_write mem_read resp resp_addr w silent =
      let (w', polled) = poll-Silent reg_read 30 w silent in rw polled (w', refl)
