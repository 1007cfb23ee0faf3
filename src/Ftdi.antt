-- ===== src/Ftdi.antt =====
-- transport/ftdi_spi.c: buffers, the full-duplex exchange and the sending of a command through the
-- chip's memory. Libmpsse and libc are parameters; sleeping is left out.
pub mod Timeout
pub mod Parse
pub mod Answer
pub mod Library
pub mod Channels
pub mod Lines
pub mod Table
use morsectrl_tools.Prelude.{
  ℕ, zero, suc, ◌+◌, ◌-◌, ◌*◌, ◌/◌, ◌%◌, ◌^◌, min, bit_and, Bool, true, false, List, [], ◌∷◌,
  replicate, get_or, Option, none, some, ℤ, pos, neg, is_nonzero, ◌==◌, not, if◌then◌else◌, u32,
  u64,
}
use morsectrl_tools.Machine.{M, ◌>>=◌, ◌>>◌, ret, World, done, Buff, overwrite, store, load}
use morsectrl_tools.Transport.{TransportOps, etranssucc}
use morsectrl_tools.Sdio.Memory.{align_size}

-- `-ETRANSFTDISPIERR`
abbrev pub etransftdispierr : ℤ
etransftdispierr = neg 4

module _ {S : Type 0} where
  -- A buffer comes to life.
  abbrev born : Buff → M S (Option Buff)
  born b w = done (some b, record w { live = w.live + 1 })

  -- `ftdi_spi_alloc` over `malloc`, which gives what the memory held. `handle` is the size of
  -- `struct morsectrl_transport_buff`. The tests of the transport's type are left out.
  unfoldable pub alloc : (ℕ → M S (Option (List ℕ))) → ℕ → ℕ → M S (Option Buff)
  alloc malloc handle size =
      let aligned = align_size size 4 in
      if size == 0 then ret none else do
        buff ← malloc handle
        elim buff [
          | none ↦ ret none
          | some h ↦ do
            block ← malloc aligned
            elim block [
              | none ↦ ret none
              | some memory ↦ born (record {
                memblock = overwrite size (replicate (aligned - size) 0xFF) memory;
                data_at = 0;
                data_len = size;
              })
            ]
        ]

  -- `ftdi_spi_raw_read_write`. `SPI_ReadWrite` takes the octets to send and the options, and gives
  -- its status, how many octets it transferred, and what it read.
  unfoldable pub raw_read_write :
      (List ℕ → ℕ → M S (ℕ × ℕ × List ℕ)) → Buff → Buff → Bool → Bool → M S (ℤ × Buff)
  raw_read_write spi_read_write read write start finish = do
    let transfer_size = min read.data_len write.data_len
    let options = (if start then 2 else 0) + (if finish then 4 else 0)
    octets ← load write 0 transfer_size
    answer ← spi_read_write octets options
    read' ← store read 0 answer.2
    ret (
      if answer.0 == 0
          then (if answer.1 == transfer_size then etranssucc else etransftdispierr)
          else etransftdispierr,
      read',
    )

  -- The poll for the response, with `left` rounds to go. The flag says that the bit was seen.
  pub poll : (ℕ → M S (ℤ × ℕ)) → ℕ → ℤ → M S (ℤ × Bool)
  poll reg_read zero r = ret (r, false)
  poll reg_read (suc left) r = do
    status ← reg_read 0x100A6060
    if is_nonzero status.0
        then ret (status.0, false)
        else (if bit_and status.1 2 == 0 then poll reg_read left status.0 else ret (status.0, true))

  -- What follows the trigger: `RESP_TIMEOUT_MS` in steps of `RESP_POLL_INTERVAL_MS` are 30 rounds.
  -- Every failure returns the last code.
  unfoldable pub collect :
      (ℕ → M S (ℤ × ℕ))
      → (ℕ → ℕ → M S ℤ)
      → (Buff → ℕ → M S (ℤ × Buff))
      → Buff
      → ℕ
      → ℤ
      → M S (ℤ × Buff)
  unfolding poll
  collect reg_read reg_write mem_read resp resp_addr r = do
    polled ← poll reg_read 30 r
    if not polled.1 then ret (polled.0, resp) else (do
      answer ← mem_read resp resp_addr
      if is_nonzero answer.0 then ret answer else (do
        reg_write 0x100A6068 2
        len ← load answer.1 4 2
        let hdr_len = get_or len 0 0 + get_or len 1 0 * 2 ^ 8
        let resp' = answer.1
        ret (etranssucc, record resp' { data_len = u64 (hdr_len + 2 ^ 64 - 4) })))

  -- From the host table to the trigger; the result is the response's address.
  unfoldable pub submit :
      (ℕ → M S (ℤ × ℕ)) → (ℕ → ℕ → M S ℤ) → (Buff → ℕ → M S ℤ) → Buff → M S (ℤ × ℕ)
  submit reg_read reg_write mem_write cmd = do
    host ← reg_read 0x10054d40
    if is_nonzero host.0 then ret host else (do
      at ← reg_read (u32 (host.1 + 16))
      if is_nonzero at.0
          then ret at
          else (if at.1 == 0 then ret (etransftdispierr, 0) else (do
            back ← reg_read (u32 (host.1 + 20))
            if is_nonzero back.0 then ret back else (do
              cleared ← reg_write 0x100A6068 2
              if is_nonzero cleared then ret (cleared, 0) else (do
                written ← mem_write cmd at.1
                if is_nonzero written
                    then ret (written, 0)
                    else (do triggered ← reg_write 0x100A6010 2; ret (triggered, back.1)))))))

  -- `ftdi_spi_send`
  unfoldable pub send : TransportOps S → Buff → Buff → M S (ℤ × Buff)
  unfolding submit collect
  send tops cmd resp = elim tops.reg_read [
    | none ↦ ret (etransftdispierr, resp)
    | some reg_read ↦ elim tops.reg_write [
      | none ↦ ret (etransftdispierr, resp)
      | some reg_write ↦ elim tops.mem_read [
        | none ↦ ret (etransftdispierr, resp)
        | some mem_read ↦ elim tops.mem_write [
          | none ↦ ret (etransftdispierr, resp)
          | some mem_write ↦ do
            submitted ← submit reg_read reg_write mem_write cmd
            if is_nonzero submitted.0
                then ret (submitted.0, resp)
                else collect reg_read reg_write mem_read resp submitted.1 submitted.0
        ]
      ]
    ]
  ]
