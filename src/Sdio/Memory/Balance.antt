-- ===== src/Sdio/Memory/Balance.antt =====
-- `sdio_over_spi_memblock_common` on a bus that can transfer.
use morsectrl_tools.Prelude.{
  ℕ, zero, suc, ◌+◌, ◌-◌, ◌*◌, ◌/◌, ◌%◌, ◌^◌, ◌≤◌, ◌<◌, ◌≡◌, refl, ◌∙◌, ◌⊎◌, inl, inr, Bool, true,
  false, length, min, leb, ℤ, is_nonzero, ◌==◌, Bool-cases, if◌then◌else◌, u16, u32, bit_and, ◌>>>◌,
  arith,
}
use morsectrl_tools.Machine.{World, done, M, ret, Buff}
use morsectrl_tools.Machine.Room.{Holds, SameBuff}
use morsectrl_tools.Transport.{TransportOps, etranssucc}
use morsectrl_tools.Sdio.Frame.{cmd52_frame, short_frame, cmd_hdr, max_block_size}
use morsectrl_tools.Sdio.Command.{cmd52}
use morsectrl_tools.Sdio.Command.Exchange.{Bus, exchange-balanced}
use morsectrl_tools.Sdio.Block.{cmd53, block_size_of}
use morsectrl_tools.Sdio.Block.Balance.{FewBlocks, cmd53-balanced}
use morsectrl_tools.Sdio.Memory.{
  align_size, advance, setup_keyhole, transfer_section, section_size, sections_loop,
  memblock_common,
}
use morsectrl_tools.Sdio.Memory.Tiling.{section_size-eq-min}

-- Any length may be written; what is read stays below seven blocks.
abbrev pub Movable : Bool → ℕ → Type 0
Movable true n = Unit {0}
Movable false n = n < 7 * max_block_size

Movable-le : (write : Bool) (n n' : ℕ) → n' ≤ n → Movable write n → Movable write n'
Movable-le true n n' le few = tt
Movable-le false n n' le few = omega arith

Movable-FewBlocks :
    (write : Bool) (n : ℕ)
    → Movable write n
    → (n / max_block_size == 0) ≡ false
    → n ≤ 2 ^ 16
    → FewBlocks write true (u16 (n / max_block_size))
Movable-FewBlocks true n few some_blocks section = ground (arith, some_blocks, section)
Movable-FewBlocks false n few some_blocks section =
    (ground (arith, some_blocks), omega (arith, few))

pub align_size-eq : (n : ℕ) → align_size n 4 ≡ (n + 3) / 4 * 4
unfolding align_size
align_size-eq n = ground arith

-- Behind a section there is nothing left, or the next one begins at a word.
abbrev Word : ℕ → ℕ → Type 0
Word addr remaining = (addr % 4 ≡ 0) ⊎ (remaining ≡ 0)

Word-next :
    (addr n size : ℕ)
    → Word addr (suc n)
    → addr + suc n < 2 ^ 32
    → size ≡ min (2 ^ 16 - addr % 2 ^ 16) (suc n)
    → Word (u32 (addr + size)) (suc n - size)
Word-next addr n size (inr nothing) fits cut = absurd (omega arith)
Word-next addr n size (inl word) fits cut =
    elim (Bool-cases (leb (suc n) (2 ^ 16 - addr % 2 ^ 16))) [
      | inl last ↦ inr (ground arith)
      | inr later ↦
          let short : 2 ^ 16 - addr % 2 ^ 16 < suc n = ground arith in
          inl (omega (arith, word, cut, short))
    ]

module _ {S : Type 0} (tops : TransportOps S) (bus : Bus tops) where
  -- A step with a code and the caller's buffer returns, and the buffer is where it was.
  abbrev Keeps : M S (ℤ × Buff) → Buff → World S → Type 0
  Keeps m buff w =
      (r : ℤ) × (buff' : Buff) × (w' : World S) × (m w ≡ done ((r, buff'), w'))
      × SameBuff buff' buff
      × (w'.live ≡ w.live)

  pub cmd52-balanced :
      (write : Bool) (func addr octet : ℕ) (w : World S)
      → (r : ℤ) × (w' : World S) × (cmd52 tops write func addr octet w ≡ done (r, w'))
        × (w'.live ≡ w.live)
  unfolding cmd52 cmd52_frame short_frame cmd_hdr
  cmd52-balanced write func addr octet w =
      exchange-balanced tops bus 52 (cmd52_frame write func addr octet) w (inr refl) refl

  setup_keyhole-balanced :
      (addr size : ℕ) (w : World S)
      → (r : ℤ) × (w' : World S) × (setup_keyhole tops addr size w ≡ done (r, w'))
        × (w'.live ≡ w.live)
  unfolding setup_keyhole
  setup_keyhole-balanced addr size w =
      let (r0, w0, first, same0) = cmd52-balanced true 2 0x10000 (bit_and (addr >>> 16) 0xFF) w in
      let (r1, w1, second, same1) = cmd52-balanced true 2 0x10001 (bit_and (addr >>> 24) 0xFF) w0 in
      let (r2, w2, third, same2) = cmd52-balanced true 2 0x10002 (bit_and size 0x3) w1 in
      elim (Bool-cases (is_nonzero r0)) [
        | inl bad ↦ rw (first, bad) (r0, w0, refl, same0)
        | inr good ↦ elim (Bool-cases (is_nonzero r1)) [
          | inl bad ↦ rw (first, good, second, bad) (r1, w1, refl, same1 ∙ same0)
          | inr good1 ↦ rw (first, good, second, good1, third) (r2, w2, refl, same2 ∙ same1 ∙ same0)
        ]
      ]

  -- The whole blocks of a section, if there are any.
  blocks-Keeps :
      (buff : Buff) (write : Bool) (addr size : ℕ) (r : ℤ) (w : World S)
      → Holds (size / max_block_size * max_block_size) buff
      → Movable write size
      → size ≤ 2 ^ 16
      → Keeps
          (if size / max_block_size == 0
            then ret (r, buff)
            else cmd53 tops buff write 2 true addr (u16 (size / max_block_size)))
          buff
          w
  unfolding block_size_of
  blocks-Keeps buff write addr size r w room few section =
      elim (Bool-cases (size / max_block_size == 0)) [
        | inl no_blocks ↦ rw no_blocks (r, buff, w, refl, (refl, refl, refl), refl)
        | inr some_blocks ↦ rw some_blocks (
            cmd53-balanced tops bus buff write 2 true addr (u16 (size / max_block_size))
              max_block_size w refl (Movable-FewBlocks write size few some_blocks section)
              (omega (arith, room)))
      ]

  -- The octets behind them.
  octets-Keeps :
      (buff : Buff) (write : Bool) (addr octets : ℕ) (r : ℤ) (w : World S)
      → Holds (align_size octets 4) buff
      → octets < max_block_size
      → Keeps
          (if octets == 0
            then ret (r, buff)
            else cmd53 tops buff write 2 false addr (u16 (align_size octets 4)))
          buff
          w
  unfolding block_size_of
  octets-Keeps buff write addr octets r w room few = elim (Bool-cases (octets == 0)) [
    | inl no_octets ↦ rw no_octets (r, buff, w, refl, (refl, refl, refl), refl)
    | inr some_octets ↦ rw some_octets (
        cmd53-balanced tops bus buff write 2 false addr (u16 (align_size octets 4))
          (u16 (align_size octets 4)) w refl tt (omega (arith, room, align_size-eq octets)))
  ]

  transfer_section-done :
      (buff : Buff) (write : Bool) (addr size : ℕ) (r : ℤ) (w : World S)
      → Holds (align_size size 4) buff
      → Movable write size
      → size ≤ 2 ^ 16
      → (r' : ℤ) × (buff' : Buff) × (w' : World S) × (transfer_section tops buff write addr size r w
          ≡ done ((r', buff'), w'))
        × (buff'.data_at ≡ buff.data_at + size)
        × (length buff'.memblock ≡ length buff.memblock)
        × (w'.live ≡ w.live)
  unfolding transfer_section
  transfer_section-done buff write addr size r w room few section =
      let octets = size % max_block_size in
      let (r1, buff1, w1, first, (at, len, size1), same) =
        blocks-Keeps buff write addr size r w (omega (arith, room, align_size-eq size)) few
          section in
      let rest = advance (size - octets) buff1 in
      let (r2, buff2, w2, second, (at', len', size2), same') =
        octets-Keeps rest write (u32 (addr + size - octets)) octets r1 w1
          (omega (arith, room, at, size1, align_size-eq size, align_size-eq octets))
          (omega arith) in
      rw (first, second)
        (r2, advance octets buff2, w2, refl, omega (arith, at', at), size2 ∙ size1, same' ∙ same)

  -- The data pointer may be left elsewhere with a code only.
  sections_loop-done :
      (fuel : ℕ) (buff : Buff) (write : Bool) (addr remaining : ℕ) (r : ℤ) (w : World S)
      → Holds (align_size remaining 4) buff
      → Movable write remaining
      → Word addr remaining
      → addr + remaining < 2 ^ 32
      → (r' : ℤ) × (buff' : Buff) × (whole : Bool) × (w' : World S) × (sections_loop tops fuel buff
            write addr remaining r w
          ≡ done ((r', buff', whole), w'))
        × ((whole ≡ true) ⊎ (is_nonzero r' ≡ true))
        × (length buff'.memblock ≡ length buff.memblock)
        × (w'.live ≡ w.live)
  unfolding sections_loop
  sections_loop-done zero buff write addr remaining r w room few word fits =
      (r, buff, true, w, refl, inl refl, refl, refl)
  sections_loop-done (suc fuel) buff write addr zero r w room few word fits =
      (r, buff, true, w, refl, inl refl, refl, refl)
  sections_loop-done (suc fuel) buff write addr (suc n) r w room few word fits =
      let size = section_size addr (suc n) in
      let cut = section_size-eq-min addr (suc n) (omega arith) (omega arith) in
      let (k, w1, set, same) = setup_keyhole-balanced addr 2 w in
      elim (Bool-cases (is_nonzero k)) [
        | inl refused ↦ rw (set, refused) (k, buff, false, w1, refl, inr refused, refl, same)
        | inr ready ↦
            let (r1, buff1, w2, moved, at, len, same') =
              transfer_section-done buff write addr size k w1
                (omega (arith, room, cut, align_size-eq (suc n), align_size-eq size))
                (Movable-le write (suc n) size (omega (arith, cut)) few) (omega (arith, cut)) in
            let (r', buff', whole, w3, more, state, len', same'') =
              sections_loop-done fuel buff1 write (u32 (addr + size)) (suc n - size) r1 w2
                (omega (
                  arith,
                  room,
                  cut,
                  at,
                  len,
                  word,
                  align_size-eq (suc n),
                  align_size-eq (suc n - size),
                ))
                (Movable-le write (suc n) (suc n - size) (omega arith) few)
                (Word-next addr n size word fits cut) (omega (arith, cut)) in
            rw (set, ready, moved, more)
              (r', buff', whole, w3, refl, state, len' ∙ len, same'' ∙ same' ∙ same)
      ]

  -- On such a bus, for an address of a word and a range below the top of the address space, with room
  -- for the words of the buffer, `sdio_over_spi_memblock_common` returns, whatever the chip answers,
  -- for any length to write and for less than seven blocks to read: it reads and writes inside its
  -- buffers only and leaves as many buffers allocated as it found. The caller's buffer is of the same
  -- size, and it is where it was, or the code is not 0.
  pub memblock_common-balanced :
      (buff : Buff) (write : Bool) (addr : ℕ) (w : World S)
      → Holds (align_size buff.data_len 4) buff
      → Movable write buff.data_len
      → addr % 4 ≡ 0
      → addr + buff.data_len < 2 ^ 32
      → (r : ℤ) × (buff' : Buff) × (w' : World S) × (memblock_common tops buff write addr w
          ≡ done ((r, buff'), w'))
        × ((buff'.data_at ≡ buff.data_at) ⊎ (is_nonzero r ≡ true))
        × (length buff'.memblock ≡ length buff.memblock)
        × (w'.live ≡ w.live)
  unfolding memblock_common
  memblock_common-balanced buff write addr w room few word fits =
      let (r, buff', whole, w', run, state, len, same) =
        sections_loop-done buff.data_len buff write addr buff.data_len etranssucc w room few
          (inl word) fits in
      elim (Bool-cases whole) [
        | inl all ↦ rw (run, all) (r, _, w', refl, inl refl, len, same)
        | inr early ↦
            let bad : is_nonzero r ≡ true = elim state [ inl all ↦ absurd (cc) | inr bad ↦ bad ] in
            rw (run, early) (r, buff', w', refl, inr bad, len, same)
      ]
