-- ===== src/Sdio/Frame/DataBlock.antt =====
-- The card's side of a data block: start token, data, checksum.
use morsectrl_tools.Prelude.{
  ℕ, ◌+◌, ◌*◌, ◌/◌, ◌^◌, bit_and, ◌≡◌, refl, ap, Bool, true, List, [], ◌∷◌, ◌++◌, Option, none,
  some, length, length-append, length-replicate, take, drop, replicate, get_or, arith, ==_iff,
  if◌then◌else◌, u8, ◌<◌,
}
use mathlib.Core.List.{append_assoc}
use morsectrl_tools.Prelude.Bits.{bit_and_mask}
use morsectrl_tools.Util.Crc.{crc16_gen, crc16_check}
use morsectrl_tools.Util.Crc.Crc16.{crc16_gen-eq-divide}
use morsectrl_tools.Util.Crc.Register.{message_bits, divide-lt}
use morsectrl_tools.Sdio.Frame.{write_block, total_block_size, post_block_delay, junk_token}

-- A block of `n` octets behind a start token: the token, and the block if its checksum holds.
abbrev pub decode_block : ℕ → List ℕ → Option (ℕ × List ℕ)
decode_block n frame =
    let block = take n (drop 1 frame) in
    let sum = drop n (drop 1 frame) in
    if crc16_check block (get_or sum 0 0 * 2 ^ 8 + get_or sum 1 0)
    then some (get_or frame 0 0, block)
    else none

pub take-append {ℓ} : {A : Type ℓ} (xs ys : List A) → take (length xs) (xs ++ ys) ≡ xs
take-append [] ys = refl
take-append (x ∷ xs) ys = ap (◌∷◌ x) (take-append xs ys)

pub drop-append {ℓ} : {A : Type ℓ} (xs ys : List A) → drop (length xs) (xs ++ ys) ≡ ys
drop-append [] ys = refl
drop-append (x ∷ xs) ys = drop-append xs ys

crc16_check_self : (buff : List ℕ) → crc16_check buff (crc16_gen buff) ≡ true
unfolding crc16_check
crc16_check_self buff = (==_iff (crc16_gen buff) (crc16_gen buff)).1 refl

pub crc16_gen-lt : (buff : List ℕ) → crc16_gen buff < 2 ^ 16
crc16_gen-lt buff =
    rw crc16_gen-eq-divide (divide-lt 15 0x810 (omega arith) (message_bits buff) 0 (omega arith))

-- The card reads back the block that the host wrote, whatever follows it, behind the token of
-- the mode.
pub decode-write_block :
    (block_mode : Bool) (block : List ℕ) (delay : ℕ) (rest : List ℕ)
    → decode_block (length block) (write_block block_mode block delay ++ rest)
      ≡ some (if block_mode then 0xFC else 0xFE, block)
unfolding write_block
decode-write_block block_mode block delay rest =
    let crc : ℕ = crc16_gen block in
    let sum = u8 (crc / 2 ^ 8) ∷ bit_and crc 0xFF ∷ replicate delay junk_token in
    let there = append_assoc block sum rest in
    let value : u8 (crc / 2 ^ 8) * 2 ^ 8 + bit_and crc 0xFF ≡ crc =
      omega (arith, bit_and_mask 8 crc, crc16_gen-lt block) in
    rw
      (
        there,
        take-append block (sum ++ rest),
        drop-append block (sum ++ rest),
        value,
        crc16_check_self block,
      )
      refl

-- The block has the length that the size of the transaction is reckoned with.
pub length-write_block :
    (block_mode : Bool) (block : List ℕ)
    → length (write_block block_mode block (post_block_delay true block_mode))
      ≡ total_block_size true block_mode (length block)
unfolding write_block total_block_size
length-write_block block_mode block =
    let delay = post_block_delay true block_mode in
    omega (
      arith,
      length-append block (
          u8 (crc16_gen block / 2 ^ 8)
          ∷ bit_and (crc16_gen block) 0xFF
          ∷ replicate delay junk_token),
      length-replicate delay junk_token,
    )
