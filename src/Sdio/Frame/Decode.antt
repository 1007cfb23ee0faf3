-- ===== src/Sdio/Frame/Decode.antt =====
-- The card's side of a command: the fields where the layout of CMD52 and CMD53 puts them, and the
-- checksum as the remainder of the five octets before it.
use native.Mathlib.Nat.{mod-eq_of_lt}
use morsectrl_tools.Prelude.{
  ℕ, ◌+◌, ◌*◌, ◌/◌, ◌%◌, ◌^◌, ◌<◌, bit_or, ◌≡◌, refl, ap, ap₂, ◌∙◌, Bool, true, List, [], ◌∷◌,
  Option, none, some, get_or, arith, ◌==◌, ==_iff, ◌&&◌, if◌then◌else◌, u8,
}
use morsectrl_tools.Prelude.Bits.{bit_or_fields, bit_or_top}
use morsectrl_tools.Util.Crc.{crc7_gen}
use morsectrl_tools.Util.Crc.Crc7.{low_octets, crc7_gen-eq-divide}
use morsectrl_tools.Util.Crc.Register.{message_bits, divide, divide-lt}
use morsectrl_tools.Sdio.Frame.{calc_cmd_crc_octet, cmd52_frame}

-- The checksum of a string of octets by long division, with the end bit behind it.
abbrev pub crc_octet : List ℕ → ℕ
crc_octet octets = divide 6 4 0 (message_bits octets) * 2 + 1

-- The five octets as one number.
number_of_octets :
    (d0 d1 d2 d3 d4 : ℕ)
    → d1 < 256
    → d2 < 256
    → d3 < 256
    → d4 < 256
    → bit_or (d0 * 2 ^ 32) (bit_or (d1 * 2 ^ 24) (bit_or (d2 * 2 ^ 16) (bit_or (d3 * 2 ^ 8) d4)))
      ≡ d0 * 2 ^ 32 + (d1 * 2 ^ 24 + (d2 * 2 ^ 16 + (d3 * 2 ^ 8 + d4)))
number_of_octets d0 d1 d2 d3 d4 h1 h2 h3 h4 =
    rw
      (
        bit_or_fields 8 d3 d4 (omega arith),
        bit_or_fields 16 d2 (d3 * 2 ^ 8 + d4) (omega arith),
        bit_or_fields 24 d1 (d2 * 2 ^ 16 + (d3 * 2 ^ 8 + d4)) (omega arith),
        bit_or_fields 32 d0 (d1 * 2 ^ 24 + (d2 * 2 ^ 16 + (d3 * 2 ^ 8 + d4))) (omega arith),
      )
      refl

low_octets_of_number :
    (d0 d1 d2 d3 d4 : ℕ)
    → d0 < 256
    → d1 < 256
    → d2 < 256
    → d3 < 256
    → d4 < 256
    → low_octets 5 (d0 * 2 ^ 32 + (d1 * 2 ^ 24 + (d2 * 2 ^ 16 + (d3 * 2 ^ 8 + d4))))
      ≡ d0 ∷ d1 ∷ d2 ∷ d3 ∷ d4 ∷ []
low_octets_of_number d0 d1 d2 d3 d4 h0 h1 h2 h3 h4 = ap₂ ◌∷◌ (omega arith) (
    ap₂ ◌∷◌ (omega arith)
      (ap₂ ◌∷◌ (omega arith) (ap₂ ◌∷◌ (omega arith) (ap₂ ◌∷◌ (omega arith) refl))))

pub calc_cmd_crc_octet-eq-crc_octet :
    (d0 d1 d2 d3 d4 : ℕ)
    → d0 < 256
    → d1 < 256
    → d2 < 256
    → d3 < 256
    → d4 < 256
    → calc_cmd_crc_octet d0 d1 d2 d3 d4 ≡ crc_octet (d0 ∷ d1 ∷ d2 ∷ d3 ∷ d4 ∷ [])
unfolding calc_cmd_crc_octet
calc_cmd_crc_octet-eq-crc_octet d0 d1 d2 d3 d4 h0 h1 h2 h3 h4 =
    let octets = d0 ∷ d1 ∷ d2 ∷ d3 ∷ d4 ∷ [] in
    let crc : ℕ = divide 6 4 0 (message_bits octets) in
    let small : crc < 2 ^ 7 = divide-lt 6 4 (omega arith) (message_bits octets) 0 (omega arith) in
    let sent =
      ap (λ n. crc7_gen n 40) (number_of_octets d0 d1 d2 d3 d4 h1 h2 h3 h4)
      ∙ crc7_gen-eq-divide 5 (d0 * 2 ^ 32 + (d1 * 2 ^ 24 + (d2 * 2 ^ 16 + (d3 * 2 ^ 8 + d4))))
          (omega arith) (omega arith)
      ∙ ap (λ l. divide 6 4 0 (message_bits l))
          (low_octets_of_number d0 d1 d2 d3 d4 h0 h1 h2 h3 h4) in
    ap (λ c. u8 (bit_or (c * 2 ^ 1) 1)) sent
    ∙ ap u8 (bit_or_fields 1 crc 1 (omega arith))
    ∙ mod-eq_of_lt (omega arith)

-- What CMD52 asks for.
pub record DirectRequest : Type 0 where
  pub write : Bool
  pub func : ℕ
  pub addr : ℕ
  pub value : ℕ

abbrev pub octet : List ℕ → ℕ → ℕ
octet frame i = get_or frame i 0

-- Start and direction bits, the command and the checksum.
abbrev pub framed : ℕ → List ℕ → Bool
framed cmd f =
    octet f 1 == 0x40 + cmd
    && octet f 6 == crc_octet (octet f 1 ∷ octet f 2 ∷ octet f 3 ∷ octet f 4 ∷ octet f 5 ∷ [])

abbrev pub decode_cmd52 : List ℕ → Option DirectRequest
decode_cmd52 f =
    if framed 52 f
    then some (record {
      write = octet f 2 / 2 ^ 7 == 1;
      func = octet f 2 / 2 ^ 4 % 8;
      addr = octet f 2 % 4 * 2 ^ 15 + octet f 3 * 2 ^ 7 + octet f 4 / 2;
      value = octet f 5;
    })
    else none

cmd52_args :
    (write : Bool) (func addr : ℕ)
    → func < 8
    → addr < 2 ^ 17
    → (let d1 = u8 (bit_or (u8 (func * 2 ^ 4)) (addr / 2 ^ 15)) in
        if write then bit_or d1 0x80 else d1)
      ≡ (if write then 128 else 0) + (func * 16 + addr / 2 ^ 15)
cmd52_args write func addr hf ha =
    let d1 : ℕ = u8 (bit_or (u8 (func * 2 ^ 4)) (addr / 2 ^ 15)) in
    let shifted : u8 (func * 2 ^ 4) ≡ func * 2 ^ 4 = omega arith in
    let joined : d1 ≡ func * 16 + addr / 2 ^ 15 =
      ap (λ t. u8 (bit_or t (addr / 2 ^ 15))) shifted
      ∙ ap u8 (bit_or_fields 4 func (addr / 2 ^ 15) (omega arith))
      ∙ mod-eq_of_lt (omega arith) in
    ground (arith, joined, bit_or_top 7 d1)

cmd52-framed :
    (write : Bool) (func addr v : ℕ)
    → func < 8
    → addr < 2 ^ 17
    → v < 256
    → framed 52 (cmd52_frame write func addr v) ≡ true
unfolding cmd52_frame
cmd52-framed write func addr v hf ha hv =
    let d1 : ℕ = (if write then 128 else 0) + (func * 16 + addr / 2 ^ 15) in
    let args = cmd52_args write func addr hf ha in
    let small : d1 < 256 = ground arith in
    rw args (
      (==_iff _ _).1 (
        calc_cmd_crc_octet-eq-crc_octet 116 d1 (u8 (addr / 2 ^ 7)) (u8 (addr * 2 ^ 1)) v
          (omega arith) small (omega arith) (omega arith) hv))

-- The card reads back the request that the host put into a CMD52 frame, its checksum included.
pub decode-cmd52_frame :
    (write : Bool) (func addr value : ℕ)
    → func < 8
    → addr < 2 ^ 17
    → value < 256
    → decode_cmd52 (cmd52_frame write func addr value)
      ≡ some (record { write = write; func = func; addr = addr; value = value })
unfolding cmd52_frame
decode-cmd52_frame write func addr value hf ha hv =
    let args = cmd52_args write func addr hf ha in
    let first : octet (cmd52_frame write func addr value) 2
        ≡ (if write then 128 else 0) + (func * 16 + addr / 2 ^ 15) =
      args in
    let w : (octet (cmd52_frame write func addr value) 2 / 2 ^ 7 == 1) ≡ write =
      ground (arith, first) in
    let f : octet (cmd52_frame write func addr value) 2 / 2 ^ 4 % 8 ≡ func =
      ground (arith, first) in
    let a : octet (cmd52_frame write func addr value) 2 % 4 * 2 ^ 15
          + u8 (addr / 2 ^ 7) * 2 ^ 7
          + u8 (addr * 2 ^ 1) / 2
        ≡ addr =
      ground (arith, first) in
    rw (cmd52-framed write func addr value hf ha hv)
      (λ i. some (record { write = w i; func = f i; addr = a i; value = value }))
