-- ===== src/Sdio/Frame/Extended.antt =====
-- The card's side of a CMD53 header.
use native.Mathlib.Nat.{mod-eq_of_lt}
use morsectrl_tools.Prelude.{
  ℕ, ◌+◌, ◌*◌, ◌/◌, ◌%◌, ◌^◌, ◌<◌, bit_and, bit_or, ◌≡◌, refl, ap, ◌∙◌, Bool, true, false, List,
  Option, none, some, arith, ◌==◌, ==_iff, if◌then◌else◌, u8,
}
use morsectrl_tools.Prelude.Bits.{bit_or_fields, bit_or_comm, bit_and_mask}
use morsectrl_tools.Sdio.Frame.{cmd53_hdr}
use morsectrl_tools.Sdio.Frame.Decode.{octet, framed, calc_cmd_crc_octet-eq-crc_octet}

-- What CMD53 asks for; `incrementing` is the OP code.
pub record ExtendedRequest : Type 0 where
  pub write : Bool
  pub func : ℕ
  pub block_mode : Bool
  pub incrementing : Bool
  pub addr : ℕ
  pub count : ℕ

abbrev pub decode_cmd53 : List ℕ → Option ExtendedRequest
decode_cmd53 f =
    if framed 53 f
    then some (record {
      write = octet f 2 / 2 ^ 7 == 1;
      func = octet f 2 / 2 ^ 4 % 8;
      block_mode = octet f 2 / 2 ^ 3 % 2 == 1;
      incrementing = octet f 2 / 2 ^ 2 % 2 == 1;
      addr = octet f 2 % 4 * 2 ^ 15 + octet f 3 * 2 ^ 7 + octet f 4 / 2;
      count = octet f 4 % 2 * 2 ^ 8 + octet f 5;
    })
    else none

abbrev digit : Bool → ℕ
digit b = if b then 1 else 0

digit-lt : (b : Bool) → digit b < 2
digit-lt true = omega arith
digit-lt false = omega arith

digit-eq : (b : Bool) → (digit b == 1) ≡ b
digit-eq true = refl
digit-eq false = refl

digit-mul : (b : Bool) (n : ℕ) → (if b then n else 0) ≡ digit b * n
digit-mul true n = omega arith
digit-mul false n = omega arith

-- The second octet: one field after the other, the highest first.
abbrev flags_octet : ℕ → ℕ → ℕ → ℕ → ℕ
flags_octet write func block_mode high = (((write * 8 + func) * 2 + block_mode) * 2 + 1) * 4 + high

or_flags :
    (w f b h : ℕ)
    → w < 2
    → f < 8
    → b < 2
    → h < 4
    → bit_or (bit_or (bit_or (bit_or (f * 2 ^ 4) (w * 128)) (b * 8)) 4) h ≡ flags_octet w f b h
or_flags w f b h hw hf hb hh =
    let first : bit_or (f * 2 ^ 4) (w * 128) ≡ (w * 8 + f) * 2 ^ 4 =
      bit_or_comm (f * 2 ^ 4) (w * 128)
      ∙ bit_or_fields 7 w (f * 2 ^ 4) (omega arith)
      ∙ omega arith in
    let second : bit_or ((w * 8 + f) * 2 ^ 4) (b * 8) ≡ ((w * 8 + f) * 2 + b) * 2 ^ 3 =
      bit_or_fields 4 (w * 8 + f) (b * 8) (omega arith) ∙ omega arith in
    let third : bit_or (((w * 8 + f) * 2 + b) * 2 ^ 3) 4 ≡ (((w * 8 + f) * 2 + b) * 2 + 1) * 2 ^ 2 =
      bit_or_fields 3 ((w * 8 + f) * 2 + b) 4 (omega arith) ∙ omega arith in
    rw (first, second, third) (bit_or_fields 2 (((w * 8 + f) * 2 + b) * 2 + 1) h hh)

-- The octets of the header that carry the arguments.
cmd53_args :
    (write : Bool) (func : ℕ) (block_mode : Bool) (addr count : ℕ)
    → func < 8
    → (octet (cmd53_hdr write func block_mode addr count) 2
        ≡ flags_octet (digit write) func (digit block_mode) (addr % 2 ^ 16 / 2 ^ 15))
      × (octet (cmd53_hdr write func block_mode addr count) 3 ≡ addr % 2 ^ 15 / 2 ^ 7)
      × (octet (cmd53_hdr write func block_mode addr count) 4
          ≡ addr % 2 ^ 7 * 2 + count / 2 ^ 8 % 2)
unfolding cmd53_hdr
cmd53_args write func block_mode addr count hf =
    let low : bit_and addr 0xFFFF ≡ addr % 2 ^ 16 = bit_and_mask 16 addr in
    let shifted : u8 (func * 2 ^ 4) ≡ func * 2 ^ 4 = omega arith in
    let flags =
      or_flags (digit write) func (digit block_mode) (addr % 2 ^ 16 / 2 ^ 15) (digit-lt write) hf
        (digit-lt block_mode) (omega arith) in
    let small : flags_octet (digit write) func (digit block_mode) (addr % 2 ^ 16 / 2 ^ 15) < 256 =
      omega (arith, digit-lt write, digit-lt block_mode) in
    let even : u8 (addr % 2 ^ 16 * 2 ^ 1) ≡ addr % 2 ^ 7 * 2 ^ 1 = omega arith in
    let bit : bit_and (count / 2 ^ 8) 0x1 ≡ count / 2 ^ 8 % 2 = bit_and_mask 1 (count / 2 ^ 8) in
    (
      rw (low, shifted, digit-mul write 0x80, digit-mul block_mode 0x8, flags) (mod-eq_of_lt small),
      rw low (omega arith),
      rw (low, even, bit) (bit_or_fields 1 (addr % 2 ^ 7) (count / 2 ^ 8 % 2) (omega arith)),
    )

cmd53-framed :
    (write : Bool) (func : ℕ) (block_mode : Bool) (addr count : ℕ)
    → func < 8
    → framed 53 (cmd53_hdr write func block_mode addr count) ≡ true
unfolding cmd53_hdr
cmd53-framed write func block_mode addr count hf =
    let (a2, a3, a4) = cmd53_args write func block_mode addr count hf in
    let small : octet (cmd53_hdr write func block_mode addr count) 4 < 256 = omega (arith, a4) in
    (==_iff _ _).1 (
      calc_cmd_crc_octet-eq-crc_octet 117 _ _ _ _ (omega arith) (omega arith) (omega arith) small
        (omega arith))

-- The card reads back the request that the host put into a CMD53 header: the low 16 bits of the
-- address, a function below 8 and a count below 2 ^ 9, its checksum included.
pub decode-cmd53_hdr :
    (write : Bool) (func : ℕ) (block_mode : Bool) (addr count : ℕ)
    → func < 8
    → count < 2 ^ 9
    → decode_cmd53 (cmd53_hdr write func block_mode addr count)
      ≡ some (record {
        write = write;
        func = func;
        block_mode = block_mode;
        incrementing = true;
        addr = addr % 2 ^ 16;
        count = count;
      })
unfolding cmd53_hdr
decode-cmd53_hdr write func block_mode addr count hf hc =
    let frame = cmd53_hdr write func block_mode addr count in
    let (a2, a3, a4) = cmd53_args write func block_mode addr count hf in
    let dw = digit-lt write in
    let db = digit-lt block_mode in
    let w : (octet frame 2 / 2 ^ 7 == 1) ≡ write =
      ap (λ t. t == 1) (omega (arith, a2)) ∙ digit-eq write in
    let f : octet frame 2 / 2 ^ 4 % 8 ≡ func = omega (arith, a2) in
    let b : (octet frame 2 / 2 ^ 3 % 2 == 1) ≡ block_mode =
      ap (λ t. t == 1) (omega (arith, a2)) ∙ digit-eq block_mode in
    let o : (octet frame 2 / 2 ^ 2 % 2 == 1) ≡ true =
      ap (λ t. t == 1) {y = 1} (omega (arith, a2)) in
    let a : octet frame 2 % 4 * 2 ^ 15 + octet frame 3 * 2 ^ 7 + octet frame 4 / 2 ≡ addr % 2 ^ 16 =
      omega (arith, a2, a3, a4) in
    let c : octet frame 4 % 2 * 2 ^ 8 + u8 count ≡ count = omega (arith, a4) in
    rw (cmd53-framed write func block_mode addr count hf) (λ i. some (record {
      write = w i;
      func = f i;
      block_mode = b i;
      incrementing = o i;
      addr = a i;
      count = c i;
    }))
