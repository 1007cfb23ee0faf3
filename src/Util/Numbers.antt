-- ===== src/Util/Numbers.antt =====
-- The number parsers of utilities.c, over `strtoul` of the C library with base 0 and a 64-bit
-- `unsigned long`. Each gives its return code and what it leaves in `*val`.
pub mod Range
use morsectrl_tools.Prelude.{
  ℕ, zero, suc, ◌+◌, ◌-◌, ◌*◌, ◌%◌, ◌^◌, min, Bool, true, false, ◌&&◌, ◌||◌, List, [], ◌∷◌, Option,
  none, some, ℤ, pos, neg, ltb, leb, ◌==◌, if◌then◌else◌, u8, u16, u32, u64,
}
use morsectrl_tools.Util.Text.{Text, is_space, hex2num, strip_start}

-- A digit of the base.
unfoldable pub digit? : ℕ → ℕ → Option ℕ
unfolding hex2num
digit? base c = elim (hex2num c) [ none ↦ none | some d ↦ if ltb d base then some d else none ]

-- The digits at the front of a text: their value after `acc`, where 2 ^ 64 stands for all that is
-- too large, and the rest.
unfoldable pub digits_of : ℕ → ℕ → Text → ℕ × Text
unfolding digit?
digits_of base acc [] = (acc, [])
digits_of base acc (c ∷ s) = elim (digit? base c) [
  | none ↦ (acc, c ∷ s)
  | some d ↦ digits_of base (min (acc * base + d) (2 ^ 64)) s
]

-- The number behind the sign: `none` if there is no digit at all.
unfoldable pub magnitude : Text → Option (ℕ × Text)
unfolding digits_of
magnitude (z ∷ x ∷ c ∷ s) =
    if z == b'0' && (x == b'x' || x == b'X')
    then elim (digit? 16 c) [ none ↦ some (0, x ∷ c ∷ s) | some d ↦ some (digits_of 16 0 (c ∷ s)) ]
    else if z == b'0'
    then some (digits_of 8 0 (z ∷ x ∷ c ∷ s))
    else elim (digit? 10 z) [ none ↦ none | some d ↦ some (digits_of 10 0 (z ∷ x ∷ c ∷ s)) ]
magnitude [] = none
magnitude (z ∷ s) =
    if z == b'0'
    then some (digits_of 8 0 (z ∷ s))
    else elim (digit? 10 z) [ none ↦ none | some d ↦ some (digits_of 10 0 (z ∷ s)) ]

-- A minus sign negates in the unsigned type; what is too large is `ULONG_MAX` under either sign.
abbrev unsigned : Bool → ℕ → ℕ
unsigned minus n = if n == 2 ^ 64 then 2 ^ 64 - 1 else if minus then u64 (2 ^ 64 - n) else n

unfoldable pub signed_magnitude : Text → Option (ℕ × Text)
unfolding magnitude
signed_magnitude [] = none
signed_magnitude (c ∷ s) =
    let minus = c == b'-' in
    let digits = if minus || c == b'+' then s else c ∷ s in
    elim (magnitude digits) [ none ↦ none | some p ↦ some (unsigned minus p.0, p.1) ]

-- `strtoul(str, &endptr, 0)`: the value, and whether `endptr` is the end of `str`. With no digit it
-- is the start.
unfoldable pub strtoul : Text → ℕ × Bool
unfolding signed_magnitude strip_start
strtoul str = elim (signed_magnitude (strip_start str)) [
  | none ↦ (0, elim str [ [] ↦ true | c ∷ s ↦ false ])
  | some p ↦ (p.0, elim p.1 [ [] ↦ true | c ∷ s ↦ false ])
]

-- `str_to_uint32`: the value is cut to 32 bits.
unfoldable pub str_to_uint32 : Text → Bool × ℕ
unfolding strtoul
str_to_uint32 str = let parsed = strtoul str in (parsed.1, u32 parsed.0)

-- A minus sign negates; what `long` does not hold is its nearest bound.
abbrev signed_bits : Bool → ℕ → ℕ
signed_bits minus n = if minus then 2 ^ 64 - min n (2 ^ 63) else min n (2 ^ 63 - 1)

unfoldable pub strtol_digits : Text → Option (ℕ × Text)
unfolding magnitude
strtol_digits [] = none
strtol_digits (c ∷ s) =
    let minus = c == b'-' in
    let digits = if minus || c == b'+' then s else c ∷ s in
    elim (magnitude digits) [ none ↦ none | some p ↦ some (signed_bits minus p.0, p.1) ]

-- `str_to_int32`: the 64 bits of `strtol(str, &endptr, 0)` cut to 32.
unfoldable pub str_to_int32 : Text → Bool × ℕ
unfolding strtol_digits strip_start
str_to_int32 str = elim (strtol_digits (strip_start str)) [
  | none ↦ (elim str [ [] ↦ true | c ∷ s ↦ false ], 0)
  | some p ↦ (elim p.1 [ [] ↦ true | c ∷ s ↦ false ], u32 p.0)
]

-- `str_to_uint64`
unfoldable pub str_to_uint64 : Text → Bool × ℕ
unfolding strtoul
str_to_uint64 str = let parsed = strtoul str in (parsed.1, parsed.0)

-- `str_to_uint16`: the value is cut once more, and the code does not tell.
unfoldable pub str_to_uint16 : Text → Bool × ℕ
unfolding str_to_uint32
str_to_uint16 str = let local = str_to_uint32 str in (local.0, u16 local.1)

pub in_range : ℕ → ℕ → ℕ → Bool
in_range val lo hi = if ltb val lo || ltb hi val then false else true

-- `str_to_uint32_range`
unfoldable pub str_to_uint32_range : Text → ℕ → ℕ → Bool × ℕ
unfolding strtoul in_range
str_to_uint32_range str lo hi =
    let parsed = strtoul str in
    let val = u32 parsed.0 in (if parsed.1 then in_range val lo hi else false, val)

unfoldable pub str_to_uint16_range : Text → ℕ → ℕ → Bool × ℕ
unfolding str_to_uint32_range
str_to_uint16_range str lo hi = let local = str_to_uint32_range str lo hi in (local.0, u16 local.1)

unfoldable pub str_to_uint8_range : Text → ℕ → ℕ → Bool × ℕ
unfolding str_to_uint32_range
str_to_uint8_range str lo hi = let local = str_to_uint32_range str lo hi in (local.0, u8 local.1)

-- `atoi` as the 32 bits of its `int`. What it gives for a number that `int` does not hold is left
-- open; here it is `strtol` cut to 32 bits.
unfoldable pub atoi : Text → ℕ
unfolding digits_of strip_start
atoi str = elim (strip_start str) [
  | [] ↦ 0
  | c ∷ s ↦
      if c == b'-'
      then u32 (2 ^ 64 - min (digits_of 10 0 s).0 (2 ^ 63))
      else u32 (min (digits_of 10 0 (if c == b'+' then s else c ∷ s)).0 (2 ^ 63 - 1))
]
