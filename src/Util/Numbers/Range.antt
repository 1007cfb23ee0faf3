-- ===== src/Util/Numbers/Range.antt =====
-- What the range parsers promise of a number that they accept.
use morsectrl_tools.Prelude.{ℕ, ◌≤◌, ◌<◌, ◌^◌, ◌≡◌, Bool, true, false, arith, if◌then◌else◌, u32}
use morsectrl_tools.Util.Text.{Text}
use morsectrl_tools.Util.Numbers.{
  strtoul, in_range, str_to_uint32_range, str_to_uint16_range, str_to_uint8_range,
}

if_and : (b c : Bool) → (if b then c else false) ≡ true → c ≡ true
if_and true c e = e
if_and false c e = cc

in_range-within : (v lo hi : ℕ) → in_range v lo hi ≡ true → (lo ≤ v) × (v ≤ hi)
unfolding in_range
in_range-within v lo hi ok = ground arith

str_to_uint32_range-within :
    (str : Text) (lo hi : ℕ)
    → (str_to_uint32_range str lo hi).0 ≡ true
    → (lo ≤ (str_to_uint32_range str lo hi).1) × ((str_to_uint32_range str lo hi).1 ≤ hi)
unfolding str_to_uint32_range
str_to_uint32_range-within str lo hi ok =
    in_range-within (u32 (strtoul str).0) lo hi
      (if_and (strtoul str).1 (in_range (u32 (strtoul str).0) lo hi) ok)

-- A text that `str_to_uint8_range` accepts for an upper bound that a `uint8_t` holds: the value that
-- is left lies between the bounds, and no digit of the one that `str_to_uint32_range` found is lost.
pub str_to_uint8_range-within :
    (str : Text) (lo hi : ℕ)
    → hi < 2 ^ 8
    → (str_to_uint8_range str lo hi).0 ≡ true
    → (lo ≤ (str_to_uint8_range str lo hi).1)
      × ((str_to_uint8_range str lo hi).1 ≤ hi)
      × ((str_to_uint8_range str lo hi).1 ≡ (str_to_uint32_range str lo hi).1)
unfolding str_to_uint8_range
str_to_uint8_range-within str lo hi small ok =
    let (above, below) = str_to_uint32_range-within str lo hi ok in
    (omega arith, omega arith, omega arith)

-- A text that `str_to_uint16_range` accepts for an upper bound that a `uint16_t` holds: the value that
-- is left lies between the bounds, and no digit of the one that `str_to_uint32_range` found is lost.
pub str_to_uint16_range-within :
    (str : Text) (lo hi : ℕ)
    → hi < 2 ^ 16
    → (str_to_uint16_range str lo hi).0 ≡ true
    → (lo ≤ (str_to_uint16_range str lo hi).1)
      × ((str_to_uint16_range str lo hi).1 ≤ hi)
      × ((str_to_uint16_range str lo hi).1 ≡ (str_to_uint32_range str lo hi).1)
unfolding str_to_uint16_range
str_to_uint16_range-within str lo hi small ok =
    let (above, below) = str_to_uint32_range-within str lo hi ok in
    (omega arith, omega arith, omega arith)
