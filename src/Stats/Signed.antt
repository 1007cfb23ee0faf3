-- ===== src/Stats/Signed.antt =====
-- The values of the statistics are read back from the octets of the two's complement.
use morsectrl_tools.Prelude.{
  ℕ, zero, suc, ◌-◌, ◌/◌, ◌%◌, ◌^◌, ◌<◌, ◌≡◌, ◌⊎◌, refl, true, false, ◌||◌, List, [], ◌∷◌, length,
  ℤ, pos, negsuc, ltb, ◌==◌, arith,
}
use morsectrl_tools.Stats.{from_octets, get_signed_value_as_int64}

-- The octets of a number, the lowest first.
unfoldable pub to_octets : ℕ → ℕ → List ℕ
to_octets zero n = []
to_octets (suc size) n = (n % 256) ∷ to_octets size (n / 256)

length-to_octets : (size n : ℕ) → length (to_octets size n) ≡ size
unfolding to_octets
length-to_octets zero n = refl
length-to_octets (suc size) n = omega (arith, length-to_octets size (n / 256))

from_octets-to_octets : (size n : ℕ) → n < 256 ^ size → from_octets (to_octets size n) ≡ n
unfolding from_octets to_octets
from_octets-to_octets zero n h = omega arith
from_octets-to_octets (suc size) n h =
    omega (arith, from_octets-to_octets size (n / 256) (omega (arith, h)))

-- The two's complement in `whole` values, and the numbers that it holds.
unfoldable pub complement : ℕ → ℤ → ℕ
complement whole (pos n) = n
complement whole (negsuc n) = whole - n - 1

abbrev pub magnitude : ℤ → ℕ
magnitude (pos n) = n
magnitude (negsuc n) = n

-- The size of an integer type.
abbrev pub IsSize : ℕ → Type 0
IsSize size = (size ≡ 1) ⊎ (size ≡ 2) ⊎ (size ≡ 4) ⊎ (size ≡ 8)

signed-at :
    (size whole : ℕ) (z : ℤ)
    → whole ≡ 256 ^ size
    → (size == 1 || size == 2 || size == 4 || size == 8) ≡ true
    → magnitude z < whole / 2
    → get_signed_value_as_int64 (to_octets size (complement whole z)) ≡ z
unfolding get_signed_value_as_int64 complement
signed-at size whole (pos n) e sized small =
    let long = length-to_octets size n in
    let back = from_octets-to_octets size n (omega (arith, e, small)) in
    let low : ltb n (whole / 2) ≡ true = ground arith in rw (long, sized, back, ← e, low) refl
signed-at size whole (negsuc n) e sized small =
    let m = whole - n - 1 in
    let long = length-to_octets size m in
    let back = from_octets-to_octets size m (omega (arith, e, small)) in
    let high : ltb m (whole / 2) ≡ false = ground arith in
    let same : whole - m - 1 ≡ n = omega (arith, small) in
    rw (long, sized, back, ← e, high, same) refl

-- For one, two, four or eight octets, any number of the signed type of that size is read back from
-- the octets of its two's complement.
pub get_signed-complement :
    (size : ℕ) (z : ℤ)
    → IsSize size
    → magnitude z < 256 ^ size / 2
    → get_signed_value_as_int64 (to_octets size (complement (256 ^ size) z)) ≡ z
get_signed-complement size z known small =
    signed-at size (256 ^ size) z refl (ground (arith, known)) small
