-- ===== src/Util/Text/Hex.antt =====
-- `hexstr2bin` reads back what is written in hexadecimal.
use morsectrl_tools.Prelude.{
  ℕ, zero, suc, ◌≤◌, Bool, Option, none, ◌+◌, ◌-◌, ◌*◌, ◌/◌, ◌%◌, ◌<◌, ◌≡◌, refl, true, List, [],
  ◌∷◌, ◌++◌, some, length, ltb, if◌then◌else◌, arith,
}
use morsectrl_tools.Util.Text.{Text, hex2num, hex2byte, octet_then, hexstr2bin}
use morsectrl_tools.Util.Crc.Burst.{AreOctets}

-- The digit of a number below 16, with small letters.
unfoldable pub hex_digit : ℕ → ℕ
hex_digit n = if ltb n 10 then b'0' + n else b'a' + n - 10

abbrev pub to_hex : List ℕ → Text
to_hex [] = []
to_hex (o ∷ octets) = hex_digit (o / 16) ∷ hex_digit (o % 16) ∷ to_hex octets

hex2num-hex_digit : (n : ℕ) → n < 16 → hex2num (hex_digit n) ≡ some n
unfolding hex2num hex_digit
hex2num-hex_digit n h = ground arith

hex2byte-hex_digit : (o : ℕ) → o < 256 → hex2byte (hex_digit (o / 16)) (hex_digit (o % 16)) ≡ some o
unfolding hex2byte
hex2byte-hex_digit o h =
    let e : o / 16 * 16 + o % 16 ≡ o = omega arith in
    rw (hex2num-hex_digit (o / 16) (omega arith), hex2num-hex_digit (o % 16) (omega arith), e) refl

-- The octets that are written in hexadecimal, two digits each, are read back, whatever follows.
pub hexstr2bin-to_hex :
    (octets : List ℕ) (rest : Text)
    → AreOctets octets
    → hexstr2bin (to_hex octets ++ rest) (length octets) ≡ (true, octets)
unfolding hexstr2bin
hexstr2bin-to_hex [] rest h = refl
hexstr2bin-to_hex (o ∷ octets) rest h =
    rw (hex2byte-hex_digit o h.0, hexstr2bin-to_hex octets rest h.1) refl

-- No more octets are written than asked for.
length-octet_then :
    (o : Option ℕ) (rest : Bool × List ℕ) (n : ℕ)
    → length rest.1 ≤ n
    → length (octet_then o rest).1 ≤ n + 1
unfolding octet_then
length-octet_then none rest n h = omega arith
length-octet_then (some a) rest n h = omega (arith, h)

pub length-hexstr2bin : (hex : Text) (n : ℕ) → length (hexstr2bin hex n).1 ≤ n
unfolding hexstr2bin
length-hexstr2bin hex zero = omega arith
length-hexstr2bin [] (suc n) = omega arith
length-hexstr2bin (c ∷ []) (suc n) = omega arith
length-hexstr2bin (c ∷ d ∷ hex) (suc n) =
    omega (arith, length-octet_then (hex2byte c d) (hexstr2bin hex n) n (length-hexstr2bin hex n))
