-- ===== src/Util/Text.antt =====
-- The string helpers of utilities.c. A C string is the list of its octets, without the terminator;
-- the character tests are those of the C locale.
pub mod Hex
pub mod Strip
pub mod Expression
use Prim.Native.Char.{code}
use Prim.Native.String.{String}
use morsectrl_tools.Prelude.{
  ℕ, zero, suc, ◌+◌, ◌-◌, ◌*◌, Bool, true, false, not, ◌&&◌, ◌||◌, List, [], ◌∷◌, ◌++◌, Option,
  none, some, leb, ◌==◌, if◌then◌else◌, drop,
}

abbrev pub Text : Type 0
Text = List ℕ

abbrev pub codes : String → Text
codes String.[] = []
codes (String.◌∷◌ c s) = code c ∷ codes s

abbrev pub within : ℕ → ℕ → ℕ → Bool
within lo hi c = leb lo c && leb c hi

abbrev pub is_digit : ℕ → Bool
is_digit c = within b'0' b'9' c

-- `isspace`: blank, and tab to carriage return.
abbrev pub is_space : ℕ → Bool
is_space c = c == b' ' || within 9 13 c

-- `tolower`
abbrev pub to_lower : ℕ → ℕ
to_lower c = if within b'A' b'Z' c then c + 32 else c

all_digits : Text → Bool
all_digits [] = true
all_digits (c ∷ s) = if not (is_digit c) then false else all_digits s

-- `check_string_is_int`: a minus sign counts only if something follows it.
unfoldable pub check_string_is_int : Text → Bool
unfolding all_digits
check_string_is_int [] = true
check_string_is_int (c ∷ []) = all_digits (c ∷ [])
check_string_is_int (c ∷ d ∷ s) = if c == b'-' then all_digits (d ∷ s) else all_digits (c ∷ d ∷ s)

-- `hex2num`; `none` is -1.
unfoldable pub hex2num : ℕ → Option ℕ
hex2num c =
    if within b'0' b'9' c
    then some (c - b'0')
    else if within b'a' b'f' c
    then some (c - b'a' + 10)
    else if within b'A' b'F' c
    then some (c - b'A' + 10)
    else none

-- Two digits, where both are.
pub octet_of : Option ℕ → Option ℕ → Option ℕ
octet_of none b = none
octet_of (some a) none = none
octet_of (some a) (some b) = some (a * 16 + b)

-- `hex2byte` of two characters: the high digit is shifted by four.
unfoldable pub hex2byte : ℕ → ℕ → Option ℕ
unfolding octet_of
hex2byte c d = octet_of (hex2num c) (hex2num d)

-- An octet in front of what follows, or the end.
pub octet_then : Option ℕ → Bool × List ℕ → Bool × List ℕ
octet_then none rest = (false, [])
octet_then (some a) rest = (rest.0, a ∷ rest.1)

-- `hexstr2bin`: whether it succeeds, and the octets that it has written. The terminator is no digit,
-- so a text that is too short fails there.
unfoldable pub hexstr2bin : Text → ℕ → Bool × List ℕ
unfolding octet_then
hexstr2bin hex zero = (true, [])
hexstr2bin [] (suc len) = (false, [])
hexstr2bin (c ∷ []) (suc len) = (false, [])
hexstr2bin (c ∷ d ∷ hex) (suc len) = octet_then (hex2byte c d) (hexstr2bin hex len)

unfoldable pub tolower_str : Text → Text
tolower_str [] = []
tolower_str (c ∷ s) = to_lower c ∷ tolower_str s

-- `strncasecmp(a, b, MAX(strlen(a), strlen(b))) == 0`
unfoldable pub same_nocase : Text → Text → Bool
same_nocase [] [] = true
same_nocase [] (d ∷ t) = false
same_nocase (c ∷ s) [] = false
same_nocase (c ∷ s) (d ∷ t) = to_lower c == to_lower d && same_nocase s t

abbrev pub true_expr : List Text
true_expr = codes "true" ∷ codes "enable" ∷ codes "yes" ∷ codes "t" ∷ codes "y" ∷ codes "1" ∷ []

abbrev pub false_expr : List Text
false_expr = codes "false" ∷ codes "disable" ∷ codes "no" ∷ codes "f" ∷ codes "n" ∷ codes "0" ∷ []

expression_from : List Text → List Text → Text → Option Bool
expression_from (t ∷ ts) (f ∷ fs) s =
    if same_nocase t s
    then some true
    else if same_nocase f s
    then some false
    else expression_from ts fs s
expression_from _ _ s = none

-- `expression_to_int`: 1, 0, or `none` for -1.
unfoldable pub expression_to_int : Text → Option Bool
unfolding expression_from same_nocase
expression_to_int = expression_from true_expr false_expr

-- The first loop of `strip`.
unfoldable pub strip_start : Text → Text
strip_start [] = []
strip_start (c ∷ s) = if is_space c then strip_start s else c ∷ s

-- A character in front of what is kept of the text behind it.
pub keep_end : ℕ → Text → Text
keep_end c [] = if is_space c then [] else c ∷ []
keep_end c (d ∷ t) = c ∷ d ∷ t

-- The loop that ends the text at its last character that is no space.
unfoldable pub strip_end : Text → Text
unfolding keep_end
strip_end [] = []
strip_end (c ∷ s) = keep_end c (strip_end s)

unfoldable pub strip : Text → Text
unfolding strip_start strip_end
strip s = strip_end (strip_start s)

-- `!strcmp(a, b)`
unfoldable pub same_text : Text → Text → Bool
same_text [] [] = true
same_text (c ∷ s) (d ∷ t) = c == d && same_text s t
same_text _ _ = false
