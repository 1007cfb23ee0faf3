-- ===== src/Util/Crc/Burst.antt =====
-- Errors that the checksums find: a burst no longer than the register, wherever it stands.
use native.Mathlib.Nat.{mod-lt, one-le-pow}
use morsectrl_tools.Prelude.{
  ℕ, suc, ◌*◌, ◌/◌, ◌^◌, ◌≤◌, ◌<◌, ◌≡◌, ◌≢◌, refl, sym, ap, ap₂, ◌∙◌, false, inl, inr, List, [],
  ◌∷◌, ◌++◌, length, get_or, drop, arith, ◌==◌, ==_iff, Bool-cases,
}
use morsectrl_tools.Util.Crc.{crc16_gen, crc16_check}
use morsectrl_tools.Util.Crc.Crc16.{crc16_gen-eq-divide}
use morsectrl_tools.Util.Crc.Register.{
  octet_bits, message_bits, AreBits, divide, divide-append, divide-injective, divide-cancel,
  divide-lt,
}

abbrev pub AreOctets : List ℕ → Type 0
AreOctets [] = Unit {0}
AreOctets (b ∷ bs) = (b < 256) × AreOctets bs

message_bits-append : (m s : List ℕ) → message_bits (m ++ s) ≡ message_bits m ++ message_bits s
message_bits-append [] s = refl
message_bits-append (o ∷ m) s = rw (message_bits-append m s) refl

message_bits-AreBits : (m : List ℕ) → AreBits (message_bits m)
message_bits-AreBits [] = tt
message_bits-AreBits (o ∷ m) =
    let digit = λ (k : ℕ). mod-lt (o / 2 ^ k) {m = 2} (omega arith) in
    (
      digit 7,
      (
        digit 6,
        (digit 5, (digit 4, (digit 3, (digit 2, (digit 1, (digit 0, message_bits-AreBits m)))))),
      ),
    )

length-message_bits : (m : List ℕ) → length (message_bits m) ≡ length m * 8
length-message_bits [] = refl
length-message_bits (o ∷ m) = omega (arith, length-message_bits m)

octet_of_bits :
    (a b : ℕ) {xs ys : List ℕ}
    → a < 256
    → b < 256
    → octet_bits 8 a ++ xs ≡ octet_bits 8 b ++ ys
    → a ≡ b
octet_of_bits a b h k e =
    let at = λ (i : ℕ). ap (λ l. get_or l i 0) e in
    omega (arith, at 0, at 1, at 2, at 3, at 4, at 5, at 6, at 7)

message_bits-injective :
    (m m' : List ℕ) → AreOctets m → AreOctets m' → message_bits m ≡ message_bits m' → m ≡ m'
message_bits-injective [] [] h h' e = refl
message_bits-injective [] (o ∷ m') h h' e = cc
message_bits-injective (o ∷ m) [] h h' e = cc
message_bits-injective (o ∷ m) (o' ∷ m') h h' e =
    ap₂ ◌∷◌ (octet_of_bits o o' h.0 h'.0 e) (message_bits-injective m m' h.1 h'.1 (ap (drop 8) e))

-- Two messages that differ only inside a burst no longer than the register have two remainders.
pub divide-burst :
    (w half : ℕ)
    → half < 2 ^ w
    → (p m m' s : List ℕ) → AreOctets m
    → AreOctets m'
    → length m ≡ length m'
    → length m * 8 ≤ suc w
    → divide w half 0 (message_bits (p ++ m ++ s)) ≡ divide w half 0 (message_bits (p ++ m' ++ s))
    → m ≡ m'
divide-burst w half fits p m m' s h h' l le e =
    let run = divide w half in
    let start = run 0 (message_bits p) in
    let parts = λ (x : List ℕ).
      ap (run 0)
        (message_bits-append (p ++ x) s ∙ ap (λ t. t ++ message_bits s) (message_bits-append p x))
      ∙ divide-append w half 0 (message_bits p ++ message_bits x) (message_bits s)
      ∙ ap (λ t. run t (message_bits s))
          (divide-append w half 0 (message_bits p) (message_bits x)) in
    let zero-lt : 0 < 2 ^ suc w = omega (arith, one-le-pow (suc w) 2 (omega arith)) in
    let start-lt = divide-lt w half fits (message_bits p) 0 zero-lt in
    let ends =
      divide-cancel w half fits (message_bits s) (run start (message_bits m))
        (run start (message_bits m')) (divide-lt w half fits (message_bits m) start start-lt)
        (divide-lt w half fits (message_bits m') start start-lt) (sym (parts m) ∙ e ∙ parts m') in
    message_bits-injective m m' h h' (
      divide-injective w half (message_bits m) (message_bits m') start (message_bits-AreBits m)
        (message_bits-AreBits m') (omega (arith, length-message_bits m, length-message_bits m'))
        (omega (arith, length-message_bits m)) ends)

-- `crc16_check` refuses every buffer that differs from the one whose checksum it is given in one
-- octet, or in two neighbours, whatever stands before and behind them.
pub crc16_check-burst :
    (p m m' s : List ℕ)
    → AreOctets m
    → AreOctets m'
    → length m ≡ length m'
    → length m ≤ 2
    → m ≢ m'
    → crc16_check (p ++ m' ++ s) (crc16_gen (p ++ m ++ s)) ≡ false
unfolding crc16_check
crc16_check-burst p m m' s h h' l le ne =
    elim (Bool-cases (crc16_gen (p ++ m ++ s) == crc16_gen (p ++ m' ++ s))) [
      | inl same ↦
          let equal = (==_iff _ _).0 same in
          let remainders =
            sym (crc16_gen-eq-divide (p ++ m ++ s)) ∙ equal ∙ crc16_gen-eq-divide (p ++ m' ++ s) in
          absurd (ne (divide-burst 15 0x810 (omega arith) p m m' s h h' l (omega arith) remainders))
      | inr differ ↦ differ
    ]
