-- ===== src/Sdio/Response/Found.antt =====
-- What the searches for a token find: the first octet behind a run of fill octets.
use morsectrl_tools.Prelude.{
  ℕ, zero, suc, ◌+◌, ◌<◌, ◌≡◌, ◌↔◌, ◌⊎◌, inl, inr, refl, ap, ap₂, ==_iff, ◌∙◌, List, [], ◌∷◌, ◌++◌,
  replicate, length, some, arith, ◌==◌, Bool-cases,
}
use morsectrl_tools.Sdio.Response.{find_token_from, cmd53_find_token}

-- The octets are `n` times 0xFF, a start token, and at least one octet more.
abbrev pub TokenAt : List ℕ → ℕ → Type 0
TokenAt octets n =
    (token : ℕ) × (next : ℕ) × (rest : List ℕ) × (octets
      ≡ replicate n 0xFF ++ (token ∷ next ∷ rest))
    × ((token ≡ 0xFC) ⊎ (token ≡ 0xFE))

-- A search from index `ii` that finds a token stops one behind it.
find_token_from-TokenAt :
    (ii : ℕ) (octets : List ℕ) (k : ℕ)
    → find_token_from ii octets ≡ some k
    → (n : ℕ) × TokenAt octets n × (k ≡ ii + n + 1)
unfolding find_token_from
find_token_from-TokenAt ii [] k e = cc
find_token_from-TokenAt ii (o ∷ []) k e = cc
find_token_from-TokenAt ii (o ∷ next ∷ rest) k e = elim (Bool-cases (o == 0xFF)) [
  | inl fill ↦
      let (n, (token, next', rest', whole, kind), at) =
        find_token_from-TokenAt (ii + 1) (next ∷ rest) k (grind (arith, e, fill)) in
      (
        suc n,
        (token, next', rest', ap₂ ◌∷◌ ((==_iff o 0xFF).0 fill) whole, kind),
        omega (arith, at),
      )
  | inr other ↦ elim (Bool-cases (o == 0xFC)) [
    | inl write ↦ (0, (o, next, rest, refl, inl ((==_iff o 0xFC).0 write)), grind arith)
    | inr no_write ↦ elim (Bool-cases (o == 0xFE)) [
      | inl read ↦ (0, (o, next, rest, refl, inr ((==_iff o 0xFE).0 read)), grind arith)
      | inr no_read ↦ absurd (grind arith)
    ]
  ]
]

-- One fill octet more in front.
find_token_from-fill :
    (ii : ℕ) (token next : ℕ) (rest : List ℕ) (n : ℕ)
    → find_token_from ii (0xFF ∷ (replicate n 0xFF ++ (token ∷ next ∷ rest)))
      ≡ find_token_from (ii + 1) (replicate n 0xFF ++ (token ∷ next ∷ rest))
unfolding find_token_from
find_token_from-fill ii token next rest zero = refl
find_token_from-fill ii token next rest (suc n) = refl

TokenAt-find_token_from :
    (n ii : ℕ) (octets : List ℕ) → TokenAt octets n → find_token_from ii octets ≡ some (ii + n + 1)
unfolding find_token_from
TokenAt-find_token_from zero ii octets (token, next, rest, whole, inl e) =
    rw (whole, e) (ap some (omega arith))
TokenAt-find_token_from zero ii octets (token, next, rest, whole, inr e) =
    rw (whole, e) (ap some (omega arith))
TokenAt-find_token_from (suc n) ii octets (token, next, rest, whole, kind) =
    let later = replicate n 0xFF ++ (token ∷ next ∷ rest) in
    let found : find_token_from (ii + 1) later ≡ some (ii + suc n + 1) =
      TokenAt-find_token_from n (ii + 1) later (token, next, rest, refl, kind)
      ∙ ap some (omega arith) in
    ap (find_token_from ii) whole ∙ (find_token_from-fill ii token next rest n ∙ found)

-- `sdio_over_spi_cmd53_find_token` finds a place if and only if the octets begin with a run of 0xFF,
-- then a start token of either kind, then one octet more; the place is the one behind the token.
pub cmd53_find_token_iff :
    (octets : List ℕ) (k : ℕ)
    → (cmd53_find_token octets ≡ some k) ↔ ((n : ℕ) × TokenAt octets n × (k ≡ n + 1))
unfolding cmd53_find_token
cmd53_find_token_iff octets k = (
  λ e. let (n, found, at) = find_token_from-TokenAt 0 octets k e in (n, found, omega (arith, at)),
  λ (n, found, at). TokenAt-find_token_from n 0 octets found ∙ ap some (omega (arith, at)),
)

find_token_from-lt :
    (ii : ℕ) (octets : List ℕ) (k : ℕ) → find_token_from ii octets ≡ some k → k < ii + length octets
unfolding find_token_from
find_token_from-lt ii [] k e = cc
find_token_from-lt ii (o ∷ []) k e = cc
find_token_from-lt ii (o ∷ next ∷ rest) k e =
    grind (arith, find_token_from-lt (ii + 1) (next ∷ rest) k)

-- A token that is found leaves an octet behind it.
pub cmd53_find_token-lt :
    (octets : List ℕ) (k : ℕ) → cmd53_find_token octets ≡ some k → k < length octets
unfolding cmd53_find_token
cmd53_find_token-lt octets k e = omega (arith, find_token_from-lt 0 octets k e)
