-- ===== src/Stats/Bound.antt =====
-- The reading of the statistics ends, and how far it reads.
use morsectrl_tools.Prelude.{
  ℕ, zero, suc, ◌+◌, ◌-◌, ◌≤◌, ◌<◌, ◌⊎◌, ◌≡◌, refl, true, false, ◌||◌, List, [], ◌∷◌, length, drop,
  length-drop, Option, ℤ, pos, negsuc, leb, ◌==◌, Bool-cases, inl, inr, arith,
}
use morsectrl_tools.Util.Text.{Text}
use morsectrl_tools.Stats.{
  OffchipData, Item, Finish, finished, malformed, goes_on, too_long, less, half, walk, tagged,
  tlv_value,
}

-- The octets that the code may read for a size: eight more than it says. A negative one is found out
-- by the next length.
unfoldable pub reach : ℤ → ℕ
reach (pos n) = n + 8
reach (negsuc n) = 4

-- What is left of the reach behind a value that is not too long.
reach-less :
    (resp_sz : ℤ) (len m : ℕ)
    → too_long len resp_sz ≡ false
    → reach resp_sz ≤ 4 + m
    → len ≤ m × reach (less resp_sz (4 + len)) ≤ m - len
unfolding reach less too_long
reach-less (pos n) len m short h = elim (Bool-cases (leb (4 + len) n)) [
  | inl e ↦ (ground arith, rw e (ground arith))
  | inr e ↦ (ground arith, rw e (ground arith))
]
reach-less (negsuc n) len m short h = absurd (cc short)

reach-ge : (resp_sz : ℤ) → 4 ≤ reach resp_sz
unfolding reach
reach-ge (pos n) = omega arith
reach-ge (negsuc n) = omega arith

-- The reading came to an end, or to a value with a wrong length.
abbrev pub Ends : List Item × Finish → Type 0
Ends walked = (walked.1 ≡ finished) ⊎ ((tag : ℕ) × (len : ℕ) × (walked.1 ≡ malformed tag len))

module _ (stats : List OffchipData) (filter : Option Text) where
  -- What follows a value ends, where the room and the fuel are enough.
  abbrev GoesOn : ℕ → (ℤ → List ℕ → List Item × Finish) → Type 0
  GoesOn fuel go =
      (resp_sz : ℤ) (buf : List ℕ)
      → reach resp_sz ≤ length buf
      → length buf < fuel
      → Ends (go resp_sz buf)

  tlv_value-Ends :
      (fuel : ℕ) (go : ℤ → List ℕ → List Item × Finish) (resp_sz : ℤ) (tag len : ℕ) (buf : List ℕ)
      → GoesOn fuel go
      → reach resp_sz ≤ 4 + length buf
      → length buf < fuel
      → Ends (tlv_value stats filter go resp_sz tag len buf)
  unfolding tlv_value
  tlv_value-Ends fuel go resp_sz tag len buf ends room enough =
      elim (Bool-cases (too_long len resp_sz || len == 0)) [
        | inl wrong ↦ rw wrong (inr (tag, len, refl))
        | inr right ↦
            let short : too_long len resp_sz ≡ false = ground arith in
            let (inside, further) = reach-less resp_sz len (length buf) short room in
            let left = length-drop len buf in
            let whole : leb len (length buf) ≡ true = ground arith in
            rw (right, whole)
              (ends (less resp_sz (4 + len)) (drop len buf) (omega (arith, left, further))
                (omega (arith, left, enough)))
      ]

  tagged-Ends :
      (fuel : ℕ) (go : ℤ → List ℕ → List Item × Finish) (resp_sz : ℤ) (buf : List ℕ)
      → GoesOn fuel go
      → reach resp_sz ≤ length buf
      → length buf < suc fuel
      → Ends (tagged stats filter go resp_sz buf)
  unfolding tagged
  tagged-Ends fuel go resp_sz [] ends room enough = absurd (omega (arith, room, reach-ge resp_sz))
  tagged-Ends fuel go resp_sz (t ∷ []) ends room enough =
      absurd (omega (arith, room, reach-ge resp_sz))
  tagged-Ends fuel go resp_sz (t ∷ t' ∷ []) ends room enough =
      absurd (omega (arith, room, reach-ge resp_sz))
  tagged-Ends fuel go resp_sz (t ∷ t' ∷ l ∷ []) ends room enough =
      absurd (omega (arith, room, reach-ge resp_sz))
  tagged-Ends fuel go resp_sz (t ∷ t' ∷ l ∷ l' ∷ buf) ends room enough =
      tlv_value-Ends fuel go resp_sz (half t t') (half l l') buf ends (omega (arith, room))
        (omega (arith, enough))

  -- If the block goes on for eight octets behind the response's size, or for four where that is
  -- negative, and the fuel exceeds the block's length, the reading ends inside the block.
  pub walk-Ends :
      (fuel : ℕ) (resp_sz : ℤ) (buf : List ℕ)
      → reach resp_sz ≤ length buf
      → length buf < fuel
      → Ends (walk stats filter fuel resp_sz buf)
  unfolding walk
  walk-Ends zero resp_sz buf room enough = absurd (omega arith)
  walk-Ends (suc fuel) resp_sz buf room enough = elim (Bool-cases (goes_on resp_sz)) [
    | inr ends ↦ rw ends (inl refl)
    | inl more ↦
        rw more (tagged-Ends fuel (walk stats filter fuel) resp_sz buf (walk-Ends fuel) room enough)
  ]
