-- ===== src/Stats/Stream.antt =====
-- A stream of statistics in the layout of the firmware is read item by item.
use morsectrl_tools.Prelude.{
  ℕ, zero, suc, ◌+◌, ◌-◌, ◌/◌, ◌%◌, ◌^◌, ◌≤◌, ◌<◌, ◌≡◌, refl, ap, ap₂, ◌∙◌, true, false, ◌||◌, List,
  [], ◌∷◌, ◌++◌, length, take, drop, map, length-append, Option, ℤ, pos, ltb, leb, ◌==◌, arith,
}
use morsectrl_tools.Util.Text.{Text}
use morsectrl_tools.Command.{le16}
use morsectrl_tools.Stats.{
  OffchipData, Item, Finish, finished, goes_on, too_long, less, half, item, walk, tagged, tlv_value,
}

-- A tag and its value.
abbrev pub Entry : Type 0
Entry = ℕ × List ℕ

-- A tag of 16 bits, and a value that is not empty and whose length has 16 bits.
abbrev pub IsEntry : Entry → Type 0
IsEntry e = (e.0 < 2 ^ 16) × (1 ≤ length e.1) × (length e.1 < 2 ^ 16)

-- What the firmware sends.
unfoldable pub stream : List Entry → List ℕ
stream [] = []
stream (e ∷ entries) = le16 e.0 (le16 (length e.1) (e.1 ++ stream entries))

pub data AreEntries : List Entry → Type 0 where
  no_entries : AreEntries []
  one_entry :
      (e : Entry) (entries : List Entry) → IsEntry e → AreEntries entries → AreEntries (e ∷ entries)

take-++ : (xs ys : List ℕ) → take (length xs) (xs ++ ys) ≡ xs
take-++ [] ys = refl
take-++ (x ∷ xs) ys = ap (◌∷◌ x) (take-++ xs ys)

drop-++ : (xs ys : List ℕ) → drop (length xs) (xs ++ ys) ≡ ys
drop-++ [] ys = refl
drop-++ (x ∷ xs) ys = drop-++ xs ys

++-assoc : (xs ys zs : List ℕ) → (xs ++ ys) ++ zs ≡ xs ++ (ys ++ zs)
++-assoc [] ys zs = refl
++-assoc (x ∷ xs) ys zs = ap (◌∷◌ x) (++-assoc xs ys zs)

half-le16 : (n : ℕ) → n < 2 ^ 16 → half (n % 256) (n / 256 % 256) ≡ n
half-le16 n h = omega arith

module _ (stats : List OffchipData) (filter : Option Text) where
  value-right :
      (go : ℤ → List ℕ → List Item × Finish) (n tag : ℕ) (octets rest : List ℕ)
      → 1 ≤ length octets
      → 4 + length octets ≤ n
      → tlv_value stats filter go (pos n) tag (length octets) (octets ++ rest) ≡ (
        item stats filter tag octets ∷ (go (pos (n - (4 + length octets))) rest).0,
        (go (pos (n - (4 + length octets))) rest).1,
      )
  unfolding tlv_value too_long less
  value-right go n tag octets rest some_octets whole =
      let right : (ltb n (length octets) || length octets == 0) ≡ false = ground arith in
      let fits : leb (4 + length octets) n ≡ true = ground arith in
      let size = length-append octets rest in
      let inside : leb (length octets) (length (octets ++ rest)) ≡ true = ground arith in
      rw (right, fits, inside, take-++ octets rest, drop-++ octets rest) refl

  walk-more :
      (fuel : ℕ) (resp_sz : ℤ) (buf : List ℕ)
      → goes_on resp_sz ≡ true
      → walk stats filter (suc fuel) resp_sz buf
        ≡ tagged stats filter (walk stats filter fuel) resp_sz buf
  unfolding walk
  walk-more fuel resp_sz buf more = rw more refl

  -- The stream of any entries, with any octets behind it in the block, is read as these entries, in
  -- their order, and the reading ends with the stream.
  pub walk-stream :
      (entries : List Entry) (rest : List ℕ) (fuel : ℕ)
      → AreEntries entries
      → length entries < fuel
      → walk stats filter fuel (pos (length (stream entries))) (stream entries ++ rest)
        ≡ (map (λ e. item stats filter e.0 e.1) entries, finished)
  unfolding walk stream tagged goes_on
  walk-stream [] rest zero h enough = absurd (omega arith)
  walk-stream [] rest (suc fuel) h enough = refl
  walk-stream (e ∷ entries) rest zero h enough = absurd (omega arith)
  walk-stream (e ∷ entries) rest (suc fuel) (one_entry _ _ (tag, one, len) are) enough =
      let octets = e.1 ++ stream entries in
      let n = length (stream (e ∷ entries)) in
      let size = length-append e.1 (stream entries) in
      let more : goes_on (pos n) ≡ true = ground arith in
      let left : n - (4 + length e.1) ≡ length (stream entries) = omega (arith, size) in
      walk-more fuel (pos n) (stream (e ∷ entries) ++ rest) more
      ∙ ap₂
          (λ tag len.
            tlv_value stats filter (walk stats filter fuel) (pos n) tag len (octets ++ rest))
          (half-le16 e.0 tag) (half-le16 (length e.1) len)
      ∙ ap (tlv_value stats filter (walk stats filter fuel) (pos n) e.0 (length e.1))
          (++-assoc e.1 (stream entries) rest)
      ∙ value-right (walk stats filter fuel) n e.0 e.1 (stream entries ++ rest) one
          (omega (arith, size))
      ∙ rw (left, walk-stream entries rest fuel are (omega arith)) refl
