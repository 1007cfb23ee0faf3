-- ===== src/Util/Text/Strip.antt =====
-- `strip` takes away the space at both ends and nothing else.
use morsectrl_tools.Prelude.{
  ℕ, ◌≡◌, refl, subst, ap, ◌∙◌, inl, inr, true, false, [], ◌∷◌, ◌++◌, Bool-cases,
}
use morsectrl_tools.Util.Text.{Text, is_space, strip_start, strip_end, keep_end, strip}

-- Every character is a space.
abbrev pub Blank : Text → Type 0
Blank [] = Unit {0}
Blank (c ∷ s) = (is_space c ≡ true) × Blank s

-- The first character, if there is one, is no space.
abbrev pub StartsTight : Text → Type 0
StartsTight [] = Unit {0}
StartsTight (c ∷ s) = is_space c ≡ false

-- The last one, if there is one.
abbrev pub EndsTight : Text → Type 0
EndsTight [] = Unit {0}
EndsTight (c ∷ []) = is_space c ≡ false
EndsTight (c ∷ d ∷ s) = EndsTight (d ∷ s)

strip_start-split :
    (s : Text) → (pre : Text) × Blank pre × (s ≡ pre ++ strip_start s) × StartsTight (strip_start s)
unfolding strip_start
strip_start-split [] = ([], tt, refl, tt)
strip_start-split (c ∷ s) = elim (Bool-cases (is_space c)) [
  | inl space ↦
      let (pre, blank, whole, tight) = strip_start-split s in
      rw space (c ∷ pre, (space, blank), ap (◌∷◌ c) whole, tight)
  | inr solid ↦ rw solid ([], tt, refl, solid)
]

keep_end-split :
    (c : ℕ) (s t post : Text)
    → Blank post
    → s ≡ t ++ post
    → EndsTight t
    → (post' : Text) × Blank post' × (c ∷ s ≡ keep_end c t ++ post') × EndsTight (keep_end c t)
unfolding keep_end
keep_end-split c s [] post blank whole tight = elim (Bool-cases (is_space c)) [
  | inl space ↦ rw space (c ∷ post, (space, blank), ap (◌∷◌ c) whole, tt)
  | inr solid ↦ rw solid (post, blank, ap (◌∷◌ c) whole, solid)
]
keep_end-split c s (d ∷ t) post blank whole tight = (post, blank, ap (◌∷◌ c) whole, tight)

strip_end-split :
    (s : Text) → (post : Text) × Blank post × (s ≡ strip_end s ++ post) × EndsTight (strip_end s)
unfolding strip_end
strip_end-split [] = ([], tt, refl, tt)
strip_end-split (c ∷ s) =
    let (post, blank, whole, tight) = strip_end-split s in
    keep_end-split c s (strip_end s) post blank whole tight

-- What begins a text begins it with the same character.
StartsTight-front : (t post : Text) → StartsTight (t ++ post) → StartsTight t
StartsTight-front [] post tight = tt
StartsTight-front (c ∷ t) post tight = tight

-- `strip` cuts a text into space, its result and space again, and the result neither begins nor ends
-- with a space.
pub strip-split :
    (s : Text)
    → (pre : Text) × (post : Text) × Blank pre
      × Blank post
      × (s ≡ pre ++ (strip s ++ post))
      × StartsTight (strip s)
      × EndsTight (strip s)
unfolding strip
strip-split s =
    let (pre, blank, whole, tight) = strip_start-split s in
    let (post, blank', whole', tight') = strip_end-split (strip_start s) in
    (
      pre,
      post,
      blank,
      blank',
      whole ∙ ap (λ t. pre ++ t) whole',
      StartsTight-front (strip_end (strip_start s)) post (subst StartsTight whole' tight),
      tight',
    )
