-- ===== src/Handler/Fits/Scan.antt =====
-- What a scan of the options keeps.
use morsectrl_tools.Prelude.{
  ℕ, ◌≡◌, refl, Bool, true, false, if◌then◌else◌, List, [], ◌∷◌, Option, none, some,
}
use morsectrl_tools.Util.Text.{Text}
use morsectrl_tools.Handler.{Fields, Filled, refused}
use morsectrl_tools.Handler.Options.{scan, filled_if}
use morsectrl_tools.Handler.Fits.{fits, fine}

-- A test of what is there.
unfoldable pub holds_if : {A : Type 0} → (A → Bool) → Option A → Bool
holds_if p none = true
holds_if p (some a) = p a

module _ {A : Type 0} (p : A → Bool) (step : A → ℕ → Text → Option A) where
  -- A step leaves true what was true, unless it refuses.
  abbrev pub Keeps : Type 0
  Keeps =
      (a : A) (option : ℕ) (optarg : Text) → p a ≡ true → holds_if p (step a option optarg) ≡ true

  after :
      (o : Option A) (opts : List (ℕ × Text))
      → ((a : A) → p a ≡ true → holds_if p (scan step a opts) ≡ true)
      → holds_if p o ≡ true
      → holds_if p (elim o [ none ↦ none | some a ↦ scan step a opts ]) ≡ true
  unfolding holds_if
  after none opts go h = refl
  after (some a) opts go h = go a h

  pub holds_if-scan :
      Keeps → (a : A) (opts : List (ℕ × Text)) → p a ≡ true → holds_if p (scan step a opts) ≡ true
  unfolding holds_if scan
  holds_if-scan keeps a [] h = h
  holds_if-scan keeps a ((option, optarg) ∷ opts) h =
      after (step a option optarg) opts (λ b. holds_if-scan keeps b opts) (keeps a option optarg h)

pub fine-filled_if :
    (payload : ℕ) (o : Option Fields)
    → holds_if (fits payload) o ≡ true
    → fine payload (filled_if o) ≡ true
unfolding holds_if fine
fine-filled_if payload none h = refl
fine-filled_if payload (some fields) h = h

pub holds_if_if :
    {A : Type 0} (p : A → Bool) (b : Bool) (x y : Option A)
    → holds_if p x ≡ true
    → holds_if p y ≡ true
    → holds_if p (if b then x else y) ≡ true
holds_if_if p true x y hx hy = hx
holds_if_if p false x y hx hy = hy

-- What is made of a scan's result, if that holds of it on which the rest relies.
pub fine_held :
    {A : Type 0} (payload : ℕ) (p : A → Bool) (o : Option A) (f : A → Filled)
    → holds_if p o ≡ true
    → ((a : A) → p a ≡ true → fine payload (f a) ≡ true)
    → fine payload (elim o [ none ↦ refused | some a ↦ f a ]) ≡ true
unfolding holds_if fine
fine_held payload p none f h g = refl
fine_held payload p (some a) f h g = g a h
