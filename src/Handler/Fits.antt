-- ===== src/Handler/Fits.antt =====
-- The fields that a handler fills in lie inside the command that it has allocated.
pub mod Scan
pub mod Steps
pub mod Commands
use morsectrl_tools.Prelude.{
  ℕ, ◌+◌, ◌≡◌, refl, ◌∙◌, Bool, true, false, ◌&&◌, List, [], ◌∷◌, ◌++◌, length, Option, none, some,
  leb, if◌then◌else◌, arith,
}
use morsectrl_tools.Handler.{Fields, Filled, refused, abandoned, filled}

-- Each run of octets ends inside a payload of that size.
unfoldable pub fits : ℕ → Fields → Bool
fits payload [] = true
fits payload ((offset, octets) ∷ fields) =
    leb (offset + length octets) payload && fits payload fields

-- The arguments are refused, or the fields fit; and the buffers are freed.
unfoldable pub fine : ℕ → Filled → Bool
unfolding fits
fine payload refused = true
fine payload abandoned = false
fine payload (filled fields) = fits payload fields

pub fine_if :
    (payload : ℕ) (b : Bool) (x y : Filled)
    → fine payload x ≡ true
    → fine payload y ≡ true
    → fine payload (if b then x else y) ≡ true
fine_if payload true x y hx hy = hx
fine_if payload false x y hx hy = hy

-- Where nothing is refused but what could not be read.
pub fine_option :
    {A : Type 0} (payload : ℕ) (o : Option A) (f : A → Filled)
    → ((a : A) → fine payload (f a) ≡ true)
    → fine payload (elim o [ none ↦ refused | some a ↦ f a ]) ≡ true
unfolding fine
fine_option payload none f h = refl
fine_option payload (some a) f h = h a

pub fits-++ :
    (payload : ℕ) (xs ys : Fields)
    → fits payload xs ≡ true
    → fits payload ys ≡ true
    → fits payload (xs ++ ys) ≡ true
unfolding fits
fits-++ payload [] ys hx hy = hy
fits-++ payload ((offset, octets) ∷ xs) ys hx hy = let rest = fits-++ payload xs ys in ground arith

-- Off and on.
pub fine_switch :
    (payload : ℕ) (o : Option Bool) (x y : Filled)
    → fine payload x ≡ true
    → fine payload y ≡ true
    → fine payload (elim o [ none ↦ refused | some false ↦ x | some true ↦ y ]) ≡ true
unfolding fine
fine_switch payload none x y hx hy = refl
fine_switch payload (some false) x y hx hy = hx
fine_switch payload (some true) x y hx hy = hy
