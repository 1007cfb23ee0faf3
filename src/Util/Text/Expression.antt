-- ===== src/Util/Text/Expression.antt =====
-- `expression_to_int` does not tell capital letters from small ones.
use morsectrl_tools.Prelude.{
  ℕ, ◌≡◌, refl, ap₂, true, false, List, [], ◌∷◌, some, arith, ◌==◌, ◌&&◌, if◌then◌else◌,
}
use morsectrl_tools.Util.Text.{
  Text, to_lower, tolower_str, same_nocase, expression_from, expression_to_int, true_expr,
  false_expr,
}

to_lower_idem : (c : ℕ) → to_lower (to_lower c) ≡ to_lower c
to_lower_idem c = ground arith

same_nocase-tolower_str : (t s : Text) → same_nocase t (tolower_str s) ≡ same_nocase t s
unfolding same_nocase tolower_str
same_nocase-tolower_str [] [] = refl
same_nocase-tolower_str [] (d ∷ s) = refl
same_nocase-tolower_str (c ∷ t) [] = refl
same_nocase-tolower_str (c ∷ t) (d ∷ s) =
    ap₂ (λ x y. (to_lower c == x) && y) (to_lower_idem d) (same_nocase-tolower_str t s)

expression_from-tolower_str :
    (ts fs : List Text) (s : Text) → expression_from ts fs (tolower_str s) ≡ expression_from ts fs s
unfolding expression_from
expression_from-tolower_str [] fs s = refl
expression_from-tolower_str (t ∷ ts) [] s = refl
expression_from-tolower_str (t ∷ ts) (f ∷ fs) s = λ i.
    if same_nocase-tolower_str t s i
    then some true
    else if same_nocase-tolower_str f s i
    then some false
    else expression_from-tolower_str ts fs s i

-- An expression means the same as the expression in small letters.
pub expression_to_int-tolower_str :
    (s : Text) → expression_to_int (tolower_str s) ≡ expression_to_int s
unfolding expression_to_int
expression_to_int-tolower_str s = expression_from-tolower_str true_expr false_expr s
