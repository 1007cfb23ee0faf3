-- ===== src/Config/Precedence.antt =====
-- What the command line gave is not changed by the file.
use morsectrl_tools.Prelude.{
  ℕ, ◌≡◌, refl, sym, subst, Bool, true, false, List, [], ◌∷◌, Option, none, some, ℤ, pos, neg,
  is_nonzero, length, ltb, ◌==◌, ◌||◌, if◌then◌else◌,
}
use morsectrl_tools.Machine.{Outcome, done, fault}
use morsectrl_tools.Util.Text.{Text, codes}
use morsectrl_tools.Transport.{starts_with}
use morsectrl_tools.Config.{
  CfgBuff, Options, set_cfg, set_iface, set_trans, option_line, other_line, iface_line, trans_line,
  config_line, config_lines, next_line, config_file_parse, fgets_lines, max_line_length,
}

-- A value that was given is the value after.
abbrev pub Kept : Option Text → Option Text → Type 0
Kept none after = Unit {0}
Kept (some t) after = after ≡ some t

-- If a call returns, the transport and the interface are as they were, where they were given.
abbrev pub Keeps : Options → Outcome (ℤ × Options) → Type 0
Keeps o fault = Unit {0}
Keeps o (done (r, o')) = Kept o.trans o'.trans × Kept o.iface o'.iface

Kept-refl : (a : Option Text) → Kept a a
Kept-refl none = tt
Kept-refl (some t) = refl

Kept-trans : (a b c : Option Text) → Kept a b → Kept b c → Kept a c
Kept-trans none b c k k' = tt
Kept-trans (some t) b c k k' = subst (λ b. Kept b c) k k'

Kept-none : {a : Option Text} (b : Option Text) → a ≡ none → Kept a b
Kept-none b e = subst (λ a. Kept a b) (sym e) tt

-- A conditional keeps what both branches keep.
Keeps-if :
    (o : Options) (b : Bool) (p q : Outcome (ℤ × Options))
    → Keeps o p
    → Keeps o q
    → Keeps o (if b then p else q)
Keeps-if o true p q kp kq = kp
Keeps-if o false p q kp kq = kq

Keeps-refl : (o : Options) (r : ℤ) → Keeps o (done (r, o))
Keeps-refl o r = (Kept-refl o.trans, Kept-refl o.iface)

Keeps-trans :
    (o o' : Options) (r : ℤ) (p : Outcome (ℤ × Options))
    → Keeps o (done (r, o'))
    → Keeps o' p
    → Keeps o p
Keeps-trans o o' r fault k k' = tt
Keeps-trans o o' r (done (r', o'')) k k' =
    (Kept-trans o.trans o'.trans o''.trans k.0 k'.0, Kept-trans o.iface o'.iface o''.iface k.1 k'.1)

set_cfg-Keeps : (o : Options) (p : Outcome (ℤ × Option CfgBuff)) → Keeps o (set_cfg o p)
unfolding set_cfg
set_cfg-Keeps o fault = tt
set_cfg-Keeps o (done (r, b)) = Keeps-refl o r

set_iface-Keeps :
    (o : Options) (p : Outcome (ℤ × Option Text)) → o.iface ≡ none → Keeps o (set_iface o p)
unfolding set_iface
set_iface-Keeps o fault e = tt
set_iface-Keeps o (done (r, i)) e = (Kept-refl o.trans, Kept-none i e)

set_trans-Keeps :
    (o : Options) (p : Outcome (ℤ × Option Text)) → o.trans ≡ none → Keeps o (set_trans o p)
unfolding set_trans
set_trans-Keeps o fault e = tt
set_trans-Keeps o (done (r, t)) e = (Kept-none t e, Kept-refl o.iface)

module _ (malloc : ℕ → Bool) (fresh : List ℕ) where
  other_line-Keeps :
      (o : Options) (name : Option Text) (ptr : Text) → Keeps o (other_line malloc fresh o name ptr)
  unfolding other_line option_line
  other_line-Keeps o none ptr = Keeps-refl o (pos 0)
  other_line-Keeps o (some name) ptr =
      Keeps-if o (starts_with name ptr) _ _
        (Keeps-if o (ltb (length name) (length ptr)) _ _ (set_cfg-Keeps o _) tt)
        (Keeps-refl o (pos 0))

  iface_line-Keeps :
      (o : Options) (i : Option Text) (ptr : Text)
      → o.iface ≡ i
      → Keeps o (iface_line malloc fresh o i ptr)
  unfolding iface_line
  iface_line-Keeps o none ptr e =
      Keeps-if o (starts_with (codes "interface") ptr) _ _ (set_iface-Keeps o _ e)
        (other_line-Keeps o o.trans ptr)
  iface_line-Keeps o (some i) ptr e = other_line-Keeps o o.trans ptr

  trans_line-Keeps :
      (o : Options) (t : Option Text) (ptr : Text)
      → o.trans ≡ t
      → Keeps o (trans_line malloc fresh o t ptr)
  unfolding trans_line
  trans_line-Keeps o none ptr e =
      Keeps-if o (starts_with (codes "transport") ptr) _ _ (set_trans-Keeps o _ e)
        (iface_line-Keeps o o.iface ptr refl)
  trans_line-Keeps o (some t) ptr e = iface_line-Keeps o o.iface ptr refl

  config_line-Keeps : (o : Options) (line : Text) → Keeps o (config_line malloc fresh o line)
  unfolding config_line
  config_line-Keeps o [] = Keeps-refl o (pos 0)
  config_line-Keeps o (c ∷ s) =
      Keeps-if o (c == b'#' || c == b'\n' || c == 13) _ _ (Keeps-refl o (pos 0))
        (trans_line-Keeps o o.trans _ refl)

  next_line-Keeps :
      (o : Options) (p : Outcome (ℤ × Options)) (k : Options → Outcome (ℤ × Options))
      → Keeps o p
      → ((o' : Options) → Keeps o' (k o'))
      → Keeps o (next_line p k)
  unfolding next_line
  next_line-Keeps o fault k kp kk = tt
  next_line-Keeps o (done (r, o')) k kp kk =
      Keeps-if o (is_nonzero r) _ _ kp (Keeps-trans o o' r (k o') kp (kk o'))

  config_lines-Keeps :
      (lines : List Text) (o : Options) → Keeps o (config_lines malloc fresh lines o)
  unfolding config_lines
  config_lines-Keeps [] o = Keeps-refl o (pos 0)
  config_lines-Keeps (line ∷ lines) o =
      next_line-Keeps o (config_line malloc fresh o line) _ (config_line-Keeps o line)
        (config_lines-Keeps lines)

  -- Whatever a configuration file holds, if the parser returns, a transport and an interface that were
  -- given before are as they were, whether it returns success or an error.
  pub config_file_parse-Keeps :
      (file : Option Text) (o : Options) → Keeps o (config_file_parse malloc fresh file o)
  unfolding config_file_parse
  config_file_parse-Keeps none o = Keeps-refl o (neg 1)
  config_file_parse-Keeps (some file) o =
      Keeps-if o (malloc max_line_length) _ _ (config_lines-Keeps (fgets_lines 254 [] file) o)
        (Keeps-refl o (neg 1))
