-- ===== src/Main/ExitCode.antt =====
-- The exit code of the process, from `exit:` in `main` of morsectrl.c.
use morsectrl_tools.Prelude.{
  ℕ, zero, suc, ◌≤◌, ◌≡◌, ◌≢◌, ◌⊎◌, refl, inl, inr, ℤ, pos, negsuc, arith, ltb, Bool-cases,
}
use morsectrl_tools.Main.{exit_code}

negsuc_ne_pos : {m n : ℕ} → negsuc m ≢ pos n
negsuc_ne_pos e = cc

-- The exit code is a number of at most 254, and it reports success for the code 0 alone: it is 0 and
-- the code is 0, or neither is.
pub exit_code-le :
    (r : ℤ)
    → (n : ℕ) × (exit_code r ≡ pos n)
      × (n ≤ 254)
      × (((n ≡ 0) × (r ≡ pos 0)) ⊎ ((n ≢ 0) × (r ≢ pos 0)))
unfolding exit_code
exit_code-le (pos zero) = (0, refl, omega arith, inl (refl, refl))
exit_code-le (pos (suc n)) =
    let ne : pos (suc n) ≢ pos 0 = λ e. cc in
    elim (Bool-cases (ltb 254 (suc n))) [
      | inl big ↦ rw big (2, refl, omega arith, inr (omega arith, ne))
      | inr small ↦ rw small (suc n, refl, ground arith, inr (omega arith, ne))
    ]
exit_code-le (negsuc n) = (2, refl, omega arith, inr (omega arith, negsuc_ne_pos))
