-- ===== src/Main/Bracket.antt =====
-- A command is run between the transport's initialisation and its end.
use morsectrl_tools.Prelude.{
  ℕ, suc, ◌-◌, ◌≡◌, refl, ap, ◌∙◌, inl, inr, Bool, true, not, ◌&&◌, List, is_nonzero, Bool-cases,
  arith, if◌then◌else◌,
}
use morsectrl_tools.Machine.{World, done, M}
use morsectrl_tools.Util.Text.{Text}
use morsectrl_tools.Transport.{Transport, init, deinit}
use morsectrl_tools.Main.{CommandEntry, initialise, run_command, is_ftdi}

module _ {S : Type 0} (opened : World S → ℕ) where
  -- A step that returns, and changes the number of open transports by what its code says.
  abbrev pub Returns : {A : Type 0} → M S A → (ℕ → A → ℕ) → Type 0
  Returns {A} m after =
      (w : World S)
      → (a : A) × (w' : World S) × (m w ≡ done (a, w')) × (opened w' ≡ after (opened w) a)

  -- What the number of open transports obeys: `init` opens one on success and none on failure,
  -- `deinit` closes one, and the handler leaves as many as it finds.
  pub record Bracketed (t : Transport S) (c : CommandEntry S) (argv : List Text) : Type 0 where
    pub opens : Returns (init t) (λ n r. if is_nonzero r then n else suc n)
    pub closes : Returns (deinit t) (λ n r. n - 1)
    pub handles : Returns (c.handler t argv) (λ n r. n)

  -- A command with `is_intf_cmd`, whatever its handler and `init` return, returns, and leaves as many
  -- transports open as there were.
  pub run_command-balanced :
      (has_reset : S → Bool) (t : Transport S) (c : CommandEntry S) (argv : List Text)
      → Bracketed t c argv
      → c.is_intf_cmd ≡ true
      → Returns (run_command has_reset t c argv) (λ n r. n)
  unfolding run_command initialise
  run_command-balanced has_reset t c argv laws intf w =
      elim (Bool-cases (not c.direct_chip_supported_cmd && is_ftdi t.type)) [
        | inl refused ↦ rw refused (_, w, refl, refl)
        | inr allowed ↦
            let (r, w1, run, at) = laws.opens w in
            elim (Bool-cases (is_nonzero r)) [
              | inl bad ↦
                  rw (allowed, intf, run, bad)
                    (r, w1, refl, at ∙ ap (λ b. if b then opened w else suc (opened w)) bad)
              | inr good ↦
                  let (r2, w2, run2, at2) = laws.handles w1 in
                  let one_more = at ∙ ap (λ b. if b then opened w else suc (opened w)) good in
                  let (r3, w3, run3, at3) = laws.closes w2 in
                  rw (allowed, intf, run, good, run2, run3)
                    (r2, w3, refl, omega (arith, at3, at2, one_more))
            ]
      ]
