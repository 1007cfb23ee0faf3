-- ===== src/Transport/Dispatch.antt =====
-- What the transport layer does without a table of functions, as `morsectrl_transport_deinit` leaves
-- it and as an unknown name on the command line leaves it.
use morsectrl_tools.Prelude.{
  sym, ◌∙◌, ℕ, arith, ◌≡◌, ◌↔◌, refl, ap, ap₂, Bool, true, [], ◌∷◌, ◌++◌, Option, none, some, ℤ,
  ==_iff,
}
use morsectrl_tools.Util.Text.{Text}
use morsectrl_tools.Machine.{World, Outcome, done, fault, continue, ret, Buff}
use morsectrl_tools.Transport.{
  Transport, TransportOps, etranserr, starts_with, init, deinit, deinit_with, cmd_alloc, resp_alloc,
  raw_read_alloc, raw_write_alloc, reg_read, reg_write, mem_read, mem_write, send, raw_read,
  raw_write, raw_read_write, reset_device,
}

module _ {S : Type 0} where
  -- Every call is refused, with `-ETRANSERR` or no buffer, and changes nothing.
  abbrev pub Refuses : Transport S → Type 0
  Refuses t =
      (w : World S) (size addr value : ℕ) (b b' : Buff) (start finish : Bool)
      → (init t w ≡ done (etranserr, w))
        × (cmd_alloc t size w ≡ done (none, w))
        × (resp_alloc t size w ≡ done (none, w))
        × (raw_read_alloc t size w ≡ done (none, w))
        × (raw_write_alloc t size w ≡ done (none, w))
        × (reg_read t addr w ≡ done ((etranserr, 0), w))
        × (reg_write t addr value w ≡ done (etranserr, w))
        × (mem_read t b addr w ≡ done ((etranserr, b), w))
        × (mem_write t b addr w ≡ done (etranserr, w))
        × (send t b b' w ≡ done ((etranserr, b'), w))
        × (raw_read t (some b) start finish w ≡ done ((etranserr, some b), w))
        × (raw_write t (some b) start finish w ≡ done (etranserr, w))
        × (raw_read_write t b b' start finish w ≡ done ((etranserr, b), w))
        × (reset_device t w ≡ done (etranserr, w))

  none-Refuses : (t : Transport S) → t.tops ≡ none → Refuses t
  unfolding init cmd_alloc resp_alloc raw_read_alloc raw_write_alloc reg_read reg_write mem_read
      mem_write send raw_read raw_write raw_read_write reset_device
  none-Refuses t e w size addr value b b' start finish =
      rw e (refl, refl, refl, refl, refl, refl, refl, refl, refl, refl, refl, refl, refl, refl)

  tops_in : Outcome ((ℤ × Transport S) × World S) → Option (TransportOps S)
  tops_in fault = none
  tops_in (done ((r, t), w)) = t.tops

  detached :
      (t : Transport S) (o : Outcome (ℤ × World S))
      → tops_in (continue o (λ r. ret (r, record t { tops = none }))) ≡ none
  unfolding tops_in
  detached t fault = refl
  detached t (done (r, w)) = refl

  deinit_with-tops_in :
      (t : Transport S) (tops : Option (TransportOps S)) (w : World S)
      → tops_in (deinit_with t tops w) ≡ none
  unfolding deinit_with tops_in
  deinit_with-tops_in t none w = refl
  deinit_with-tops_in t (some tops) w = detached t (tops.deinit w)

  -- After `morsectrl_transport_deinit`, whatever it returned, every call through the table of functions
  -- is refused and changes nothing.
  pub deinit-Refuses :
      (t t' : Transport S) (w w' : World S) {r : ℤ} → deinit t w ≡ done ((r, t'), w') → Refuses t'
  unfolding tops_in deinit
  deinit-Refuses t t' w w' e = none-Refuses t' (sym (ap tops_in e) ∙ deinit_with-tops_in t t.tops w)

-- The test by `strncmp` with the prefix's length holds exactly of what begins with the prefix.
pub starts_with_iff : (p s : Text) → (starts_with p s ≡ true) ↔ ((rest : Text) × (s ≡ p ++ rest))
unfolding starts_with
starts_with_iff [] s = (λ e. (s, refl), λ e. refl)
starts_with_iff (p ∷ ps) [] = (λ e. cc, λ (rest, e). cc)
starts_with_iff (p ∷ ps) (c ∷ s) = (
  λ e.
      let (rest, whole) = (starts_with_iff ps s).0 (grind arith) in
      (rest, ap₂ ◌∷◌ (grind arith) whole),
  λ (rest, whole).
      let same : p ≡ c = cc in
      let tail : s ≡ ps ++ rest = cc in
      rw ((==_iff p c).1 same, (starts_with_iff ps s).1 (rest, tail)) refl,
)
