-- ===== src/Config/Append.antt =====
-- The block for the transport's options is not overrun by what a file adds to it.
use morsectrl_tools.Prelude.{
  ◌+◌, ◌≤◌, ◌<◌, ◌≡◌, refl, inl, inr, ◌⊎◌, true, [], ◌∷◌, ◌++◌, some, ℤ, pos, neg, length,
  length-append, ltb, ◌==◌, Bool-cases, arith, if◌then◌else◌,
}
use morsectrl_tools.Machine.{done}
use morsectrl_tools.Util.Text.{Text}
use morsectrl_tools.Config.{CfgBuff, append_cfg, max_cfg_length, remove_trailing_ws}

-- The string that is put together, with its terminator, is no longer than the test reckoned.
length_text :
    (old buff : Text)
    → length old + length buff + 2 ≤ max_cfg_length
    → length (if length old == 0 then buff else old ++ (b',' ∷ buff)) < max_cfg_length
length_text [] buff h = omega arith
length_text (c ∷ old) buff h = grind (arith, length-append old (b',' ∷ buff))

-- A line is appended to a block of `MAX_CFG_LENGTH` octets whose string has its terminator inside:
-- the call returns, the block is as long as before, and its string still has its terminator inside.
-- The string is the old one if the code is -1, the line without its trailing space if the code is 0
-- and there was none, and otherwise the old one, a comma and that line.
pub append_cfg-fits :
    (line : Text) (b : CfgBuff)
    → b.capacity ≡ max_cfg_length
    → length b.text < max_cfg_length
    → (r : ℤ) × (b' : CfgBuff) × (append_cfg line b ≡ done (r, some b'))
      × (b'.capacity ≡ max_cfg_length)
      × (length b'.text < max_cfg_length)
      × (((r ≡ neg 1) × (b'.text ≡ b.text))
          ⊎ ((r ≡ pos 0)
              × (b'.text ≡ (
                  if length b.text == 0
                  then remove_trailing_ws line
                  else b.text ++ (b',' ∷ remove_trailing_ws line)))))
unfolding append_cfg
append_cfg-fits line b whole inside =
    let buff : Text = remove_trailing_ws line in
    let text : Text = if length b.text == 0 then buff else b.text ++ (b',' ∷ buff) in
    elim (Bool-cases (ltb max_cfg_length (length b.text + length buff + 2))) [
      | inl big ↦ rw big (neg 1, b, refl, whole, inside, inl (refl, refl))
      | inr small ↦
          let short : length text < max_cfg_length = length_text b.text buff (ground arith) in
          let room : ltb (length text) b.capacity ≡ true = ground arith in
          rw (small, room)
            (
              pos 0,
              record { text = text; capacity = b.capacity },
              refl,
              whole,
              short,
              inr (refl, refl),
            )
    ]
