-- ===== src/Chip/Lines.antt =====
-- The files that the reset over a GPIO pin opens.
use morsectrl_tools.Prelude.{
  ℕ, ◌+◌, ◌-◌, ◌≤◌, ◌≡◌, refl, ◌∙◌, inl, inr, Bool, true, List, [], ◌∷◌, ◌++◌, length, take,
  length-take, length-append, some, ℤ, pos, ◌==◌, Bool-cases, arith,
}
use morsectrl_tools.Util.Text.{Text, codes}
use morsectrl_tools.Machine.{World, done}
use morsectrl_tools.Chip.Gpio.{
  Sysfs, wrote_all, sysfs_opened, gpio_sysfs_write, gpio_export, gpio_unexport, put_opened,
  gpio_set_dir, gpio_set_val, gpio_path,
}
use morsectrl_tools.Chip.Reset.{unless, morsectrl_reset}

module _ {S : Type 0} where
  -- A system on which the files can be opened and written, which counts what is open; a number has at
  -- least one digit.
  pub record Writable (sys : Sysfs S) (opened : World S → ℕ) : Type 0 where
    pub opens :
        (path : Text) (w : World S)
        → (fd : ℕ) × (w' : World S) × (sys.open_to_write path w ≡ done (some fd, w'))
          × (opened w' ≡ opened w + 1)
    pub writes_all :
        (fd : ℕ) (octets : List ℕ) (w : World S)
        → (w' : World S) × (sys.write fd octets w ≡ done (some (length octets), w'))
          × (opened w' ≡ opened w)
    pub closes :
        (fd : ℕ) (w : World S)
        → (r : ℤ) × (w' : World S) × (sys.close fd w ≡ done (r, w')) × (opened w' ≡ opened w - 1)
    pub looks :
        (path : Text) (w : World S)
        → (there : Bool) × (w' : World S) × (sys.opens_dir path w ≡ done (there, w'))
          × (opened w' ≡ opened w)
    pub decimal-length : (n : ℕ) → 1 ≤ length (sys.decimal n)

module _ {S : Type 0} (sys : Sysfs S) (opened : World S → ℕ) (writable : Writable sys opened) where
  gpio_sysfs_write-closes :
      (value : ℕ) (entry : Text) (w : World S)
      → (w' : World S) × (gpio_sysfs_write sys value entry w ≡ done (pos 0, w'))
        × (opened w' ≡ opened w)
  unfolding gpio_sysfs_write sysfs_opened wrote_all
  gpio_sysfs_write-closes value entry w =
      let octets = take 2 (take 7 (sys.decimal value) ++ 0 ∷ []) in
      let (fd, w1, got, one) = writable.opens entry w in
      let (w2, put, same) = writable.writes_all fd octets w1 in
      let (r, w3, shut, less) = writable.closes fd w2 in
      let two : (length octets == 2) ≡ true = ground (
        arith,
        length-take 2 (take 7 (sys.decimal value) ++ 0 ∷ []),
        length-append (take 7 (sys.decimal value)) (0 ∷ []),
        length-take 7 (sys.decimal value),
        writable.decimal-length value,
      ) in
      rw got (rw put (rw shut (rw two (w3, refl, omega (arith, one, same, less)))))

  put_opened-done :
      (octets : List ℕ) (count fd : ℕ) (w : World S)
      → count ≤ length octets
      → (w' : World S) × (put_opened sys octets count (some fd) w ≡ done (pos 0, w'))
        × (opened w' ≡ opened w)
  unfolding put_opened wrote_all
  put_opened-done octets count fd w enough =
      let (w', put, same) = writable.writes_all fd (take count octets) w in
      let all : (length (take count octets) == count) ≡ true =
        ground (arith, length-take count octets) in
      rw put (rw all (w', refl, same))

  gpio_export-closes :
      (pin : ℕ) (w : World S)
      → (w' : World S) × (gpio_export sys pin w ≡ done (pos 0, w')) × (opened w' ≡ opened w)
  unfolding gpio_export
  gpio_export-closes pin w =
      let (there, w1, looked, same) = writable.looks (gpio_path (sys.decimal pin)) w in
      let (w2, run, same') = gpio_sysfs_write-closes pin (codes "/sys/class/gpio/export") w1 in
      elim (Bool-cases there) [
        | inl yes_there ↦ rw looked (rw yes_there (w1, refl, same))
        | inr missing ↦ rw looked (rw missing (w2, run, same' ∙ same))
      ]

  gpio_unexport-closes :
      (pin : ℕ) (w : World S)
      → (w' : World S) × (gpio_unexport sys pin w ≡ done (pos 0, w')) × (opened w' ≡ opened w)
  unfolding gpio_unexport
  gpio_unexport-closes pin w =
      let (there, w1, looked, same) = writable.looks (gpio_path (sys.decimal pin)) w in
      let (w2, run, same') = gpio_sysfs_write-closes pin (codes "/sys/class/gpio/unexport") w1 in
      elim (Bool-cases there) [
        | inl yes_there ↦ rw looked (rw yes_there (w2, run, same' ∙ same))
        | inr missing ↦ rw looked (rw missing (w1, refl, same))
      ]

  gpio_set_dir-leaks :
      (pin : ℕ) (dirc : Text) (w : World S)
      → 2 ≤ length dirc
      → (w' : World S) × (gpio_set_dir sys pin dirc w ≡ done (pos 0, w'))
        × (opened w' ≡ opened w + 1)
  unfolding gpio_set_dir
  gpio_set_dir-leaks pin dirc w long =
      let (fd, w1, got, one) =
        writable.opens (gpio_path (sys.decimal pin ++ codes "/direction")) w in
      let (w2, run, same) =
        put_opened-done (dirc ++ 0 ∷ []) 3 fd w1 (omega (arith, length-append dirc (0 ∷ []))) in
      rw got (w2, run, same ∙ one)

  gpio_set_val-leaks :
      (pin value : ℕ) (w : World S)
      → (w' : World S) × (gpio_set_val sys pin value w ≡ done (pos 0, w'))
        × (opened w' ≡ opened w + 1)
  unfolding gpio_set_val
  gpio_set_val-leaks pin value w =
      let octets = take 1 (sys.decimal value) ++ 0 ∷ [] in
      let (fd, w1, got, one) = writable.opens (gpio_path (sys.decimal pin ++ codes "/value")) w in
      let (w2, run, same) =
        put_opened-done octets 1 fd w1
          (omega (arith, length-append (take 1 (sys.decimal value)) (0 ∷ []))) in
      rw got (w2, run, same ∙ one)

  -- On a system where the files can be opened and written, morsectrl_reset returns 0 and leaves three
  -- files more open than it found: the direction, the value and the direction again.
  pub morsectrl_reset-leaks :
      (pin : ℕ) (w : World S)
      → (w' : World S) × (morsectrl_reset sys pin w ≡ done (pos 0, w')) × (opened w' ≡ opened w + 3)
  unfolding morsectrl_reset unless
  morsectrl_reset-leaks pin w =
      let (w1, exported, none_open) = gpio_export-closes pin w in
      let (w2, out, one) = gpio_set_dir-leaks pin (codes "out") w1 (omega arith) in
      let (w3, low, two) = gpio_set_val-leaks pin 0 w2 in
      let (w4, back, three) = gpio_set_dir-leaks pin (codes "in") w3 (omega arith) in
      let (w5, unexported, none_more) = gpio_unexport-closes pin w4 in
      rw exported (
        rw out (
          rw low (
            rw back
              (rw unexported (w5, refl, omega (arith, none_open, one, two, three, none_more))))))
