-- ===== src/Chip/Reset.antt =====
-- reset.c, as it is built for other systems than Windows. Sleeping is left out.
use morsectrl_tools.Prelude.{
  ℕ, bit_and, bit_or, Bool, true, false, List, [], ◌∷◌, length, Option, none, some, ℤ, pos, neg,
  is_nonzero, ◌==◌, if◌then◌else◌,
}
use morsectrl_tools.Util.Text.{Text, codes}
use morsectrl_tools.Util.Numbers.{str_to_int32}
use morsectrl_tools.Machine.{M, ◌>>=◌, ret}
use morsectrl_tools.Transport.{Transport, reg_read, reg_write, reset_device}
use morsectrl_tools.Handler.{Getopt, word}
use morsectrl_tools.Chip.Gpio.{
  Sysfs, gpio_export, gpio_unexport, gpio_set_dir, gpio_set_val, gpio_get_env,
}

-- The registers that are cleared first.
abbrev pub clear_aon : List (ℕ × ℕ)
clear_aon = (0x10058094, 0) ∷ (0x10058098, 0) ∷ []

-- The latch is lowered, raised and lowered, and the chip is booted.
unfoldable pub latch_and_boot : ℕ → List (ℕ × ℕ)
latch_and_boot latch =
    (0x1005807C, bit_and latch 0xFFFFFFFE)
    ∷ (0x1005807C, bit_or latch 1)
    ∷ (0x1005807C, bit_and latch 0xFFFFFFFE)
    ∷ (0x10054024, 0x00100000)
    ∷ (0x1005406C, 0xEF)
    ∷ (0x02000000, 1)
    ∷ []

module _ {S : Type 0} where
  -- `if (ret) goto exit`, or a return.
  unfoldable pub unless : ℤ → M S ℤ → M S ℤ
  unless r next = if is_nonzero r then ret r else next

  -- Register writes, up to the first that fails.
  unfoldable pub write_each : Transport S → List (ℕ × ℕ) → M S ℤ
  unfolding unless
  write_each t [] = ret (pos 0)
  write_each t ((address, value) ∷ rest) = do
    r ← reg_write t address value
    unless r (write_each t rest)

  -- The latch is read, and written as it was read but for its lowest bit.
  unfoldable pub latched : Transport S → M S ℤ
  unfolding write_each latch_and_boot
  latched t = do
    latch ← reg_read t 0x1005807C
    unless latch.0 (write_each t (latch_and_boot latch.1))

  -- `soft_reset`. Its test of the table only prints.
  unfoldable pub soft_reset : Transport S → M S ℤ
  unfolding latched
  soft_reset t = do cleared ← write_each t clear_aon; unless cleared (latched t)

  -- `morsectrl_reset`
  unfoldable pub morsectrl_reset : Sysfs S → ℕ → M S ℤ
  unfolding unless
  morsectrl_reset sys pin = do
    exported ← gpio_export sys pin
    unless exported (do
      out ← gpio_set_dir sys pin (codes "out")
      unless out (do
        low ← gpio_set_val sys pin 0
        unless low
            (do back ← gpio_set_dir sys pin (codes "in"); unless back (gpio_unexport sys pin))))

  -- With a reset line of the transport, that one, else the pin that the environment names.
  unfoldable pub reset_unnamed : Sysfs S → Transport S → Bool → M S ℤ
  unfolding morsectrl_reset
  reset_unnamed sys t has_reset =
      let pin = gpio_get_env sys (codes "MM_RESET_PIN") in
      if has_reset
      then reset_device t
      else if pin == 0xFFFFFFFF
      then ret (neg 1)
      else morsectrl_reset sys pin

-- Whether a soft reset is asked for, or `none` for an option that is not known.
unfoldable pub reset_options : List (ℕ × Text) → Option Bool
reset_options [] = some false
reset_options ((option, optarg) ∷ opts) =
    let rest = reset_options opts in
    if option == b's' then elim rest [ none ↦ none | some soft ↦ some true ] else none

module _ {S : Type 0} where
  unfoldable pub reset_with : Sysfs S → Transport S → Bool → List Text → Option Bool → M S ℤ
  unfolding soft_reset reset_unnamed
  reset_with sys t has_reset argv none = ret (neg 1)
  reset_with sys t has_reset argv (some true) = soft_reset t
  reset_with sys t has_reset argv (some false) =
      let pin = str_to_int32 (word argv 1) in
      if length argv == 1
      then reset_unnamed sys t has_reset
      else if length argv == 2
      then (if pin.0 then morsectrl_reset sys pin.1 else ret (neg 1))
      else ret (neg 1)

  -- `reset`; `has_reset` is the transport's.
  unfoldable pub reset : Getopt → Sysfs S → Transport S → Bool → List Text → M S ℤ
  unfolding reset_with reset_options
  reset getopt sys t has_reset argv =
      if length argv == 0
      then ret (pos 0)
      else reset_with sys t has_reset argv (reset_options (getopt argv (codes "s")))
