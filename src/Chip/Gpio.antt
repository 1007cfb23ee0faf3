-- ===== src/Chip/Gpio.antt =====
-- gpioctrl.c. The system's calls are a record of functions; a path's length is below its buffer's.
use morsectrl_tools.Prelude.{
  ℕ, Bool, false, List, [], ◌∷◌, ◌++◌, take, Option, none, some, ℤ, pos, neg, ◌==◌, if◌then◌else◌,
}
use morsectrl_tools.Util.Text.{Text, codes}
use morsectrl_tools.Util.Numbers.{atoi}
use morsectrl_tools.Machine.{M, ◌>>=◌, ◌>>◌, ret}

-- `open` for writing, with `none` for -1; `write`, with the count or `none` for -1; `close`; whether
-- `opendir` opens a path, which `closedir` then closes; `getenv`; and `%d` of `snprintf`.
pub record Sysfs (S : Type 0) : Type 0 where
  pub open_to_write : Text → M S (Option ℕ)
  pub write : ℕ → List ℕ → M S (Option ℕ)
  pub close : ℕ → M S ℤ
  pub opens_dir : Text → M S Bool
  pub getenv : Text → Option Text
  pub decimal : ℕ → Text

unfoldable pub wrote_all : ℕ → Option ℕ → Bool
wrote_all n none = false
wrote_all n (some m) = m == n

abbrev pub gpio_path : Text → Text
gpio_path pin = codes "/sys/class/gpio/gpio" ++ pin

module _ {S : Type 0} (sys : Sysfs S) where
  -- The first two octets of the number's text, its terminator among them.
  unfoldable pub sysfs_opened : ℕ → Option ℕ → M S ℤ
  unfolding wrote_all
  sysfs_opened value none = ret (neg 1)
  sysfs_opened value (some fd) = do
    n ← sys.write fd (take 2 (take 7 (sys.decimal value) ++ 0 ∷ []))
    sys.close fd
    ret (if wrote_all 2 n then pos 0 else neg 1)

  -- `gpio_sysfs_write`
  unfoldable pub gpio_sysfs_write : ℕ → Text → M S ℤ
  unfolding sysfs_opened
  gpio_sysfs_write value entry = do fd ← sys.open_to_write entry; sysfs_opened value fd

  -- `gpio_export`
  unfoldable pub gpio_export : ℕ → M S ℤ
  unfolding gpio_sysfs_write
  gpio_export pin = do
    there ← sys.opens_dir (gpio_path (sys.decimal pin))
    if there then ret (pos 0) else gpio_sysfs_write pin (codes "/sys/class/gpio/export")

  -- `gpio_unexport`
  unfoldable pub gpio_unexport : ℕ → M S ℤ
  unfolding gpio_sysfs_write
  gpio_unexport pin = do
    there ← sys.opens_dir (gpio_path (sys.decimal pin))
    if there then gpio_sysfs_write pin (codes "/sys/class/gpio/unexport") else ret (pos 0)

  -- The file is closed where the write fails, and only there.
  unfoldable pub put_opened : List ℕ → ℕ → Option ℕ → M S ℤ
  unfolding wrote_all
  put_opened octets count none = ret (neg 1)
  put_opened octets count (some fd) = do
    n ← sys.write fd (take count octets)
    if wrote_all count n then ret (pos 0) else (do sys.close fd; ret (neg 1))

  -- `gpio_set_dir`: three octets of the word, its terminator among them.
  unfoldable pub gpio_set_dir : ℕ → Text → M S ℤ
  unfolding put_opened
  gpio_set_dir pin dirc = do
    fd ← sys.open_to_write (gpio_path (sys.decimal pin ++ codes "/direction"))
    put_opened (dirc ++ 0 ∷ []) 3 fd

  -- `gpio_set_val`: one octet of the number's text.
  unfoldable pub gpio_set_val : ℕ → ℕ → M S ℤ
  unfolding put_opened
  gpio_set_val pin val_int = do
    fd ← sys.open_to_write (gpio_path (sys.decimal pin ++ codes "/value"))
    put_opened (take 1 (sys.decimal val_int) ++ 0 ∷ []) 1 fd

  -- `gpio_get_env`, with `none` for the missing variable's -1.
  unfoldable pub gpio_get_env : Text → ℕ
  gpio_get_env env_var = elim (sys.getenv env_var) [ none ↦ 0xFFFFFFFF | some s ↦ atoi s ]
