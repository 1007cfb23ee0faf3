-- ===== src/Ftdi/Parse/Channel.antt =====
-- The channel's configuration carries the values that were read.
use morsectrl_tools.Prelude.{
  ℕ, zero, suc, ◌+◌, ◌-◌, ◌*◌, ◌/◌, ◌%◌, min, max, ◌≤◌, ◌≡◌, refl, bit_or, Bool, true, false, leb,
  ◌&&◌, if◌then◌else◌, arith,
}
use morsectrl_tools.Ftdi.Parse.{
  ChannelValues, channel_of, clock_rate_of, mode_option, cs_option, polarity_option,
}

-- A truth value as a bit.
abbrev pub digit : Bool → ℕ
digit b = if b then 1 else 0

-- The number behind DBUS, less 3.
abbrev pub line : ℕ → ℕ
line cs_pin = if leb 3 cs_pin && leb cs_pin 7 then cs_pin - 3 else 0

-- The options of a channel, as libmpsse takes them apart: the mode in the two lowest bits, the line
-- of the chip select in the next three, and its polarity behind them.
pub record Decodes (v : ChannelValues) (options : ℕ) : Type 0 where
  pub mode : options % 4 ≡ 2 * digit v.cpol + digit v.cpha
  pub chip_select : options / 4 % 8 ≡ line v.cs_pin
  pub active_low : options / 32 ≡ digit v.cs_active_low

-- The option of a line is its number behind the two bits of the mode.
cs_option-eq : (n : ℕ) → cs_option n ≡ 4 * line n
unfolding cs_option
cs_option-eq n = ground arith

line-le : (n : ℕ) → line n ≤ 4
line-le n = ground arith

-- For the numbers up to four.
up_to_four : (P : ℕ → Type 0) → P 0 → P 1 → P 2 → P 3 → P 4 → (k : ℕ) → k ≤ 4 → P k
up_to_four P a b c d e zero h = a
up_to_four P a b c d e (suc zero) h = b
up_to_four P a b c d e (suc (suc zero)) h = c
up_to_four P a b c d e (suc (suc (suc zero))) h = d
up_to_four P a b c d e (suc (suc (suc (suc zero)))) h = e
up_to_four P a b c d e (suc (suc (suc (suc (suc k))))) h = absurd (omega arith)

-- The three parts do not overlap.
Packed : Bool → Bool → Bool → ℕ → Type 0
Packed cpol cpha low k =
    bit_or (bit_or (mode_option cpol cpha) (polarity_option low)) (4 * k)
    ≡ 2 * digit cpol + digit cpha + 4 * k + 32 * digit low

options-Packed : (cpol cpha low : Bool) (k : ℕ) → k ≤ 4 → Packed cpol cpha low k
unfolding mode_option polarity_option Packed
options-Packed false false false = up_to_four (Packed false false false) refl refl refl refl refl
options-Packed false false true = up_to_four (Packed false false true) refl refl refl refl refl
options-Packed false true false = up_to_four (Packed false true false) refl refl refl refl refl
options-Packed false true true = up_to_four (Packed false true true) refl refl refl refl refl
options-Packed true false false = up_to_four (Packed true false false) refl refl refl refl refl
options-Packed true false true = up_to_four (Packed true false true) refl refl refl refl refl
options-Packed true true false = up_to_four (Packed true true false) refl refl refl refl refl
options-Packed true true true = up_to_four (Packed true true true) refl refl refl refl refl

-- For any values that were read: the clock is the one that was asked for, in Hz, held between 1 kHz
-- and 30 MHz; and the options carry the mode, the chip select's line and its polarity.
pub channel_of-Decodes :
    (v : ChannelValues)
    → ((channel_of v).clock_rate ≡ min 30000 (max 1 v.freq_khz) * 1000)
      × Decodes v (channel_of v).config_options
unfolding channel_of clock_rate_of Packed
channel_of-Decodes v =
    let k = line v.cs_pin in
    let small = line-le v.cs_pin in
    let packed = options-Packed v.cpol v.cpha v.cs_active_low k small in
    let a : digit v.cpol ≤ 1 = ground arith in
    let b : digit v.cpha ≤ 1 = ground arith in
    (
      ground arith,
      rw (cs_option-eq v.cs_pin, packed)
          (record {
            mode = omega (arith, a, b);
            chip_select = omega (arith, a, b, small);
            active_low = omega (arith, a, b, small);
          }),
    )
