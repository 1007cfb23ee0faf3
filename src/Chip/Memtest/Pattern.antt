-- ===== src/Chip/Memtest/Pattern.antt =====
-- What the loop of transraw_memtest leaves in the buffer.
use mathlib.Core.List.{append_assoc, append-nil}
use morsectrl_tools.Prelude.{
  ℕ, zero, suc, ◌+◌, ◌*◌, ◌≤◌, ◌≡◌, refl, sym, ap, ◌∙◌, true, false, List, [], ◌∷◌, ◌++◌, length,
  take, drop, length-drop, ltb, leb, arith,
}
use morsectrl_tools.Machine.{World, done, Buff, overwrite, length-overwrite, store}
use morsectrl_tools.Machine.Room.{Holds, SameBuff, take-overwrite}
use morsectrl_tools.Chip.Memtest.{octets_at, fill_from}

-- So many words, from an offset.
abbrev pub pattern : ℕ → ℕ → ℕ → List ℕ
pattern zero ii base_value = []
pattern (suc n) ii base_value = octets_at ii base_value ++ pattern n (ii + 4) base_value

drop-overwrite :
    (start i j : ℕ) (xs mem : List ℕ)
    → j ≡ start + i
    → j + length xs ≤ length mem
    → drop start (overwrite j xs mem) ≡ overwrite i xs (drop start mem)
unfolding overwrite
drop-overwrite zero i j xs mem e h =
    let same : j ≡ i = omega (arith, e) in ap (λ j. overwrite j xs mem) same
drop-overwrite (suc start) i zero xs mem e h = absurd (omega (arith, e))
drop-overwrite (suc start) i (suc j) xs [] e h = absurd (omega (arith, h))
drop-overwrite (suc start) i (suc j) xs (m ∷ mem) e h =
    drop-overwrite start i j xs mem (omega (arith, e)) (omega (arith, h))

-- What a step of the loop adds to what is there.
step-adds :
    (ii base_value : ℕ) (b : Buff)
    → ii + 4 ≤ b.data_len
    → Holds b.data_len b
    → take
        (ii + 4)
        (drop b.data_at (overwrite (b.data_at + ii) (octets_at ii base_value) b.memblock))
      ≡ take ii (drop b.data_at b.memblock) ++ octets_at ii base_value
step-adds ii base_value b inside room =
    let octets = octets_at ii base_value in
    ap (take (ii + 4)) (
      drop-overwrite b.data_at ii (b.data_at + ii) octets b.memblock refl
        (omega (arith, inside, room)))
    ∙ take-overwrite ii (ii + 4) octets (drop b.data_at b.memblock) refl
        (omega (arith, inside, room, length-drop b.data_at b.memblock))

-- As many rounds as words are enough, and fill the rest of the buffer.
pub fill_from-fills :
    {S : Type 0} (fuel n ii base_value : ℕ) (b : Buff) (w : World S)
    → ii + 4 * n ≡ b.data_len
    → n ≤ fuel
    → Holds b.data_len b
    → (b' : Buff) × (fill_from fuel ii base_value b w ≡ done (b', w))
      × SameBuff b' b
      × (take b.data_len (drop b.data_at b'.memblock)
          ≡ take ii (drop b.data_at b.memblock) ++ pattern n ii base_value)
unfolding fill_from store
fill_from-fills zero (suc n) ii base_value b w all enough room = absurd (omega (arith, enough))
fill_from-fills zero zero ii base_value b w all enough room =
    let whole : b.data_len ≡ ii = omega (arith, all) in
    (
      b,
      refl,
      (refl, refl, refl),
      ap (λ k. take k (drop b.data_at b.memblock)) whole
          ∙ sym (append-nil (take ii (drop b.data_at b.memblock))),
    )
fill_from-fills (suc fuel) zero ii base_value b w all enough room =
    let whole : b.data_len ≡ ii = omega (arith, all) in
    let stop : ltb (ii + 3) b.data_len ≡ false = ground (arith, all) in
    rw stop (
      b,
      refl,
      (refl, refl, refl),
      ap (λ k. take k (drop b.data_at b.memblock)) whole
          ∙ sym (append-nil (take ii (drop b.data_at b.memblock))),
    )
fill_from-fills (suc fuel) (suc n) ii base_value b w all enough room =
    let octets = octets_at ii base_value in
    let size = length-overwrite (b.data_at + ii) octets b.memblock in
    let go_on : ltb (ii + 3) b.data_len ≡ true = ground (arith, all) in
    let inside : leb (b.data_at + ii + 4) (length b.memblock) ≡ true = ground (arith, all, room) in
    let b1 : Buff = record b { memblock = overwrite (b.data_at + ii) octets b.memblock } in
    let (b', run, (at, len, size'), filled) =
      fill_from-fills fuel n (ii + 4) base_value b1 w (omega (arith, all)) (omega (arith, enough))
        (omega (arith, room, size)) in
    let added = step-adds ii base_value b (omega (arith, all)) room in
    rw (go_on, inside, run)
      (
        b',
        refl,
        (at, len, size' ∙ size),
        filled
            ∙ ap (λ l. l ++ pattern n (ii + 4) base_value) added
            ∙ append_assoc (take ii (drop b.data_at b.memblock)) octets
                (pattern n (ii + 4) base_value),
      )
