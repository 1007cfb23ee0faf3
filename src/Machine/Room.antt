-- ===== src/Machine/Room.antt =====
-- Reading and writing inside a buffer.
use morsectrl_tools.Prelude.{
  ℕ, zero, suc, ◌+◌, ◌≤◌, ◌≡◌, refl, ap, ◌∙◌, true, List, [], ◌∷◌, ◌++◌, length, take, drop,
  length-take, length-drop, leb, arith,
}
use morsectrl_tools.Machine.{
  World, done, Buff, overwrite, take-drop-overwrite, length-overwrite, store, load,
}

-- What was written stands behind what was there before.
pub take-overwrite :
    (i k : ℕ) (xs mem : List ℕ)
    → k ≡ i + length xs
    → k ≤ length mem
    → take k (overwrite i xs mem) ≡ take i mem ++ xs
unfolding overwrite
take-overwrite zero k xs mem e h =
    let at_start : k ≡ length xs = omega (arith, e) in
    ap (λ k. take k (overwrite zero xs mem)) at_start
    ∙ take-drop-overwrite zero xs mem (omega (arith, e, h))
take-overwrite (suc i) zero xs mem e h = absurd (omega (arith, e))
take-overwrite (suc i) (suc k) xs [] e h = absurd (omega (arith, h))
take-overwrite (suc i) (suc k) xs (m ∷ mem) e h =
    ap (◌∷◌ m) (take-overwrite i k xs mem (omega (arith, e)) (omega (arith, h)))

-- A write changes nothing before it and nothing behind it.
pub take-overwrite-before : (i : ℕ) (xs mem : List ℕ) → take i (overwrite i xs mem) ≡ take i mem
unfolding overwrite
take-overwrite-before zero xs mem = refl
take-overwrite-before (suc i) xs [] = refl
take-overwrite-before (suc i) xs (m ∷ mem) = ap (◌∷◌ m) (take-overwrite-before i xs mem)

pub drop-overwrite-behind :
    (i k : ℕ) (xs mem : List ℕ)
    → k ≡ i + length xs
    → k ≤ length mem
    → drop k (overwrite i xs mem) ≡ drop k mem
unfolding overwrite
drop-overwrite-behind zero k [] mem e h = refl
drop-overwrite-behind zero zero (x ∷ xs) mem e h = absurd (omega (arith, e))
drop-overwrite-behind zero (suc k) (x ∷ xs) [] e h = absurd (omega (arith, h))
drop-overwrite-behind zero (suc k) (x ∷ xs) (m ∷ mem) e h =
    drop-overwrite-behind zero k xs mem (omega (arith, e)) (omega (arith, h))
drop-overwrite-behind (suc i) zero xs mem e h = absurd (omega (arith, e))
drop-overwrite-behind (suc i) (suc k) xs [] e h = absurd (omega (arith, h))
drop-overwrite-behind (suc i) (suc k) xs (m ∷ mem) e h =
    drop-overwrite-behind i k xs mem (omega (arith, e)) (omega (arith, h))

-- A buffer with room for `n` octets behind its data pointer.
abbrev pub Holds : ℕ → Buff → Type 0
Holds n b = b.data_at + n ≤ length b.memblock

-- The buffers differ in their octets at most.
abbrev pub SameBuff : Buff → Buff → Type 0
SameBuff b' b =
    (b'.data_at ≡ b.data_at) × (b'.data_len ≡ b.data_len) × (length b'.memblock ≡ length b.memblock)

pub SameBuff-trans : (a b c : Buff) → SameBuff a b → SameBuff b c → SameBuff a c
SameBuff-trans a b c (at, len, size) (at', len', size') = (at ∙ at', len ∙ len', size ∙ size')

module _ {S : Type 0} where
  pub store-SameBuff :
      (b : Buff) (i : ℕ) (octets : List ℕ) (w : World S)
      → Holds (i + length octets) b
      → (b' : Buff) × (store b i octets w ≡ done (b', w)) × SameBuff b' b
  unfolding store
  store-SameBuff b i octets w room =
      let inside : leb (b.data_at + i + length octets) (length b.memblock) ≡ true = ground arith in
      rw inside (_, refl, (refl, refl, length-overwrite (b.data_at + i) octets b.memblock))

  pub load-length :
      (b : Buff) (i n : ℕ) (w : World S)
      → Holds (i + n) b
      → (octets : List ℕ) × (load b i n w ≡ done (octets, w)) × (length octets ≡ n)
  unfolding load
  load-length b i n w room =
      let inside : leb (b.data_at + i + n) (length b.memblock) ≡ true = ground arith in
      let cut = length-take n (drop (b.data_at + i) b.memblock) in
      let left = length-drop (b.data_at + i) b.memblock in
      rw inside (_, refl, ground (arith, cut, left, room))
