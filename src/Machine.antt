-- ===== src/Machine.antt =====
-- The state in which the C code runs, and its effects: the world outside (bus, device, files) as a
-- type that is left open, and the number of transport buffers that are allocated and not freed.
-- `fault` is what C leaves undefined: a read or write outside a block, a call through NULL.
-- Printing and the `debug` flags that only print are left out.
pub mod Room
use morsectrl_tools.Prelude.{
  ℕ, zero, suc, ◌+◌, ◌≤◌, ◌≡◌, refl, ap, ◌∙◌, List, [], ◌∷◌, length, take, drop, Option, none, some,
  leb, if◌then◌else◌, arith,
}

pub record World (S : Type 0) : Type 0 where
  pub outside : S
  pub live : ℕ

pub data Outcome (A : Type 0) : Type 0 where
  done : A → Outcome A
  fault : Outcome A

abbrev pub M : Type 0 → Type 0 → Type 0
M S A = World S → Outcome (A × World S)

module _ {S A B : Type 0} where
  -- Go on from an outcome.
  abbrev pub continue : Outcome (A × World S) → (A → M S B) → Outcome (B × World S)
  continue fault f = fault
  continue (done (a, w)) f = f a w

module _ {S : Type 0} where
  infixl 5 ◌>>=◌ ◌>>◌
  abbrev pub ◌>>=◌ : {A B : Type 0} → M S A → (A → M S B) → M S B
  ◌>>=◌ m f w = continue (m w) f

  abbrev pub ◌>>◌ : {A B : Type 0} → M S A → M S B → M S B
  ◌>>◌ m k w = continue (m w) (λ _. k)

  abbrev pub ret : {A : Type 0} → A → M S A
  ret a w = done (a, w)

  abbrev pub undefined : {A : Type 0} → M S A
  undefined w = fault

-- `struct morsectrl_transport_buff`: `data` is the offset of the data pointer into `memblock`, and
-- `capacity` is the length of `memblock`.
pub record Buff : Type 0 where
  pub memblock : List ℕ
  pub data_at : ℕ
  pub data_len : ℕ

-- Write `xs` over a block from index `i`; what lies outside the block is lost.
unfoldable pub overwrite : ℕ → List ℕ → List ℕ → List ℕ
overwrite zero [] mem = mem
overwrite zero (x ∷ xs) [] = []
overwrite zero (x ∷ xs) (m ∷ mem) = x ∷ overwrite zero xs mem
overwrite (suc i) xs [] = []
overwrite (suc i) xs (m ∷ mem) = m ∷ overwrite i xs mem

pub length-overwrite : (i : ℕ) (xs mem : List ℕ) → length (overwrite i xs mem) ≡ length mem
unfolding overwrite
length-overwrite zero [] mem = refl
length-overwrite zero (x ∷ xs) [] = refl
length-overwrite zero (x ∷ xs) (m ∷ mem) = ap suc (length-overwrite zero xs mem)
length-overwrite (suc i) xs [] = refl
length-overwrite (suc i) xs (m ∷ mem) = ap suc (length-overwrite i xs mem)

-- What was written is read back.
pub take-drop-overwrite :
    (i : ℕ) (xs mem : List ℕ)
    → i + length xs ≤ length mem
    → take (length xs) (drop i (overwrite i xs mem)) ≡ xs
unfolding overwrite
take-drop-overwrite zero [] mem h = refl
take-drop-overwrite zero (x ∷ xs) [] h = absurd (omega arith)
take-drop-overwrite zero (x ∷ xs) (m ∷ mem) h =
    ap (◌∷◌ x) (take-drop-overwrite zero xs mem (omega arith))
take-drop-overwrite (suc i) [] [] h = refl
take-drop-overwrite (suc i) (x ∷ xs) [] h = absurd (omega arith)
take-drop-overwrite (suc i) xs (m ∷ mem) h = take-drop-overwrite i xs mem (omega arith)

module _ {S : Type 0} where
  -- `memcpy` or a run of assignments into a buffer, at an offset from its data pointer.
  unfoldable pub store : Buff → ℕ → List ℕ → M S Buff
  store b i xs =
      if leb (b.data_at + i + length xs) (length b.memblock)
      then ret (record b { memblock = overwrite (b.data_at + i) xs b.memblock })
      else undefined

  -- `n` octets of a buffer, from an offset.
  unfoldable pub load : Buff → ℕ → ℕ → M S (List ℕ)
  load b i n =
      if leb (b.data_at + i + n) (length b.memblock)
      then ret (take n (drop (b.data_at + i) b.memblock))
      else undefined

  -- A call through a function pointer that may be NULL.
  unfoldable pub through : {A : Type 0} → Option A → M S A
  through none = undefined
  through (some f) = ret f

module _ {S A B : Type 0} where
  continue_cong :
      (o : Outcome (A × World S)) (f g : A → M S B)
      → ((a : A) (w : World S) → f a w ≡ g a w)
      → continue o f ≡ continue o g
  continue_cong fault f g h = refl
  continue_cong (done (a, w)) f g h = h a w

  -- What follows a step may be replaced by what does the same.
  pub bind_cong :
      (m : M S A) (f g : A → M S B) (w : World S)
      → ((a : A) (w : World S) → f a w ≡ g a w)
      → (m >>= f) w ≡ (m >>= g) w
  bind_cong m f g w h = continue_cong (m w) f g h

  -- A step whose outcome is known.
  pub bind_done :
      (m : M S A) (f : A → M S B) {a : A} {w w' : World S}
      → m w ≡ done (a, w')
      → (m >>= f) w ≡ f a w'
  bind_done m f e = ap (λ o. continue o f) e

module _ {S A B : Type 0} where
  -- Two steps with the same outcome may stand for each other.
  pub bind_same :
      (m n : M S A) (f : A → M S B) (w : World S) → m w ≡ n w → (m >>= f) w ≡ (n >>= f) w
  bind_same m n f w e = ap (λ o. continue o f) e

module _ {S A B C : Type 0} where
  pub continue_assoc :
      (o : Outcome (A × World S)) (f : A → M S B) (g : B → M S C)
      → continue (continue o f) g ≡ continue o (λ a w. continue (f a w) g)
  continue_assoc fault f g = refl
  continue_assoc (done (a, w)) f g = refl

module _ {S A B : Type 0} where
  option_cong :
      (o : Option A) (n : M S B) (f g : A → M S B) (w : World S)
      → ((a : A) (w : World S) → f a w ≡ g a w)
      → (elim o as (λ _. M S B) [ none ↦ n | some a ↦ f a ]) w
        ≡ (elim o as (λ _. M S B) [ none ↦ n | some a ↦ g a ]) w
  option_cong none n f g w h = refl
  option_cong (some a) n f g w h = h a w

  -- So may what follows an allocation that succeeds.
  pub bind_option_cong :
      (m : M S (Option A)) (n : M S B) (f g : A → M S B) (w : World S)
      → ((a : A) (w : World S) → f a w ≡ g a w)
      → (m >>= (λ o. elim o as (λ _. M S B) [ none ↦ n | some a ↦ f a ])) w
        ≡ (m >>= (λ o. elim o as (λ _. M S B) [ none ↦ n | some a ↦ g a ])) w
  bind_option_cong m n f g w h = bind_cong m _ _ w (λ o w1. option_cong o n f g w1 h)

module _ {S A B C : Type 0} (m : M S A) (find : A → Option B) (n : M S C) (f : B → M S C)
    (w : World S) {a : A} {w' : World S} (got : m w ≡ done (a, w')) where
  abbrev search : M S C
  search = m >>= (λ a. elim (find a) as (λ _. M S C) [ none ↦ n | some b ↦ f b ])

  -- A search in what a step gave.
  pub bind_missing : find a ≡ none → search w ≡ n w'
  bind_missing e =
      ap (λ o. continue o (λ a. elim (find a) as (λ _. M S C) [ none ↦ n | some b ↦ f b ])) got
      ∙ ap (λ o. (elim o as (λ _. M S C) [ none ↦ n | some b ↦ f b ]) w') e

  pub bind_found : {b : B} → find a ≡ some b → search w ≡ f b w'
  bind_found e =
      ap (λ o. continue o (λ a. elim (find a) as (λ _. M S C) [ none ↦ n | some b ↦ f b ])) got
      ∙ ap (λ o. (elim o as (λ _. M S C) [ none ↦ n | some b ↦ f b ]) w') e
