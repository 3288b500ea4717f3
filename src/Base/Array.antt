-- ===== src/Base/Array.antt =====
-- C arrays as lists, indexed by native numbers.
use Prim.Native.Nat.{ℕ, zero, suc, ◌<◌, ◌≤◌}
use mathlib.Core.Path.{◌≡◌, refl, ap, sym, ◌∙◌}
use mathlib.Core.Logic.{◌≢◌, inl, inr}
use mathlib.Core.Bool.{Bool, true, ◌&&◌, false≢true}
use mathlib.Core.List.{List, [], ◌∷◌}
use native.Mathlib.Omega.{arith}
use kinetis_k22_sim.Base.Tests.{ltb, ◌==◌, if◌then◌else◌, Bool-cases, ==→≡, ≡→==}

module _ {ℓ} {A : Type ℓ} where
  abbrev pub length : List A → ℕ
  length [] = 0
  length (x ∷ xs) = suc (length xs)

  abbrev pub get_or : List A → ℕ → A → A
  get_or [] i d = d
  get_or (x ∷ xs) zero d = x
  get_or (x ∷ xs) (suc i) d = get_or xs i d

  -- A write out of range is not made: in C it is undefined.
  abbrev pub set : List A → ℕ → A → List A
  set [] i v = []
  set (x ∷ xs) zero v = v ∷ xs
  set (x ∷ xs) (suc i) v = x ∷ set xs i v

  abbrev pub replicate : ℕ → A → List A
  replicate zero a = []
  replicate (suc n) a = a ∷ replicate n a

  pub length-set : (xs : List A) (i : ℕ) (v : A) → length (set xs i v) ≡ length xs
  length-set [] i v = refl
  length-set (x ∷ xs) zero v = refl
  length-set (x ∷ xs) (suc i) v = ap suc (length-set xs i v)

  pub get_or-set_self :
      (xs : List A) (i : ℕ) (v d : A) → i < length xs → get_or (set xs i v) i d ≡ v
  get_or-set_self [] i v d h = absurd (omega arith)
  get_or-set_self (x ∷ xs) zero v d h = refl
  get_or-set_self (x ∷ xs) (suc i) v d h = get_or-set_self xs i v d (omega arith)

  pub get_or-set_ne :
      (xs : List A) (i j : ℕ) (v d : A) → i ≢ j → get_or (set xs i v) j d ≡ get_or xs j d
  get_or-set_ne [] i j v d ne = refl
  get_or-set_ne (x ∷ xs) zero zero v d ne = absurd (ne refl)
  get_or-set_ne (x ∷ xs) zero (suc j) v d ne = refl
  get_or-set_ne (x ∷ xs) (suc i) zero v d ne = refl
  get_or-set_ne (x ∷ xs) (suc i) (suc j) v d ne = get_or-set_ne xs i j v d (λ e. ne (ap suc e))

  pub set_out : (xs : List A) (i : ℕ) (v : A) → length xs ≤ i → set xs i v ≡ xs
  set_out [] i v h = refl
  set_out (x ∷ xs) zero v h = absurd (omega arith)
  set_out (x ∷ xs) (suc i) v h = ap (◌∷◌ x) (set_out xs i v (omega arith))

  -- A write, read back anywhere.
  pub get_or-set :
      (xs : List A) (i j : ℕ) (v d : A)
      → i < length xs
      → get_or (set xs i v) j d ≡ (if i == j then v else get_or xs j d)
  get_or-set xs i j v d h = elim (Bool-cases (i == j)) [
    | inl e ↦ rw e (rw (← ==→≡ i j e) (get_or-set_self xs i v d h))
    | inr n ↦ rw n (get_or-set_ne xs i j v d (λ e. false≢true (sym n ∙ ≡→== i j e)))
  ]

  -- Writing a cell twice, or with the value that it holds.
  pub set-set : (xs : List A) (i : ℕ) (v w : A) → set (set xs i v) i w ≡ set xs i w
  set-set [] i v w = refl
  set-set (x ∷ xs) zero v w = refl
  set-set (x ∷ xs) (suc i) v w = ap (◌∷◌ x) (set-set xs i v w)

  pub set_self : (xs : List A) (i : ℕ) (d : A) → set xs i (get_or xs i d) ≡ xs
  set_self [] i d = refl
  set_self (x ∷ xs) zero d = refl
  set_self (x ∷ xs) (suc i) d = ap (◌∷◌ x) (set_self xs i d)

-- A cell of an array of numbers.
infix 80 ◌!◌
abbrev pub ◌!◌ : List ℕ → ℕ → ℕ
xs ! i = get_or xs i 0

pub replicate_zero : (n i : ℕ) → replicate n 0 ! i ≡ 0
replicate_zero zero i = refl
replicate_zero (suc n) zero = refl
replicate_zero (suc n) (suc i) = replicate_zero n i

-- All cells are below `n`.
abbrev pub all_ltb : ℕ → List ℕ → Bool
all_ltb n [] = true
all_ltb n (x ∷ xs) = ltb x n && all_ltb n xs

pub all_ltb_sound : (n : ℕ) (xs : List ℕ) → 0 < n → all_ltb n xs ≡ true → (i : ℕ) → xs ! i < n
all_ltb_sound n [] pos h i = pos
all_ltb_sound n (x ∷ xs) pos h zero = ground arith
all_ltb_sound n (x ∷ xs) pos h (suc i) = all_ltb_sound n xs pos (ground arith) i
