-- ===== src/Base/Sorting.antt =====
-- What `sorted` keeps and what order it makes.
use mathlib.Core.Path.{◌≡◌, refl, ◌∙◌, ap}
use mathlib.Core.Logic.{◌≢◌, inl, inr}
use mathlib.Core.Bool.{Bool, true, false}
use mathlib.Core.List.{List, [], ◌∷◌}
use native.Mathlib.Omega.{arith}
use Prim.Native.Nat.{suc}
use deepdive.Base.Tests.{Bool-cases}
use deepdive.Base.Lists.{length, All}
use deepdive.Base.Sort.{insert_sorted, sorted}

module _ {ℓ} {A : Type ℓ} (less : A → A → Bool) where
  insert_sorted-full : (x : A) (ys : List A) → insert_sorted less x ys ≢ []
  unfolding insert_sorted
  insert_sorted-full x [] e = ground arith
  insert_sorted-full x (y ∷ ys) e = ground arith

  pub sorted-full : (x : A) (xs : List A) → sorted less (x ∷ xs) ≢ []
  unfolding sorted
  sorted-full x xs = insert_sorted-full x (sorted less xs)

  pub sorted-nonempty : (xs : List A) → xs ≢ [] → sorted less xs ≢ []
  sorted-nonempty [] h e = h refl
  sorted-nonempty (x ∷ xs) h e = sorted-full x xs e

  length-insert_sorted : (x : A) (ys : List A) → length (insert_sorted less x ys) ≡ suc (length ys)
  unfolding insert_sorted
  length-insert_sorted x [] = refl
  length-insert_sorted x (y ∷ ys) = ground (arith, length-insert_sorted x ys)

  pub length-sorted : (xs : List A) → length (sorted less xs) ≡ length xs
  unfolding sorted
  length-sorted [] = refl
  length-sorted (x ∷ xs) = length-insert_sorted x (sorted less xs) ∙ ap suc (length-sorted xs)

  module _ {κ} (P : A → Type κ) where
    All-insert_sorted : (x : A) (ys : List A) → P x → All P ys → All P (insert_sorted less x ys)
    unfolding insert_sorted
    All-insert_sorted x [] p h = (p, tt)
    All-insert_sorted x (y ∷ ys) p h = elim (Bool-cases (less y x)) [
      | inl t ↦ rw t (h.0, All-insert_sorted x ys p h.1)
      | inr f ↦ rw f (p, h)
    ]

    pub All-sorted : (xs : List A) → All P xs → All P (sorted less xs)
    unfolding sorted
    All-sorted [] h = tt
    All-sorted (x ∷ xs) h = All-insert_sorted x (sorted less xs) h.0 (All-sorted xs h.1)

  abbrev pub HeadInOrder : A → List A → Type 0
  HeadInOrder x [] = Unit
  HeadInOrder x (y ∷ _) = less y x ≡ false

  -- No element stands before the one in front of it.
  abbrev pub InOrder : List A → Type 0
  InOrder [] = Unit
  InOrder (x ∷ ys) = HeadInOrder x ys × InOrder ys

  insert_sorted-HeadInOrder :
      (y x : A) (ys : List A)
      → less x y ≡ false
      → HeadInOrder y ys
      → HeadInOrder y (insert_sorted less x ys)
  unfolding insert_sorted
  insert_sorted-HeadInOrder y x [] e h = e
  insert_sorted-HeadInOrder y x (z ∷ zs) e h = elim (Bool-cases (less z x)) [
    | inl t ↦ rw t h
    | inr f ↦ rw f e
  ]

  module _ (asymm : (x y : A) → less x y ≡ true → less y x ≡ false) where
    insert_sorted-InOrder : (x : A) (ys : List A) → InOrder ys → InOrder (insert_sorted less x ys)
    unfolding insert_sorted
    insert_sorted-InOrder x [] h = (tt, tt)
    insert_sorted-InOrder x (y ∷ ys) h = elim (Bool-cases (less y x)) [
      | inl t ↦
          rw t (insert_sorted-HeadInOrder y x ys (asymm y x t) h.0, insert_sorted-InOrder x ys h.1)
      | inr f ↦ rw f (f, h)
    ]

    pub sorted-InOrder : (xs : List A) → InOrder (sorted less xs)
    unfolding sorted
    sorted-InOrder [] = tt
    sorted-InOrder (x ∷ xs) = insert_sorted-InOrder x (sorted less xs) (sorted-InOrder xs)

-- Each element is related to all later ones.
abbrev pub Pairwise {ℓ κ} : {A : Type ℓ} → (A → A → Type κ) → List A → Type κ
Pairwise R [] = Unit
Pairwise R (x ∷ xs) = All (R x) xs × Pairwise R xs

module _ {ℓ κ} {A : Type ℓ} (less : A → A → Bool) (R : A → A → Type κ)
    (R_sym : (x y : A) → R x y → R y x) where
  insert_sorted-Pairwise :
      (x : A) (ys : List A) → All (R x) ys → Pairwise R ys → Pairwise R (insert_sorted less x ys)
  unfolding insert_sorted
  insert_sorted-Pairwise x [] h p = (tt, tt)
  insert_sorted-Pairwise x (y ∷ ys) h p = elim (Bool-cases (less y x)) [
    | inl t ↦
        rw t (
          All-insert_sorted less (R y) x ys (R_sym x y h.0) p.0,
          insert_sorted-Pairwise x ys h.1 p.1,
        )
    | inr f ↦ rw f (h, p)
  ]

  pub sorted-Pairwise : (xs : List A) → Pairwise R xs → Pairwise R (sorted less xs)
  unfolding sorted
  sorted-Pairwise [] h = tt
  sorted-Pairwise (x ∷ xs) h =
      insert_sorted-Pairwise x (sorted less xs) (All-sorted less (R x) xs h.0)
        (sorted-Pairwise xs h.1)
