-- ===== src/Base/Keeping.antt =====
-- Laws of `keep`, the comprehension `[x for x in xs if p(x)]`. Models no file of the repository.
use mathlib.Core.Path.{◌≡◌, refl}
use mathlib.Core.Logic.{inl, inr}
use mathlib.Core.Bool.{Bool, true}
use mathlib.Core.List.{List, [], ◌∷◌}
use native.Mathlib.Omega.{arith}
use deepdive.Base.Tests.{Bool-cases}
use deepdive.Base.Lists.{keep, any, All}

module _ {ℓ} {A : Type ℓ} (p : A → Bool) where
  pub keep_everything : (xs : List A) → All (λ x. p x ≡ true) xs → keep p xs ≡ xs
  keep_everything [] h = refl
  keep_everything (x ∷ xs) h = ground (arith, keep_everything xs h.1, h.0)

  pub keep-All : (xs : List A) → All (λ x. p x ≡ true) (keep p xs)
  keep-All [] = tt
  keep-All (x ∷ xs) = elim (Bool-cases (p x)) [
    | inl t ↦ rw t (t, keep-All xs)
    | inr f ↦ rw f (keep-All xs)
  ]

  pub All-keep {κ} : (P : A → Type κ) (xs : List A) → All P xs → All P (keep p xs)
  All-keep P [] h = tt
  All-keep P (x ∷ xs) h = elim (Bool-cases (p x)) [
    | inl t ↦ rw t (h.0, All-keep P xs h.1)
    | inr f ↦ rw f (All-keep P xs h.1)
  ]

  pub any-keep :
      (q : A → Bool) (xs : List A)
      → ((x : A) → q x ≡ true → p x ≡ true)
      → any q (keep p xs) ≡ any q xs
  any-keep q [] h = refl
  any-keep q (x ∷ xs) h = ground (arith, any-keep q xs h, h x)

-- A property of all elements follows from another.
pub All-map {ℓ κ μ} :
    {A : Type ℓ} (P : A → Type κ) (Q : A → Type μ) (xs : List A)
    → ((x : A) → P x → Q x)
    → All P xs
    → All Q xs
All-map P Q [] f h = tt
All-map P Q (x ∷ xs) f h = (f x h.0, All-map P Q xs f h.1)
