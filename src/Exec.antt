-- ===== src/Exec.antt =====
-- Actions that read and write a state and may raise; what was written before a raise stays written.
-- Models no file of the repository.
pub mod Reach
use mathlib.Core.Path.{◌≡◌, refl}
use mathlib.Core.Logic.{◌⊎◌, inl, inr}
use mathlib.Core.Bool.{Bool, true, false}
use mathlib.Core.Option.{Option, none, some}

pub data Outcome {ℓ κ} (E : Type ℓ) (A : Type κ) : Type (ℓ ⊔ κ) where
  ok : A → Outcome E A
  err : E → Outcome E A

pub Outcome-cases {ℓ κ} :
    {E : Type ℓ} {A : Type κ} (r : Outcome E A) → ((a : A) × (r ≡ ok a)) ⊎ ((e : E) × (r ≡ err e))
Outcome-cases (ok a) = inl (a, refl)
Outcome-cases (err e) = inr (e, refl)

pub ok-injective {ℓ κ} :
    {E : Type ℓ} {A : Type κ} {a b : A} → ◌≡◌ {A = Outcome E A} (ok a) (ok b) → a ≡ b
ok-injective h = cc

abbrev pub Action {ℓ κ μ} : Type ℓ → Type κ → Type μ → Type (ℓ ⊔ κ ⊔ μ)
Action S E A = S → Outcome E A × S

module _ {ℓ κ} {S : Type ℓ} {E : Type κ} where
  unfoldable pub pure {μ} : {A : Type μ} → A → Action S E A
  pure a s = (ok a, s)

  unfoldable pub raise {μ} : {A : Type μ} → E → Action S E A
  raise e s = (err e, s)

  unfoldable pub gets {μ} : {A : Type μ} → (S → A) → Action S E A
  gets f s = (ok (f s), s)

  unfoldable pub lift {μ} : {A : Type μ} → Outcome E A → Action S E A
  lift r s = (r, s)

  unfoldable pub modify : (S → S) → Action S E (Unit {0})
  modify f s = (ok tt, f s)

  -- `raise` under an `if`
  unfoldable pub raise_if : Bool → E → Action S E (Unit {0})
  raise_if true e s = (err e, s)
  raise_if false e s = (ok tt, s)

  unfoldable pub or_raise {μ} : {A : Type μ} → Option A → E → Action S E A
  or_raise (some a) e s = (ok a, s)
  or_raise none e s = (err e, s)

  -- The first action if the value is `None`, else the second.
  unfoldable pub on_option {μ ν} :
      {A : Type μ} {B : Type ν} → Option A → Action S E B → (A → Action S E B) → Action S E B
  on_option none m f s = m s
  on_option (some a) m f s = f a s

  -- An action by a test.
  unfoldable pub on_bool {μ} : {A : Type μ} → Bool → Action S E A → Action S E A → Action S E A
  on_bool true m n s = m s
  on_bool false m n s = n s

  abbrev pub continue {μ ν} :
      {A : Type μ} {B : Type ν} → Outcome E A → (A → Action S E B) → Action S E B
  continue (ok a) f s = f a s
  continue (err e) f s = (err e, s)

  infixl 10 ◌>>=◌
  -- To open this is to open the actions above too.
  unfoldable pub ◌>>=◌ {μ ν} :
      {A : Type μ} {B : Type ν} → Action S E A → (A → Action S E B) → Action S E B
  unfolding pure raise gets lift modify raise_if or_raise on_option on_bool
  ◌>>=◌ m f s = continue (m s).0 f (m s).1

  infixl 10 ◌>>◌
  abbrev pub ◌>>◌ {μ} : {B : Type μ} → Action S E (Unit {0}) → Action S E B → Action S E B
  m >> n = m >>= λ _. n
