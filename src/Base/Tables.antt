-- ===== src/Base/Tables.antt =====
-- A Python dict whose keys are compared by `==`, in insertion order. Models no file of the repository.
use mathlib.Core.Path.{◌≡◌, refl}
use mathlib.Core.Logic.{◌↔◌}
use mathlib.Core.Bool.{Bool, true, not}
use mathlib.Core.List.{List, [], ◌∷◌}
use mathlib.Core.Option.{Option, none, some}
use native.Mathlib.Omega.{arith}
use Prim.Native.Nat.{ℕ}
use deepdive.Base.Lists.{keep}
use deepdive.Base.Tests.{if◌then◌else◌, ◌==◌, ==_iff}

-- Equality of keys.
pub record Key {ℓ} (K : Type ℓ) : Type ℓ where
  pub same : K → K → Bool
  pub same_iff : (a b : K) → (same a b ≡ true) ↔ (a ≡ b)

infix 50 ◌=?◌
abbrev pub ◌=?◌ {ℓ} : {K : Type ℓ} ⦃key : Key K⦄ → K → K → Bool
◌=?◌ ⦃key⦄ = key.same

abbrev pub Table {ℓ κ} : Type ℓ → Type κ → Type (ℓ ⊔ κ)
Table K V = List (K × V)

-- `d.values()`
abbrev pub table_values {ℓ κ} : {K : Type ℓ} {V : Type κ} → Table K V → List V
table_values [] = []
table_values ((_, v) ∷ d) = v ∷ table_values d

module _ {ℓ κ} {K : Type ℓ} {V : Type κ} ⦃key : Key K⦄ where
  -- `d.get(k)`
  unfoldable pub find_key : K → Table K V → Option V
  find_key k [] = none
  find_key k ((j, v) ∷ d) = if j =? k then some v else find_key k d

  -- `d[k] = v`
  unfoldable pub put_key : K → V → Table K V → Table K V
  put_key k v [] = (k, v) ∷ []
  put_key k v ((j, w) ∷ d) = if j =? k then (j, v) ∷ d else (j, w) ∷ put_key k v d

  -- `d.pop(k, None)`
  unfoldable pub remove_key : K → Table K V → Table K V
  remove_key k [] = []
  remove_key k ((j, w) ∷ d) = let rest = remove_key k d in if j =? k then rest else (j, w) ∷ rest

  pub find_key-put_key :
      (k j : K) (v : V) (d : Table K V)
      → find_key j (put_key k v d) ≡ (if k =? j then some v else find_key j d)
  unfolding find_key put_key
  find_key-put_key k j v [] = refl
  find_key-put_key k j v ((i, w) ∷ d) =
      ground (arith, key.same_iff i k, key.same_iff i j, key.same_iff k j, find_key-put_key k j v d)

  pub find_key-remove_key :
      (k j : K) (d : Table K V)
      → find_key j (remove_key k d) ≡ (if k =? j then none else find_key j d)
  unfolding find_key remove_key
  find_key-remove_key k j [] = ground arith
  find_key-remove_key k j ((i, w) ∷ d) =
      ground
        (arith, key.same_iff i k, key.same_iff i j, key.same_iff k j, find_key-remove_key k j d)

pub same_refl {ℓ} : {K : Type ℓ} ⦃key : Key K⦄ (k : K) → (k =? k) ≡ true
same_refl ⦃key⦄ k = (key.same_iff k k).1 refl

instance abbrev pub number_key : Key ℕ
number_key = record { same = ◌==◌; same_iff = ==_iff }

-- `list(dict.fromkeys(xs))`
unfoldable pub distinct {ℓ} : {K : Type ℓ} ⦃key : Key K⦄ → List K → List K
distinct [] = []
distinct (x ∷ xs) = x ∷ keep (λ y. not (x =? y)) (distinct xs)
