-- ===== src/Auth/Rows.antt =====
-- Predicates on the rows and the values of a dict, for backend/auth. Models no file of the repository.
use deepdive.Base.{
  ℕ, ◌≡◌, subst, true, some, [], ◌∷◌, arith, All, Pairwise, Dict, lookup, insert, values,
  lookup-insert, is_some, Bool-cases, inl, inr, ◌==◌, All-map,
}

module _ {V : Type 0} where
  pub All-insert :
      (P : ℕ × V → Type 0) (k : ℕ) (v : V) (d : Dict V) → P (k, v) → All P d → All P (insert k v d)
  unfolding insert
  All-insert P k v [] h all = (h, tt)
  All-insert P k v ((j, w) ∷ d) h all = elim (Bool-cases (j == k)) [
    | inl t ↦ rw t (subst (λ i. P (i, v)) (ground arith) h, all.1)
    | inr f ↦ rw f (all.0, All-insert P k v d h all.1)
  ]

  pub All-values-insert :
      (P : V → Type 0) (k : ℕ) (v : V) (d : Dict V)
      → P v
      → All P (values d)
      → All P (values (insert k v d))
  unfolding insert
  All-values-insert P k v [] h all = (h, tt)
  All-values-insert P k v ((j, w) ∷ d) h all = elim (Bool-cases (j == k)) [
    | inl t ↦ rw t (h, all.1)
    | inr f ↦ rw f (all.0, All-values-insert P k v d h all.1)
  ]

  pub All-values-lookup :
      (P : V → Type 0) (k : ℕ) (v : V) (d : Dict V) → lookup k d ≡ some v → All P (values d) → P v
  unfolding lookup
  All-values-lookup P k v [] h all = absurd cc
  All-values-lookup P k v ((j, w) ∷ d) h all = elim (Bool-cases (j == k)) [
    | inl t ↦ subst P (ground arith) all.0
    | inr f ↦ All-values-lookup P k v d (ground arith) all.1
  ]

  module _ (R : V → V → Type 0) (symmetric : (u v : V) → R u v → R v u) where
    -- A value that differs from all others is added, or stands in for another.
    pub Pairwise-insert :
        (k : ℕ) (v : V) (d : Dict V)
        → All (R v) (values d)
        → Pairwise R (values d)
        → Pairwise R (values (insert k v d))
    unfolding insert
    Pairwise-insert k v [] new h = (tt, tt)
    Pairwise-insert k v ((j, w) ∷ d) new h = elim (Bool-cases (j == k)) [
      | inl t ↦ rw t (new.1, h.1)
      | inr f ↦
          rw f (
            All-values-insert (R w) k v d (symmetric v w new.0) h.0,
            Pairwise-insert k v d new.1 h.1,
          )
    ]

    -- A value stands in for one that is related to the others in the same way.
    pub Pairwise-replace :
        (k : ℕ) (v old : V) (d : Dict V)
        → lookup k d ≡ some old
        → ((u : V) → R u old → R u v)
        → Pairwise R (values d)
        → Pairwise R (values (insert k v d))
    unfolding insert lookup
    Pairwise-replace k v old [] found same h = (tt, tt)
    Pairwise-replace k v old ((j, w) ∷ d) found same h = elim (Bool-cases (j == k)) [
      | inl t ↦
          let old_is : w ≡ old = ground arith in
          rw t (
            All-map (R w) (R v) (values d)
                (λ u r. symmetric u v (same u (subst (R u) old_is (symmetric w u r)))) h.0,
            h.1,
          )
      | inr f ↦ rw f (
        All-values-insert (R w) k v d (same w (All-values-lookup (R w) k old d (ground arith) h.0))
            h.0,
        Pairwise-replace k v old d (ground arith) same h.1,
      )
    ]

  pub is_some-insert :
      (i k : ℕ) (v : V) (d : Dict V)
      → is_some (lookup i d) ≡ true
      → is_some (lookup i (insert k v d)) ≡ true
  is_some-insert i k v d h = ground (arith, lookup-insert k i v d)

pub All-lookup :
    {V : Type 0} (P : ℕ × V → Type 0) (k : ℕ) (v : V) (d : Dict V)
    → lookup k d ≡ some v
    → All P d
    → P (k, v)
unfolding lookup
All-lookup P k v [] h all = absurd cc
All-lookup P k v ((j, w) ∷ d) h all = elim (Bool-cases (j == k)) [
  | inl t ↦ subst P (ground arith) all.0
  | inr f ↦ All-lookup P k v d (ground arith) all.1
]
