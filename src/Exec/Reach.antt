-- ===== src/Exec/Reach.antt =====
-- Actions as rows of steps: every change of the state that an action makes, also one that is followed by a
-- raise, is one of the given steps. Models no file of the repository.
use mathlib.Core.Path.{◌≡◌, refl}
use mathlib.Core.Bool.{Bool, true, false}
use mathlib.Core.Option.{Option, none, some}
use deepdive.Exec.{
  Outcome, ok, err, Action, pure, raise, gets, lift, modify, raise_if, or_raise, on_option, on_bool,
  continue, ◌>>=◌, ◌>>◌,
}

-- Rows of steps.
pub data Steps {ℓ κ} {S : Type ℓ} (Step : S → S → Type κ) : S → S → Type (ℓ ⊔ κ) where
  done : (s : S) → Steps Step s s
  then_ : {s t u : S} → Step s t → Steps Step t u → Steps Step s u

module _ {ℓ κ} {S : Type ℓ} {Step : S → S → Type κ} where
  pub Steps-trans : {s t u : S} → Steps Step s t → Steps Step t u → Steps Step s u
  Steps-trans (done s) q = q
  Steps-trans (then_ one p) q = then_ one (Steps-trans p q)

  pub one_step : {s t : S} → Step s t → Steps Step s t
  one_step {t} one = then_ one (done t)

  -- What each step keeps, each row keeps.
  pub Steps-keep {μ} :
      (P : S → Type μ) → ((s t : S) → Step s t → P s → P t) → {s t : S} → Steps Step s t → P s → P t
  Steps-keep P keep_ (done s) h = h
  Steps-keep P keep_ (then_ {s} {t} one p) h = Steps-keep P keep_ p (keep_ s t one h)

-- A condition on the value and the state of an action that does not raise.
abbrev pub Ends {ℓ κ μ ν} :
    {S : Type ℓ} {E : Type κ} {A : Type μ} → (A → S → Type ν) → Outcome E A → S → Type ν
Ends P (ok a) t = P a t
Ends P (err e) t = Unit

-- From `s`, the action goes through steps, and ends in `P` unless it raises.
pub record Leads {ℓ κ μ ν ρ} {S : Type ℓ} {E : Type κ} {A : Type μ} (Step : S → S → Type ν) (s : S)
    (m : Action S E A) (P : A → S → Type ρ) : Type (ℓ ⊔ ν ⊔ ρ) where
  pub steps : Steps Step s (m s).1
  pub ends : Ends P (m s).0 (m s).1

abbrev pub Anything {ℓ μ} : {S : Type ℓ} {A : Type μ} → A → S → Type 0
Anything a t = Unit

module _ {ℓ κ μ ν ρ} {S : Type ℓ} {E : Type κ} {A : Type μ} {Step : S → S → Type ν}
    {P : A → S → Type ρ} where
  pub Leads-pure : {s : S} (a : A) → P a s → Leads {E = E} Step s (pure a) P
  unfolding pure
  Leads-pure {s} a h = record { steps = done s; ends = h }

  pub Leads-raise : {s : S} (e : E) → Leads Step s (raise e) P
  unfolding raise
  Leads-raise {s} e = record { steps = done s; ends = tt }

module _ {ℓ κ μ ν ρ σ} {S : Type ℓ} {E : Type κ} {A : Type μ} {B : Type ν} {Step : S → S → Type ρ}
    {Q : B → S → Type σ} where
  pub Leads-gets :
      {s : S} (g : S → A) (f : A → Action S E B)
      → Leads Step s (f (g s)) Q
      → Leads Step s (gets g >>= f) Q
  unfolding ◌>>=◌
  Leads-gets g f h = record { steps = h.steps; ends = h.ends }

  pub Leads-or_raise :
      {s : S} (o : Option A) (e : E) (f : A → Action S E B)
      → ((a : A) → o ≡ some a → Leads Step s (f a) Q)
      → Leads Step s (or_raise o e >>= f) Q
  unfolding ◌>>=◌
  Leads-or_raise {s} none e f h = record { steps = done s; ends = tt }
  Leads-or_raise (some a) e f h =
      (let next = h a refl in record { steps = next.steps; ends = next.ends })

  pub Leads-on_option :
      {s : S} (o : Option A) (m : Action S E B) (f : A → Action S E B)
      → (o ≡ none → Leads Step s m Q)
      → ((a : A) → o ≡ some a → Leads Step s (f a) Q)
      → Leads Step s (on_option o m f) Q
  unfolding on_option
  Leads-on_option none m f h k =
      (let next = h refl in record { steps = next.steps; ends = next.ends })
  Leads-on_option (some a) m f h k =
      (let next = k a refl in record { steps = next.steps; ends = next.ends })

  pub Leads-lift :
      {s : S} (r : Outcome E A) (f : A → Action S E B)
      → ((a : A) → r ≡ ok a → Leads Step s (f a) Q)
      → Leads Step s (lift r >>= f) Q
  unfolding ◌>>=◌
  Leads-lift {s} (err e) f h = record { steps = done s; ends = tt }
  Leads-lift (ok a) f h = (let next = h a refl in record { steps = next.steps; ends = next.ends })

  pub Leads-bind {τ} :
      {s : S} (m : Action S E A) (f : A → Action S E B) (P : A → S → Type τ)
      → Leads Step s m P
      → ((a : A) (t : S) → Steps Step s t → P a t → Leads Step t (f a) Q)
      → Leads Step s (m >>= f) Q
  unfolding ◌>>=◌
  Leads-bind {s} m f P lead h = record {
    steps = (go (m s).0 (m s).1 lead.steps lead.ends).0;
    ends = (go (m s).0 (m s).1 lead.steps lead.ends).1;
  }
    where
      go :
          (r : Outcome E A) (t : S)
          → Steps Step s t
          → Ends P r t
          → Steps Step s (continue r f t).1 × Ends Q (continue r f t).0 (continue r f t).1
      go (err e) t p k = (p, tt)
      go (ok a) t p k = let next = h a t p k in (Steps-trans p next.steps, next.ends)

module _ {ℓ κ ν ρ σ} {S : Type ℓ} {E : Type κ} {B : Type ν} {Step : S → S → Type ρ}
    {Q : B → S → Type σ} where
  pub Leads-raise_if :
      {s : S} (b : Bool) (e : E) (n : Action S E B)
      → (b ≡ false → Leads Step s n Q)
      → Leads Step s (raise_if b e >> n) Q
  unfolding ◌>>=◌
  Leads-raise_if {s} true e n h = record { steps = done s; ends = tt }
  Leads-raise_if false e n h =
      (let next = h refl in record { steps = next.steps; ends = next.ends })

  pub Leads-modify :
      {s : S} (g : S → S) (n : Action S E B)
      → Step s (g s)
      → Leads Step (g s) n Q
      → Leads Step s (modify g >> n) Q
  unfolding ◌>>=◌
  Leads-modify g n one h = record { steps = then_ one h.steps; ends = h.ends }

  pub Leads-on_bool :
      {s : S} (b : Bool) (m n : Action S E B)
      → (b ≡ true → Leads Step s m Q)
      → (b ≡ false → Leads Step s n Q)
      → Leads Step s (on_bool b m n) Q
  unfolding on_bool
  Leads-on_bool true m n h k =
      (let next = h refl in record { steps = next.steps; ends = next.ends })
  Leads-on_bool false m n h k =
      (let next = k refl in record { steps = next.steps; ends = next.ends })

module _ {ℓ κ ν σ} {S : Type ℓ} {E : Type κ} {Step : S → S → Type ν}
    {Q : Unit {0} → S → Type σ} where
  pub Leads-modify_last :
      {s : S} (g : S → S) → Step s (g s) → Q tt (g s) → Leads {E = E} Step s (modify g) Q
  unfolding modify
  Leads-modify_last g one h = record { steps = one_step one; ends = h }

module _ {ℓ κ μ ν σ τ} {S : Type ℓ} {E : Type κ} {A : Type μ} {Step : S → S → Type ν}
    {P : A → S → Type σ} {Q : A → S → Type τ} where
  pub Leads-imp :
      {s : S} {m : Action S E A}
      → ((a : A) (t : S) → P a t → Q a t)
      → Leads Step s m P
      → Leads Step s m Q
  Leads-imp {s} {m} h lead = record { steps = lead.steps; ends = go (m s).0 lead.ends }
    where
      go : (r : Outcome E A) → Ends P r (m s).1 → Ends Q r (m s).1
      go (ok a) k = h a (m s).1 k
      go (err e) k = tt
