-- ===== src/Document/History/Change.antt =====
-- How the actions of `DocumentService` in backend/document/service.py make up one step of the
-- document store.
use deepdive.Base.{◌≡◌, refl, ap, ◌∙◌, Option, none, some, arith}
use deepdive.Document.Model.{Result, ok, err, World, Platform, M, continue, ◌>>=◌}
use deepdive.Document.Results.{DocumentResult}
use deepdive.Document.Actions.{unless_replayed}
use deepdive.Document.Actions.Quiet.{Same, Quiet, Same-refl, Same-trans}
use deepdive.Document.History.{Step, idle, created, revised}

module _ (os : Platform) where
  pub Step-idle : (w w' : World) → Same w w' → Step os w w'
  Step-idle w w' h =
      idle (ap (λ r. r.documents) h.repository) (ap (λ r. r.revisions) h.repository) h.drawn

  pub Step-Same : (u v w : World) → Step os u v → Same v w → Step os u w
  Step-Same u v w (idle docs revs drawn) h =
      idle (ap (λ r. r.documents) h.repository ∙ docs) (ap (λ r. r.revisions) h.repository ∙ revs)
        (omega (arith, h.drawn))
  Step-Same u v w (created d r i id lo hi docs revs own ends first) h =
      created d r i id lo (omega (arith, h.drawn)) (ap (λ r. r.documents) h.repository ∙ docs)
        (ap (λ r. r.revisions) h.repository ∙ revs) own ends first
  Step-Same u v w (revised k d d' r found open_ id same_origin next docs revs own ends drawn) h =
      revised k d d' r found open_ id same_origin next (ap (λ r. r.documents) h.repository ∙ docs)
        (ap (λ r. r.revisions) h.repository ∙ revs) own ends (omega (arith, h.drawn))

  module _ {ℓ κ} {A : Type ℓ} {B : Type κ} where
    continue_quiet :
        (u : World) (p : Result A × World) (f : A → M B)
        → Step os u p.1
        → ((a : A) → Quiet (f a))
        → Step os u (continue p.0 f p.1).1
    continue_quiet u (ok a, w) f h k = Step-Same u w _ h ((k a).at w)
    continue_quiet u (err e, w) f h k = h

    continue_step :
        (u w : World) (p : Result A × World) (f : A → M B)
        → Same u w
        → Same w p.1
        → ((a : A) (w' : World) → p ≡ (ok a, w') → Same w w' → Step os u (f a w').1)
        → Step os u (continue p.0 f p.1).1
    continue_step u w (ok a, w') f s h k = k a w' refl h
    continue_step u w (err e, w') f s h k = Step-idle u w' (Same-trans s h)

    -- A step, and then reads.
    pub step_then_quiet :
        (u w : World) (m : M A) (f : A → M B)
        → Step os u (m w).1
        → ((a : A) → Quiet (f a))
        → Step os u ((m >>= f) w).1
    unfolding ◌>>=◌
    step_then_quiet u w m f h k = continue_quiet u (m w) f h k

    -- Reads, and then a step.
    pub quiet_then_step :
        (u w : World) (m : M A) (f : A → M B)
        → Same u w
        → Quiet m
        → ((a : A) (w' : World) → m w ≡ (ok a, w') → Same w w' → Step os u (f a w').1)
        → Step os u ((m >>= f) w).1
    unfolding ◌>>=◌
    quiet_then_step u w m f s q k = continue_step u w (m w) f s (q.at w) k

  -- A replayed call is a read.
  pub unless_replayed_Step :
      (w : World) (replay : Option DocumentResult) (m : M DocumentResult)
      → Step os w (m w).1
      → Step os w (unless_replayed replay m w).1
  unfolding ◌>>=◌
  unless_replayed_Step w none m h = h
  unless_replayed_Step w (some r) m h = Step-idle w w (Same-refl w)
