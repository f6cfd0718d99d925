-- ===== src/Document/History/Invariant.antt =====
-- The steps of a document store keep its history consistent (backend/document).
use mathlib.Core.List.{append-nil}
use native.Mathlib.Decide.{ℕ_discrete}
use deepdive.Base.{
  ℕ, suc, ◌+◌, ◌≤◌, ◌≡◌, ◌≢◌, refl, sym, ap, subst, ◌∙◌, List, [], ◌∷◌, ◌++◌, none, some, arith,
  keep-append, ◌==◌, lookup, insert, lookup-insert_self, lookup-insert_ne, length, ==_iff,
}
use deepdive.Document.Model.{draft, Document, Revision, World, Platform}
use deepdive.Document.Results.{replayed, status_for_revision}
use deepdive.Document.History.{
  revisions_for, Chain, EndsIn, Tracks, IsConsistent, Step, idle, created, revised,
}

replayed-status :
    (d : Document) (r : Revision) → replayed d r ≡ d → status_for_revision r ≡ d.status
unfolding replayed
replayed-status d r h = ap (λ (x : Document). x.status) h

pub replayed-version :
    (d : Document) (r : Revision) → replayed d r ≡ d → r.version ≡ d.current_version
unfolding replayed
replayed-version d r h = ap (λ (x : Document). x.current_version) h

-- A draft takes one more revision.
Chain-append_one :
    (n : ℕ) (rs : List Revision) (d : Document) (r : Revision)
    → Chain n rs
    → EndsIn d rs
    → d.status ≡ draft
    → r.version ≡ suc d.current_version
    → Chain n (rs ++ r ∷ [])
Chain-append_one n [] d r c e s v = absurd e
Chain-append_one n (x ∷ []) d r c e s v =
    (c, replayed-status d x e ∙ s, omega (arith, replayed-version d x e))
Chain-append_one n (x ∷ y ∷ rs) d r c e s v =
    (c.0, c.1, Chain-append_one (suc n) (y ∷ rs) d r c.2 e s v)

EndsIn-append_one :
    (rs : List Revision) (d : Document) (r : Revision) → replayed d r ≡ d → EndsIn d (rs ++ r ∷ [])
EndsIn-append_one [] d r h = h
EndsIn-append_one (x ∷ []) d r h = h
EndsIn-append_one (x ∷ y ∷ rs) d r h = EndsIn-append_one (y ∷ rs) d r h

-- The version of a document is the number of its revisions.
pub version_of_Chain :
    (n : ℕ) (rs : List Revision) (d : Document)
    → Chain n rs
    → EndsIn d rs
    → d.current_version ≡ n + length rs
version_of_Chain n [] d c e = absurd e
version_of_Chain n (x ∷ []) d c e = omega (arith, replayed-version d x e)
version_of_Chain n (x ∷ y ∷ rs) d c e = omega (arith, version_of_Chain (suc n) (y ∷ rs) d c.2 e)

pub revisions_for_own :
    (k : ℕ) (rs : List Revision) (r : Revision)
    → r.document_id ≡ k
    → revisions_for k (rs ++ r ∷ []) ≡ revisions_for k rs ++ r ∷ []
revisions_for_own k rs r e =
    keep-append (λ x. x.document_id == k) rs (r ∷ []) ∙ rw ((==_iff r.document_id k).1 e)

pub revisions_for_other :
    (k : ℕ) (rs : List Revision) (r : Revision)
    → r.document_id ≢ k
    → revisions_for k (rs ++ r ∷ []) ≡ revisions_for k rs
revisions_for_other k rs r ne =
    keep-append (λ x. x.document_id == k) rs (r ∷ [])
    ∙ ground (arith, append-nil (revisions_for k rs))

module _ (os : Platform) where
  module _ (w w' : World) (k : ℕ) (d : Document) (r : Revision) (h : IsConsistent os w)
      (docs : w'.repository.documents ≡ insert k d w.repository.documents)
      (revs : w'.repository.revisions ≡ w.repository.revisions ++ r ∷ []) (own : r.document_id ≡ k)
      (ends : replayed d r ≡ d) (key : d.id ≡ k)
      (chain : Chain 0 (revisions_for k w.repository.revisions ++ r ∷ [])) where
    own-Tracks : Tracks (w.repository.revisions ++ r ∷ []) k d
    own-Tracks = record {
      key = key;
      chain = rw (revisions_for_own k w.repository.revisions r own) chain;
      ends =
          rw (revisions_for_own k w.repository.revisions r own)
            (EndsIn-append_one (revisions_for k w.repository.revisions) d r ends);
    }

    other-Tracks :
        (j : ℕ) (x : Document)
        → k ≢ j
        → Tracks w.repository.revisions j x
        → Tracks (w.repository.revisions ++ r ∷ []) j x
    other-Tracks j x ne t = record {
      key = t.key;
      chain = rw (revisions_for_other j w.repository.revisions r (λ e. ne (sym own ∙ e))) t.chain;
      ends = rw (revisions_for_other j w.repository.revisions r (λ e. ne (sym own ∙ e))) t.ends;
    }

    tracked_after :
        (j : ℕ) (x : Document)
        → lookup j (insert k d w.repository.documents) ≡ some x
        → Tracks (w.repository.revisions ++ r ∷ []) j x
    tracked_after j x found = elim (ℕ_discrete k j) [
      | yes e ↦
          let same : d ≡ x = cc (lookup-insert_self k d w.repository.documents) in
          subst (λ i. Tracks (w.repository.revisions ++ r ∷ []) i x) e
            (subst (Tracks (w.repository.revisions ++ r ∷ []) k) same own-Tracks)
      | no ne ↦
          other-Tracks j x ne
            (h.tracked j x (sym (lookup-insert_ne k j d w.repository.documents ne) ∙ found))
    ]

    untracked_after :
        (j : ℕ)
        → lookup j (insert k d w.repository.documents) ≡ none
        → revisions_for j (w.repository.revisions ++ r ∷ []) ≡ []
    untracked_after j missing = elim (ℕ_discrete k j) [
      | yes e ↦ cc (lookup-insert_self k d w.repository.documents)
      | no ne ↦
          revisions_for_other j w.repository.revisions r (λ e. ne (sym own ∙ e))
          ∙ h.untracked j (sym (lookup-insert_ne k j d w.repository.documents ne) ∙ missing)
    ]

    extended :
        ((i : ℕ) → w'.drawn ≤ i → lookup (os.uuid7 i) (insert k d w.repository.documents) ≡ none)
        → IsConsistent os w'
    extended fresh = record {
      tracked = rw (docs, revs) tracked_after;
      untracked = rw (docs, revs) untracked_after;
      undrawn = rw docs fresh;
    }

  -- UUIDs that were drawn at different times are different.
  abbrev pub Distinct : Type 0
  Distinct = (i j : ℕ) → i ≢ j → os.uuid7 i ≢ os.uuid7 j

  -- Every step of the document store keeps the history of every document consistent.
  pub Step-IsConsistent :
      (w w' : World) → Distinct → Step os w w' → IsConsistent os w → IsConsistent os w'
  Step-IsConsistent w w' distinct (idle docs revs drawn) h = record {
    tracked = rw (docs, revs) h.tracked;
    untracked = rw (docs, revs) h.untracked;
    undrawn = λ i le. rw docs (h.undrawn i (omega arith));
  }
  Step-IsConsistent w w' distinct (created d r i id lo hi docs revs own ends first) h =
      let missing : lookup d.id w.repository.documents ≡ none = rw id (h.undrawn i lo) in
      extended w w' d.id d r h docs revs own ends refl
        (rw (h.untracked d.id missing) (replayed-version d r ends ∙ first))
        (λ j le.
          lookup-insert_ne d.id (os.uuid7 j) d w.repository.documents
            (λ e. distinct i j (omega arith) (sym id ∙ e))
          ∙ h.undrawn j (omega arith))
  Step-IsConsistent w w' distinct
        (revised k d d' r found open_ id same_origin next docs revs own ends drawn) h =
      let t = h.tracked k d found in
      extended w w' k d' r h docs revs own ends (id ∙ t.key)
        (Chain-append_one 0 (revisions_for k w.repository.revisions) d r t.chain t.ends open_
          (replayed-version d' r ends ∙ next))
        (λ j le.
          lookup-insert_ne k (os.uuid7 j) d' w.repository.documents
            (λ e. cc (found, h.undrawn j (omega arith)))
          ∙ h.undrawn j (omega arith))
