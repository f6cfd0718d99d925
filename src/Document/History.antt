-- ===== src/Document/History.antt =====
-- An abstract view of backend/document: every document is a row of revisions, one of which is added
-- by each accepted change, and nothing is added after a document is finalized or deleted.
pub mod Invariant
pub mod Change
pub mod Creation
pub mod Saving
pub mod Changes
pub mod Requests
pub mod Records
use deepdive.Base.{
  ℕ, zero, suc, ◌+◌, ◌≤◌, ◌<◌, ◌≡◌, List, [], ◌∷◌, ◌++◌, Option, none, some, keep, ◌==◌, lookup,
  insert,
}
use deepdive.Text.{Text}
use deepdive.Document.Model.{Status, draft, Document, Revision, World, Platform}
use deepdive.Document.Results.{replayed, status_for_revision}

-- What no change touches.
abbrev pub origin : Document → ℕ × ℕ × Text × Text
origin d = (d.analysis_id, d.agent_id, d.title, d.kind)

-- The revisions of one document, in the order in which they were added.
abbrev pub revisions_for : ℕ → List Revision → List Revision
revisions_for k revisions = keep (λ r. r.document_id == k) revisions

-- The versions count up from n + 1, and only the last revision may close the document.
abbrev pub Chain : ℕ → List Revision → Type 0
Chain n [] = Unit
Chain n (r ∷ []) = r.version ≡ suc n
Chain n (r ∷ s ∷ rest) =
    (r.version ≡ suc n) × (status_for_revision r ≡ draft) × Chain (suc n) (s ∷ rest)

-- The document is what its last revision says; there is one.
abbrev pub EndsIn : Document → List Revision → Type 0
EndsIn d [] = ⊥
EndsIn d (r ∷ []) = replayed d r ≡ d
EndsIn d (r ∷ s ∷ rest) = EndsIn d (s ∷ rest)

-- The revisions of a stored document tell its whole history.
pub record Tracks (revisions : List Revision) (k : ℕ) (d : Document) : Type 0 where
  pub key : d.id ≡ k
  pub chain : Chain 0 (revisions_for k revisions)
  pub ends : EndsIn d (revisions_for k revisions)

module _ (os : Platform) where
  pub record IsConsistent (w : World) : Type 0 where
    pub tracked :
        (k : ℕ) (d : Document)
        → lookup k w.repository.documents ≡ some d
        → Tracks w.repository.revisions k d
    pub untracked :
        (k : ℕ)
        → lookup k w.repository.documents ≡ none
        → revisions_for k w.repository.revisions ≡ []
    pub undrawn : (i : ℕ) → w.drawn ≤ i → lookup (os.uuid7 i) w.repository.documents ≡ none

  -- What one call may do to documents and revisions.
  pub data Step (w w' : World) : Type 0 where
    idle :
        w'.repository.documents ≡ w.repository.documents
        → w'.repository.revisions ≡ w.repository.revisions
        → w.drawn ≤ w'.drawn
        → Step w w'
    created :
        (d : Document) (r : Revision) (i : ℕ)
        → d.id ≡ os.uuid7 i
        → w.drawn ≤ i
        → i < w'.drawn
        → w'.repository.documents ≡ insert d.id d w.repository.documents
        → w'.repository.revisions ≡ w.repository.revisions ++ r ∷ []
        → r.document_id ≡ d.id
        → replayed d r ≡ d
        → d.current_version ≡ 1
        → Step w w'
    revised :
        (k : ℕ) (d d' : Document) (r : Revision)
        → lookup k w.repository.documents ≡ some d
        → d.status ≡ draft
        → d'.id ≡ d.id
        → origin d' ≡ origin d
        → d'.current_version ≡ suc d.current_version
        → w'.repository.documents ≡ insert k d' w.repository.documents
        → w'.repository.revisions ≡ w.repository.revisions ++ r ∷ []
        → r.document_id ≡ k
        → replayed d' r ≡ d'
        → w.drawn ≤ w'.drawn
        → Step w w'
