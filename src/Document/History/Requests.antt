-- ===== src/Document/History/Requests.antt =====
-- Any row of calls of `DocumentService` in backend/document/service.py, from an empty repository.
use native.Mathlib.Decide.{ℕ_discrete}
use deepdive.Base.{
  ℕ, suc, ◌≡◌, ◌≢◌, refl, ◌∙◌, ap, List, [], ◌∷◌, ◌++◌, Option, some, arith, length, lookup, inl,
  inr, ◌⊎◌, sym, lookup-empty, lookup-insert_ne, lookup-insert_self,
}
use deepdive.Base.Int.{ℤ}
use deepdive.Text.{Text}
use deepdive.Json.{Fields, Builtins}
use deepdive.Document.Model.{draft, Document, Revision, World, Platform}
use deepdive.Document.Actions.{Call}
use deepdive.Document.Service.{NewDocument, create, create_folder}
use deepdive.Document.Revise.{update, delete, finalize}
use deepdive.Document.History.{Step, idle, created, revised, IsConsistent, revisions_for}
use deepdive.Document.History.Invariant.{
  Distinct, Step-IsConsistent, version_of_Chain, replayed-version, revisions_for_own,
  revisions_for_other,
}
use deepdive.Document.History.Creation.{create_Step, create_folder_Step}
use deepdive.Document.History.Changes.{update_Step, delete_Step, finalize_Step}

-- A call of the service that may change something.
pub data Request : Type 0 where
  creation : Call → NewDocument → Request
  folder_creation : Call → Text → Text → Option ℕ → ℤ → Request
  change : Call → ℕ → ℕ → Text → Option (List Fields) → Request
  deletion finalization : Call → ℕ → ℕ → Request

-- A repository and a storage as they are made.
abbrev pub empty_world : World
empty_world = record {
  repository = record {
    documents = [];
    nodes = [];
    sections = [];
    revisions = [];
    section_revisions = [];
  };
  objects = [];
  drawn = 0;
}

module _ (py : Builtins) (os : Platform) where
  -- The state after a call, whether it returned or raised.
  abbrev pub after : Request → World → World
  after (creation call new) w = (create py os call new w).1
  after (folder_creation call title slug parent order) w =
      (create_folder os call title slug parent order w).1
  after (change call k v content sections) w = (update py os call k v content sections w).1
  after (deletion call k v) w = (delete os call k v w).1
  after (finalization call k v) w = (finalize os call k v w).1

  abbrev pub after_all : List Request → World → World
  after_all [] w = w
  after_all (q ∷ qs) w = after_all qs (after q w)

  pub request_Step : (q : Request) (w : World) → Step os w (after q w)
  request_Step (creation call new) w = create_Step os py call new w
  request_Step (folder_creation call title slug parent order) w =
      create_folder_Step os call title slug parent order w
  request_Step (change call k v content sections) w = update_Step os py call k v content sections w
  request_Step (deletion call k v) w = delete_Step os call k v w
  request_Step (finalization call k v) w = finalize_Step os call k v w

  -- If no UUID is drawn twice, every call of the service, whether it returns or raises, keeps the
  -- repository consistent: each document has its revisions, numbered from 1 with no gap, only the last
  -- of which may have closed it, and it is as its last revision says.
  pub after-IsConsistent :
      Distinct os → (q : Request) (w : World) → IsConsistent os w → IsConsistent os (after q w)
  after-IsConsistent distinct q w h = Step-IsConsistent os w _ distinct (request_Step q w) h

  after_all-IsConsistent :
      Distinct os
      → (qs : List Request) (w : World) → IsConsistent os w
      → IsConsistent os (after_all qs w)
  after_all-IsConsistent distinct [] w h = h
  after_all-IsConsistent distinct (q ∷ qs) w h =
      after_all-IsConsistent distinct qs _ (after-IsConsistent distinct q w h)

  pub empty_world-IsConsistent : IsConsistent os empty_world
  empty_world-IsConsistent = record {
    tracked = λ k d h. cc (lookup-empty k);
    untracked = λ k h. refl;
    undrawn = λ i le. lookup-empty (os.uuid7 i);
  }

  -- If no UUID is drawn twice, then after any row of calls from an empty repository the version of a
  -- document is the number of revisions that the repository has of it.
  pub version_counts_revisions :
      Distinct os
      → (qs : List Request) (k : ℕ) (d : Document)
      → lookup k (after_all qs empty_world).repository.documents ≡ some d
      → d.current_version ≡ length (revisions_for k (after_all qs empty_world).repository.revisions)
  version_counts_revisions distinct qs k d found =
      let t =
        (after_all-IsConsistent distinct qs empty_world empty_world-IsConsistent).tracked k d
          found in
      omega (arith, version_of_Chain 0 _ d t.chain t.ends)

  -- What a call may do to a document that is there.
  abbrev pub Outcome : ℕ → Document → World → World → Type 0
  Outcome k d w w' =
      ((lookup k w'.repository.documents ≡ some d)
        × (revisions_for k w'.repository.revisions ≡ revisions_for k w.repository.revisions))
      ⊎ ((d.status ≡ draft)
          × ((d' : Document) × (r : Revision) × (lookup k w'.repository.documents ≡ some d')
              × (d'.current_version ≡ suc d.current_version)
              × (revisions_for k w'.repository.revisions
                  ≡ revisions_for k w.repository.revisions ++ r ∷ [])
              × (r.version ≡ d'.current_version)))

  Outcome-of_Step :
      (w w' : World) (k : ℕ) (d : Document)
      → Step os w w'
      → IsConsistent os w
      → lookup k w.repository.documents ≡ some d
      → Outcome k d w w'
  Outcome-of_Step w w' k d (idle docs revs drawn) h found = inl (rw docs found, rw revs refl)
  Outcome-of_Step w w' k d (created new r i id lo hi docs revs own ends first) h found =
      let ne : new.id ≢ k = λ e.
        let here : lookup (os.uuid7 i) w.repository.documents ≡ some d =
          ap (λ j. lookup j w.repository.documents) (sym id ∙ e) ∙ found in
        cc (h.undrawn i lo) in
      inl (
        rw docs (lookup-insert_ne new.id k new w.repository.documents ne ∙ found),
        rw revs (revisions_for_other k w.repository.revisions r (λ e. ne (sym own ∙ e))),
      )
  Outcome-of_Step w w' k d
        (revised j old new r at open_ id same_origin next docs revs own ends drawn) h found =
      elim (ℕ_discrete j k) [
        | yes e ↦
            let same : old ≡ d = cc (ap (λ i. lookup i w.repository.documents) e) in
            inr (
              sym (ap (λ (x : Document). x.status) same) ∙ open_,
              (
                new,
                r,
                rw (docs, e) (lookup-insert_self k new w.repository.documents),
                next ∙ ap (λ (x : Document). suc x.current_version) same,
                rw revs (revisions_for_own k w.repository.revisions r (own ∙ e)),
                replayed-version new r ends,
              ),
            )
        | no ne ↦ inl (
          rw docs (lookup-insert_ne j k new w.repository.documents ne ∙ found),
          rw revs (revisions_for_other k w.repository.revisions r (λ e. ne (sym own ∙ e))),
        )
      ]

  -- In a consistent state, a call of the service leaves a document and its revisions alone, or the
  -- document was a draft and gets one more revision, whose version is the next.
  pub after-Outcome :
      (q : Request) (w : World) (k : ℕ) (d : Document)
      → IsConsistent os w
      → lookup k w.repository.documents ≡ some d
      → Outcome k d w (after q w)
  after-Outcome q w k d h found = Outcome-of_Step w _ k d (request_Step q w) h found

  -- If no UUID is drawn twice, a document that is finalized or deleted in a consistent state stays as
  -- it is, with its revisions, whatever row of calls follows.
  pub closed_stays :
      Distinct os
      → (qs : List Request) (w : World) (k : ℕ) (d : Document) → IsConsistent os w
      → lookup k w.repository.documents ≡ some d
      → d.status ≢ draft
      → (lookup k (after_all qs w).repository.documents ≡ some d)
        × (revisions_for k (after_all qs w).repository.revisions
            ≡ revisions_for k w.repository.revisions)
  closed_stays distinct [] w k d h found closed = (found, refl)
  closed_stays distinct (q ∷ qs) w k d h found closed = elim (after-Outcome q w k d h found) [
    | inl same ↦
        let later =
          closed_stays distinct qs (after q w) k d (after-IsConsistent distinct q w h) same.0
            closed in
        (later.0, later.1 ∙ same.1)
    | inr changed ↦ absurd (closed changed.0)
  ]
