-- ===== src/Document/History/Records.antt =====
-- What backend/document recorded of a tool call stays what it is, whatever calls follow.
use native.Mathlib.Decide.{ℕ_discrete}
use deepdive.Base.{
  ℕ, ◌≡◌, ◌≢◌, refl, sym, ap, ◌∙◌, Bool, List, [], ◌∷◌, ◌++◌, none, some, arith, find, inl, inr,
  Option-cases, Bool-cases, ◌==◌, insert, lookup, lookup-insert_ne, lookup-insert_self,
}
use deepdive.Json.{Builtins}
use deepdive.Document.Model.{Document, Revision, World, Platform}
use deepdive.Document.Repository.{find_revision_by_tool_call}
use deepdive.Document.Results.{DocumentResult, document_result, replayed}
use deepdive.Document.Actions.{replay_result}
use deepdive.Document.History.{Step, idle, created, revised, IsConsistent, origin}
use deepdive.Document.History.Invariant.{Distinct}
use deepdive.Document.History.Requests.{Request, after_all, after, request_Step, after-IsConsistent}

find-append_found :
    {A : Type 0} (p : A → Bool) (xs ys : List A) {x : A}
    → find p xs ≡ some x
    → find p (xs ++ ys) ≡ some x
find-append_found p [] ys h = absurd cc
find-append_found p (z ∷ xs) ys h = elim (Bool-cases (p z)) [
  | inl here ↦ ground (arith, h, here)
  | inr not_here ↦ rw not_here (find-append_found p xs ys (ground (arith, h, not_here)))
]

-- A revision reads the same in any version of its document.
replayed-origin :
    (d d' : Document) (r : Revision)
    → d'.id ≡ d.id
    → origin d' ≡ origin d
    → document_result (replayed d' r) none none ≡ document_result (replayed d r) none none
unfolding document_result replayed
replayed-origin d d' r id same = cc

-- The revision of a tool call, its document, and the result that is made of them.
recorded :
    (t : ℕ) (w : World) (result : DocumentResult)
    → replay_result t w ≡ some result
    → (r : Revision) × (d : Document) × (find_revision_by_tool_call t w.repository ≡ some r)
      × (lookup r.document_id w.repository.documents ≡ some d)
      × (document_result (replayed d r) none none ≡ result)
unfolding replay_result
recorded t w result h = elim (Option-cases (find_revision_by_tool_call t w.repository)) [
  | inl none_ ↦ absurd (ground (arith, none_, h))
  | inr (r, revision) ↦ elim (Option-cases (lookup r.document_id w.repository.documents)) [
    | inl none_ ↦ absurd (ground (arith, revision, none_, h))
    | inr (d, found) ↦ (r, d, revision, found, ground (arith, revision, found, h))
  ]
]

replay_of_recorded :
    (t : ℕ) (w : World) (r : Revision) (d : Document)
    → find_revision_by_tool_call t w.repository ≡ some r
    → lookup r.document_id w.repository.documents ≡ some d
    → replay_result t w ≡ some (document_result (replayed d r) none none)
unfolding replay_result
replay_of_recorded t w r d revision found = rw (replay_result, revision, found) refl

module _ (os : Platform) where
  module _ (w w' : World) (t : ℕ) (result : DocumentResult) (h : IsConsistent os w) (r : Revision)
      (d : Document) (revision : find_revision_by_tool_call t w.repository ≡ some r)
      (found : lookup r.document_id w.repository.documents ≡ some d)
      (same : document_result (replayed d r) none none ≡ result) where
    still_found :
        (x : Revision)
        → w'.repository.revisions ≡ w.repository.revisions ++ x ∷ []
        → find_revision_by_tool_call t w'.repository ≡ some r
    still_found x revs =
        ap (find (λ (y : Revision). y.tool_call_id == t)) revs
        ∙ find-append_found (λ (y : Revision). y.tool_call_id == t) w.repository.revisions (x ∷ [])
            revision

    beside :
        (j : ℕ) (new : Document) (x : Revision)
        → j ≢ r.document_id
        → w'.repository.documents ≡ insert j new w.repository.documents
        → w'.repository.revisions ≡ w.repository.revisions ++ x ∷ []
        → replay_result t w' ≡ some result
    beside j new x ne docs revs =
        replay_of_recorded t w' r d (still_found x revs) (
          ap (lookup r.document_id) docs
          ∙ lookup-insert_ne j r.document_id new w.repository.documents ne
          ∙ found)
        ∙ ap some same

    kept_by_Step : Step os w w' → replay_result t w' ≡ some result
    kept_by_Step (idle docs revs drawn) =
        replay_of_recorded t w' r d
          (ap (find (λ (y : Revision). y.tool_call_id == t)) revs ∙ revision)
          (ap (lookup r.document_id) docs ∙ found)
        ∙ ap some same
    kept_by_Step (created new x i id lo hi docs revs own ends first) =
        let ne : new.id ≢ r.document_id = λ e.
          let here : lookup (os.uuid7 i) w.repository.documents ≡ some d =
            ap (λ j. lookup j w.repository.documents) (sym id ∙ e) ∙ found in
          cc (h.undrawn i lo) in
        beside new.id new x ne docs revs
    kept_by_Step (revised j old new x at open_ id same_origin next docs revs own ends drawn) =
        elim (ℕ_discrete j r.document_id) [
          | yes e ↦
              let was : old ≡ d = cc (ap (λ i. lookup i w.repository.documents) e) in
              replay_of_recorded t w' r new (still_found x revs)
                (rw (docs, e) (lookup-insert_self r.document_id new w.repository.documents))
              ∙ ap some (
                  replayed-origin old new r id same_origin
                  ∙ ap (λ y. document_result (replayed y r) none none) was
                  ∙ same)
          | no ne ↦ beside j new x ne docs revs
        ]

module _ (py : Builtins) (os : Platform) where
  -- If no UUID is drawn twice, the result that a recorded tool call is answered with stays what it is in a
  -- consistent state, whatever row of calls follows.
  pub replay_result-after_all :
      Distinct os
      → (qs : List Request) (w : World) (t : ℕ) (result : DocumentResult) → IsConsistent os w
      → replay_result t w ≡ some result
      → replay_result t (after_all py os qs w) ≡ some result
  replay_result-after_all distinct [] w t result h replay = replay
  replay_result-after_all distinct (q ∷ qs) w t result h replay =
      let (r, d, revision, found, same) = recorded t w result replay in
      replay_result-after_all distinct qs (after py os q w) t result
        (after-IsConsistent py os distinct q w h)
        (kept_by_Step os w (after py os q w) t result h r d revision found same
          (request_Step py os q w))
