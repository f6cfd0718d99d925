-- ===== src/Document/Conflict.antt =====
-- The expected version of `update`, `delete` and `finalize` in backend/document/service.py.
use deepdive.Base.{ℕ, ◌≡◌, ◌≢◌, ap, List, Option, none, some, arith, lookup, Option-cases, inl, inr}
use deepdive.Text.{Text}
use deepdive.Json.{Fields, Builtins}
use deepdive.Document.Model.{Document, DocumentError, err, World, Platform}
use deepdive.Document.Actions.{Call, replay_result}
use deepdive.Document.Revise.{update, delete, finalize}
use deepdive.Document.Gate.{refusal, refusal-none, changes_refused}
use deepdive.Document.History.{IsConsistent, revisions_for}
use deepdive.Document.History.Requests.{Request, after, after-Outcome}

module _ (py : Builtins) (os : Platform) where
  -- The version that was current before a change is not current after it.
  old_version_refused :
      (q : Request) (w : World) (k : ℕ) (d : Document)
      → IsConsistent os w
      → lookup k w.repository.documents ≡ some d
      → revisions_for k (after py os q w).repository.revisions
        ≢ revisions_for k w.repository.revisions
      → (a : ℕ) → refusal a k d.current_version (after py os q w) ≢ none
  old_version_refused q w k d h found changed a open_ = elim (after-Outcome py os q w k d h found) [
    | inl same ↦ changed same.1
    | inr (draft_, (d', r, found', next, revs, version)) ↦
        let (d'', found'', own, draft'', current) =
          refusal-none a k d.current_version (after py os q w) open_ in
        let both : d' ≡ d'' = cc in omega (arith, ap (λ (x : Document). x.current_version) both)
  ]

  -- When a call has added a revision to a document, a further new change that still expects the
  -- version from before is refused by `update`, `delete` and `finalize`, with no effect: no change is
  -- lost.
  pub stale_change_refused :
      (q : Request) (w : World) (k : ℕ) (d : Document)
      → IsConsistent os w
      → lookup k w.repository.documents ≡ some d
      → revisions_for k (after py os q w).repository.revisions
        ≢ revisions_for k w.repository.revisions
      → (call : Call) (content : Text) (sections : Option (List Fields))
      → replay_result call.tool_call_id (after py os q w) ≡ none
      → (e : DocumentError) × (update py os call k d.current_version content sections
            (after py os q w)
          ≡ (err e, after py os q w))
        × (delete os call k d.current_version (after py os q w) ≡ (err e, after py os q w))
        × (finalize os call k d.current_version (after py os q w) ≡ (err e, after py os q w))
  stale_change_refused q w k d h found changed call content sections new =
      elim (Option-cases (refusal call.analysis_id k d.current_version (after py os q w))) [
        | inl open_ ↦ absurd (old_version_refused q w k d h found changed call.analysis_id open_)
        | inr (e, shut) ↦
            let (updated, deleted_, finalized_) =
              changes_refused py os call k d.current_version content sections (after py os q w) e
                new shut in
            (e, updated, deleted_, finalized_)
      ]
