-- ===== src/Document/Gate.antt =====
-- The checks that `update`, `delete` and `finalize` of backend/document/service.py begin with.
use deepdive.Base.{ℕ, ◌≡◌, not, Option, none, some, List, arith, ◌==◌, if◌then◌else◌, lookup}
use deepdive.Text.{Text}
use deepdive.Json.{Fields, Builtins}
use deepdive.Document.Model.{
  draft, finalized, deleted, Document, DocumentError, document_not_found, document_deleted,
  document_finalized, version_conflict, err, World, Platform, M, ◌>>=◌,
}
use deepdive.Document.Actions.{Call, ensure_mutable, document_for_analysis, replay_result}
use deepdive.Document.Revise.{check_version, update, update_new, delete, finalize, conclude_new}

-- The error of a change to a document, by what the repository holds, or `none` if it may go on.
abbrev pub refusal : ℕ → ℕ → ℕ → World → Option DocumentError
refusal analysis_id document_id expected_version w =
    elim (lookup document_id w.repository.documents) [
      | none ↦ some document_not_found
      | some d ↦
          if not (d.analysis_id == analysis_id) then some document_not_found else (elim d.status [
            | deleted ↦ some document_deleted
            | finalized ↦ some document_finalized
            | draft ↦ if d.current_version == expected_version then none else some version_conflict
          ])
    ]

-- The checks in front of a change.
abbrev pub gated {ℓ} : {A : Type ℓ} → ℕ → ℕ → ℕ → (Document → M A) → M A
gated analysis_id document_id expected_version f =
    document_for_analysis analysis_id document_id >>= λ d.
    ensure_mutable d >>= λ _. check_version d expected_version >>= λ _. f d

module _ {ℓ} {A : Type ℓ} (a k v : ℕ) (f : Document → M A) (w : World) where
  pub gated_refused : (e : DocumentError) → refusal a k v w ≡ some e → gated a k v f w ≡ (err e, w)
  unfolding document_for_analysis ensure_mutable ◌>>=◌
  gated_refused e h = ground arith

  pub gated_open :
      (d : Document)
      → lookup k w.repository.documents ≡ some d
      → d.analysis_id ≡ a
      → d.status ≡ draft
      → d.current_version ≡ v
      → gated a k v f w ≡ f d w
  unfolding document_for_analysis ensure_mutable ◌>>=◌
  gated_open d found own open_ current = ground arith

pub refusal-none :
    (a k v : ℕ) (w : World)
    → refusal a k v w ≡ none
    → (d : Document) × (lookup k w.repository.documents ≡ some d)
      × (d.analysis_id ≡ a)
      × (d.status ≡ draft)
      × (d.current_version ≡ v)
refusal-none a k v w h = ground arith

-- A change under a new tool call to a document that is missing, belongs to another analysis, is
-- closed or has another version raises the matching error and leaves the whole state as it was:
-- `update`, `delete` and `finalize` alike.
pub changes_refused :
    (py : Builtins) (os : Platform) (call : Call) (k v : ℕ) (content : Text)
    → (sections : Option (List Fields)) (w : World) (e : DocumentError)
    → replay_result call.tool_call_id w ≡ none
    → refusal call.analysis_id k v w ≡ some e
    → (update py os call k v content sections w ≡ (err e, w))
      × (delete os call k v w ≡ (err e, w))
      × (finalize os call k v w ≡ (err e, w))
unfolding update update_new delete finalize conclude_new ◌>>=◌
changes_refused py os call k v content sections w e new h = rw new (
  gated_refused call.analysis_id k v _ w e h,
  gated_refused call.analysis_id k v _ w e h,
  gated_refused call.analysis_id k v _ w e h,
)
