-- ===== src/Document/History/Changes.antt =====
-- `update`, `delete` and `finalize` of backend/document/service.py as steps of the document store.
use deepdive.Base.{
  ℕ, ◌+◌, ◌≡◌, refl, Bool, true, false, not, List, [], ◌∷◌, Option, none, some, inl, inr, lookup,
  Option-cases,
}
use deepdive.Text.{Text, is_empty}
use deepdive.Json.{Builtins, Fields}
use deepdive.Document.Model.{
  Status, draft, finalized, deleted, Operation, update as op_update, delete as op_delete,
  finalize as op_finalize, Document, Revision, Section, SectionText, World, Platform, M, ◌>>=◌,
  pure, lift, gets, or_raise, version_conflict,
}
use deepdive.Document.Repository.{list_sections, Updates, update_document_with_revision}
use deepdive.Document.Sections.{normalize_sections, merged_sections}
use deepdive.Document.Results.{DocumentResult, document_result, status_for_revision}
use deepdive.Document.Actions.{Call, revision_payload, replay_result, document_result_with_related}
use deepdive.Document.Actions.Quiet.{
  Same, Quiet, Same-refl, Same-trans, Quiet-bind, Quiet-pure, Quiet-lift, Quiet-gets,
  Quiet-or_raise, revision_payload-Quiet, store-Quiet, load-Quiet, section_rows-Quiet,
  document_result_with_related-Quiet,
}
use deepdive.Document.Revise.{
  on_repository, updates_to, existing_texts, save_update, write_update, update_new, update,
  conclude_new, delete, finalize,
}
use deepdive.Document.Gate.{refusal, gated, gated_refused, gated_open, refusal-none}
use deepdive.Document.History.{Step}
use deepdive.Document.History.Change.{
  Step-idle, step_then_quiet, quiet_then_step, unless_replayed_Step,
}
use deepdive.Document.History.Saving.{
  IsNext, IsNext-later, save_plain_Step, save_tree_Step, revision_payload-IsPayload, payload-IsNext,
}

module _ (os : Platform) where
  -- The body of `delete` and `finalize` past the checks.
  abbrev pub conclude_open :
      Operation → Status → Option ℕ → Call → ℕ → ℕ → Document → M DocumentResult
  conclude_open operation status finalized_at call k v d =
      revision_payload os k (v + 1) call.tool_call_id operation d.content_ref d.content_hash
        d.size_bytes call.now
      >>= λ revision.
          on_repository (
            update_document_with_revision k
              (updates_to v status d.content_ref d.content_hash d.size_bytes call.now finalized_at)
              revision)
          >>= λ updated.
              or_raise updated version_conflict >>= λ d'. pure (document_result d' none none)

  status_of_update : (r : Revision) → r.operation ≡ op_update → status_for_revision r ≡ draft
  unfolding status_for_revision
  status_of_update r h = rw h refl

  status_of_delete : (r : Revision) → r.operation ≡ op_delete → status_for_revision r ≡ deleted
  unfolding status_for_revision
  status_of_delete r h = rw h refl

  status_of_finalize :
      (r : Revision) → r.operation ≡ op_finalize → status_for_revision r ≡ finalized
  unfolding status_for_revision
  status_of_finalize r h = rw h refl

  module _ (call : Call) (k v : ℕ) (w : World) (d : Document)
      (found : lookup k w.repository.documents ≡ some d) (open_ : d.status ≡ draft)
      (current : d.current_version ≡ v) where
    conclude_open_Step :
        (operation : Operation) (status : Status) (finalized_at : Option ℕ)
        → ((r : Revision) → r.operation ≡ operation → status_for_revision r ≡ status)
        → Step os w (conclude_open operation status finalized_at call k v d w).1
    conclude_open_Step operation status finalized_at agree =
        quiet_then_step os w w _ _ (Same-refl w) (revision_payload-Quiet os _ _ _ _ _ _ _ _)
          λ r w₁ e s.
            let p = revision_payload-IsPayload os _ _ _ _ _ _ _ _ w w₁ r e in
            step_then_quiet os w w₁ _ _
              (save_plain_Step os w w₁ k d _ r (
                payload-IsNext os w w₁ k v d operation status _ _ _ _ finalized_at r s found open_
                  current p (agree r p.operation)))
              λ o. Quiet-bind _ _ (Quiet-or_raise o _) λ _. Quiet-pure _

    -- `save_update`, with sections or without.
    save_update_Step :
        (w₀ : World) (normalized merged : List SectionText) (existing : List Section) (up : Updates)
        (r : Revision)
        → IsNext os w w₀ k d up r
        → Step os w (save_update os call k normalized merged existing up r w₀).1
    unfolding save_update
    save_update_Step w₀ [] merged existing up r n = save_plain_Step os w w₀ k d up r n
    save_update_Step w₀ (x ∷ normalized) merged existing up r n =
        quiet_then_step os w w₀ _ _ n.since (section_rows-Quiet os _ existing merged)
          λ rows w₁ e s. save_tree_Step os w w₁ k d up r rows.0 rows.1 (IsNext-later os n s)

    write_update_Step :
        (w₀ : World) (content : Text) (normalized merged : List SectionText)
        (existing : List Section)
        → Same w w₀
        → Step os w (write_update os call d k v content normalized merged existing w₀).1
    unfolding write_update
    write_update_Step w₀ content normalized merged existing s₀ =
        quiet_then_step os w w₀ _ _ s₀ (store-Quiet os _ _) λ _ w₁ e₁ s₁.
          quiet_then_step os w w₁ _ _ (Same-trans s₀ s₁) (revision_payload-Quiet os _ _ _ _ _ _ _ _)
            λ r w₂ e₂ s₂.
              let p = revision_payload-IsPayload os _ _ _ _ _ _ _ _ w₁ w₂ r e₂ in
              save_update_Step w₂ normalized merged existing _ r (
                payload-IsNext os w w₂ k v d op_update draft _ _ _ _ none r
                  (Same-trans s₀ (Same-trans s₁ s₂)) found open_ current p
                  (status_of_update r p.operation))

  existing_texts-Quiet : (b : Bool) (rows : List Section) → Quiet (existing_texts os b rows)
  unfolding existing_texts
  existing_texts-Quiet b [] = Quiet-pure _
  existing_texts-Quiet true (s ∷ rest) =
      Quiet-bind _ _ (load-Quiet os s.content_ref)
        λ _. Quiet-bind _ _ (existing_texts-Quiet true rest) λ _. Quiet-pure _
  existing_texts-Quiet false (s ∷ rest) =
      Quiet-bind _ _ (existing_texts-Quiet false rest) λ _. Quiet-pure _

  -- The body of `update` past the checks.
  abbrev pub update_open :
      Builtins → Call → ℕ → ℕ → Text → Option (List Fields) → Document → M DocumentResult
  update_open py call k v content sections d =
      lift (normalize_sections py sections) >>= λ normalized.
      gets (λ w. list_sections k w.repository) >>= λ existing.
      existing_texts os (not (is_empty normalized)) existing >>= λ texts.
      write_update os call d k v content normalized (merged_sections texts normalized) existing
      >>= λ updated. or_raise updated version_conflict >>= λ d'.
          document_result_with_related os d' (not (is_empty normalized))

  update_open_Step :
      (py : Builtins) (call : Call) (k v : ℕ) (content : Text) (sections : Option (List Fields))
      (w : World) (d : Document)
      → lookup k w.repository.documents ≡ some d
      → d.status ≡ draft
      → d.current_version ≡ v
      → Step os w (update_open py call k v content sections d w).1
  update_open_Step py call k v content sections w d found open_ current =
      quiet_then_step os w w _ _ (Same-refl w) (Quiet-lift _) λ normalized w₁ e₁ s₁.
        quiet_then_step os w w₁ _ _ s₁ (Quiet-gets _) λ existing w₂ e₂ s₂.
          quiet_then_step os w w₂ _ _ (Same-trans s₁ s₂) (existing_texts-Quiet _ existing)
            λ texts w₃ e₃ s₃.
              step_then_quiet os w w₃ _ _
                (write_update_Step call k v w d found open_ current w₃ content normalized _ existing
                  (Same-trans s₁ (Same-trans s₂ s₃)))
                λ o.
                  Quiet-bind _ _ (Quiet-or_raise o _)
                    λ d'. document_result_with_related-Quiet os d' _

  -- Past the checks there is an open document at the expected version.
  gated_Step :
      (a k v : ℕ) (f : Document → M DocumentResult) (w : World)
      → ((d : Document)
          → lookup k w.repository.documents ≡ some d
          → d.status ≡ draft
          → d.current_version ≡ v
          → Step os w (f d w).1)
      → Step os w (gated a k v f w).1
  gated_Step a k v f w go = elim (Option-cases (refusal a k v w)) [
    | inl h ↦
        let (d, found, own, open_, current) = refusal-none a k v w h in
        rw (gated_open a k v f w d found own open_ current) (go d found open_ current)
    | inr (e, h) ↦ rw (gated_refused a k v f w e h) (Step-idle os w w (Same-refl w))
  ]

  pub update_Step :
      (py : Builtins) (call : Call) (k v : ℕ) (content : Text) (sections : Option (List Fields))
      (w : World)
      → Step os w (update py os call k v content sections w).1
  unfolding update update_new ◌>>=◌
  update_Step py call k v content sections w =
      unless_replayed_Step os w (replay_result call.tool_call_id w)
        (update_new py os call k v content sections)
        (gated_Step call.analysis_id k v (update_open py call k v content sections) w
          (update_open_Step py call k v content sections w))

  pub delete_Step : (call : Call) (k v : ℕ) (w : World) → Step os w (delete os call k v w).1
  unfolding delete conclude_new ◌>>=◌
  delete_Step call k v w =
      unless_replayed_Step os w (replay_result call.tool_call_id w)
        (conclude_new os op_delete deleted none call k v)
        (gated_Step call.analysis_id k v (conclude_open op_delete deleted none call k v) w
          λ d found open_ current.
            conclude_open_Step call k v w d found open_ current op_delete deleted none
              status_of_delete)

  pub finalize_Step : (call : Call) (k v : ℕ) (w : World) → Step os w (finalize os call k v w).1
  unfolding finalize conclude_new ◌>>=◌
  finalize_Step call k v w =
      unless_replayed_Step os w (replay_result call.tool_call_id w)
        (conclude_new os op_finalize finalized (some call.now) call k v)
        (gated_Step call.analysis_id k v
          (conclude_open op_finalize finalized (some call.now) call k v) w
          λ d found open_ current.
            conclude_open_Step call k v w d found open_ current op_finalize finalized
              (some call.now) status_of_finalize)
