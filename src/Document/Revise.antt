-- ===== src/Document/Revise.antt =====
-- `update`, `delete`, `finalize` and the queries of `DocumentService` in
-- backend/document/service.py.
use deepdive.Base.{
  ℕ, ◌+◌, Bool, true, false, not, Option, none, some, List, [], ◌∷◌, map, ◌==◌, length,
}
use deepdive.Text.{Text, is_empty}
use deepdive.Json.{Fields, Builtins}
use deepdive.Storage.Keys.{document_content_key}
use deepdive.Document.Model.{
  Status, draft, finalized, deleted, Operation, update as op_update, delete as op_delete,
  finalize as op_finalize, Document, Revision, Section, SectionText, Repository, version_conflict,
  Result, Platform, M, pure, gets, lift, ◌>>=◌, ◌>>◌, raise_if, or_raise,
}
use deepdive.Document.Repository.{
  list_sections, list_documents, list_revisions, Updates, update_document_with_revision,
  update_document_tree_with_revision,
}
use deepdive.Document.Sections.{normalize_sections, render_document_content, merged_sections}
use deepdive.Document.Results.{DocumentResult, document_result}
use deepdive.Document.Actions.{
  Call, set_repository, ensure_mutable, document_for_analysis, replay_result, unless_replayed,
  content_hash, store, load, revision_payload, section_rows, document_result_with_related,
}

-- A repository method that may raise.
abbrev pub on_repository {ℓ} : {A : Type ℓ} → (Repository → Result A × Repository) → M A
on_repository f w = let (r, repo) = f w.repository in (r, set_repository repo w)

-- The document's version is the expected one.
abbrev pub check_version : Document → ℕ → M (Unit {0})
check_version d expected_version =
    raise_if (not (d.current_version == expected_version)) version_conflict

-- The new values of a document after `expected_version`.
abbrev pub updates_to : ℕ → Status → Text → Text → ℕ → ℕ → Option ℕ → Updates
updates_to expected_version status content_ref content_hash size now finalized_at = record {
  expected_version = expected_version;
  expected_status = draft;
  status = status;
  current_version = expected_version + 1;
  content_ref = content_ref;
  content_hash = content_hash;
  size_bytes = size;
  updated_at = now;
  finalized_at = finalized_at;
}

-- A stored section as `_merged_sections` reads it; a row without its content has an empty one.
abbrev pub text_of : Section → Text → SectionText
text_of s content = record {
  stable_id = s.stable_id;
  title = s.title;
  content = content;
  sort_order = s.sort_order;
}

module _ (os : Platform) where
  -- The stored sections as texts: their contents are read only where sections are updated.
  unfoldable pub existing_texts : Bool → List Section → M (List SectionText)
  existing_texts read [] = pure []
  existing_texts true (s ∷ rest) = do
    content ← load os s.content_ref
    others ← existing_texts true rest
    pure (text_of s content ∷ others)
  existing_texts false (s ∷ rest) = do
    others ← existing_texts false rest
    pure (text_of s [] ∷ others)

  -- The two repository calls of `update`: with sections or without.
  unfoldable pub save_update :
      Call
      → ℕ
      → List SectionText
      → List SectionText
      → List Section
      → Updates
      → Revision
      → M (Option Document)
  save_update call document_id [] merged existing updates revision =
      on_repository (update_document_with_revision document_id updates revision)
  save_update call document_id (s ∷ normalized) merged existing updates revision = do
    rows ←
        section_rows os
          (record {
            analysis_id = call.analysis_id;
            document_id = document_id;
            document_revision_id = revision.id;
            tool_call_id = call.tool_call_id;
            version = updates.current_version;
            now = call.now;
          })
          existing merged
    on_repository (update_document_tree_with_revision document_id updates rows.0 revision rows.1)

  -- The bytes of the new content, stored under the key of the next version.
  unfoldable pub write_update :
      Call
      → Document
      → ℕ
      → ℕ
      → Text
      → List SectionText
      → List SectionText
      → List Section
      → M (Option Document)
  write_update call d document_id expected_version content normalized merged existing = do
    let bytes = os.encode (render_document_content d.title content merged)
    let digest = content_hash os bytes
    let ref =
        document_content_key call.analysis_id document_id (expected_version + 1)
          (some call.tool_call_id)
    store os ref bytes
    revision ←
        revision_payload os document_id (expected_version + 1) call.tool_call_id op_update ref
          digest (length bytes) call.now
    save_update call document_id normalized merged existing
        (updates_to expected_version draft ref digest (length bytes) call.now none) revision

module _ (py : Builtins) (os : Platform) where
  -- `update`, for a tool call that was not recorded
  unfoldable pub update_new : Call → ℕ → ℕ → Text → Option (List Fields) → M DocumentResult
  update_new call document_id expected_version content sections = do
    d ← document_for_analysis call.analysis_id document_id
    ensure_mutable d
    check_version d expected_version
    normalized ← lift (normalize_sections py sections)
    existing ← gets (λ w. list_sections document_id w.repository)
    texts ← existing_texts os (not (is_empty normalized)) existing
    updated ←
        write_update os call d document_id expected_version content normalized
          (merged_sections texts normalized) existing
    d' ← or_raise updated version_conflict
    document_result_with_related os d' (not (is_empty normalized))

  unfoldable pub update : Call → ℕ → ℕ → Text → Option (List Fields) → M DocumentResult
  update call document_id expected_version content sections = do
    replay ← gets (replay_result call.tool_call_id)
    unless_replayed replay (update_new call document_id expected_version content sections)

module _ (os : Platform) where
  -- The common body of `delete` and `finalize`, which differ in the operation, the status and
  -- "finalized_at", for a tool call that was not recorded
  unfoldable pub conclude_new : Operation → Status → Option ℕ → Call → ℕ → ℕ → M DocumentResult
  conclude_new operation status finalized_at call document_id expected_version = do
    d ← document_for_analysis call.analysis_id document_id
    ensure_mutable d
    check_version d expected_version
    revision ←
        revision_payload os document_id (expected_version + 1) call.tool_call_id operation
          d.content_ref d.content_hash d.size_bytes call.now
    updated ← on_repository (
        update_document_with_revision document_id
          (updates_to expected_version status d.content_ref d.content_hash d.size_bytes call.now
            finalized_at)
          revision)
    d' ← or_raise updated version_conflict
    pure (document_result d' none none)

  unfoldable pub delete : Call → ℕ → ℕ → M DocumentResult
  delete call document_id expected_version = do
    replay ← gets (replay_result call.tool_call_id)
    unless_replayed replay (conclude_new op_delete deleted none call document_id expected_version)

  unfoldable pub finalize : Call → ℕ → ℕ → M DocumentResult
  finalize call document_id expected_version = do
    replay ← gets (replay_result call.tool_call_id)
    unless_replayed replay
        (conclude_new op_finalize finalized (some call.now) call document_id expected_version)

  abbrev add_content : Bool → Document → DocumentResult → M DocumentResult
  add_content false d result = pure result
  add_content true d result = do
    content ← load os d.content_ref
    pure (record result { content = some content })

  -- `get`
  unfoldable pub get : ℕ → ℕ → Bool → Bool → M DocumentResult
  get analysis_id document_id include_content include_sections = do
    d ← document_for_analysis analysis_id document_id
    result ← document_result_with_related os d include_sections
    add_content include_content d result

-- `list`, with the offset that the cursor stands for
unfoldable pub list_results : ℕ → ℕ → ℕ → M (List DocumentResult)
list_results analysis_id limit offset = do
  found ← gets (λ w. list_documents analysis_id limit offset w.repository)
  pure (map (λ d. document_result d none none) found)

-- `list_revisions`; a result of a revision has the revision's keys
unfoldable pub revisions_of : ℕ → ℕ → ℕ → ℕ → M (List Revision)
revisions_of analysis_id document_id limit offset = do
  d ← document_for_analysis analysis_id document_id
  gets (λ w. list_revisions d.id limit offset w.repository)
