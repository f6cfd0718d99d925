-- ===== src/Document/Actions.antt =====
-- The private methods of `DocumentService` of backend/document/service.py, over the in-memory
-- repository and storage. The caller passes the clock's value; a UUID is drawn from the platform.
pub mod Quiet
use mathlib.Core.List.{reverse}
use deepdive.Base.{
  ℕ, suc, ◌+◌, Bool, true, false, not, ◌&&◌, ◌||◌, Option, none, some, List, [], ◌∷◌, ◌++◌, map,
  ltb, ◌==◌, if◌then◌else◌, length, find, Dict, lookup, insert, eq_option, is_some,
}
use deepdive.Base.Int.{ℤ, pos}
use deepdive.Text.{Text, codes, text_eq, is_empty}
use deepdive.Json.{Fields, Builtins}
use deepdive.Storage.Keys.{document_content_key, document_section_content_key}
use deepdive.Storage.Memory.{Bytes, put_bytes, get_bytes}
use deepdive.Document.Model.{
  Status, draft, finalized, deleted, Operation, create, update, delete, finalize, NodeType, folder,
  document, Document, Revision, Node, Section, SectionRevision, SectionText, Repository,
  DocumentError, document_not_found, document_deleted, document_finalized, version_conflict,
  node_not_found, invalid_tree, missing_object, Result, ok, err, World, Platform, M, pure, raise,
  gets, lift, modify, ◌>>=◌, ◌>>◌, raise_if, or_raise,
}
use deepdive.Document.Repository.{
  eq_status, get_document, get_node, find_revision_by_tool_call, list_nodes, list_sections,
  add_folder_node, add_document_with_revision, add_document_tree_with_revision, Updates,
  update_document_with_revision, update_document_tree_with_revision,
}
use deepdive.Document.Sections.{
  normalize_sections, normalize_slug, slugify, node_path, render_document_content, merged_sections,
}
use deepdive.Document.Results.{DocumentResult, NodeResult, document_result, node_result, replayed}

-- The arguments that the operations share; `now` is the clock's value.
pub record Call : Type 0 where
  pub analysis_id : ℕ
  pub agent_id : ℕ
  pub tool_call_id : ℕ
  pub now : ℕ

-- What `_section_rows` is given besides the sections.
pub record RowContext : Type 0 where
  pub analysis_id : ℕ
  pub document_id : ℕ
  pub document_revision_id : ℕ
  pub tool_call_id : ℕ
  pub version : ℕ
  pub now : ℕ

abbrev pub markdown : Text
markdown = codes "text/markdown; charset=utf-8"

abbrev pub set_repository : Repository → World → World
set_repository repo w = record w { repository = repo }

-- `_ensure_mutable`
unfoldable pub ensure_mutable : Document → M (Unit {0})
ensure_mutable d = do
  raise_if (eq_status d.status finalized) document_finalized
  raise_if (eq_status d.status deleted) document_deleted

-- `_document_for_analysis`
unfoldable pub document_for_analysis : ℕ → ℕ → M Document
document_for_analysis analysis_id document_id = do
  found ← gets (λ w. get_document document_id w.repository)
  d ← or_raise found document_not_found
  raise_if (not (d.analysis_id == analysis_id)) document_not_found
  raise_if (eq_status d.status deleted) document_deleted
  pure d

-- `_parent_node_for_analysis`
unfoldable pub parent_node_for_analysis : ℕ → Option ℕ → M (Option Node)
parent_node_for_analysis analysis_id none = pure none
parent_node_for_analysis analysis_id (some parent_node_id) = do
  found ← gets (λ w. get_node parent_node_id w.repository)
  parent ← or_raise found node_not_found
  raise_if (not (parent.analysis_id == analysis_id)) node_not_found
  raise_if (elim parent.node_type [ folder ↦ false | document ↦ true ]) invalid_tree
  pure (some parent)

abbrev replay_of : Revision → Option Document → Option DocumentResult
replay_of r none = none
replay_of r (some d) = some (document_result (replayed d r) none none)

-- `_replay_result`
unfoldable pub replay_result : ℕ → World → Option DocumentResult
replay_result tool_call_id w = elim (find_revision_by_tool_call tool_call_id w.repository) [
  | none ↦ none
  | some r ↦ replay_of r (get_document r.document_id w.repository)
]

abbrev pub unless_replayed : Option DocumentResult → M DocumentResult → M DocumentResult
unless_replayed (some replay) m = pure replay
unless_replayed none m = m

abbrev node_for : ℕ → Node → Bool
node_for k n = eq_option n.document_id (some k)

module _ (os : Platform) where
  -- `new_uuid7`
  unfoldable pub new_uuid7 : M ℕ
  new_uuid7 w = (ok (os.uuid7 w.drawn), record w { drawn = suc w.drawn })

  -- `content_hash`
  unfoldable pub content_hash : Bytes → Text
  content_hash data_ = codes "sha256:" ++ os.sha256 data_

  -- `self._storage.put_bytes(key, data, content_type="text/markdown; charset=utf-8")`
  unfoldable pub store : Text → Bytes → M (Unit {0})
  store key data_ = modify (λ w. record w { objects = put_bytes key data_ markdown w.objects })

  -- `self._storage.get_bytes(ref).decode("utf-8")`
  unfoldable pub load : Text → M Text
  load ref = do
    found ← gets (λ w. get_bytes ref w.objects)
    bytes ← or_raise found missing_object
    pure (os.decode bytes)

  -- `revision_payload`
  unfoldable pub revision_payload : ℕ → ℕ → ℕ → Operation → Text → Text → ℕ → ℕ → M Revision
  revision_payload document_id version tool_call_id operation content_ref digest size now = do
    id ← new_uuid7
    pure (record {
      id = id;
      document_id = document_id;
      version = version;
      tool_call_id = tool_call_id;
      operation = operation;
      content_ref = content_ref;
      content_hash = digest;
      size_bytes = size;
      created_at = now;
    })

  abbrev section_id_for : Option Section → M ℕ
  section_id_for (some existing) = pure existing.id
  section_id_for none = new_uuid7

  -- `_section_rows`
  unfoldable pub section_rows :
      RowContext → List Section → List SectionText → M (List Section × List SectionRevision)
  section_rows ctx existing_sections [] = pure ([], [])
  section_rows ctx existing_sections (s ∷ rest) = do
    let existing = find (λ e. text_eq e.stable_id s.stable_id) (reverse existing_sections)
    section_id ← section_id_for existing
    let bytes = os.encode s.content
    let key =
        document_section_content_key ctx.analysis_id ctx.document_id section_id ctx.version
          (some ctx.tool_call_id)
    store key bytes
    revision_id ← new_uuid7
    others ← section_rows ctx existing_sections rest
    pure (
      record {
        id = section_id;
        document_id = ctx.document_id;
        stable_id = s.stable_id;
        title = s.title;
        sort_order = s.sort_order;
        content_ref = key;
        content_hash = content_hash bytes;
        size_bytes = length bytes;
        created_at = elim existing [ none ↦ ctx.now | some e ↦ e.created_at ];
        updated_at = ctx.now;
      }
          ∷ others.0,
      record {
        id = revision_id;
        section_id = section_id;
        document_id = ctx.document_id;
        document_revision_id = ctx.document_revision_id;
        version = ctx.version;
        title = s.title;
        sort_order = s.sort_order;
        content_ref = key;
        content_hash = content_hash bytes;
        size_bytes = length bytes;
        created_at = ctx.now;
      }
          ∷ others.1,
    )

  -- `[{**section, "content": …} for section in sections]`
  unfoldable pub with_contents : List Section → M (List (Section × Option Text))
  with_contents [] = pure []
  with_contents (s ∷ rest) = do
    content ← load s.content_ref
    others ← with_contents rest
    pure ((s, some content) ∷ others)

  unfoldable pub related_sections : Document → Bool → M (Option (List (Section × Option Text)))
  related_sections d false = pure none
  related_sections d true = do
    rows ← gets (λ w. list_sections d.id w.repository)
    contents ← with_contents rows
    pure (some contents)

  -- `_document_result_with_related`
  unfoldable pub document_result_with_related : Document → Bool → M DocumentResult
  document_result_with_related d include_sections = do
    listed ← gets (λ w. list_nodes d.analysis_id w.repository)
    nodes ← lift listed
    sections ← related_sections d include_sections
    pure (document_result d (find (node_for d.id) nodes) sections)
