-- ===== src/Document/Service.antt =====
-- The methods of `DocumentService` of backend/document/service.py.
use deepdive.Base.{
  ℕ, Bool, not, ◌&&◌, Option, none, some, List, [], map, if◌then◌else◌, length, is_some,
}
use deepdive.Base.Int.{ℤ, pos}
use deepdive.Text.{Text, is_empty}
use deepdive.Json.{Fields, Builtins}
use deepdive.Storage.Keys.{document_content_key}
use deepdive.Document.Model.{
  draft, create as op_create, folder, document, Document, Revision, Node, SectionText, Platform, M,
  pure, gets, lift, modify, ◌>>=◌, ◌>>◌,
}
use deepdive.Document.Repository.{
  add_folder_node, add_document_with_revision, add_document_tree_with_revision,
}
use deepdive.Document.Sections.{
  normalize_sections, normalize_slug, slugify, node_path, render_document_content,
}
use deepdive.Document.Results.{DocumentResult, NodeResult, document_result, node_result}
use deepdive.Document.Actions.{
  Call, set_repository, parent_node_for_analysis, replay_result, unless_replayed, new_uuid7,
  content_hash, store, revision_payload, section_rows,
}

-- The arguments of `create` besides the shared ones.
pub record NewDocument : Type 0 where
  pub title : Text
  pub kind : Text
  pub content : Text
  pub parent_node_id : Option ℕ
  pub slug : Option Text
  pub focus_area : Option Text
  pub sections : Option (List Fields)

-- The test of `create` on which no node is made.
abbrev pub is_plain : NewDocument → List SectionText → Bool
is_plain new sections =
    not (is_some new.parent_node_id)
    && (not (is_some new.slug) && (not (is_some new.focus_area) && is_empty sections))

-- `slug or _slugify(title)`
abbrev pub slug_source : Option Text → Text → Text
slug_source none title = slugify title
slug_source (some slug) title = if is_empty slug then slugify title else slug

abbrev parent_id_of : Option Node → Option ℕ
parent_id_of none = none
parent_id_of (some n) = some n.id

-- The document as the repository is asked to store it.
abbrev pub new_document : ℕ → Call → NewDocument → Text → Text → ℕ → Document
new_document document_id call new content_ref digest size = record {
  id = document_id;
  analysis_id = call.analysis_id;
  agent_id = call.agent_id;
  title = new.title;
  kind = new.kind;
  status = draft;
  current_version = 1;
  content_ref = content_ref;
  content_hash = digest;
  size_bytes = size;
  created_at = call.now;
  updated_at = call.now;
  finalized_at = none;
}

-- The part of `create` that makes no node.
unfoldable pub create_plain : Document → Revision → M DocumentResult
create_plain d revision = do
  modify (λ w. set_repository (add_document_with_revision d revision w.repository) w)
  pure (document_result d none none)

module _ (os : Platform) where
  -- `_document_node`
  unfoldable pub document_node : Call → ℕ → Option Node → NewDocument → M Node
  document_node call document_id parent new = do
    slug ← lift (normalize_slug (slug_source new.slug new.title))
    id ← new_uuid7 os
    pure (record {
      id = id;
      analysis_id = call.analysis_id;
      agent_id = call.agent_id;
      parent_id = parent_id_of parent;
      node_type = document;
      document_id = some document_id;
      title = new.title;
      slug = slug;
      path = node_path parent slug;
      focus_area = new.focus_area;
      sort_order = pos 0;
      created_at = call.now;
      updated_at = call.now;
    })

  -- The part of `create` that makes a node and sections.
  unfoldable pub create_tree :
      Call → NewDocument → List SectionText → Document → Revision → M DocumentResult
  create_tree call new sections d revision = do
    parent ← parent_node_for_analysis call.analysis_id new.parent_node_id
    node ← document_node call d.id parent new
    rows ←
        section_rows os
          (record {
            analysis_id = call.analysis_id;
            document_id = d.id;
            document_revision_id = revision.id;
            tool_call_id = call.tool_call_id;
            version = 1;
            now = call.now;
          })
          [] sections
    modify (λ w.
        set_repository (add_document_tree_with_revision d node rows.0 revision rows.1 w.repository)
          w)
    pure (document_result d (some node) (some (map (λ s. (s, none)) rows.0)))

  -- `create`, from the draw of the document's id on
  unfoldable pub create_checked : Call → NewDocument → List SectionText → M DocumentResult
  create_checked call new sections = do
    document_id ← new_uuid7 os
    let bytes = os.encode (render_document_content new.title new.content sections)
    let digest = content_hash os bytes
    let ref = document_content_key call.analysis_id document_id 1 (some call.tool_call_id)
    store os ref bytes
    revision ←
        revision_payload os document_id 1 call.tool_call_id op_create ref digest (length bytes)
          call.now
    let d = new_document document_id call new ref digest (length bytes)
    if is_plain new sections
        then create_plain d revision
        else create_tree call new sections d revision

  -- `create_folder`, with `_folder_node`
  unfoldable pub create_folder : Call → Text → Text → Option ℕ → ℤ → M NodeResult
  create_folder call title slug_text parent_node_id sort_order = do
    parent ← parent_node_for_analysis call.analysis_id parent_node_id
    slug ← lift (normalize_slug slug_text)
    id ← new_uuid7 os
    let node : Node = record {
      id = id;
      analysis_id = call.analysis_id;
      agent_id = call.agent_id;
      parent_id = parent_id_of parent;
      node_type = folder;
      document_id = none;
      title = title;
      slug = slug;
      path = node_path parent slug;
      focus_area = none;
      sort_order = sort_order;
      created_at = call.now;
      updated_at = call.now;
    }
    modify (λ w. set_repository (add_folder_node node w.repository) w)
    pure (node_result node)

module _ (py : Builtins) (os : Platform) where
  -- `create`, for a tool call that was not recorded
  unfoldable pub create_new : Call → NewDocument → M DocumentResult
  create_new call new = do
    sections ← lift (normalize_sections py new.sections)
    create_checked os call new sections

  unfoldable pub create : Call → NewDocument → M DocumentResult
  create call new = do
    replay ← gets (replay_result call.tool_call_id)
    unless_replayed replay (create_new call new)
