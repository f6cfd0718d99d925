-- ===== src/Document/Results.antt =====
-- backend/document/models.py: the rows that the service builds and the results that it returns.
use deepdive.Base.{ℕ, Option, none, some, List, map}
use deepdive.Base.Int.{ℤ}
use deepdive.Text.{Text}
use deepdive.Document.Model.{
  Status, draft, finalized, deleted, NodeType, delete, finalize, Document, Revision, Node, Section,
}

pub record NodeResult : Type 0 where
  pub node_id : ℕ
  pub analysis_id : ℕ
  pub agent_id : ℕ
  pub parent_id : Option ℕ
  pub node_type : NodeType
  pub document_id : Option ℕ
  pub title : Text
  pub slug : Text
  pub path : Text
  pub focus_area : Option Text
  pub sort_order : ℤ

-- `node_result`, and `folder_result`
unfoldable pub node_result : Node → NodeResult
node_result n = record {
  node_id = n.id;
  analysis_id = n.analysis_id;
  agent_id = n.agent_id;
  parent_id = n.parent_id;
  node_type = n.node_type;
  document_id = n.document_id;
  title = n.title;
  slug = n.slug;
  path = n.path;
  focus_area = n.focus_area;
  sort_order = n.sort_order;
}

pub record SectionResult : Type 0 where
  pub section_id : ℕ
  pub document_id : ℕ
  pub stable_id : Text
  pub title : Text
  pub sort_order : ℤ
  pub content_ref : Text
  pub content_hash : Text
  pub size_bytes : ℕ
  pub content : Option Text

-- `section_result`, of a row with its content or without
unfoldable pub section_result : Section × Option Text → SectionResult
section_result (s, content) = record {
  section_id = s.id;
  document_id = s.document_id;
  stable_id = s.stable_id;
  title = s.title;
  sort_order = s.sort_order;
  content_ref = s.content_ref;
  content_hash = s.content_hash;
  size_bytes = s.size_bytes;
  content = content;
}

-- The keys that every result of a document has.
pub record DocumentCore : Type 0 where
  pub document_id : ℕ
  pub analysis_id : ℕ
  pub agent_id : ℕ
  pub title : Text
  pub kind : Text
  pub status : Status
  pub version : ℕ
  pub content_ref : Text
  pub content_hash : Text
  pub size_bytes : ℕ

pub record DocumentResult : Type 0 where
  pub core : DocumentCore
  pub focus_area : Option Text
  pub node : Option NodeResult
  pub sections : Option (List SectionResult)
  pub content : Option Text

unfoldable pub document_core : Document → DocumentCore
document_core d = record {
  document_id = d.id;
  analysis_id = d.analysis_id;
  agent_id = d.agent_id;
  title = d.title;
  kind = d.kind;
  status = d.status;
  version = d.current_version;
  content_ref = d.content_ref;
  content_hash = d.content_hash;
  size_bytes = d.size_bytes;
}

-- `document_result`, with the node and the sections that `_document_result_with_tree` adds.
unfoldable pub document_result :
    Document → Option Node → Option (List (Section × Option Text)) → DocumentResult
unfolding document_core node_result section_result
document_result d node sections = record {
  core = document_core d;
  focus_area = elim node [ none ↦ none | some n ↦ n.focus_area ];
  node = elim node [ none ↦ none | some n ↦ some (node_result n) ];
  sections = elim sections [ none ↦ none | some rows ↦ some (map section_result rows) ];
  content = none;
}

-- `status_for_revision`
unfoldable pub status_for_revision : Revision → Status
status_for_revision revision = elim revision.operation [
  | delete ↦ deleted
  | finalize ↦ finalized
  | _ ↦ draft
]

-- The document as a revision left it: the dict that `_replay_result` returns.
unfoldable pub replayed : Document → Revision → Document
unfolding status_for_revision
replayed d r = record d {
  status = status_for_revision r;
  current_version = r.version;
  content_ref = r.content_ref;
  content_hash = r.content_hash;
  size_bytes = r.size_bytes;
}
