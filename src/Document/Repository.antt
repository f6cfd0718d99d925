-- ===== src/Document/Repository.antt =====
-- backend/document/memory_repository.py: `DocumentRepository`.
use deepdive.Base.{
  ℕ, Bool, true, false, not, ◌&&◌, ◌||◌, Option, none, some, List, [], ◌∷◌, ◌++◌, ltb, ◌==◌,
  if◌then◌else◌, keep, find, Dict, lookup, insert, values, sorted, take, drop,
}
use deepdive.Base.Int.{ltb_ℤ, eq_ℤ}
use deepdive.Text.{Text, text_eq, text_lt}
use deepdive.Document.Model.{
  Status, draft, finalized, deleted, folder, document, Document, Revision, Node, Section,
  SectionRevision, Repository, missing_document, Result, ok, err,
}

abbrev pub eq_status : Status → Status → Bool
eq_status draft draft = true
eq_status finalized finalized = true
eq_status deleted deleted = true
eq_status _ _ = false

-- `get_document`
abbrev pub get_document : ℕ → Repository → Option Document
get_document document_id repo = lookup document_id repo.documents

-- `get_node`
abbrev pub get_node : ℕ → Repository → Option Node
get_node node_id repo = lookup node_id repo.nodes

-- `find_revision_by_tool_call`
abbrev pub find_revision_by_tool_call : ℕ → Repository → Option Revision
find_revision_by_tool_call tool_call_id repo =
    find (λ revision. revision.tool_call_id == tool_call_id) repo.revisions

-- The order of `list_documents`: (created_at, id).
abbrev pub document_before : Document → Document → Bool
document_before a b =
    ltb a.created_at b.created_at || (a.created_at == b.created_at && ltb a.id b.id)

-- `list_documents`, with the offset that the cursor stands for
unfoldable pub list_documents : ℕ → ℕ → ℕ → Repository → List Document
list_documents analysis_id limit offset repo = take limit (
    drop offset (
      sorted document_before (
        keep (λ d. d.analysis_id == analysis_id && not (eq_status d.status deleted))
          (values repo.documents))))

-- `list_revisions`, with the offset that the cursor stands for
unfoldable pub list_revisions : ℕ → ℕ → ℕ → Repository → List Revision
list_revisions document_id limit offset repo = take limit (
    drop offset (
      sorted (λ a b. ltb a.version b.version)
        (keep (λ r. r.document_id == document_id) repo.revisions)))

-- A document node is shown unless its document is deleted; `none` is a `KeyError`.
abbrev pub node_shown : Repository → Node → Option Bool
node_shown repo node = elim node.node_type [
  | folder ↦ some true
  | document ↦ elim node.document_id [
    | none ↦ none
    | some k ↦ elim (get_document k repo) [
      | none ↦ none
      | some d ↦ some (not (eq_status d.status deleted))
    ]
  ]
]

-- The comprehension of `list_nodes`.
unfoldable pub shown_nodes : ℕ → Repository → List Node → Option (List Node)
shown_nodes analysis_id repo [] = some []
shown_nodes analysis_id repo (node ∷ nodes) =
    let rest = shown_nodes analysis_id repo nodes in
    if node.analysis_id == analysis_id
    then (elim (node_shown repo node) [
      | none ↦ none
      | some true ↦ elim rest [ none ↦ none | some shown ↦ some (node ∷ shown) ]
      | some false ↦ rest
    ])
    else rest

-- The order of `list_nodes`: (path, sort_order, id).
abbrev pub node_before : Node → Node → Bool
node_before a b =
    text_lt a.path b.path
    || (text_eq a.path b.path
        && (ltb_ℤ a.sort_order b.sort_order || (eq_ℤ a.sort_order b.sort_order && ltb a.id b.id)))

unfoldable pub list_nodes : ℕ → Repository → Result (List Node)
unfolding shown_nodes
list_nodes analysis_id repo = elim (shown_nodes analysis_id repo (values repo.nodes)) [
  | none ↦ err missing_document
  | some nodes ↦ ok (sorted node_before nodes)
]

-- The order of `list_sections`: (sort_order, stable_id).
abbrev pub section_before : Section → Section → Bool
section_before a b =
    ltb_ℤ a.sort_order b.sort_order
    || (eq_ℤ a.sort_order b.sort_order && text_lt a.stable_id b.stable_id)

unfoldable pub list_sections : ℕ → Repository → List Section
list_sections document_id repo =
    sorted section_before (keep (λ s. s.document_id == document_id) (values repo.sections))

unfoldable pub add_folder_node : Node → Repository → Repository
add_folder_node node repo = record repo { nodes = insert node.id node repo.nodes }

unfoldable pub add_document_with_revision : Document → Revision → Repository → Repository
add_document_with_revision d revision repo = record repo {
  documents = insert d.id d repo.documents;
  revisions = repo.revisions ++ revision ∷ [];
}

-- `self.sections[section["id"]] = dict(section)` for each section
unfoldable pub put_sections : List Section → Dict Section → Dict Section
put_sections [] stored = stored
put_sections (s ∷ rest) stored = put_sections rest (insert s.id s stored)

unfoldable pub add_document_tree_with_revision :
    Document → Node → List Section → Revision → List SectionRevision → Repository → Repository
unfolding add_document_with_revision put_sections
add_document_tree_with_revision d node sections revision section_revisions repo =
    let added = add_document_with_revision d revision repo in
    record added {
      nodes = insert node.id node added.nodes;
      sections = put_sections sections added.sections;
      section_revisions = added.section_revisions ++ section_revisions;
    }

-- The keys of the `updates` argument; "title" and the ids of a document are never among them.
pub record Updates : Type 0 where
  pub expected_version : ℕ
  pub expected_status : Status
  pub status : Status
  pub current_version : ℕ
  pub content_ref : Text
  pub content_hash : Text
  pub size_bytes : ℕ
  pub updated_at : ℕ
  pub finalized_at : Option ℕ

-- `document.update(updates)`
abbrev pub apply_updates : Updates → Document → Document
apply_updates u d = record d {
  status = u.status;
  current_version = u.current_version;
  content_ref = u.content_ref;
  content_hash = u.content_hash;
  size_bytes = u.size_bytes;
  updated_at = u.updated_at;
  finalized_at = u.finalized_at;
}

-- `update_document_with_revision`: the new document, or `none` on a conflict; a document that is not
-- there is a `KeyError`.
unfoldable pub update_document_with_revision :
    ℕ → Updates → Revision → Repository → Result (Option Document) × Repository
update_document_with_revision document_id updates revision repo =
    elim (get_document document_id repo) [
      | none ↦ (err missing_document, repo)
      | some d ↦
          if not (d.current_version == updates.expected_version)
          then (ok none, repo)
          else if not (eq_status d.status updates.expected_status)
          then (ok none, repo)
          else (
            ok (some (apply_updates updates d)),
            record repo {
              documents = insert document_id (apply_updates updates d) repo.documents;
              revisions = repo.revisions ++ revision ∷ [];
            },
          )
    ]

abbrev finish_tree :
    List Section
    → List SectionRevision
    → Result (Option Document) × Repository
    → Result (Option Document) × Repository
finish_tree sections section_revisions (ok (some d), repo) = (
  ok (some d),
  record repo {
    sections = put_sections sections repo.sections;
    section_revisions = repo.section_revisions ++ section_revisions;
  },
)
finish_tree sections section_revisions (r, repo) = (r, repo)

unfoldable pub update_document_tree_with_revision :
    ℕ
    → Updates
    → List Section
    → Revision
    → List SectionRevision
    → Repository
    → Result (Option Document) × Repository
unfolding update_document_with_revision put_sections
update_document_tree_with_revision document_id updates sections revision section_revisions repo =
    finish_tree sections section_revisions
      (update_document_with_revision document_id updates revision repo)
