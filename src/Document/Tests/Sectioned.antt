-- ===== src/Document/Tests/Sectioned.antt =====
-- Runs of the document service on a document with sections.
use deepdive.Document.Overwrite.{update_ignores_content}
use deepdive.Document.Sections.Valid.{IsSectionList, normalize_sections-IsSectionList}
use deepdive.Base.{◌≡◌, refl, [], ◌∷◌, none, some, lookup, insert, sorted}
use deepdive.Base.Int.{pos}
use deepdive.Text.{codes, text_eq, strip, member, lower}
use deepdive.Text.Slug.{is_slug}
use deepdive.Json.{str, field, end, get, Fields}
use deepdive.Storage.Keys.{document_section_content_key}
use deepdive.Document.Model.{Section, SectionText, World, ok, ◌>>=◌}
use deepdive.Document.Repository.{
  list_sections, add_document_tree_with_revision, add_document_with_revision,
  update_document_with_revision,
}
use deepdive.Document.Sections.{
  check_section, dash_runs, normalize_slug, slugify, normalize_sections, render_document_content,
}
use deepdive.Document.Results.{document_result, replayed}
use deepdive.Document.Actions.{
  replay_result, new_uuid7, store, content_hash, revision_payload, document_for_analysis,
  ensure_mutable, parent_node_for_analysis, section_rows,
}
use deepdive.Document.Service.{
  NewDocument, create, create_new, create_checked, create_plain, create_tree, document_node,
}
use deepdive.Document.Revise.{update, update_new, delete, finalize, conclude_new}
use deepdive.Document.History.Requests.{creation, empty_world, after}
use deepdive.Document.Tests.{plain_python, counting, call_of, note}

abbrev raw_section : Fields
raw_section = field (codes "stable_id") (str (codes "intro")) (
    field (codes "title") (str (codes "Intro")) (field (codes "content") (str (codes "Hello")) end))

abbrev intro : SectionText
intro = record {
  stable_id = codes "intro";
  title = codes "Intro";
  content = codes "Hello";
  sort_order = pos 0;
}

intro_normalized : normalize_sections plain_python (some (raw_section ∷ [])) ≡ ok (intro ∷ [])
unfolding normalize_sections get text_eq strip check_section is_slug member sorted
intro_normalized = refl

normalize_sections-IsSectionList_example : IsSectionList (intro ∷ [])
normalize_sections-IsSectionList_example =
    normalize_sections-IsSectionList plain_python (some (raw_section ∷ [])) (intro ∷ [])
      intro_normalized

-- A document with a section.
abbrev sectioned : NewDocument
sectioned = record note { sections = some (raw_section ∷ []) }

abbrev with_sections : World
with_sections = after plain_python counting (creation (call_of 101) sectioned) empty_world

abbrev stored_intro : Section
stored_intro = record {
  id = 3;
  document_id = 0;
  stable_id = codes "intro";
  title = codes "Intro";
  sort_order = pos 0;
  content_ref = document_section_content_key 5 0 3 1 (some 101);
  content_hash = codes "sha256:";
  size_bytes = 5;
  created_at = 101;
  updated_at = 101;
}

sections_stored : list_sections 0 with_sections.repository ≡ stored_intro ∷ []
unfolding create create_new create_checked create_plain update update_new delete finalize
    conclude_new ◌>>=◌ replay_result new_uuid7 store content_hash revision_payload
    document_for_analysis ensure_mutable normalize_sections render_document_content
    add_document_with_revision update_document_with_revision document_result replayed lookup insert
    create_tree parent_node_for_analysis document_node normalize_slug slugify section_rows
    add_document_tree_with_revision list_sections get text_eq strip sorted check_section is_slug
    member lower dash_runs
sections_stored = refl

update_ignores_content_example :
    update plain_python counting (call_of 103) 0 1 (codes "new text") none with_sections
    ≡ update plain_python counting (call_of 103) 0 1 (codes "other text") none with_sections
update_ignores_content_example =
    update_ignores_content counting plain_python (call_of 103) 0 1 with_sections stored_intro []
      sections_stored (codes "new text") (codes "other text")
