-- ===== src/Document/Tests.antt =====
-- Runs of the document service on small inputs.
mod Sectioned
use deepdive.Document.Gate.{refusal, changes_refused}
use deepdive.Document.Replay.{
  delete_twice, finalize_twice, closing_result, concluded, concluded_world, concluded_result,
}
use deepdive.Document.Again.{untreed, create_again}
use deepdive.Document.Conflict.{stale_change_refused}
use deepdive.Document.Overwrite.{update_ignores_content}
use deepdive.Document.Sections.Valid.{IsSectionList, normalize_sections-IsSectionList}
use deepdive.Base.{ℕ, ◌≡◌, ◌≢◌, refl, List, [], ◌∷◌, none, some, lookup, insert, length, sorted}
use deepdive.Base.Int.{pos}
use deepdive.Text.{codes, text_eq, strip, member, lower}
use deepdive.Text.Slug.{is_slug}
use deepdive.Json.{str, field, end, get, Fields, Builtins}
use deepdive.Storage.Keys.{document_content_key, document_section_content_key}
use deepdive.Document.Model.{
  DocumentError, Section, SectionText, delete as op_delete, finalize as op_finalize, draft,
  finalized, deleted, document_finalized, Document, World, Platform, ok, err, ◌>>=◌,
}
use deepdive.Document.Repository.{
  find_revision_by_tool_call, list_sections, add_document_tree_with_revision,
  add_document_with_revision, update_document_with_revision,
}
use deepdive.Document.Sections.{
  check_section, dash_runs, normalize_slug, slugify, normalize_sections, render_document_content,
}
use deepdive.Document.Results.{DocumentResult, document_result, replayed}
use deepdive.Document.Actions.{
  Call, replay_result, new_uuid7, store, content_hash, revision_payload, document_for_analysis,
  ensure_mutable, parent_node_for_analysis, section_rows,
}
use deepdive.Document.Service.{
  NewDocument, create, create_new, create_checked, create_plain, create_tree, document_node,
}
use deepdive.Document.Revise.{update, update_new, delete, finalize, conclude_new}
use deepdive.Document.History.{IsConsistent, revisions_for}
use deepdive.Document.History.Invariant.{Distinct}
use deepdive.Document.History.Requests.{
  Request, creation, change, deletion, finalization, empty_world, after, after_all,
  version_counts_revisions, after-IsConsistent, after-Outcome, Outcome, closed_stays,
  empty_world-IsConsistent,
}

abbrev pub plain_python : Builtins
plain_python = record { repr = λ _. []; to_int = λ _. none }

abbrev pub counting : Platform
counting = record { uuid7 = λ i. i; encode = λ s. s; decode = λ s. s; sha256 = λ _. [] }

counting_distinct : Distinct counting
counting_distinct i j ne = ne

abbrev pub call_of : ℕ → Call
call_of t = record { analysis_id = 5; agent_id = 7; tool_call_id = t; now = t }

abbrev pub note : NewDocument
note = record {
  title = codes "T";
  kind = codes "report";
  content = codes "x";
  parent_node_id = none;
  slug = none;
  focus_area = none;
  sections = none;
}

-- A document is made and finalized.
abbrev made_and_closed : List Request
made_and_closed = creation (call_of 101) note ∷ finalization (call_of 102) 0 1 ∷ []

abbrev closed_note : Document
closed_note = record {
  id = 0;
  analysis_id = 5;
  agent_id = 7;
  title = codes "T";
  kind = codes "report";
  status = finalized;
  current_version = 2;
  content_ref = document_content_key 5 0 1 (some 101);
  content_hash = codes "sha256:";
  size_bytes = 1;
  created_at = 101;
  updated_at = 102;
  finalized_at = some 102;
}

made_and_closed_run :
    lookup 0 (after_all plain_python counting made_and_closed empty_world).repository.documents
    ≡ some closed_note
unfolding create create_new create_checked create_plain finalize conclude_new ◌>>=◌ replay_result
    new_uuid7 store content_hash revision_payload document_for_analysis ensure_mutable
    normalize_sections render_document_content add_document_with_revision
    update_document_with_revision lookup insert
made_and_closed_run = refl

version_counts_revisions_example :
    2
    ≡ length (
        revisions_for 0
          (after_all plain_python counting made_and_closed empty_world).repository.revisions)
version_counts_revisions_example =
    version_counts_revisions plain_python counting counting_distinct made_and_closed 0 closed_note
      made_and_closed_run

-- The state with the document as it was made.
abbrev with_note : World
with_note = after plain_python counting (creation (call_of 101) note) empty_world

abbrev made_note : Document
made_note = record closed_note {
  status = draft;
  current_version = 1;
  updated_at = 101;
  finalized_at = none;
}

with_note_run : lookup 0 with_note.repository.documents ≡ some made_note
unfolding create create_new create_checked create_plain update update_new delete finalize
    conclude_new ◌>>=◌ replay_result new_uuid7 store content_hash revision_payload
    document_for_analysis ensure_mutable normalize_sections render_document_content
    add_document_with_revision update_document_with_revision document_result replayed lookup insert
with_note_run = refl

after-IsConsistent_example : IsConsistent counting with_note
after-IsConsistent_example =
    after-IsConsistent plain_python counting counting_distinct (creation (call_of 101) note)
      empty_world (empty_world-IsConsistent plain_python counting)

with_note-IsConsistent : IsConsistent counting with_note
with_note-IsConsistent =
    after-IsConsistent plain_python counting counting_distinct (creation (call_of 101) note)
      empty_world (empty_world-IsConsistent plain_python counting)

abbrev with_closed_note : World
with_closed_note = after plain_python counting (finalization (call_of 102) 0 1) with_note

after-Outcome_example : Outcome plain_python counting 0 made_note with_note with_closed_note
after-Outcome_example =
    after-Outcome plain_python counting (finalization (call_of 102) 0 1) with_note 0 made_note
      with_note-IsConsistent with_note_run

with_closed_note-IsConsistent : IsConsistent counting with_closed_note
with_closed_note-IsConsistent =
    after-IsConsistent plain_python counting counting_distinct (finalization (call_of 102) 0 1)
      with_note with_note-IsConsistent

finalized_note : closed_note.status ≢ draft
finalized_note e = cc

abbrev late_calls : List Request
late_calls = change (call_of 103) 0 2 (codes "y") none ∷ deletion (call_of 104) 0 2 ∷ []

closed_stays_example :
    (lookup 0 (after_all plain_python counting late_calls with_closed_note).repository.documents
      ≡ some closed_note)
    × (revisions_for 0
          (after_all plain_python counting late_calls with_closed_note).repository.revisions
        ≡ revisions_for 0 with_closed_note.repository.revisions)
closed_stays_example =
    closed_stays plain_python counting counting_distinct late_calls with_closed_note 0 closed_note
      with_closed_note-IsConsistent made_and_closed_run finalized_note

first_call : find_revision_by_tool_call 101 empty_world.repository ≡ none
first_call = refl

created_note :
    create plain_python counting
      (call_of 101)
      (untreed (codes "T") (codes "report") (codes "x"))
      empty_world
    ≡ (ok (document_result made_note none none), with_note)
unfolding create create_new create_checked create_plain update update_new delete finalize
    conclude_new ◌>>=◌ replay_result new_uuid7 store content_hash revision_payload
    document_for_analysis ensure_mutable normalize_sections render_document_content
    add_document_with_revision update_document_with_revision document_result replayed lookup insert
created_note = refl

-- The document is changed and finalized, and its creation is sent again with another title.
abbrev changed_and_closed : List Request
changed_and_closed = change (call_of 102) 0 1 (codes "y") none ∷ finalization (call_of 103) 0 2 ∷ []

create_again_example :
    create plain_python counting
      (record (call_of 101) { now = 104 })
      (untreed (codes "U") (codes "report") (codes "z"))
      (after_all plain_python counting changed_and_closed with_note)
    ≡ (
      ok (document_result made_note none none),
      after_all plain_python counting changed_and_closed with_note,
    )
create_again_example =
    create_again plain_python counting counting_distinct (call_of 101)
      (record (call_of 101) { now = 104 }) (codes "T") (codes "report") (codes "x") empty_world
      with_note (document_result made_note none none)
      (empty_world-IsConsistent plain_python counting) first_call created_note refl
      changed_and_closed (untreed (codes "U") (codes "report") (codes "z"))

abbrev with_deleted_note : World
with_deleted_note = after plain_python counting (deletion (call_of 103) 0 1) with_note

abbrev deleted_result : DocumentResult
deleted_result =
    document_result (concluded counting deleted none (call_of 103) 1 made_note) none none

unrecorded : find_revision_by_tool_call 103 with_note.repository ≡ none
unfolding create create_new create_checked create_plain update update_new delete finalize
    conclude_new ◌>>=◌ replay_result new_uuid7 store content_hash revision_payload
    document_for_analysis ensure_mutable normalize_sections render_document_content
    add_document_with_revision update_document_with_revision document_result replayed lookup insert
unrecorded = refl

deleted_once : delete counting (call_of 103) 0 1 with_note ≡ (ok deleted_result, with_deleted_note)
unfolding create create_new create_checked create_plain update update_new delete finalize
    conclude_new ◌>>=◌ replay_result new_uuid7 store content_hash revision_payload
    document_for_analysis ensure_mutable normalize_sections render_document_content
    add_document_with_revision update_document_with_revision document_result replayed lookup insert
deleted_once = refl

delete_twice_example :
    delete counting (call_of 103) 4 8 with_deleted_note ≡ (ok deleted_result, with_deleted_note)
delete_twice_example =
    delete_twice counting (call_of 103) 0 1 with_note with_deleted_note deleted_result unrecorded
      deleted_once 4 8

abbrev with_finalized_note : World
with_finalized_note = after plain_python counting (finalization (call_of 103) 0 1) with_note

abbrev finalized_result : DocumentResult
finalized_result =
    document_result (concluded counting finalized (some 103) (call_of 103) 1 made_note) none none

finalized_once :
    finalize counting (call_of 103) 0 1 with_note ≡ (ok finalized_result, with_finalized_note)
unfolding create create_new create_checked create_plain update update_new delete finalize
    conclude_new ◌>>=◌ replay_result new_uuid7 store content_hash revision_payload
    document_for_analysis ensure_mutable normalize_sections render_document_content
    add_document_with_revision update_document_with_revision document_result replayed lookup insert
finalized_once = refl

finalize_twice_example :
    finalize counting (call_of 103) 4 8 with_finalized_note
    ≡ (ok finalized_result, with_finalized_note)
finalize_twice_example =
    finalize_twice counting (call_of 103) 0 1 with_note with_finalized_note finalized_result
      unrecorded finalized_once 4 8

closing_result_example :
    (delete counting (call_of 103) 0 1 with_note ≡ (
      ok (concluded_result counting deleted 1 made_note),
      concluded_world counting op_delete deleted none (call_of 103) 0 1 made_note with_note,
    ))
    × (finalize counting (call_of 103) 0 1 with_note ≡ (
      ok (concluded_result counting finalized 1 made_note),
      concluded_world counting op_finalize finalized
          (some 103)
          (call_of 103)
          0
          1
          made_note
          with_note,
    ))
closing_result_example =
    closing_result counting (call_of 103) 0 1 with_note made_note unrecorded with_note_run refl refl
      refl

new_call : replay_result 105 with_closed_note ≡ none
unfolding create create_new create_checked create_plain update update_new delete finalize
    conclude_new ◌>>=◌ replay_result new_uuid7 store content_hash revision_payload
    document_for_analysis ensure_mutable normalize_sections render_document_content
    add_document_with_revision update_document_with_revision document_result replayed lookup insert
new_call = refl

closed_refusal : refusal 5 0 2 with_closed_note ≡ some document_finalized
unfolding create create_new create_checked create_plain update update_new delete finalize
    conclude_new ◌>>=◌ replay_result new_uuid7 store content_hash revision_payload
    document_for_analysis ensure_mutable normalize_sections render_document_content
    add_document_with_revision update_document_with_revision document_result replayed lookup insert
closed_refusal = refl

changes_refused_example :
    (update plain_python counting (call_of 105) 0 2 [] none with_closed_note
      ≡ (err document_finalized, with_closed_note))
    × (delete counting (call_of 105) 0 2 with_closed_note
        ≡ (err document_finalized, with_closed_note))
    × (finalize counting (call_of 105) 0 2 with_closed_note
        ≡ (err document_finalized, with_closed_note))
changes_refused_example =
    changes_refused plain_python counting (call_of 105) 0 2 [] none with_closed_note
      document_finalized new_call closed_refusal

revision_added :
    revisions_for 0 with_closed_note.repository.revisions
    ≢ revisions_for 0 with_note.repository.revisions
unfolding create create_new create_checked create_plain update update_new delete finalize
    conclude_new ◌>>=◌ replay_result new_uuid7 store content_hash revision_payload
    document_for_analysis ensure_mutable normalize_sections render_document_content
    add_document_with_revision update_document_with_revision document_result replayed lookup insert
revision_added e = cc

stale_change_refused_example :
    (e : DocumentError) × (update plain_python counting (call_of 105) 0 1 [] none with_closed_note
      ≡ (err e, with_closed_note))
    × (delete counting (call_of 105) 0 1 with_closed_note ≡ (err e, with_closed_note))
    × (finalize counting (call_of 105) 0 1 with_closed_note ≡ (err e, with_closed_note))
stale_change_refused_example =
    stale_change_refused plain_python counting (finalization (call_of 102) 0 1) with_note 0
      made_note with_note-IsConsistent with_note_run revision_added (call_of 105) [] none new_call
