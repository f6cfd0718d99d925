-- ===== src/Document/Again.antt =====
-- `create` of backend/document/service.py for a tool call that is sent again.
use deepdive.Base.{
  ℕ, suc, length, ◌≡◌, refl, ap, subst, ◌∙◌, List, [], none, some, find-append_one, ==_refl, ◌==◌,
  lookup-insert_self, sym,
}
use deepdive.Text.{Text}
use deepdive.Json.{Builtins}
use deepdive.Document.Model.{create as op_create, Document, Revision, ok, World, Platform, ◌>>=◌}
use deepdive.Document.Repository.{find_revision_by_tool_call, add_document_with_revision}
use deepdive.Document.Results.{DocumentResult, document_result, replayed, status_for_revision}
use deepdive.Document.Actions.{
  Call, replay_result, new_uuid7, store, content_hash, revision_payload,
}
use deepdive.Storage.Keys.{document_content_key}
use deepdive.Document.Sections.{normalize_sections, render_document_content}
use deepdive.Document.Service.{
  NewDocument, create, create_new, create_checked, create_plain, new_document,
}
use deepdive.Document.Replay.{fresh_call}
use deepdive.Document.History.{IsConsistent}
use deepdive.Document.History.Invariant.{Distinct}
use deepdive.Document.History.Requests.{Request, creation, after_all, after-IsConsistent}
use deepdive.Document.History.Records.{replay_result-after_all}

-- A document with neither a place in the tree nor sections.
abbrev pub untreed : Text → Text → Text → NewDocument
untreed title kind content = record {
  title = title;
  kind = kind;
  content = content;
  parent_node_id = none;
  slug = none;
  focus_area = none;
  sections = none;
}

module _ (os : Platform) (call : Call) (title kind content : Text) (w : World) where
  abbrev written : List ℕ
  written = os.encode (render_document_content title content [])

  abbrev written_key : Text
  written_key = document_content_key call.analysis_id (os.uuid7 w.drawn) 1 (some call.tool_call_id)

  -- The document and the revision that `create` makes.
  abbrev created_document : Document
  created_document =
      new_document (os.uuid7 w.drawn) call (untreed title kind content) written_key
        (content_hash os written) (length written)

  abbrev created_revision : Revision
  created_revision = record {
    id = os.uuid7 (suc w.drawn);
    document_id = os.uuid7 w.drawn;
    version = 1;
    tool_call_id = call.tool_call_id;
    operation = op_create;
    content_ref = written_key;
    content_hash = content_hash os written;
    size_bytes = length written;
    created_at = call.now;
  }

  module _ (py : Builtins) where
    created_result :
        (create_new py os call (untreed title kind content) w).0
        ≡ ok (document_result created_document none none)
    unfolding create_new create_checked create_plain ◌>>=◌ new_uuid7 store content_hash
        revision_payload normalize_sections
    created_result = refl

    created_replays :
        find_revision_by_tool_call call.tool_call_id w.repository ≡ none
        → replay_result call.tool_call_id (create_new py os call (untreed title kind content) w).1
          ≡ some (document_result created_document none none)
    unfolding create_new create_checked create_plain ◌>>=◌ new_uuid7 store content_hash
        revision_payload normalize_sections add_document_with_revision replay_result replayed
        status_for_revision
    created_replays fresh =
        rw
          (
            replay_result,
            find-append_one (λ (r : Revision). r.tool_call_id == call.tool_call_id)
                w.repository.revisions created_revision fresh (==_refl call.tool_call_id),
            lookup-insert_self (os.uuid7 w.drawn) created_document w.repository.documents,
          )
          refl

module _ (py : Builtins) (os : Platform) (call : Call) (new : NewDocument) (w : World) where
  create_fresh :
      find_revision_by_tool_call call.tool_call_id w.repository ≡ none
      → create py os call new w ≡ create_new py os call new w
  unfolding create ◌>>=◌
  create_fresh fresh = rw (fresh_call os call w fresh) refl

  create_recorded :
      (result : DocumentResult)
      → replay_result call.tool_call_id w ≡ some result
      → create py os call new w ≡ (ok result, w)
  unfolding create ◌>>=◌
  create_recorded result h = rw h refl

module _ (py : Builtins) (os : Platform) where
  created_once :
      (call : Call) (title kind content : Text) (w w' : World) (result : DocumentResult)
      → find_revision_by_tool_call call.tool_call_id w.repository ≡ none
      → create py os call (untreed title kind content) w ≡ (ok result, w')
      → replay_result call.tool_call_id w' ≡ some result
  created_once call title kind content w w' result fresh returned =
      let made = sym (create_fresh py os call (untreed title kind content) w fresh) ∙ returned in
      cc (
        created_result os call title kind content w py,
        created_replays os call title kind content w py fresh,
        made,
      )

  -- If no UUID is drawn twice: a `create` that returned under a new tool call, in a consistent state and of a
  -- document without a place in the tree and without sections, is answered with the same result, and changes
  -- nothing, when the tool call is sent again, at any time, whatever calls were served in between and whatever
  -- document it then describes.
  pub create_again :
      Distinct os
      → (call again : Call) (title kind content : Text) (w w' : World) (result : DocumentResult)
      → IsConsistent os w
      → find_revision_by_tool_call call.tool_call_id w.repository ≡ none
      → create py os call (untreed title kind content) w ≡ (ok result, w')
      → again.tool_call_id ≡ call.tool_call_id
      → (between : List Request) (other : NewDocument)
      → create py os again other (after_all py os between w')
        ≡ (ok result, after_all py os between w')
  create_again distinct call again title kind content w w' result h fresh returned same between
        other =
      let left : IsConsistent os w' =
        subst (IsConsistent os) (ap (λ x. x.1) returned)
          (after-IsConsistent py os distinct (creation call (untreed title kind content)) w h) in
      create_recorded py os again other (after_all py os between w') result (
        rw same (
          replay_result-after_all py os distinct between w' call.tool_call_id result left
            (created_once call title kind content w w' result fresh returned)))
