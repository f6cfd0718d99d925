-- ===== src/Document/Replay.antt =====
-- What `_replay_result` of backend/document/service.py makes of a tool call that is sent again.
use deepdive.Base.{
  ℕ, suc, ◌+◌, ◌≡◌, refl, sym, ◌∙◌, [], ◌∷◌, ◌++◌, Option, none, some, arith, lookup, insert, inl,
  inr, Option-cases, find-append_one, ==_refl, ◌==◌, lookup-insert_self,
}
use deepdive.Document.Model.{
  Status, draft, finalized, deleted, Operation, delete as op_delete, finalize as op_finalize,
  Document, Revision, ok, World, Platform, ◌>>=◌,
}
use deepdive.Document.Repository.{find_revision_by_tool_call, update_document_with_revision}
use deepdive.Document.Results.{DocumentResult, document_result, replayed, status_for_revision}
use deepdive.Document.Actions.{Call, replay_result, new_uuid7, revision_payload}
use deepdive.Document.Revise.{conclude_new, delete, finalize}
use deepdive.Document.Gate.{refusal, gated_refused, gated_open, refusal-none}
use deepdive.Document.History.Changes.{conclude_open}

module _ (os : Platform) where
  -- The revision, the document and the state that `delete` and `finalize` leave.
  abbrev concluded_revision : Operation → Call → ℕ → ℕ → Document → World → Revision
  concluded_revision operation call k v d w = record {
    id = os.uuid7 w.drawn;
    document_id = k;
    version = v + 1;
    tool_call_id = call.tool_call_id;
    operation = operation;
    content_ref = d.content_ref;
    content_hash = d.content_hash;
    size_bytes = d.size_bytes;
    created_at = call.now;
  }

  abbrev pub concluded : Status → Option ℕ → Call → ℕ → Document → Document
  concluded status finalized_at call v d = record d {
    status = status;
    current_version = v + 1;
    updated_at = call.now;
    finalized_at = finalized_at;
  }

  -- The result for such a document.
  abbrev pub concluded_result : Status → ℕ → Document → DocumentResult
  concluded_result status v d = record {
    core = record {
      document_id = d.id;
      analysis_id = d.analysis_id;
      agent_id = d.agent_id;
      title = d.title;
      kind = d.kind;
      status = status;
      version = v + 1;
      content_ref = d.content_ref;
      content_hash = d.content_hash;
      size_bytes = d.size_bytes;
    };
    focus_area = none;
    node = none;
    sections = none;
    content = none;
  }

  abbrev pub concluded_world :
      Operation → Status → Option ℕ → Call → ℕ → ℕ → Document → World → World
  concluded_world operation status finalized_at call k v d w = record w {
    repository = record w.repository {
      documents = insert k (concluded status finalized_at call v d) w.repository.documents;
      revisions = w.repository.revisions ++ concluded_revision operation call k v d w ∷ [];
    };
    drawn = suc w.drawn;
  }

  module _ (operation : Operation) (status : Status) (finalized_at : Option ℕ) (call : Call)
      (k v : ℕ) (d : Document) (w : World)
      (agree : status_for_revision (concluded_revision operation call k v d w) ≡ status)
      (found : lookup k w.repository.documents ≡ some d) (open_ : d.status ≡ draft)
      (current : d.current_version ≡ v) where
    conclude_open_result : conclude_open os operation status finalized_at call k v d w ≡ (
      ok (document_result (concluded status finalized_at call v d) none none),
      concluded_world operation status finalized_at call k v d w,
    )
    unfolding revision_payload new_uuid7 ◌>>=◌ update_document_with_revision
    conclude_open_result = ground arith

    concluded_replays :
        find_revision_by_tool_call call.tool_call_id w.repository ≡ none
        → replay_result call.tool_call_id
            (concluded_world operation status finalized_at call k v d w)
          ≡ some (document_result (concluded status finalized_at call v d) none none)
    unfolding replay_result replayed
    concluded_replays fresh =
        rw
          (
            replay_result,
            find-append_one (λ (r : Revision). r.tool_call_id == call.tool_call_id)
                w.repository.revisions (concluded_revision operation call k v d w) fresh
                (==_refl call.tool_call_id),
            lookup-insert_self k (concluded status finalized_at call v d) w.repository.documents,
            agree,
          )
          refl

    -- What `conclude_new` does to an open document, and the same call again on the outcome.
    conclude_new_result :
        d.analysis_id ≡ call.analysis_id
        → conclude_new os operation status finalized_at call k v w ≡ (
          ok (document_result (concluded status finalized_at call v d) none none),
          concluded_world operation status finalized_at call k v d w,
        )
    unfolding conclude_new
    conclude_new_result own =
        gated_open call.analysis_id k v (conclude_open os operation status finalized_at call k v) w
          d found own open_ current
        ∙ conclude_open_result

  pub fresh_call :
      (call : Call) (w : World)
      → find_revision_by_tool_call call.tool_call_id w.repository ≡ none
      → replay_result call.tool_call_id w ≡ none
  unfolding replay_result
  fresh_call call w h = rw (replay_result, h) refl

  module _ (operation : Operation) (status : Status) (finalized_at : Option ℕ) (call : Call)
      (k v : ℕ) (w : World)
      (agree : (d : Document)
        → status_for_revision (concluded_revision operation call k v d w) ≡ status) where
    -- A `conclude_new` that returned is replayed.
    concluded_once :
        (w' : World) (result : DocumentResult)
        → find_revision_by_tool_call call.tool_call_id w.repository ≡ none
        → conclude_new os operation status finalized_at call k v w ≡ (ok result, w')
        → replay_result call.tool_call_id w' ≡ some result
    unfolding conclude_new
    concluded_once w' result fresh returned = elim (Option-cases (refusal call.analysis_id k v w)) [
      | inl h ↦
          let (d, found, own, open_, current) = refusal-none call.analysis_id k v w h in
          let explicit =
            conclude_new_result operation status finalized_at call k v d w (agree d) found open_
              current own in
          let replays =
            concluded_replays operation status finalized_at call k v d w (agree d) found open_
              current fresh in
          cc (explicit, replays, returned)
      | inr (e, h) ↦ cc (
        gated_refused call.analysis_id k v (conclude_open os operation status finalized_at call k v)
            w e h,
        returned,
      )
    ]

  -- Where `delete` and `finalize` go for a tool call by what was recorded.
  delete_fresh :
      (call : Call) (k v : ℕ) (w : World)
      → replay_result call.tool_call_id w ≡ none
      → delete os call k v w ≡ conclude_new os op_delete deleted none call k v w
  unfolding delete ◌>>=◌
  delete_fresh call k v w h = rw h refl

  finalize_fresh :
      (call : Call) (k v : ℕ) (w : World)
      → replay_result call.tool_call_id w ≡ none
      → finalize os call k v w ≡ conclude_new os op_finalize finalized (some call.now) call k v w
  unfolding finalize ◌>>=◌
  finalize_fresh call k v w h = rw h refl

  delete_recorded :
      (call : Call) (k v : ℕ) (w : World) (result : DocumentResult)
      → replay_result call.tool_call_id w ≡ some result
      → delete os call k v w ≡ (ok result, w)
  unfolding delete ◌>>=◌
  delete_recorded call k v w result h = rw h refl

  finalize_recorded :
      (call : Call) (k v : ℕ) (w : World) (result : DocumentResult)
      → replay_result call.tool_call_id w ≡ some result
      → finalize os call k v w ≡ (ok result, w)
  unfolding finalize ◌>>=◌
  finalize_recorded call k v w result h = rw h refl

  -- A `delete` that returned under a new tool call is answered with the same result, and changes
  -- nothing, when the tool call is sent again, whatever document and version it then names.
  pub delete_twice :
      (call : Call) (k v : ℕ) (w w' : World) (result : DocumentResult)
      → find_revision_by_tool_call call.tool_call_id w.repository ≡ none
      → delete os call k v w ≡ (ok result, w')
      → (j u : ℕ) → delete os call j u w' ≡ (ok result, w')
  unfolding status_for_revision
  delete_twice call k v w w' result fresh returned j u = delete_recorded call j u w' result (
      concluded_once op_delete deleted none call k v w (λ d. refl) w' result fresh
        (sym (delete_fresh call k v w (fresh_call call w fresh)) ∙ returned))

  -- A `finalize` that returned under a new tool call is answered with the same result, and changes
  -- nothing, when the tool call is sent again, whatever document and version it then names.
  pub finalize_twice :
      (call : Call) (k v : ℕ) (w w' : World) (result : DocumentResult)
      → find_revision_by_tool_call call.tool_call_id w.repository ≡ none
      → finalize os call k v w ≡ (ok result, w')
      → (j u : ℕ) → finalize os call j u w' ≡ (ok result, w')
  unfolding status_for_revision
  finalize_twice call k v w w' result fresh returned j u = finalize_recorded call j u w' result (
      concluded_once op_finalize finalized (some call.now) call k v w (λ d. refl) w' result fresh
        (sym (finalize_fresh call k v w (fresh_call call w fresh)) ∙ returned))

  -- `delete` and `finalize` of a draft of the analysis, at its version and under a new tool call,
  -- return the document as deleted or finalized at the next version and store it so, changed now and,
  -- by `finalize`, finalized now; a revision with the old content is appended, one UUID is drawn, and
  -- all other rows and the objects are as they were.
  pub closing_result :
      (call : Call) (k v : ℕ) (w : World) (d : Document)
      → find_revision_by_tool_call call.tool_call_id w.repository ≡ none
      → lookup k w.repository.documents ≡ some d
      → d.analysis_id ≡ call.analysis_id
      → d.status ≡ draft
      → d.current_version ≡ v
      → (delete os call k v w ≡ (
        ok (concluded_result deleted v d),
        concluded_world op_delete deleted none call k v d w,
      ))
        × (finalize os call k v w ≡ (
          ok (concluded_result finalized v d),
          concluded_world op_finalize finalized (some call.now) call k v d w,
        ))
  unfolding status_for_revision document_result
  closing_result call k v w d fresh found own open_ current = (
    delete_fresh call k v w (fresh_call call w fresh)
        ∙ conclude_new_result op_delete deleted none call k v d w refl found open_ current own,
    finalize_fresh call k v w (fresh_call call w fresh)
        ∙ conclude_new_result op_finalize finalized (some call.now) call k v d w refl found open_
            current own,
  )
