-- ===== src/Document/History/Creation.antt =====
-- `create` and `create_folder` of backend/document/service.py as steps of the document store.
use deepdive.Base.{ℕ, suc, ◌≤◌, ◌<◌, ◌≡◌, refl, List, [], Option, arith, Bool-cases, inl, inr}
use deepdive.Base.Int.{ℤ}
use deepdive.Text.{Text}
use deepdive.Json.{Builtins}
use deepdive.Storage.Memory.{Objects}
use deepdive.Document.Model.{
  create as op_create, Document, Revision, Node, Section, SectionRevision, SectionText, Result, ok,
  err, World, Platform, ◌>>=◌, ◌>>◌, modify, pure, lift,
}
use deepdive.Document.Repository.{
  add_document_with_revision, add_document_tree_with_revision, add_folder_node,
}
use deepdive.Document.Sections.{normalize_sections}
use deepdive.Document.Results.{DocumentResult, NodeResult, replayed}
use deepdive.Document.Actions.{
  Call, new_uuid7, store, revision_payload, set_repository, replay_result,
}
use deepdive.Document.Actions.Quiet.{
  Same, Quiet, Same-refl, Same-trans, Quiet-lift, quiet_rules, parent_node_for_analysis-Quiet,
  new_uuid7-Quiet, section_rows-Quiet,
}
use deepdive.Document.Service.{
  NewDocument, new_document, document_node, create_tree, create_plain, create_new, create_checked,
  create, create_folder, is_plain,
}
use deepdive.Document.History.{Step, idle, created}
use deepdive.Document.History.Change.{Step-idle, quiet_then_step, unless_replayed_Step}

module _ (os : Platform) where
  -- What holds when the new document is stored: it is the first revision's, under an id drawn since.
  record IsNew (u w : World) (d : Document) (r : Revision) : Type 0 where
    since : Same u w
    index : ℕ
    id : d.id ≡ os.uuid7 index
    low : u.drawn ≤ index
    high : index < w.drawn
    own : r.document_id ≡ d.id
    ends : replayed d r ≡ d
    first_version : d.current_version ≡ 1

  IsNew-later :
      {u v w : World} {d : Document} {r : Revision} → IsNew u v d r → Same v w → IsNew u w d r
  IsNew-later n h = record {
    since = Same-trans n.since h;
    index = n.index;
    id = n.id;
    low = n.low;
    high = omega (arith, n.high, h.drawn);
    own = n.own;
    ends = n.ends;
    first_version = n.first_version;
  }

  module _ (u w : World) (d : Document) (r : Revision) (n : IsNew u w d r) where
    create_plain_Step : Step os u (create_plain d r w).1
    unfolding create_plain ◌>>=◌ add_document_with_revision
    create_plain_Step =
        created d r n.index n.id n.low n.high (rw n.since.repository refl)
          (rw n.since.repository refl) n.own n.ends n.first_version

  module _ (u w : World) (d : Document) (r : Revision) (n : IsNew u w d r) where
    stored :
        (node : Node) (rows : List Section) (revs : List SectionRevision) (result : DocumentResult)
        → Step os u
            ((modify (λ w.
                  set_repository
                    (add_document_tree_with_revision d node rows r revs w.repository)
                    w)
                >> pure result)
              w).1
    unfolding ◌>>=◌ add_document_tree_with_revision
    stored node rows revs result =
        created d r n.index n.id n.low n.high (rw n.since.repository refl)
          (rw n.since.repository refl) n.own n.ends n.first_version

  document_node-Quiet :
      (call : Call) (k : ℕ) (parent : Option Node) (new : NewDocument)
      → Quiet (document_node os call k parent new)
  unfolding document_node
  document_node-Quiet call k parent new = search (quiet_rules, new_uuid7-Quiet) depth 8

  module _ (call : Call) (new : NewDocument) (sections : List SectionText) where
    create_tree_Step :
        (u w : World) (d : Document) (r : Revision)
        → IsNew u w d r
        → Step os u (create_tree os call new sections d r w).1
    unfolding create_tree
    create_tree_Step u w d r n =
        quiet_then_step os u w _ _ n.since
          (parent_node_for_analysis-Quiet call.analysis_id new.parent_node_id)
          λ parent w₁ e₁ s₁.
            let n₁ = IsNew-later n s₁ in
            quiet_then_step os u w₁ _ _ n₁.since (document_node-Quiet call d.id parent new)
              λ node w₂ e₂ s₂.
                let n₂ = IsNew-later n₁ s₂ in
                quiet_then_step os u w₂ _ _ n₂.since (section_rows-Quiet os _ [] sections)
                  λ rows w₃ e₃ s₃. stored u w₃ d r (IsNew-later n₂ s₃) node rows.0 rows.1 _

    -- A document that was built under a UUID drawn just now, and its first revision.
    first_revision :
        (w : World) (ref digest : Text) (size : ℕ) (objects : Objects)
        → IsNew w
            (record { repository = w.repository; objects = objects; drawn = suc (suc w.drawn) })
            (new_document (os.uuid7 w.drawn) call new ref digest size)
            (record {
              id = os.uuid7 (suc w.drawn);
              document_id = os.uuid7 w.drawn;
              version = 1;
              tool_call_id = call.tool_call_id;
              operation = op_create;
              content_ref = ref;
              content_hash = digest;
              size_bytes = size;
              created_at = call.now;
            })
    unfolding replayed
    first_revision w ref digest size objects = record {
      since = record { repository = refl; drawn = omega arith };
      index = w.drawn;
      id = refl;
      low = omega arith;
      high = omega arith;
      own = refl;
      ends = refl;
      first_version = refl;
    }

    -- The draws and writes between the checks of `create` and its last call.
    create_checked_Step : (w : World) → Step os w (create_checked os call new sections w).1
    unfolding create_checked new_uuid7 store revision_payload ◌>>=◌ replayed
    create_checked_Step w = elim (Bool-cases (is_plain new sections)) [
      | inl plain ↦ rw plain (create_plain_Step w _ _ _ (first_revision w _ _ _ _))
      | inr tree ↦ rw tree (create_tree_Step w _ _ _ (first_revision w _ _ _ _))
    ]

  checked_Step :
      (call : Call) (new : NewDocument) (w : World) (sections : Result (List SectionText))
      → Step os w ((lift sections >>= create_checked os call new) w).1
  unfolding ◌>>=◌
  checked_Step call new w (ok sections) = create_checked_Step call new sections w
  checked_Step call new w (err e) = Step-idle os w w (Same-refl w)

  pub create_Step :
      (py : Builtins) (call : Call) (new : NewDocument) (w : World)
      → Step os w (create py os call new w).1
  unfolding create create_new ◌>>=◌
  create_Step py call new w =
      unless_replayed_Step os w (replay_result call.tool_call_id w) (create_new py os call new)
        (checked_Step call new w (normalize_sections py new.sections))

  folder_added :
      (u w : World) (node : Node) (result : NodeResult)
      → Same u w
      → Step os u
          ((modify (λ w. set_repository (add_folder_node node w.repository) w) >> pure result) w).1
  unfolding ◌>>=◌ add_folder_node
  folder_added u w node result h = idle (rw h.repository refl) (rw h.repository refl) h.drawn

  pub create_folder_Step :
      (call : Call) (title slug : Text) (parent : Option ℕ) (order : ℤ) (w : World)
      → Step os w (create_folder os call title slug parent order w).1
  unfolding create_folder
  create_folder_Step call title slug parent order w =
      quiet_then_step os w w _ _ (Same-refl w)
        (parent_node_for_analysis-Quiet call.analysis_id parent)
        λ found w₁ e₁ s₁. quiet_then_step os w w₁ _ _ s₁ (Quiet-lift _) λ slug_ w₂ e₂ s₂.
          quiet_then_step os w w₂ _ _ (Same-trans s₁ s₂) (new_uuid7-Quiet os)
            λ id w₃ e₃ s₃. folder_added w w₃ _ _ (Same-trans s₁ (Same-trans s₂ s₃))
