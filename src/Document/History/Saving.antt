-- ===== src/Document/History/Saving.antt =====
-- How the next revision of a document is saved: `update_document_with_revision` and
-- `update_document_tree_with_revision` of backend/document/memory_repository.py as steps.
use deepdive.Base.{
  ℕ, suc, ◌+◌, ◌≡◌, refl, sym, subst, List, [], ◌∷◌, ◌++◌, Option, some, arith, lookup, insert,
}
use deepdive.Text.{Text}
use deepdive.Document.Model.{
  Status, draft, Operation, Document, Revision, Section, SectionRevision, ok, World, Platform,
  ◌>>=◌,
}
use deepdive.Document.Repository.{
  Updates, apply_updates, update_document_with_revision, update_document_tree_with_revision,
}
use deepdive.Document.Results.{replayed, status_for_revision}
use deepdive.Document.Actions.{new_uuid7, revision_payload}
use deepdive.Document.Actions.Quiet.{Same, Same-trans}
use deepdive.Document.Revise.{on_repository, updates_to}
use deepdive.Document.History.{Step, revised}

module _ (os : Platform) where
  -- What holds where the next revision `r` of the open document `d` is saved.
  pub record IsNext (u w : World) (k : ℕ) (d : Document) (up : Updates) (r : Revision)
      : Type 0 where
    pub since : Same u w
    pub found : lookup k u.repository.documents ≡ some d
    pub open_ : d.status ≡ draft
    pub current : up.expected_version ≡ d.current_version
    pub expects : up.expected_status ≡ draft
    pub next : up.current_version ≡ suc d.current_version
    pub own : r.document_id ≡ k
    pub ends : replayed (apply_updates up d) r ≡ apply_updates up d

  pub IsNext-later :
      {u v w : World} {k : ℕ} {d : Document} {up : Updates} {r : Revision}
      → IsNext u v k d up r
      → Same v w
      → IsNext u w k d up r
  IsNext-later n h = record {
    since = Same-trans n.since h;
    found = n.found;
    open_ = n.open_;
    current = n.current;
    expects = n.expects;
    next = n.next;
    own = n.own;
    ends = n.ends;
  }

  -- The save goes through.
  pub saved :
      (u w : World) (k : ℕ) (d : Document) (up : Updates) (r : Revision)
      → IsNext u w k d up r
      → update_document_with_revision k up r w.repository ≡ (
        ok (some (apply_updates up d)),
        record w.repository {
          documents = insert k (apply_updates up d) w.repository.documents;
          revisions = w.repository.revisions ++ r ∷ [];
        },
      )
  unfolding update_document_with_revision
  saved u w k d up r n =
      let here : lookup k w.repository.documents ≡ some d =
        subst (λ o. lookup k o.documents ≡ some d) (sym n.since.repository) n.found in
      ground (arith, n.open_, n.current, n.expects, here)

  pub save_plain_Step :
      (u w : World) (k : ℕ) (d : Document) (up : Updates) (r : Revision)
      → IsNext u w k d up r
      → Step os u (on_repository (update_document_with_revision k up r) w).1
  save_plain_Step u w k d up r n = rw (saved u w k d up r n) (
      revised k d (apply_updates up d) r n.found n.open_ refl refl n.next
        (rw n.since.repository refl) (rw n.since.repository refl) n.own n.ends n.since.drawn)

  pub save_tree_Step :
      (u w : World) (k : ℕ) (d : Document) (up : Updates) (r : Revision)
      → (rows : List Section) (revs : List SectionRevision) → IsNext u w k d up r
      → Step os u (on_repository (update_document_tree_with_revision k up rows r revs) w).1
  unfolding update_document_tree_with_revision
  save_tree_Step u w k d up r rows revs n = rw (saved u w k d up r n) (
      revised k d (apply_updates up d) r n.found n.open_ refl refl n.next
        (rw n.since.repository refl) (rw n.since.repository refl) n.own n.ends n.since.drawn)

  -- What `revision_payload` returns, but for the id and the time.
  pub record IsPayload (k v : ℕ) (o : Operation) (ref digest : Text) (size : ℕ) (r : Revision)
      : Type 0 where
    pub own : r.document_id ≡ k
    pub version : r.version ≡ v
    pub operation : r.operation ≡ o
    pub content_ref : r.content_ref ≡ ref
    pub content_hash : r.content_hash ≡ digest
    pub size_bytes : r.size_bytes ≡ size

  pub revision_payload-IsPayload :
      (k v t : ℕ) (o : Operation) (ref digest : Text) (size now : ℕ) (w w' : World) (r : Revision)
      → revision_payload os k v t o ref digest size now w ≡ (ok r, w')
      → IsPayload k v o ref digest size r
  unfolding revision_payload new_uuid7 ◌>>=◌
  revision_payload-IsPayload k v t o ref digest size now w w' r e = record {
    own = cc;
    version = cc;
    operation = cc;
    content_ref = cc;
    content_hash = cc;
    size_bytes = cc;
  }

  -- The next revision of an open document is what `updates_to` writes.
  pub payload-IsNext :
      (u w : World) (k v : ℕ) (d : Document) (o : Operation) (status : Status) (ref digest : Text)
      (size now : ℕ)
      → (finalized_at : Option ℕ) (r : Revision) → Same u w
      → lookup k u.repository.documents ≡ some d
      → d.status ≡ draft
      → d.current_version ≡ v
      → IsPayload k (v + 1) o ref digest size r
      → status_for_revision r ≡ status
      → IsNext u w k d (updates_to v status ref digest size now finalized_at) r
  unfolding replayed
  payload-IsNext u w k v d o status ref digest size now finalized_at r since found open_ current p
        agree =
      record {
        since = since;
        found = found;
        open_ = open_;
        current = sym current;
        expects = refl;
        next = omega arith;
        own = p.own;
        ends = rw (agree, p.version, p.content_ref, p.content_hash, p.size_bytes) refl;
      }
