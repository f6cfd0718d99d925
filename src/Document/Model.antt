-- ===== src/Document/Model.antt =====
-- The rows, results and errors of backend/document, and the state that its service changes.
use deepdive.Base.{ℕ, Bool, true, false, Option, none, some, List, Dict}
use deepdive.Base.Int.{ℤ}
use deepdive.Text.{Text}
use deepdive.Storage.Memory.{Objects, Bytes}

-- The values of a document's "status".
pub data Status : Type 0 where
  draft finalized deleted : Status

-- The values of a revision's "operation".
pub data Operation : Type 0 where
  create update delete finalize : Operation

-- The values of a node's "node_type".
pub data NodeType : Type 0 where
  folder document : NodeType

pub record Document : Type 0 where
  pub id : ℕ
  pub analysis_id : ℕ
  pub agent_id : ℕ
  pub title : Text
  pub kind : Text
  pub status : Status
  pub current_version : ℕ
  pub content_ref : Text
  pub content_hash : Text
  pub size_bytes : ℕ
  pub created_at : ℕ
  pub updated_at : ℕ
  pub finalized_at : Option ℕ

pub record Revision : Type 0 where
  pub id : ℕ
  pub document_id : ℕ
  pub version : ℕ
  pub tool_call_id : ℕ
  pub operation : Operation
  pub content_ref : Text
  pub content_hash : Text
  pub size_bytes : ℕ
  pub created_at : ℕ

pub record Node : Type 0 where
  pub id : ℕ
  pub analysis_id : ℕ
  pub agent_id : ℕ
  pub parent_id : Option ℕ
  pub node_type : NodeType
  pub document_id : Option ℕ
  pub title : Text
  pub slug : Text
  pub path : Text
  pub focus_area : Option Text
  pub sort_order : ℤ
  pub created_at : ℕ
  pub updated_at : ℕ

pub record Section : Type 0 where
  pub id : ℕ
  pub document_id : ℕ
  pub stable_id : Text
  pub title : Text
  pub sort_order : ℤ
  pub content_ref : Text
  pub content_hash : Text
  pub size_bytes : ℕ
  pub created_at : ℕ
  pub updated_at : ℕ

pub record SectionRevision : Type 0 where
  pub id : ℕ
  pub section_id : ℕ
  pub document_id : ℕ
  pub document_revision_id : ℕ
  pub version : ℕ
  pub title : Text
  pub sort_order : ℤ
  pub content_ref : Text
  pub content_hash : Text
  pub size_bytes : ℕ
  pub created_at : ℕ

-- A section with its text, as `_normalize_sections` and `_merged_sections` hand it on.
pub record SectionText : Type 0 where
  pub stable_id : Text
  pub title : Text
  pub content : Text
  pub sort_order : ℤ

-- `DocumentRepository`
pub record Repository : Type 0 where
  pub documents : Dict Document
  pub nodes : Dict Node
  pub sections : Dict Section
  pub revisions : List Revision
  pub section_revisions : List SectionRevision

-- The codes of `DocumentToolError`, the `KeyError`s of a missing object or document, and the
-- `ValueError` of `int`.
pub data DocumentError : Type 0 where
  document_not_found document_deleted document_finalized version_conflict : DocumentError
  node_not_found invalid_tree invalid_sections : DocumentError
  missing_object missing_document not_a_number : DocumentError

pub data Result {ℓ} (A : Type ℓ) : Type ℓ where
  ok : A → Result A
  err : DocumentError → Result A

-- The repository, the object storage, and how many UUIDs were drawn.
pub record World : Type 0 where
  pub repository : Repository
  pub objects : Objects
  pub drawn : ℕ

-- What the service takes from Python's standard library: the UUIDs that `uuid.uuid7` returns, in the
-- order of the calls, the UTF-8 codec, and the hexadecimal SHA-256 digest.
pub record Platform : Type 0 where
  pub uuid7 : ℕ → ℕ
  pub encode : Text → Bytes
  pub decode : Bytes → Text
  pub sha256 : Bytes → Text

-- An action returns or raises; what was written before a raise stays written.
abbrev pub M {ℓ} : Type ℓ → Type ℓ
M A = World → Result A × World

module _ {ℓ} {A : Type ℓ} where
  unfoldable pub pure : A → M A
  pure a w = (ok a, w)

  unfoldable pub raise : DocumentError → M A
  raise e w = (err e, w)

  unfoldable pub gets : (World → A) → M A
  gets f w = (ok (f w), w)

  unfoldable pub lift : Result A → M A
  lift r w = (r, w)

unfoldable pub modify : (World → World) → M (Unit {0})
modify f w = (ok tt, f w)

-- `raise` under an `if`
unfoldable pub raise_if : Bool → DocumentError → M (Unit {0})
raise_if true e w = (err e, w)
raise_if false e w = (ok tt, w)

unfoldable pub or_raise {ℓ} : {A : Type ℓ} → Option A → DocumentError → M A
or_raise (some a) e w = (ok a, w)
or_raise none e w = (err e, w)

module _ {ℓ κ} {A : Type ℓ} {B : Type κ} where
  abbrev pub continue : Result A → (A → M B) → M B
  continue (ok a) f w = f a w
  continue (err e) f w = (err e, w)

  infixl 10 ◌>>=◌
  -- To open this is to open the actions above too.
  unfoldable pub ◌>>=◌ : M A → (A → M B) → M B
  unfolding pure raise gets lift modify raise_if or_raise
  ◌>>=◌ m f w = continue (m w).0 f (m w).1

infixl 10 ◌>>◌
abbrev pub ◌>>◌ {ℓ} : {B : Type ℓ} → M (Unit {0}) → M B → M B
m >> n = m >>= λ _. n
