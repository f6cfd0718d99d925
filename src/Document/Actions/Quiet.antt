-- ===== src/Document/Actions/Quiet.antt =====
-- The private methods of `DocumentService` in backend/document/service.py that leave the repository
-- alone: they read it, draw UUIDs and write objects.
use deepdive.Base.{
  ℕ, ◌≤◌, ◌≡◌, refl, ◌∙◌, Bool, true, false, Option, none, some, List, [], ◌∷◌, arith,
}
use deepdive.Text.{Text}
use deepdive.Storage.Memory.{Bytes}
use deepdive.Document.Model.{
  Operation, Document, Section, SectionText, Result, ok, err, World, Platform, M, DocumentError,
  continue, ◌>>=◌, modify, pure, gets, lift, or_raise, raise_if,
}
use deepdive.Document.Actions.{
  RowContext, ensure_mutable, document_for_analysis, parent_node_for_analysis, new_uuid7, store,
  load, revision_payload, section_rows, with_contents, document_result_with_related,
  related_sections, section_id_for,
}

-- The repository is the same, and no UUID is drawn twice.
pub record Same (w w' : World) : Type 0 where
  pub repository : w'.repository ≡ w.repository
  pub drawn : w.drawn ≤ w'.drawn

-- An action with no effect on the repository, whether it returns or raises.
pub record Quiet {ℓ} {A : Type ℓ} (m : M A) : Type ℓ where
  pub at : (w : World) → Same w (m w).1

pub Same-refl : (w : World) → Same w w
Same-refl w = record { repository = refl; drawn = omega arith }

pub Same-trans : {u v w : World} → Same u v → Same v w → Same u w
Same-trans h k = record { repository = k.repository ∙ h.repository; drawn = omega arith }

continue-Same {ℓ κ} :
    {A : Type ℓ} {B : Type κ} (u : World) (p : Result A × World) (f : A → M B)
    → Same u p.1
    → ((a : A) → Quiet (f a))
    → Same u (continue p.0 f p.1).1
continue-Same u (ok a, w) f h k = Same-trans h ((k a).at w)
continue-Same u (err e, w) f h k = h

pub Quiet-bind {ℓ κ} :
    {A : Type ℓ} {B : Type κ} (m : M A) (f : A → M B)
    → Quiet m
    → ((a : A) → Quiet (f a))
    → Quiet (m >>= f)
unfolding ◌>>=◌
Quiet-bind m f h k = record { at = λ w. continue-Same w (m w) f (h.at w) k }

module _ {ℓ} {A : Type ℓ} where
  pub Quiet-pure : (a : A) → Quiet (pure a)
  unfolding pure
  Quiet-pure a = record { at = λ w. Same-refl w }

  pub Quiet-gets : (f : World → A) → Quiet (gets f)
  unfolding gets
  Quiet-gets f = record { at = λ w. Same-refl w }

  pub Quiet-lift : (r : Result A) → Quiet (lift r)
  unfolding lift
  Quiet-lift r = record { at = λ w. Same-refl w }

  pub Quiet-or_raise : (o : Option A) (e : DocumentError) → Quiet (or_raise o e)
  unfolding or_raise
  Quiet-or_raise none e = record { at = λ w. Same-refl w }
  Quiet-or_raise (some a) e = record { at = λ w. Same-refl w }

pub Quiet-raise_if : (b : Bool) (e : DocumentError) → Quiet (raise_if b e)
unfolding raise_if
Quiet-raise_if true e = record { at = λ w. Same-refl w }
Quiet-raise_if false e = record { at = λ w. Same-refl w }

pub ruleset quiet_rules =
    (Quiet-bind, Quiet-pure, Quiet-gets, Quiet-lift, Quiet-or_raise, Quiet-raise_if)

pub ensure_mutable-Quiet : (d : Document) → Quiet (ensure_mutable d)
unfolding ensure_mutable
ensure_mutable-Quiet d = search quiet_rules

pub document_for_analysis-Quiet :
    (analysis_id document_id : ℕ) → Quiet (document_for_analysis analysis_id document_id)
unfolding document_for_analysis
document_for_analysis-Quiet a k = search quiet_rules depth 8

pub parent_node_for_analysis-Quiet :
    (analysis_id : ℕ) (parent : Option ℕ) → Quiet (parent_node_for_analysis analysis_id parent)
unfolding parent_node_for_analysis
parent_node_for_analysis-Quiet a none = search quiet_rules
parent_node_for_analysis-Quiet a (some k) = search quiet_rules depth 8

module _ (os : Platform) where
  pub new_uuid7-Quiet : Quiet (new_uuid7 os)
  unfolding new_uuid7
  new_uuid7-Quiet = record { at = λ w. record { repository = refl; drawn = omega arith } }

  pub store-Quiet : (key : Text) (bytes : Bytes) → Quiet (store os key bytes)
  unfolding store modify
  store-Quiet key bytes = record { at = λ w. record { repository = refl; drawn = omega arith } }

  pub load-Quiet : (ref : Text) → Quiet (load os ref)
  unfolding load
  load-Quiet ref = search quiet_rules depth 8

  pub revision_payload-Quiet :
      (k v t : ℕ) (o : Operation) (ref digest : Text) (size now : ℕ)
      → Quiet (revision_payload os k v t o ref digest size now)
  unfolding revision_payload
  revision_payload-Quiet k v t o ref digest size now = search (quiet_rules, new_uuid7-Quiet)

  section_id_for-Quiet : (existing : Option Section) → Quiet (section_id_for os existing)
  section_id_for-Quiet none = new_uuid7-Quiet
  section_id_for-Quiet (some s) = Quiet-pure s.id

  pub section_rows-Quiet :
      (ctx : RowContext) (existing : List Section) (sections : List SectionText)
      → Quiet (section_rows os ctx existing sections)
  unfolding section_rows
  section_rows-Quiet ctx existing [] = Quiet-pure _
  section_rows-Quiet ctx existing (s ∷ rest) = Quiet-bind _ _ (section_id_for-Quiet _) λ id.
      Quiet-bind _ _ (store-Quiet _ _) λ _.
        Quiet-bind _ _ new_uuid7-Quiet
          λ _. Quiet-bind _ _ (section_rows-Quiet ctx existing rest) λ _. Quiet-pure _

  pub with_contents-Quiet : (sections : List Section) → Quiet (with_contents os sections)
  unfolding with_contents
  with_contents-Quiet [] = Quiet-pure _
  with_contents-Quiet (s ∷ rest) =
      Quiet-bind _ _ (load-Quiet s.content_ref)
        λ _. Quiet-bind _ _ (with_contents-Quiet rest) λ _. Quiet-pure _

  related_sections-Quiet : (d : Document) (b : Bool) → Quiet (related_sections os d b)
  unfolding related_sections
  related_sections-Quiet d false = Quiet-pure _
  related_sections-Quiet d true = search (quiet_rules, with_contents-Quiet) depth 8

  pub document_result_with_related-Quiet :
      (d : Document) (b : Bool) → Quiet (document_result_with_related os d b)
  unfolding document_result_with_related
  document_result_with_related-Quiet d b = search (quiet_rules, related_sections-Quiet) depth 8
