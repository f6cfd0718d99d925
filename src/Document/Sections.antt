-- ===== src/Document/Sections.antt =====
-- The module functions of backend/document/service.py on sections, slugs and rendered text.
pub mod Valid
use deepdive.Base.{
  ℕ, Bool, true, false, not, ◌&&◌, ◌||◌, Option, none, some, List, [], ◌∷◌, ◌++◌, ltb, ◌==◌,
  if◌then◌else◌, length, sorted,
}
use deepdive.Base.Int.{ℤ, pos, ltb_ℤ, eq_ℤ}
use deepdive.Text.{
  Text, codes, text_eq, text_lt, member, strip, strip_by, rstrip, lower, join, is_empty,
}
use deepdive.Text.Slug.{is_alnum, is_slug}
use deepdive.Json.{Json, Fields, Builtins, get, truthy, text_or_empty}
use deepdive.Document.Model.{
  Node, SectionText, Result, ok, err, invalid_sections, invalid_tree, not_a_number,
}

abbrev bind_result {ℓ κ} : {A : Type ℓ} {B : Type κ} → Result A → (A → Result B) → Result B
bind_result (ok a) f = f a
bind_result (err e) f = err e

-- `int(raw_section.get("sort_order") or 0)`
unfoldable pub sort_order_of : Builtins → Json → Result ℤ
unfolding truthy
sort_order_of py v =
    if truthy v
    then (elim (py.to_int v) [ none ↦ err not_a_number | some n ↦ ok n ])
    else ok (pos 0)

-- The body of the loop in `_normalize_sections`.
unfoldable pub check_section : Builtins → List Text → Fields → Result SectionText
unfolding text_or_empty sort_order_of
check_section py seen raw =
    let stable_id = strip (text_or_empty py (get (codes "stable_id") raw)) in
    let title = strip (text_or_empty py (get (codes "title") raw)) in
    let content = text_or_empty py (get (codes "content") raw) in
    bind_result (sort_order_of py (get (codes "sort_order") raw)) λ sort_order.
      if not (is_slug 95 stable_id)
      then err invalid_sections
      else if member stable_id seen
      then err invalid_sections
      else if is_empty title || ltb 200 (length title)
      then err invalid_sections
      else ok (record {
        stable_id = stable_id;
        title = title;
        content = content;
        sort_order = sort_order;
      })

unfoldable pub check_sections : Builtins → List Text → List Fields → Result (List SectionText)
check_sections py seen [] = ok []
check_sections py seen (raw ∷ rest) = bind_result (check_section py seen raw) λ section.
    bind_result (check_sections py (section.stable_id ∷ seen) rest)
      λ sections. ok (section ∷ sections)

-- The order of sections: (sort_order, stable_id).
abbrev pub text_before : SectionText → SectionText → Bool
text_before a b =
    ltb_ℤ a.sort_order b.sort_order
    || (eq_ℤ a.sort_order b.sort_order && text_lt a.stable_id b.stable_id)

-- `_normalize_sections`
unfoldable pub normalize_sections : Builtins → Option (List Fields) → Result (List SectionText)
unfolding check_sections
normalize_sections py none = ok []
normalize_sections py (some []) = ok []
normalize_sections py (some (raw ∷ rest)) =
    if ltb 20 (length (raw ∷ rest))
    then err invalid_sections
    else bind_result (check_sections py [] (raw ∷ rest))
        λ sections. ok (sorted text_before sections)

-- `_normalize_slug`
unfoldable pub normalize_slug : Text → Result Text
normalize_slug value =
    let slug = lower (strip value) in if not (is_slug 95 slug) then err invalid_tree else ok slug

-- `re.sub(r"[^a-z0-9]+", "-", s)`; the flag tells that the character before was replaced.
unfoldable pub dash_runs : Bool → Text → Text
dash_runs in_run [] = []
dash_runs in_run (c ∷ s) =
    let kept = c ∷ dash_runs false s in
    let dashed = (let rest = dash_runs true s in if in_run then rest else b'-' ∷ rest) in
    if is_alnum c then kept else dashed

-- `_slugify`
unfoldable pub slugify : Text → Text
slugify value =
    let slug = strip_by (λ c. c == b'-') (dash_runs false (lower value)) in
    if is_empty slug then codes "document" else slug

-- `_node_path`
unfoldable pub node_path : Option Node → Text → Text
node_path none slug = slug
node_path (some parent) slug = parent.path ++ (b'/' ∷ slug)

-- The lines that one section adds.
abbrev pub section_lines : SectionText → List Text
section_lines s = (codes "## " ++ s.title) ∷ [] ∷ s.content ∷ [] ∷ []

abbrev pub all_section_lines : List SectionText → List Text
all_section_lines [] = []
all_section_lines (s ∷ rest) = section_lines s ++ all_section_lines rest

-- `_render_document_content` with sections.
unfoldable pub render_sections : Text → List SectionText → Text
render_sections title sections =
    rstrip (join (b'\n' ∷ []) ((codes "# " ++ title) ∷ [] ∷ all_section_lines sections))
    ++ codes "\n"

-- `_render_document_content` where `content` is a text, as it is at both calls: the fallback to the
-- stored content, for `content` of `None`, is never taken.
unfoldable pub render_document_content : Text → Text → List SectionText → Text
unfolding render_sections
render_document_content title content [] = content
render_document_content title content (s ∷ rest) = render_sections title (s ∷ rest)

-- `merged[stable_id] = section`
unfoldable pub merge_section : SectionText → List SectionText → List SectionText
merge_section s [] = s ∷ []
merge_section s (t ∷ rest) =
    if text_eq t.stable_id s.stable_id then s ∷ rest else t ∷ merge_section s rest

abbrev pub merge_all : List SectionText → List SectionText → List SectionText
merge_all [] merged = merged
merge_all (s ∷ rest) merged = merge_all rest (merge_section s merged)

-- `_merged_sections`
unfoldable pub merged_sections : List SectionText → List SectionText → List SectionText
unfolding merge_section
merged_sections existing updates = sorted text_before (merge_all updates (merge_all existing []))
