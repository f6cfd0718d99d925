-- ===== src/Document/Sections/Valid.antt =====
-- What `_normalize_sections` and `_slugify` of backend/document/service.py return.
use deepdive.Base.{
  suc, ◌≤◌, ◌≡◌, ◌≢◌, refl, sym, ap, subst, true, false, Option, none, some, List, [], ◌∷◌, arith,
  length, All, sorted, length-sorted, All-sorted, InOrder, sorted-InOrder, Pairwise,
  sorted-Pairwise,
}
use deepdive.Text.{Text, codes, member, is_empty, strip}
use deepdive.Text.Lemmas.{member-cons_false, text_lt_asymm}
use deepdive.Text.Slug.{is_slug}
use deepdive.Text.Strip.{strip_idem}
use deepdive.Json.{Fields, Builtins, get, text_or_empty}
use deepdive.Document.Model.{SectionText, Result, ok, err}
use deepdive.Document.Sections.{
  sort_order_of, check_section, check_sections, text_before, normalize_sections, bind_result,
}

pub record IsSection (s : SectionText) : Type 0 where
  pub slug : is_slug 95 s.stable_id ≡ true
  pub titled : is_empty s.title ≡ false
  pub short_title : length s.title ≤ 200
  pub stripped : strip s.title ≡ s.title

abbrev pub DistinctIds : List SectionText → Type 0
DistinctIds sections = Pairwise (λ a b. a.stable_id ≢ b.stable_id) sections

pub record IsSectionList (sections : List SectionText) : Type 0 where
  pub few : length sections ≤ 20
  pub valid : All IsSection sections
  pub distinct : DistinctIds sections
  pub in_order : InOrder text_before sections

bind_result-ok {ℓ κ} :
    {A : Type ℓ} {B : Type κ} (r : Result A) (f : A → Result B) {b : B}
    → bind_result r f ≡ ok b
    → (a : A) × (r ≡ ok a) × (f a ≡ ok b)
bind_result-ok (ok a) f h = (a, refl, h)
bind_result-ok (err e) f h = cc

ok-injective {ℓ} : {A : Type ℓ} {a b : A} → ok a ≡ ok b → a ≡ b
ok-injective h = cc

check_section-IsSection :
    (py : Builtins) (seen : List Text) (raw : Fields) {s : SectionText}
    → check_section py seen raw ≡ ok s
    → IsSection s × (member s.stable_id seen ≡ false)
unfolding check_section
check_section-IsSection py seen raw h =
    let (order, h', h'') = bind_result-ok (sort_order_of py (get (codes "sort_order") raw)) _ h in
    ground (arith, strip_idem (text_or_empty py (get (codes "title") raw)))

split_seen :
    (id : Text) (seen : List Text) (xs : List SectionText)
    → All (λ s. member s.stable_id (id ∷ seen) ≡ false) xs
    → All (λ s. id ≢ s.stable_id) xs × All (λ s. member s.stable_id seen ≡ false) xs
split_seen id seen [] h = (tt, tt)
split_seen id seen (x ∷ xs) h =
    let (others, unseen) = split_seen id seen xs h.1 in
    let (apart, fresh) = member-cons_false x.stable_id id seen h.0 in
    ((apart, others), (fresh, unseen))

abbrev Checked : List Text → List SectionText → Type 0
Checked seen sections =
    All IsSection sections
    × All (λ s. member s.stable_id seen ≡ false) sections
    × DistinctIds sections

check_sections-Checked :
    (py : Builtins) (seen : List Text) (raws : List Fields) (sections : List SectionText)
    → check_sections py seen raws ≡ ok sections
    → Checked seen sections × (length sections ≡ length raws)
unfolding check_sections
check_sections-Checked py seen [] sections h =
    subst (λ out. Checked seen out × (length out ≡ 0)) (ok-injective h) ((tt, tt, tt), refl)
check_sections-Checked py seen (raw ∷ rest) sections h =
    let (s, first, h') = bind_result-ok (check_section py seen raw) _ h in
    let (others, checked, h'') =
      bind_result-ok (check_sections py (s.stable_id ∷ seen) rest) _ h' in
    let (valid, fresh) = check_section-IsSection py seen raw first in
    let ((valids, unseen, distinct), n) =
      check_sections-Checked py (s.stable_id ∷ seen) rest others checked in
    let (apart, unseen') = split_seen s.stable_id seen others unseen in
    subst (λ out. Checked seen out × (length out ≡ suc (length rest))) (ok-injective h'')
      (((valid, valids), (fresh, unseen'), (apart, distinct)), ap suc n)

text_before_asymm : (a b : SectionText) → text_before a b ≡ true → text_before b a ≡ false
text_before_asymm a b h = ground (arith, text_lt_asymm a.stable_id b.stable_id)

sorted_sections :
    (raws : List Fields) (sections : List SectionText)
    → length raws ≤ 20
    → (length sections ≡ length raws)
    → Checked [] sections
    → IsSectionList (sorted text_before sections)
sorted_sections raws sections few n (valid, unseen, distinct) = record {
  few = omega (arith, length-sorted text_before sections);
  valid = All-sorted text_before IsSection sections valid;
  distinct =
      sorted-Pairwise text_before (λ a b. a.stable_id ≢ b.stable_id) (λ a b ne e. ne (sym e))
        sections distinct;
  in_order = sorted-InOrder text_before text_before_asymm sections;
}

checked_sections :
    (py : Builtins) (raws : List Fields) (sections : List SectionText)
    → length raws ≤ 20
    → bind_result (check_sections py [] raws) (λ checked. ok (sorted text_before checked))
      ≡ ok sections
    → IsSectionList sections
checked_sections py raws sections few h =
    let (checked, e, h') = bind_result-ok (check_sections py [] raws) _ h in
    let (c, n) = check_sections-Checked py [] raws checked e in
    subst IsSectionList (ok-injective h') (sorted_sections raws checked few n c)

no_sections : IsSectionList []
no_sections = record { few = omega arith; valid = tt; distinct = tt; in_order = tt }

-- Whatever is sent, the sections that `_normalize_sections` returns are at most 20, with distinct
-- slugs, stripped titles of 1 to 200 characters, and in the order of their "sort_order" and slug.
pub normalize_sections-IsSectionList :
    (py : Builtins) (value : Option (List Fields)) (sections : List SectionText)
    → normalize_sections py value ≡ ok sections
    → IsSectionList sections
unfolding normalize_sections
normalize_sections-IsSectionList py none sections h =
    subst IsSectionList (ok-injective h) no_sections
normalize_sections-IsSectionList py (some []) sections h =
    subst IsSectionList (ok-injective h) no_sections
normalize_sections-IsSectionList py (some (raw ∷ rest)) sections h =
    ground (arith, checked_sections py (raw ∷ rest) sections)
