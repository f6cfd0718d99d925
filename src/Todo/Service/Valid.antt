-- ===== src/Todo/Service/Valid.antt =====
-- What `normalize_todo_items` of backend/todo/service.py lets through.
use deepdive.Base.{
  ◌≤◌, ◌≡◌, ◌⊎◌, refl, sym, ap, subst, true, false, List, [], ◌∷◌, map, arith, length, count_if,
  All, suc,
}
use deepdive.Text.{Text, codes, member, is_empty, strip, text_eq}
use deepdive.Text.Strip.{strip_idem}
use deepdive.Text.Slug.{is_slug}
use deepdive.Json.{
  Json, Items, Fields, Builtins, str, arr, obj, nil, cons, end, field, from_list, get,
  text_or_empty,
}
use deepdive.Todo.Service.{
  TodoItem, ok, completed, in_progress, todo_statuses, has_status, check_item, check_items,
  check_progress, normalize_todo_items, count_items, ◌>>=◌, both_ok, ok-injective,
}

pub record IsItem (item : TodoItem) : Type 0 where
  pub slug : is_slug 63 item.id ≡ true
  pub titled : is_empty item.title ≡ false
  pub short_title : length item.title ≤ 80
  pub stripped : (strip item.id ≡ item.id) × (strip item.title ≡ item.title)
  pub stripped_status : strip item.status ≡ item.status
  pub known_status : member item.status todo_statuses ≡ true

-- No id is in `seen`, and none is there twice.
abbrev pub IsFresh : List Text → List TodoItem → Type 0
IsFresh seen [] = Unit
IsFresh seen (item ∷ items) = (member item.id seen ≡ false) × IsFresh (item.id ∷ seen) items

pub record IsPlan (items : List TodoItem) : Type 0 where
  pub some_items : 1 ≤ length items
  pub few_items : length items ≤ 8
  pub items_valid : All IsItem items
  pub ids_distinct : IsFresh [] items
  pub progress :
      (count_if (has_status completed) items ≡ length items)
      ⊎ (count_if (has_status in_progress) items ≡ 1)

check_item-IsItem :
    (py : Builtins) (seen : List Text) (raw : Fields) {item : TodoItem}
    → check_item py seen raw ≡ ok item
    → IsItem item × (member item.id seen ≡ false)
unfolding check_item
check_item-IsItem py seen raw h = ground (
  arith,
  strip_idem (text_or_empty py (get (codes "id") raw)),
  strip_idem (text_or_empty py (get (codes "title") raw)),
  strip_idem (text_or_empty py (get (codes "status") raw)),
)

-- What the loop returns: as many items as it read, each valid, with fresh ids.
abbrev Checked : List Text → Items → List TodoItem → Type 0
Checked seen raws items = All IsItem items × IsFresh seen items × (length items ≡ count_items raws)

check_items-Checked :
    (py : Builtins) (seen : List Text) (raws : Items) (items : List TodoItem)
    → check_items py seen raws ≡ ok items
    → Checked seen raws items
unfolding check_items
check_items-Checked py seen nil items h = subst (Checked seen nil) (ok-injective h) (tt, tt, refl)
check_items-Checked py seen (cons (obj raw) rest) items h =
    let (item, first, h') = both_ok (check_item py seen raw) _ h in
    let (items', others, h'') = both_ok (check_items py (item.id ∷ seen) rest) _ h' in
    let (valid, fresh) = check_item-IsItem py seen raw first in
    let (valids, freshes, n) = check_items-Checked py (item.id ∷ seen) rest items' others in
    subst (Checked seen (cons (obj raw) rest)) (ok-injective h'')
      ((valid, valids), (fresh, freshes), ap suc n)
check_items-Checked py seen (cons raw rest) items h = cc

check_progress_lem :
    (items : List TodoItem) {out : List TodoItem}
    → check_progress items ≡ ok out
    → (out ≡ items)
      × ((count_if (has_status completed) items ≡ length items)
          ⊎ (count_if (has_status in_progress) items ≡ 1))
unfolding check_progress
check_progress_lem items h = ground arith

IsPlan-of_checks :
    (py : Builtins) (x : Json) (xs : Items) (items : List TodoItem)
    → suc (count_items xs) ≤ 8
    → (check_items py [] (cons x xs) >>= check_progress) ≡ ok items
    → IsPlan items
IsPlan-of_checks py x xs items few h =
    let (items', checked, h') = both_ok (check_items py [] (cons x xs)) check_progress h in
    let (same, progress) = check_progress_lem items' h' in
    let (valid, fresh, n) = check_items-Checked py [] (cons x xs) items' checked in
    subst IsPlan (sym same) (record {
      some_items = omega arith;
      few_items = omega arith;
      items_valid = valid;
      ids_distinct = fresh;
      progress = progress;
    })

-- Whatever is sent, what `normalize_todo_items` accepts is a plan: 1 to 8 items with distinct slugs,
-- stripped titles of 1 to 80 characters and known statuses, of which exactly one is in progress
-- unless all are completed.
pub normalize_todo_items-IsPlan :
    (py : Builtins) (value : Json) (items : List TodoItem)
    → normalize_todo_items py value ≡ ok items
    → IsPlan items
unfolding normalize_todo_items
normalize_todo_items-IsPlan py (arr (cons x xs)) items h =
    ground (arith, IsPlan-of_checks py x xs items)
normalize_todo_items-IsPlan py value items h = cc

-- The JSON value of a list of items, as the tool result carries it.
abbrev item_fields : TodoItem → Fields
item_fields item =
    field (codes "id") (str item.id)
      (field (codes "title") (str item.title) (field (codes "status") (str item.status) end))

abbrev pub item_json : TodoItem → Json
item_json item = obj (item_fields item)

abbrev pub plan_json : List TodoItem → Json
plan_json items = arr (from_list (map item_json items))

text_or_empty-str : (py : Builtins) (s : Text) → text_or_empty py (str s) ≡ s
unfolding text_or_empty
text_or_empty-str py [] = refl
text_or_empty-str py (c ∷ s) = refl

check_item_of_IsItem :
    (py : Builtins) (seen : List Text) (item : TodoItem)
    → IsItem item
    → member item.id seen ≡ false
    → check_item py seen (item_fields item) ≡ ok item
check_item_of_IsItem py seen item v fresh =
    let e = text_or_empty-str py in
    unfold check_item get text_eq in
    rw (e item.id, e item.title, e item.status, v.stripped.0, v.stripped.1, v.stripped_status)
      (ground arith)

check_items_of_IsFresh :
    (py : Builtins) (seen : List Text) (items : List TodoItem)
    → All IsItem items
    → IsFresh seen items
    → check_items py seen (from_list (map item_json items)) ≡ ok items
unfolding check_items
check_items_of_IsFresh py seen [] v f = refl
check_items_of_IsFresh py seen (item ∷ items) v f = rw (
  check_item_of_IsItem py seen item v.0 f.0,
  check_items_of_IsFresh py (item.id ∷ seen) items v.1 f.1,
)

count_items_of_plan :
    (items : List TodoItem) → count_items (from_list (map item_json items)) ≡ length items
count_items_of_plan [] = refl
count_items_of_plan (x ∷ items) = ap suc (count_items_of_plan items)

-- A valid plan, sent back as JSON, is accepted and comes back unchanged.
pub normalize_todo_items-plan_json :
    (py : Builtins) (items : List TodoItem)
    → IsPlan items
    → normalize_todo_items py (plan_json items) ≡ ok items
unfolding normalize_todo_items
normalize_todo_items-plan_json py [] plan = absurd (omega (arith, plan.some_items))
normalize_todo_items-plan_json py (item ∷ items) plan =
    rw (check_items_of_IsFresh py [] (item ∷ items) plan.items_valid plan.ids_distinct)
      (unfold check_progress in ground (arith, count_items_of_plan items, plan.few_items))
