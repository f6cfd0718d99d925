-- ===== src/Todo/Service.antt =====
-- backend/todo/service.py: the checks on a TODO list and its note.
pub mod Valid
use deepdive.Base.{
  ℕ, suc, ◌≡◌, refl, Bool, true, false, not, ◌&&◌, ◌||◌, Option, none, some, List, [], ◌∷◌, ltb,
  ◌==◌, if◌then◌else◌, length, count_if,
}
use deepdive.Text.{Text, codes, text_eq, member, strip, is_empty}
use deepdive.Text.Slug.{is_slug}
use deepdive.Json.{
  Json, Items, Fields, Builtins, null, arr, obj, nil, cons, get, text_or_empty, to_text,
}

-- The messages of the error INVALID_TODO_STATE.
pub data TodoToolError : Type 0 where
  not_an_array no_items too_many_items not_an_object bad_id duplicate_id bad_title bad_status :
      TodoToolError
  bad_progress long_note : TodoToolError

pub data Result {ℓ} (A : Type ℓ) : Type ℓ where
  ok : A → Result A
  err : TodoToolError → Result A

infixl 5 ◌>>=◌
abbrev pub ◌>>=◌ {ℓ κ} : {A : Type ℓ} {B : Type κ} → Result A → (A → Result B) → Result B
err e >>= next = err e
ok value >>= next = next value

-- Where a chain of checks passes, so does each check in it.
pub both_ok {ℓ κ} :
    {A : Type ℓ} {B : Type κ} (first : Result A) (next : A → Result B) {last : B}
    → (first >>= next) ≡ ok last
    → (value : A) × (first ≡ ok value) × (next value ≡ ok last)
both_ok (err e) next h = cc
both_ok (ok value) next h = (value, refl, h)

pub ok-injective {ℓ} : {A : Type ℓ} {a b : A} → ok a ≡ ok b → a ≡ b
ok-injective h = cc

pub record TodoItem : Type 0 where
  pub id : Text
  pub title : Text
  pub status : Text

abbrev pub pending : Text
pending = codes "pending"

abbrev pub in_progress : Text
in_progress = codes "in_progress"

abbrev pub completed : Text
completed = codes "completed"

-- TODO_STATUSES
abbrev pub todo_statuses : List Text
todo_statuses = pending ∷ in_progress ∷ completed ∷ []

-- The body of the loop for an object, up to `seen_ids.add`.
unfoldable pub check_item : Builtins → List Text → Fields → Result TodoItem
unfolding text_or_empty
check_item py seen raw =
    let item_id = strip (text_or_empty py (get (codes "id") raw)) in
    let title = strip (text_or_empty py (get (codes "title") raw)) in
    let status = strip (text_or_empty py (get (codes "status") raw)) in
    if not (is_slug 63 item_id)
    then err bad_id
    else if member item_id seen
    then err duplicate_id
    else if is_empty title || ltb 80 (length title)
    then err bad_title
    else if not (member status todo_statuses)
    then err bad_status
    else ok (record { id = item_id; title = title; status = status })

-- The loop over the raw items, with the ids that were seen.
unfoldable pub check_items : Builtins → List Text → Items → Result (List TodoItem)
check_items py seen nil = ok []
check_items py seen (cons (obj raw) rest) = do
  item ← check_item py seen raw
  items ← check_items py (item.id ∷ seen) rest
  ok (item ∷ items)
check_items py seen (cons raw rest) = err not_an_object

abbrev pub has_status : Text → TodoItem → Bool
has_status s item = text_eq item.status s

-- The test on the counts that ends the function.
unfoldable pub check_progress : List TodoItem → Result (List TodoItem)
check_progress items =
    if count_if (has_status completed) items == length items
    then ok items
    else if not (count_if (has_status in_progress) items == 1)
    then err bad_progress
    else ok items

abbrev count_items : Items → ℕ
count_items nil = 0
count_items (cons x xs) = suc (count_items xs)

unfoldable pub normalize_todo_items : Builtins → Json → Result (List TodoItem)
unfolding check_items check_progress
normalize_todo_items py (arr nil) = err no_items
normalize_todo_items py (arr (cons x xs)) =
    if ltb 8 (suc (count_items xs))
    then err too_many_items
    else do items ← check_items py [] (cons x xs); check_progress items
normalize_todo_items py v = err not_an_array

-- A note that is not `None`.
unfoldable pub check_note : Text → Result (Option Text)
check_note note =
    if is_empty note
    then ok none
    else if ltb 500 (length note)
    then err long_note
    else ok (some note)

unfoldable pub normalize_note : Builtins → Json → Result (Option Text)
unfolding check_note to_text
normalize_note py null = ok none
normalize_note py v = check_note (strip (to_text py v))
