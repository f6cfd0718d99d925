-- ===== src/Todo/Repository.antt =====
-- backend/todo/memory_repository.py, and `TodoService` of backend/todo/service.py over it.
pub mod Versions
use deepdive.Base.{
  ℕ, ◌+◌, Option, none, some, List, [], ◌∷◌, ◌++◌, ltb, ◌==◌, if◌then◌else◌, keep, find,
}
use deepdive.Text.{Text}
use deepdive.Json.{Json, Builtins}
use deepdive.Todo.Service.{
  TodoItem, TodoToolError, Result, ok, err, normalize_todo_items, normalize_note,
}

pub record TodoRow : Type 0 where
  pub id : ℕ
  pub analysis_id : ℕ
  pub agent_id : ℕ
  pub turn_id : Option ℕ
  pub tool_call_id : ℕ
  pub version : ℕ
  pub items_json : List TodoItem
  pub note : Option Text
  pub created_at : ℕ

-- `TodoRepository.lists`
abbrev pub TodoLists : Type 0
TodoLists = List TodoRow

pub record TodoResult : Type 0 where
  pub version : ℕ
  pub items : List TodoItem
  pub note : Option Text

-- `_todo_result`
unfoldable pub todo_result : TodoRow → TodoResult
todo_result row = record { version = row.version; items = row.items_json; note = row.note }

-- `max((row["version"] for row in rows), default=0)`
unfoldable pub max_version : ℕ → List TodoRow → ℕ
max_version best [] = best
max_version best (row ∷ rows) =
    max_version (if ltb best row.version then row.version else best) rows

-- The arguments of `add_todo_list`; `id` is the value of `new_uuid7()` and `created_at` the clock's.
pub record TodoCall : Type 0 where
  pub id : ℕ
  pub analysis_id : ℕ
  pub agent_id : ℕ
  pub turn_id : Option ℕ
  pub tool_call_id : ℕ
  pub created_at : ℕ

abbrev pub rows_of : ℕ → TodoLists → List TodoRow
rows_of agent lists = keep (λ row. row.agent_id == agent) lists

abbrev pub new_row : TodoCall → List TodoItem → Option Text → TodoLists → TodoRow
new_row call items note lists = record {
  id = call.id;
  analysis_id = call.analysis_id;
  agent_id = call.agent_id;
  turn_id = call.turn_id;
  tool_call_id = call.tool_call_id;
  version = max_version 0 (rows_of call.agent_id lists) + 1;
  items_json = items;
  note = note;
  created_at = call.created_at;
}

abbrev pub find_call : ℕ → TodoLists → Option TodoRow
find_call tool_call lists = find (λ row. row.tool_call_id == tool_call) lists

unfoldable pub add_todo_list :
    TodoCall → List TodoItem → Option Text → TodoLists → TodoResult × TodoLists
unfolding todo_result max_version
add_todo_list call items note lists = elim (find_call call.tool_call_id lists) [
  | some replay ↦ (todo_result replay, lists)
  | none ↦ let row = new_row call items note lists in (todo_result row, lists ++ row ∷ [])
]

-- `max(rows, key=version)`: the first row of the highest version
unfoldable pub max_row : TodoRow → List TodoRow → TodoRow
max_row best [] = best
max_row best (row ∷ rows) = max_row (if ltb best.version row.version then row else best) rows

abbrev pick_latest : List TodoRow → Option TodoResult
pick_latest [] = none
pick_latest (row ∷ rows) = some (todo_result (max_row row rows))

unfoldable pub latest_todo_list : ℕ → TodoLists → Option TodoResult
unfolding todo_result max_row
latest_todo_list agent lists = pick_latest (rows_of agent lists)

abbrev and_then {ℓ κ} : {A : Type ℓ} {B : Type κ} → Result A → (A → B) → (TodoToolError → B) → B
and_then (ok a) f g = f a
and_then (err e) f g = g e

-- `TodoService.update`: both checks run before the repository is called.
unfoldable pub update :
    Builtins → TodoCall → Json → Json → TodoLists → Result TodoResult × TodoLists
unfolding add_todo_list
update py call items note lists =
    and_then (normalize_todo_items py items)
      (λ normalized.
        and_then (normalize_note py note)
          (λ normalized_note.
            let (result, lists') = add_todo_list call normalized normalized_note lists in
            (ok result, lists'))
          (λ e. (err e, lists)))
      (λ e. (err e, lists))
