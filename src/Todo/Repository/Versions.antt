-- ===== src/Todo/Repository/Versions.antt =====
-- The versions that `TodoRepository.add_todo_list` of backend/todo/memory_repository.py gives out.
use mathlib.Core.List.{append-nil}
use native.Mathlib.Decide.{ℕ_discrete}
use deepdive.Base.{
  ℕ, suc, ◌+◌, ◌≤◌, ◌≡◌, ◌≢◌, refl, sym, ap, ◌∙◌, Option, none, some, List, [], ◌∷◌, ◌++◌, arith,
  ◌==◌, if◌then◌else◌, keep-append, length, Option-cases, inl, inr, ==_iff, ==_refl,
  find-append_one,
}
use deepdive.Text.{Text}
use deepdive.Todo.Service.{TodoItem}
use deepdive.Todo.Repository.{
  TodoRow, TodoLists, TodoCall, todo_result, max_version, max_row, rows_of, new_row, find_call,
  add_todo_list, latest_todo_list, pick_latest,
}

-- The versions of the rows are n + 1, n + 2, and so on.
abbrev pub CountsUp : ℕ → List TodoRow → Type 0
CountsUp n [] = Unit
CountsUp n (row ∷ rows) = (row.version ≡ suc n) × CountsUp (suc n) rows

-- The lists of every agent are numbered 1, 2, 3, ... in the order in which they were added.
pub record IsNumbered (lists : TodoLists) : Type 0 where
  pub of_agent : (agent : ℕ) → CountsUp 0 (rows_of agent lists)

max_version-CountsUp :
    (n : ℕ) (rows : List TodoRow) → CountsUp n rows → max_version n rows ≡ n + length rows
unfolding max_version
max_version-CountsUp n [] h = omega arith
max_version-CountsUp n (row ∷ rows) h = ground (arith, max_version-CountsUp (suc n) rows h.1)

CountsUp-append_one :
    (n : ℕ) (rows : List TodoRow) (row : TodoRow)
    → CountsUp n rows
    → row.version ≡ suc (n + length rows)
    → CountsUp n (rows ++ row ∷ [])
CountsUp-append_one n [] row h e = (omega arith, tt)
CountsUp-append_one n (x ∷ rows) row h e =
    (h.0, CountsUp-append_one (suc n) rows row h.1 (omega arith))

max_row-append_one :
    (n : ℕ) (best : TodoRow) (rows : List TodoRow) (row : TodoRow)
    → best.version ≤ n
    → CountsUp n rows
    → n + length rows + 1 ≤ row.version
    → max_row best (rows ++ row ∷ []) ≡ row
unfolding max_row
max_row-append_one n best [] row b h e = ground arith
max_row-append_one n best (x ∷ rows) row b h e =
    ground (arith, max_row-append_one (suc n) x rows row (omega arith) h.1 (omega arith))

-- The rows of an agent after one more row.
rows_of-append_one :
    (agent : ℕ) (lists : TodoLists) (row : TodoRow)
    → rows_of agent (lists ++ row ∷ [])
      ≡ rows_of agent lists ++ (if row.agent_id == agent then row ∷ [] else [])
rows_of-append_one agent lists row = keep-append (λ r. r.agent_id == agent) lists (row ∷ [])

rows_of_own :
    (agent : ℕ) (lists : TodoLists) (row : TodoRow)
    → row.agent_id ≡ agent
    → rows_of agent (lists ++ row ∷ []) ≡ rows_of agent lists ++ row ∷ []
rows_of_own agent lists row e =
    rows_of-append_one agent lists row ∙ rw ((==_iff row.agent_id agent).1 e)

rows_of_other :
    (agent : ℕ) (lists : TodoLists) (row : TodoRow)
    → row.agent_id ≢ agent
    → rows_of agent (lists ++ row ∷ []) ≡ rows_of agent lists
rows_of_other agent lists row ne =
    rows_of-append_one agent lists row ∙ ground (arith, append-nil (rows_of agent lists))

pick_latest-append_one :
    (rows : List TodoRow) (row : TodoRow)
    → CountsUp 0 rows
    → row.version ≡ suc (length rows)
    → pick_latest (rows ++ row ∷ []) ≡ some (todo_result row)
unfolding max_row
pick_latest-append_one [] row h e = refl
pick_latest-append_one (x ∷ rows) row h e =
    ap (λ r. some (todo_result r)) (max_row-append_one 1 x rows row (omega arith) h.1 (omega arith))

module _ (call : TodoCall) (items : List TodoItem) (note : Option Text) (lists : TodoLists) where
  add_new :
      find_call call.tool_call_id lists ≡ none
      → add_todo_list call items note lists
        ≡ (todo_result (new_row call items note lists), lists ++ new_row call items note lists ∷ [])
  unfolding add_todo_list
  add_new e = ground arith

  add_replay :
      (row : TodoRow)
      → find_call call.tool_call_id lists ≡ some row
      → add_todo_list call items note lists ≡ (todo_result row, lists)
  unfolding add_todo_list
  add_replay row e = ground arith

  new_row-version :
      IsNumbered lists
      → (new_row call items note lists).version ≡ suc (length (rows_of call.agent_id lists))
  new_row-version h =
      omega (arith, max_version-CountsUp 0 (rows_of call.agent_id lists) (h.of_agent call.agent_id))

  own_version :
      IsNumbered lists
      → (agent : ℕ) → call.agent_id ≡ agent
      → (new_row call items note lists).version ≡ suc (0 + length (rows_of agent lists))
  own_version h agent e = rw (← e) (omega (arith, new_row-version h))

  append_of_agent :
      IsNumbered lists
      → (agent : ℕ) → CountsUp 0 (rows_of agent (lists ++ new_row call items note lists ∷ []))
  append_of_agent h agent = elim (ℕ_discrete call.agent_id agent) [
    | yes e ↦ rw (rows_of_own agent lists (new_row call items note lists) e) (
        CountsUp-append_one 0 (rows_of agent lists) (new_row call items note lists)
          (h.of_agent agent) (own_version h agent e))
    | no ne ↦ rw (rows_of_other agent lists (new_row call items note lists) ne) (h.of_agent agent)
  ]

  -- Adding a list keeps every agent's versions consecutive, whether the call is new or a replay.
  pub add_todo_list-IsNumbered :
      IsNumbered lists → IsNumbered (add_todo_list call items note lists).1
  add_todo_list-IsNumbered h = elim (Option-cases (find_call call.tool_call_id lists)) [
    | inl new ↦ rw (add_new new) (record { of_agent = append_of_agent h })
    | inr (row, old) ↦ rw (add_replay row old) h
  ]

  -- A new call becomes its agent's latest list, one version after the number of lists before it,
  -- and leaves the latest list of any other agent alone.
  pub latest_todo_list-add :
      IsNumbered lists
      → find_call call.tool_call_id lists ≡ none
      → (other : ℕ) → other ≢ call.agent_id
      → let (result, lists') = add_todo_list call items note lists in
        (latest_todo_list call.agent_id lists' ≡ some result)
        × (result.version ≡ suc (length (rows_of call.agent_id lists)))
        × (result.items ≡ items)
        × (latest_todo_list other lists' ≡ latest_todo_list other lists)
  latest_todo_list-add h new other ne = rw (add_new new) (
      unfold latest_todo_list todo_result in
      (
        rw (rows_of_own call.agent_id lists (new_row call items note lists) refl) (
            pick_latest-append_one (rows_of call.agent_id lists) (new_row call items note lists)
              (h.of_agent call.agent_id) (new_row-version h)),
        new_row-version h,
        refl,
        rw (rows_of_other other lists (new_row call items note lists) (λ e. ne (sym e))) refl,
      ))

-- A tool call that was recorded is not recorded again: a second delivery of it, whatever it
-- carries, returns the result of the first and changes nothing.
pub add_todo_list_twice :
    (call call' : TodoCall) (items items' : List TodoItem) (note note' : Option Text)
    → (lists : TodoLists) → call'.tool_call_id ≡ call.tool_call_id
    → let (result, lists') = add_todo_list call items note lists in
      add_todo_list call' items' note' lists' ≡ (result, lists')
add_todo_list_twice call call' items items' note note' lists same =
    elim (Option-cases (find_call call.tool_call_id lists)) [
      | inl new ↦ rw (add_new call items note lists new) (
          add_replay call' items' note' (lists ++ new_row call items note lists ∷ [])
            (new_row call items note lists)
            (rw same (
              find-append_one (λ row. row.tool_call_id == call.tool_call_id) lists
                (new_row call items note lists) new (==_refl call.tool_call_id))))
      | inr (row, old) ↦
          rw (add_replay call items note lists row old)
            (add_replay call' items' note' lists row (rw same old))
    ]
