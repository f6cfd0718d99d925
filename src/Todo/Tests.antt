-- ===== src/Todo/Tests.antt =====
-- Runs of the TODO service on small inputs.
use deepdive.Base.{ℕ, ◌≡◌, ◌≢◌, refl, List, [], ◌∷◌, none, some, arith}
use deepdive.Text.{codes, text_eq, strip, member}
use deepdive.Text.Slug.{is_slug}
use deepdive.Json.{Builtins, get}
use deepdive.Todo.Service.{
  TodoItem, ok, normalize_todo_items, check_item, check_items, check_progress,
}
use deepdive.Todo.Service.Valid.{
  IsPlan, plan_json, normalize_todo_items-IsPlan, normalize_todo_items-plan_json,
}
use deepdive.Todo.Repository.{TodoLists, TodoCall, add_todo_list, latest_todo_list, find_call}
use deepdive.Todo.Repository.Versions.{
  IsNumbered, add_todo_list-IsNumbered, latest_todo_list-add, add_todo_list_twice,
}

abbrev plain_python : Builtins
plain_python = record { repr = λ _. []; to_int = λ _. none }

abbrev survey : TodoItem
survey = record { id = codes "survey"; title = codes "Survey"; status = codes "completed" }

abbrev report : TodoItem
report = record { id = codes "report"; title = codes "Report"; status = codes "in_progress" }

abbrev plan : List TodoItem
plan = survey ∷ report ∷ []

plan_accepted : normalize_todo_items plain_python (plan_json plan) ≡ ok plan
unfolding normalize_todo_items get text_eq strip check_item check_items check_progress is_slug
    member
plan_accepted = refl

plan-IsPlan : IsPlan plan
plan-IsPlan = normalize_todo_items-IsPlan plain_python (plan_json plan) plan plan_accepted

normalize_todo_items-IsPlan_example : IsPlan plan
normalize_todo_items-IsPlan_example =
    normalize_todo_items-IsPlan plain_python (plan_json plan) plan plan_accepted

normalize_todo_items-plan_json_example :
    normalize_todo_items plain_python (plan_json plan) ≡ ok plan
normalize_todo_items-plan_json_example =
    normalize_todo_items-plan_json plain_python plan plan-IsPlan

abbrev call_of : ℕ → ℕ → TodoCall
call_of agent t = record {
  id = t;
  analysis_id = 5;
  agent_id = agent;
  turn_id = none;
  tool_call_id = t;
  created_at = t;
}

-- A list of agent 7 and one of agent 8.
abbrev one_list : TodoLists
one_list = (add_todo_list (call_of 7 101) plan none []).1

abbrev stored : TodoLists
stored = (add_todo_list (call_of 8 102) plan none one_list).1

stored-IsNumbered : IsNumbered stored
stored-IsNumbered =
    add_todo_list-IsNumbered (call_of 8 102) plan none one_list
      (add_todo_list-IsNumbered (call_of 7 101) plan none [] (record { of_agent = λ _. tt }))

add_todo_list-IsNumbered_example : IsNumbered (add_todo_list (call_of 7 104) plan none stored).1
add_todo_list-IsNumbered_example =
    add_todo_list-IsNumbered (call_of 7 104) plan none stored stored-IsNumbered

other_agent : ◌≢◌ {A = ℕ} 8 7
other_agent e = ground arith

new_call : find_call 104 stored ≡ none
unfolding add_todo_list
new_call = refl

latest_todo_list-add_example :
    let (result, lists) = add_todo_list (call_of 7 104) plan none stored in
    (latest_todo_list 7 lists ≡ some result)
    × (result.version ≡ 2)
    × (result.items ≡ plan)
    × (latest_todo_list 8 lists ≡ latest_todo_list 8 stored)
unfolding latest_todo_list add_todo_list
latest_todo_list-add_example =
    latest_todo_list-add (call_of 7 104) plan none stored stored-IsNumbered new_call 8 other_agent

add_todo_list_twice_example :
    let (result, lists) = add_todo_list (call_of 7 104) plan none stored in
    add_todo_list (call_of 8 104) [] (some (codes "again")) lists ≡ (result, lists)
add_todo_list_twice_example =
    add_todo_list_twice (call_of 7 104) (call_of 8 104) plan [] none (some (codes "again")) stored
      refl
