-- ===== src/Agent/Tests.antt =====
-- Runs of the context manager on small inputs.
use deepdive.Base.{◌≡◌, refl, true, List, [], ◌∷◌, none, All}
use deepdive.Text.{Text, codes, text_eq, member}
use deepdive.Json.{Fields, Builtins, obj, str, field, end, get}
use deepdive.Agent.Context.{normalize_response_items, for_prompt, is_not_excluded}
use deepdive.Agent.Context.Pairs.{
  IsPairedIn, normalize_response_items-IsPairedIn, normalize_response_items_idem,
}
use deepdive.Agent.Context.Prompt.{for_prompt-IsPairedIn}

abbrev plain_python : Builtins
plain_python = record { repr = λ _. []; to_int = λ _. none }

abbrev item : Text → Text → Fields
item kind id = field (codes "type") (str kind) (field (codes "call_id") (str id) end)

abbrev message : Text → Fields
message role = field (codes "type") (str (codes "message")) (field (codes "role") (str role) end)

abbrev compaction : Fields
compaction = field (codes "type") (str (codes "compaction")) end

-- A call with its output, and a call with none.
abbrev history : List Fields
history =
    item (codes "function_call") (codes "a")
    ∷ item (codes "function_call_output") (codes "a")
    ∷ item (codes "function_call") (codes "b")
    ∷ message (codes "user")
    ∷ []

normalized_history :
    normalize_response_items plain_python history
    ≡ item (codes "function_call") (codes "a")
      ∷ item (codes "function_call_output") (codes "a")
      ∷ message (codes "user")
      ∷ []
unfolding normalize_response_items text_eq member get
normalized_history = refl

normalize_response_items-IsPairedIn_example :
    All
      (IsPairedIn plain_python (normalize_response_items plain_python history))
      (normalize_response_items plain_python history)
normalize_response_items-IsPairedIn_example =
    normalize_response_items-IsPairedIn plain_python history

normalized_twice :
    normalize_response_items plain_python (normalize_response_items plain_python history)
    ≡ normalize_response_items plain_python history
normalized_twice = normalize_response_items_idem plain_python history

abbrev row : Fields → Fields
row payload = field (codes "payload_json") (obj payload) end

for_prompt-IsPairedIn_example :
    let sent =
      for_prompt plain_python (row (message (codes "user")) ∷ []) history (codes "a" ∷ []) in
    All (λ x. is_not_excluded (codes "a" ∷ []) x ≡ true) sent
    × All (IsPairedIn plain_python sent) sent
for_prompt-IsPairedIn_example =
    for_prompt-IsPairedIn plain_python (row (message (codes "user")) ∷ []) history (codes "a" ∷ [])
