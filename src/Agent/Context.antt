-- ===== src/Agent/Context.antt =====
-- backend/agent/context_manager.py. An item is a JSON object; the rows that the repository returns are
-- an argument.
pub mod Pairs
pub mod Compaction
pub mod Prompt
use deepdive.Base.{
  ℕ, suc, Bool, true, false, not, ◌&&◌, ◌||◌, Option, none, some, List, [], ◌∷◌, ◌++◌, keep, any,
  leb, if◌then◌else◌,
}
use deepdive.Text.{Text, codes, text_eq, member, is_empty}
use deepdive.Json.{Json, Fields, Builtins, str, obj, get, text_or_empty}

abbrev pub tool_call_types : List Text
tool_call_types = codes "function_call" ∷ codes "custom_tool_call" ∷ []

abbrev pub tool_output_types : List Text
tool_output_types = codes "function_call_output" ∷ codes "custom_tool_call_output" ∷ []

abbrev pub replayable_message_roles : List Text
replayable_message_roles =
    codes "assistant" ∷ codes "user" ∷ codes "developer" ∷ codes "system" ∷ []

abbrev context_roles : List Text
context_roles = codes "user" ∷ codes "developer" ∷ codes "system" ∷ []

-- `value in texts`, for any JSON value
unfoldable pub is_text_among : List Text → Json → Bool
is_text_among texts (str s) = member s texts
is_text_among texts _ = false

-- `_item_call_id`
unfoldable pub item_call_id : Fields → Option Text
item_call_id item = elim (get (codes "call_id") item) [
  | str s ↦ if is_empty s then none else some s
  | _ ↦ none
]

unfoldable pub has_call_id : Fields → Bool
unfolding item_call_id
has_call_id item = elim (item_call_id item) [ none ↦ false | some _ ↦ true ]

-- The item has the call id `c`.
unfoldable pub is_call_id : Text → Fields → Bool
unfolding item_call_id
is_call_id c item = elim (item_call_id item) [ none ↦ false | some d ↦ text_eq c d ]

-- `_payloads_from_rows`
unfoldable pub payloads_from_rows : List Fields → List Fields
payloads_from_rows [] = []
payloads_from_rows (row ∷ rows) =
    let payloads = payloads_from_rows rows in
    (elim (get (codes "payload_json") row) [ obj payload ↦ payload ∷ payloads | _ ↦ payloads ])

-- `_item_call_id(item) not in exclude_call_ids`
unfoldable pub is_not_excluded : List Text → Fields → Bool
unfolding item_call_id
is_not_excluded excluded item = elim (item_call_id item) [
  | none ↦ true
  | some c ↦ not (member c excluded)
]

module _ (py : Builtins) where
  -- `_item_type`
  unfoldable pub item_type : Fields → Text
  unfolding text_or_empty
  item_type item = text_or_empty py (get (codes "type") item)

  unfoldable pub is_call : Fields → Bool
  unfolding item_type
  is_call item = member (item_type item) tool_call_types

  unfoldable pub is_output : Fields → Bool
  unfolding item_type
  is_output item = member (item_type item) tool_output_types

  -- `_is_replayable_response_item`
  unfoldable pub is_replayable : Fields → Bool
  unfolding is_call is_output has_call_id is_text_among
  is_replayable item =
      if is_call item || is_output item
      then has_call_id item
      else if member (item_type item) (codes "compaction" ∷ codes "reasoning" ∷ [])
      then true
      else if text_eq (item_type item) (codes "message")
      then is_text_among replayable_message_roles (get (codes "role") item)
      else false

  -- `call_id in paired_call_ids`, for the replayable items
  unfoldable pub is_paired : List Fields → Option Text → Bool
  unfolding is_call is_output is_call_id
  is_paired items none = false
  is_paired items (some c) =
      any (λ item. is_call item && is_call_id c item) items
      && any (λ item. is_output item && is_call_id c item) items

  -- The loop of `normalize_response_items` keeps the item.
  unfoldable pub is_kept : List Fields → Fields → Bool
  unfolding is_call is_output is_paired
  is_kept items item =
      if is_call item && not (is_paired items (item_call_id item))
      then false
      else if is_output item && not (is_paired items (item_call_id item))
      then false
      else true

  -- `normalize_response_items`
  unfoldable pub normalize_response_items : List Fields → List Fields
  unfolding is_replayable is_kept
  normalize_response_items items =
      let replayable = keep is_replayable items in keep (is_kept replayable) replayable

  unfoldable pub is_compaction : Fields → Bool
  unfolding item_type
  is_compaction item = text_eq (item_type item) (codes "compaction")

  -- `_is_true_context_message`
  unfoldable pub is_true_context_message : Fields → Bool
  unfolding item_type is_text_among
  is_true_context_message item =
      if not (text_eq (item_type item) (codes "message"))
      then false
      else is_text_among context_roles (get (codes "role") item)

  -- `_latest_compaction_index`
  unfoldable pub latest_compaction_index : List Fields → Option ℕ
  unfolding is_compaction
  latest_compaction_index [] = none
  latest_compaction_index (item ∷ items) = elim (latest_compaction_index items) [
    | some index ↦ some (suc index)
    | none ↦ if is_compaction item then some 0 else none
  ]

  -- The loop of `_prune_before_latest_compaction`, from `index` on.
  unfoldable pub retain : ℕ → ℕ → List Fields → List Fields
  unfolding is_true_context_message
  retain latest index [] = []
  retain latest index (item ∷ items) =
      let retained = retain latest (suc index) items in
      if leb latest index
      then item ∷ retained
      else if is_true_context_message item
      then item ∷ retained
      else retained

  -- `_prune_before_latest_compaction`
  unfoldable pub prune_before_latest_compaction : List Fields → List Fields
  unfolding latest_compaction_index retain
  prune_before_latest_compaction items = elim (latest_compaction_index items) [
    | none ↦ items
    | some latest ↦ retain latest 0 items
  ]

  -- `for_prompt`, of the rows that the repository returned; no excluded id is passed as []
  unfoldable pub for_prompt : List Fields → List Fields → List Text → List Fields
  unfolding payloads_from_rows prune_before_latest_compaction is_not_excluded
      normalize_response_items
  for_prompt rows extra_items exclude_call_ids =
      let payloads = prune_before_latest_compaction (payloads_from_rows rows) ++ extra_items in
      let wanted =
        (if is_empty exclude_call_ids
          then payloads
          else keep (is_not_excluded exclude_call_ids) payloads) in
      normalize_response_items wanted
