-- ===== src/Api/Sse.antt =====
-- backend/api/sse.py: what of a stored stream event is shown to a browser.
pub mod Clean
use deepdive.Base.{Bool, true, false, List, [], ◌∷◌, if◌then◌else◌}
use deepdive.Text.{Text, codes, text_eq, member, lower}
use deepdive.Json.{
  Json, Items, Fields, null, bool, num, str, arr, obj, nil, cons, end, field, get, has_key,
}

abbrev pub sensitive_display_keys : List Text
sensitive_display_keys =
    codes "config_json"
    ∷ codes "context"
    ∷ codes "developer"
    ∷ codes "input"
    ∷ codes "input_ref"
    ∷ codes "instructions"
    ∷ codes "messages"
    ∷ codes "openai_call_id"
    ∷ codes "prompt"
    ∷ codes "response"
    ∷ codes "snapshot_id"
    ∷ codes "source_refs"
    ∷ codes "system"
    ∷ codes "tool_policy_hash"
    ∷ codes "tool_registry_version"
    ∷ codes "tool_schema"
    ∷ codes "tool_schema_hash"
    ∷ []

-- `key_text.lower() in SENSITIVE_DISPLAY_KEYS`
unfoldable pub is_sensitive : Text → Bool
unfolding member lower
is_sensitive key = member (lower key) sensitive_display_keys

unfoldable mutual
  unfolding is_sensitive

  -- `_strip_sensitive_display_fields`
  pub strip_sensitive : Json → Json
  strip_sensitive (obj fields) = obj (strip_fields fields)
  strip_sensitive (arr items) = arr (strip_items items)
  strip_sensitive null = null
  strip_sensitive (bool b) = bool b
  strip_sensitive (num n) = num n
  strip_sensitive (str s) = str s

  pub strip_items : Items → Items
  strip_items nil = nil
  strip_items (cons x xs) = cons (strip_sensitive x) (strip_items xs)

  pub strip_fields : Fields → Fields
  strip_fields end = end
  strip_fields (field key value rest) =
      let others = strip_fields rest in
      if is_sensitive key then others else field key (strip_sensitive value) others

-- `_only_keys`
unfoldable pub only_keys : Fields → List Text → Fields
unfolding has_key get
only_keys payload [] = end
only_keys payload (key ∷ keys) =
    let others = only_keys payload keys in
    if has_key key payload then field key (strip_sensitive (get key payload)) others else others

-- `value is None`
abbrev pub is_none : Json → Bool
is_none null = true
is_none _ = false

-- The last loop of `_tool_result_display_payload`, which leaves out `None` and missing keys.
unfoldable pub keys_with_value : Fields → List Text → Fields
keys_with_value payload [] = end
keys_with_value payload (key ∷ keys) =
    let others = keys_with_value payload keys in
    if is_none (get key payload)
    then others
    else field key (strip_sensitive (get key payload)) others

-- The fields of the first, then those of the second.
unfoldable pub append_fields : Fields → Fields → Fields
append_fields end more = more
append_fields (field key value rest) more = field key value (append_fields rest more)

-- The keys that are shown, by the kind of the event.
abbrev pub status_keys : List Text
status_keys = codes "status" ∷ []

abbrev pub tool_call_keys : List Text
tool_call_keys = codes "tool_call_id" ∷ codes "tool_name" ∷ codes "arguments" ∷ []

abbrev pub tool_result_keys : List Text
tool_result_keys =
    codes "tool_call_id" ∷ codes "tool_name" ∷ codes "ok" ∷ codes "result" ∷ codes "error" ∷ []

abbrev pub optional_result_keys : List Text
optional_result_keys =
    codes "result_ref" ∷ codes "evidence_ids" ∷ codes "truncated" ∷ codes "next_cursor" ∷ []

abbrev pub done_keys : List Text
done_keys = codes "status" ∷ codes "response_id" ∷ codes "output_ref" ∷ []

abbrev pub error_keys : List Text
error_keys = codes "error" ∷ codes "error_code" ∷ codes "error_message" ∷ codes "retryable" ∷ []

-- `_tool_result_display_payload`
unfoldable pub tool_result_display_payload : Fields → Fields
unfolding only_keys keys_with_value append_fields
tool_result_display_payload payload =
    append_fields (only_keys payload tool_result_keys)
      (keys_with_value payload optional_result_keys)

-- `display_event_payload`
unfoldable pub display_event_payload : Text → Fields → Fields
display_event_payload event_type payload =
    if text_eq event_type (codes "status")
    then only_keys payload status_keys
    else if text_eq event_type (codes "tool_call")
    then only_keys payload tool_call_keys
    else if text_eq event_type (codes "tool_result")
    then tool_result_display_payload payload
    else if text_eq event_type (codes "done")
    then only_keys payload done_keys
    else if member event_type (codes "error" ∷ codes "analysis_error" ∷ [])
    then only_keys payload error_keys
    else strip_fields payload
