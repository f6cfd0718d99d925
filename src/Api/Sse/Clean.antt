-- ===== src/Api/Sse/Clean.antt =====
-- No sensitive key is shown: backend/api/sse.py.
use deepdive.Base.{
  ◌≡◌, refl, Bool, true, false, List, [], ◌∷◌, All, Bool-cases, inl, inr, if◌then◌else◌,
}
use deepdive.Text.{Text, codes, text_eq, member}
use deepdive.Json.{
  Json, Items, Fields, null, bool, num, str, arr, obj, nil, cons, end, field, get, has_key,
}
use deepdive.Api.Sse.{
  is_sensitive, strip_sensitive, strip_items, strip_fields, only_keys, keys_with_value,
  append_fields, tool_result_display_payload, display_event_payload, is_none, status_keys,
  tool_call_keys, tool_result_keys, optional_result_keys, done_keys, error_keys,
}

abbrev mutual
  -- No object in the value, at any depth, has a sensitive key.
  pub IsClean : Json → Type 0
  IsClean (obj fields) = IsCleanFields fields
  IsClean (arr items) = IsCleanItems items
  IsClean null = Unit
  IsClean (bool b) = Unit
  IsClean (num n) = Unit
  IsClean (str s) = Unit

  pub IsCleanItems : Items → Type 0
  IsCleanItems nil = Unit
  IsCleanItems (cons x xs) = IsClean x × IsCleanItems xs

  pub IsCleanFields : Fields → Type 0
  IsCleanFields end = Unit
  IsCleanFields (field key value rest) =
      (is_sensitive key ≡ false) × IsClean value × IsCleanFields rest

mutual
  unfolding strip_sensitive strip_items strip_fields

  strip_sensitive-IsClean : (value : Json) → IsClean (strip_sensitive value)
  strip_sensitive-IsClean (obj fields) = strip_fields-IsCleanFields fields
  strip_sensitive-IsClean (arr items) = strip_items-IsCleanItems items
  strip_sensitive-IsClean null = tt
  strip_sensitive-IsClean (bool b) = tt
  strip_sensitive-IsClean (num n) = tt
  strip_sensitive-IsClean (str s) = tt

  strip_items-IsCleanItems : (items : Items) → IsCleanItems (strip_items items)
  strip_items-IsCleanItems nil = tt
  strip_items-IsCleanItems (cons x xs) = (strip_sensitive-IsClean x, strip_items-IsCleanItems xs)

  strip_fields-IsCleanFields : (fields : Fields) → IsCleanFields (strip_fields fields)
  strip_fields-IsCleanFields end = tt
  strip_fields-IsCleanFields (field key value rest) = elim (Bool-cases (is_sensitive key)) [
    | inl t ↦ rw t (strip_fields-IsCleanFields rest)
    | inr f ↦ rw f (f, strip_sensitive-IsClean value, strip_fields-IsCleanFields rest)
  ]

only_keys-IsCleanFields :
    (payload : Fields) (keys : List Text)
    → All (λ key. is_sensitive key ≡ false) keys
    → IsCleanFields (only_keys payload keys)
unfolding only_keys
only_keys-IsCleanFields payload [] h = tt
only_keys-IsCleanFields payload (key ∷ keys) h = elim (Bool-cases (has_key key payload)) [
  | inl t ↦
      rw t
        (h.0, strip_sensitive-IsClean (get key payload), only_keys-IsCleanFields payload keys h.1)
  | inr f ↦ rw f (only_keys-IsCleanFields payload keys h.1)
]

keys_with_value-IsCleanFields :
    (payload : Fields) (keys : List Text)
    → All (λ key. is_sensitive key ≡ false) keys
    → IsCleanFields (keys_with_value payload keys)
unfolding keys_with_value
keys_with_value-IsCleanFields payload [] h = tt
keys_with_value-IsCleanFields payload (key ∷ keys) h =
    elim (Bool-cases (is_none (get key payload))) [
      | inl t ↦ rw t (keys_with_value-IsCleanFields payload keys h.1)
      | inr f ↦ rw f (
        h.0,
        strip_sensitive-IsClean (get key payload),
        keys_with_value-IsCleanFields payload keys h.1,
      )
    ]

append_fields-IsCleanFields :
    (xs ys : Fields) → IsCleanFields xs → IsCleanFields ys → IsCleanFields (append_fields xs ys)
unfolding append_fields
append_fields-IsCleanFields end ys h k = k
append_fields-IsCleanFields (field key value rest) ys h k =
    (h.0, h.1, append_fields-IsCleanFields rest ys h.2 k)

shown_branch :
    (b : Bool) (xs ys : Fields)
    → IsCleanFields xs
    → IsCleanFields ys
    → IsCleanFields (if b then xs else ys)
shown_branch true xs ys h k = h
shown_branch false xs ys h k = k

-- The payload of a tool's result.
tool_result-IsCleanFields : (payload : Fields) → IsCleanFields (tool_result_display_payload payload)
unfolding tool_result_display_payload is_sensitive
tool_result-IsCleanFields payload =
    append_fields-IsCleanFields (only_keys payload tool_result_keys)
      (keys_with_value payload optional_result_keys)
      (only_keys-IsCleanFields payload tool_result_keys (refl, (refl, (refl, (refl, (refl, tt))))))
      (keys_with_value-IsCleanFields payload optional_result_keys
        (refl, (refl, (refl, (refl, tt)))))

-- Whatever the event and its payload, no key of what is shown is sensitive, at any depth and in any
-- case.
pub display_event_payload-IsCleanFields :
    (event_type : Text) (payload : Fields)
    → IsCleanFields (display_event_payload event_type payload)
unfolding display_event_payload is_sensitive
display_event_payload-IsCleanFields event_type payload =
    let status = only_keys-IsCleanFields payload status_keys (refl, tt) in
    let tool_call = only_keys-IsCleanFields payload tool_call_keys (refl, (refl, (refl, tt))) in
    let done = only_keys-IsCleanFields payload done_keys (refl, (refl, (refl, tt))) in
    let error = only_keys-IsCleanFields payload error_keys (refl, (refl, (refl, (refl, tt)))) in
    let kinds = codes "error" ∷ codes "analysis_error" ∷ [] in
    (elim (Bool-cases (text_eq event_type (codes "status"))) [
      | inl t ↦ rw t status
      | inr f₁ ↦ elim (Bool-cases (text_eq event_type (codes "tool_call"))) [
        | inl t ↦ rw (f₁, t) tool_call
        | inr f₂ ↦ elim (Bool-cases (text_eq event_type (codes "tool_result"))) [
          | inl t ↦ rw (f₁, f₂, t) (tool_result-IsCleanFields payload)
          | inr f₃ ↦ elim (Bool-cases (text_eq event_type (codes "done"))) [
            | inl t ↦ rw (f₁, f₂, f₃, t) done
            | inr f₄ ↦
                rw (f₁, f₂, f₃, f₄)
                  (shown_branch (member event_type kinds) (only_keys payload error_keys)
                    (strip_fields payload) error (strip_fields-IsCleanFields payload))
          ]
        ]
      ]
    ])
