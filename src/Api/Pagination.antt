-- ===== src/Api/Pagination.antt =====
-- backend/api/pagination.py.
use deepdive.Base.{ℕ, Bool, Option, none, some, List, [], ◌∷◌, ◌++◌, if◌then◌else◌}
use deepdive.Base.Int.{ℤ, pos_part}
use deepdive.Text.{Text, has_char, strip, is_empty}
use deepdive.Auth.Jwt.{strip_padding, padding_of}
use deepdive.Auth.Passwords.{split_at_most}
use deepdive.Api.Records.{AnalysisRecord, ApiPlatform}

-- `cursor_offset`, over `isdigit` and `int` of a text; `none` is a `ValueError`
unfoldable pub cursor_offset : (Text → Bool) → (Text → Option ℤ) → Option Text → Option ℕ
cursor_offset isdigit parse_int none = some 0
cursor_offset isdigit parse_int (some value) =
    if is_empty (strip value)
    then some 0
    else if isdigit value
    then (elim (parse_int value) [ none ↦ none | some n ↦ some (pos_part n) ])
    else some 0

module _ (os : ApiPlatform) where
  -- `encode_list_cursor`
  unfoldable pub encode_list_cursor : AnalysisRecord → Text
  unfolding strip_padding
  encode_list_cursor r = strip_padding (
      os.jwt.b64encode
        (os.encode (os.events.isoformat r.created_at ++ b'|' ∷ os.events.uuid_text r.analysis_id)))

  -- `_decode_cursor_text`
  unfoldable pub decode_cursor_text : Text → Option Text
  unfolding has_char padding_of
  decode_cursor_text value =
      if has_char b'|' value
      then some value
      else (elim (os.jwt.b64decode (value ++ padding_of value)) [
        | none ↦ none
        | some bytes ↦ os.decode bytes
      ])

  -- The position of a cursor's two texts.
  abbrev position : List Text → Option (ℕ × ℕ)
  position (created_at_text ∷ id_text ∷ []) = elim (os.events.fromisoformat created_at_text) [
    | none ↦ none
    | some created_at ↦ (elim (os.events.parse_uuid id_text) [
      | none ↦ none
      | some id ↦ some (created_at, id)
    ])
  ]
  position _ = none

  -- `decode_list_cursor`. A time without an offset is a number like any other, where Python raises a TypeError
  -- as soon as it is compared.
  unfoldable pub decode_list_cursor : Option Text → Option (ℕ × ℕ)
  unfolding split_at_most
  decode_list_cursor none = none
  decode_list_cursor (some value) =
      if is_empty value then none else (elim (decode_cursor_text value) [
        | none ↦ none
        | some decoded ↦ position (split_at_most b'|' 1 decoded)
      ])
