-- ===== src/Json.antt =====
-- The values that `json.loads` returns, with what Python does to them as `Any`: a missing key, the
-- truth of a value, `str(value or "")`. Floats are not modelled. Models no file of the repository.
use deepdive.Base.{Bool, true, false, not, Option, List, [], ◌∷◌, ◌==◌, if◌then◌else◌}
use deepdive.Base.Int.{ℤ, pos, negsuc}
use deepdive.Text.{Text, text_eq, is_empty}

mutual
  pub data Json : Type 0 where
    null : Json
    bool : Bool → Json
    num : ℤ → Json
    str : Text → Json
    arr : Items → Json
    obj : Fields → Json

  pub data Items : Type 0 where
    nil : Items
    cons : Json → Items → Items

  -- A dict, in insertion order.
  pub data Fields : Type 0 where
    end : Fields
    field : Text → Json → Fields → Fields

-- `value.get(key)`, where a missing key reads as `None`
unfoldable pub get : Text → Fields → Json
get key end = null
get key (field k v rest) = if text_eq k key then v else get key rest

-- `key in value`
unfoldable pub has_key : Text → Fields → Bool
has_key key end = false
has_key key (field k v rest) = if text_eq k key then true else has_key key rest

-- `bool(value)`
unfoldable pub truthy : Json → Bool
truthy null = false
truthy (bool b) = b
truthy (num (pos n)) = not (n == 0)
truthy (num (negsuc n)) = true
truthy (str s) = not (is_empty s)
truthy (arr nil) = false
truthy (arr (cons x xs)) = true
truthy (obj end) = false
truthy (obj (field k v rest)) = true

-- What Python's `str` and `int` make of a value; `int` raises `ValueError` or `TypeError` where it
-- returns `none`.
pub record Builtins : Type 0 where
  pub repr : Json → Text
  pub to_int : Json → Option ℤ

-- `str(value)`: a text is itself.
unfoldable pub to_text : Builtins → Json → Text
to_text py (str s) = s
to_text py v = py.repr v

-- `str(value or "")`
unfoldable pub text_or_empty : Builtins → Json → Text
unfolding to_text truthy
text_or_empty py v = if truthy v then to_text py v else []

-- The values of a list.
abbrev pub to_list : Items → List Json
to_list nil = []
to_list (cons x xs) = x ∷ to_list xs

abbrev pub from_list : List Json → Items
from_list [] = nil
from_list (x ∷ xs) = cons x (from_list xs)
