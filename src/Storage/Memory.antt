-- ===== src/Storage/Memory.antt =====
-- backend/storage/memory.py: `InMemoryObjectStorage`. The content types are kept with the bytes.
use deepdive.Base.{ℕ, ◌≡◌, refl, Option, none, some, List, [], ◌∷◌, arith, if◌then◌else◌}
use deepdive.Text.{Text, text_eq}
use deepdive.Text.Lemmas.{text_eq_iff}

abbrev pub Bytes : Type 0
Bytes = List ℕ

-- `objects` and `content_types`, which have the same keys.
abbrev pub Objects : Type 0
Objects = List (Text × Bytes × Text)

-- `put_bytes`
unfoldable pub put_bytes : Text → Bytes → Text → Objects → Objects
put_bytes key data_ content_type [] = (key, data_, content_type) ∷ []
put_bytes key data_ content_type ((k, d, t) ∷ rest) =
    if text_eq k key
    then (k, data_, content_type) ∷ rest
    else (k, d, t) ∷ put_bytes key data_ content_type rest

-- `get_bytes`; `none` is a `KeyError`
unfoldable pub get_bytes : Text → Objects → Option Bytes
get_bytes key [] = none
get_bytes key ((k, d, t) ∷ rest) = if text_eq k key then some d else get_bytes key rest

-- What is read back after a write.
pub get_bytes-put_bytes :
    (key other : Text) (data_ : Bytes) (content_type : Text) (objects : Objects)
    → get_bytes other (put_bytes key data_ content_type objects)
      ≡ (if text_eq key other then some data_ else get_bytes other objects)
unfolding put_bytes get_bytes
get_bytes-put_bytes key other data_ content_type [] = refl
get_bytes-put_bytes key other data_ content_type ((k, d, t) ∷ rest) = ground (
  arith,
  text_eq_iff k key,
  text_eq_iff k other,
  text_eq_iff key other,
  get_bytes-put_bytes key other data_ content_type rest,
)
