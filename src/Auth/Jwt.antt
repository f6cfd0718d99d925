-- ===== src/Auth/Jwt.antt =====
-- backend/auth/jwt.py. The clock is an argument, in seconds; of the standard library, JSON, Base64 and
-- HMAC-SHA256 are.
pub mod Base64
pub mod Roundtrip
use deepdive.Base.{
  ℕ, zero, suc, ◌+◌, ◌-◌, ◌%◌, Bool, true, false, not, ◌&&◌, ◌||◌, Option, none, some, List, [],
  ◌∷◌, ◌++◌, ltb, ◌==◌, if◌then◌else◌, length, any,
}
use deepdive.Base.Int.{ℤ, pos, ltb_ℤ}
use deepdive.Text.{Text, codes, text_eq, has_char, drop_while}
use deepdive.Json.{Json, Fields, null, bool, num, str, arr, obj, end, field, get}
use deepdive.Exec.{Outcome, ok, err}
use mathlib.Core.List.{reverse}

-- `json.dumps` with sorted keys and `json.loads` of UTF-8 bytes; URL-safe Base64, whose decoder may
-- raise; the digest of a keyed hash, in Base64. `none` is a `ValueError`.
pub record JwtLibrary : Type 0 where
  pub dumps : Fields → List ℕ
  pub loads : List ℕ → Option Json
  pub b64encode : List ℕ → Text
  pub b64decode : Text → Option (List ℕ)
  pub hmac_sha256 : Text → Text → List ℕ

-- `JwtError`, and what else `decode_jwt` may raise.
pub data JwtFailure : Type 0 where
  jwt_error unicode_error type_error value_error : JwtFailure

-- `value.encode("ascii")` does not raise.
unfoldable pub is_ascii : Text → Bool
is_ascii s = not (any (λ c. not (ltb c 128)) s)

-- `s.rstrip("=")`
unfoldable pub strip_padding : Text → Text
unfolding drop_while
strip_padding s = reverse (drop_while (λ c. c == b'=') (reverse s))

abbrev pub equals_signs : ℕ → Text
equals_signs zero = []
equals_signs (suc n) = b'=' ∷ equals_signs n

-- `"=" * (-len(value) % 4)`
unfoldable pub padding_of : Text → Text
padding_of value = equals_signs ((4 - length value % 4) % 4)

-- `value.split(".", 1)`, as the part in front of the first dot and the rest
unfoldable pub split_dot : Text → Option (Text × Text)
split_dot [] = none
split_dot (c ∷ s) =
    let rest = split_dot s in
    if c == b'.' then some ([], s) else (elim rest [ none ↦ none | some p ↦ some (c ∷ p.0, p.1) ])

-- `{**claims, key: value}`
unfoldable pub set_field : Text → Json → Fields → Fields
set_field key value end = field key value end
set_field key value (field k v rest) =
    if text_eq k key then field k value rest else field k v (set_field key value rest)

abbrev pub jwt_header : Fields
jwt_header = field (codes "alg") (str (codes "HS256")) (field (codes "typ") (str (codes "JWT")) end)

-- `isinstance(expires_at, int)` and not before `now`; a Boolean is an `int`
unfoldable pub is_current : ℕ → Json → Bool
is_current now (num n) = not (ltb_ℤ n (pos now))
is_current now (bool true) = not (ltb 1 now)
is_current now (bool false) = not (ltb 0 now)
is_current now _ = false

-- The payload that `encode_jwt` signs.
unfoldable pub jwt_payload : Fields → ℕ → ℕ → Fields
unfolding set_field
jwt_payload claims now expires_delta =
    set_field (codes "exp") (num (pos (now + expires_delta)))
      (set_field (codes "iat") (num (pos now)) claims)

module _ (lib : JwtLibrary) where
  -- `_json_b64`
  unfoldable pub json_b64 : Fields → Text
  unfolding strip_padding
  json_b64 value = strip_padding (lib.b64encode (lib.dumps value))

  -- `_json_unb64`
  unfoldable pub json_unb64 : Text → Outcome JwtFailure Fields
  unfolding padding_of
  json_unb64 value = elim (lib.b64decode (value ++ padding_of value)) [
    | none ↦ err value_error
    | some decoded ↦ (elim (lib.loads decoded) [
      | none ↦ err value_error
      | some (obj payload) ↦ ok payload
      | some _ ↦ err jwt_error
    ])
  ]

  -- `_sign`, of an ASCII text
  unfoldable pub sign : Text → Text → Text
  unfolding strip_padding
  sign value secret = strip_padding (lib.b64encode (lib.hmac_sha256 secret value))

  -- `encode_jwt`
  unfoldable pub encode_jwt : Fields → Text → ℕ → ℕ → Text
  encode_jwt claims secret now expires_delta =
      let signing_input =
        json_b64 jwt_header ++ (b'.' ∷ json_b64 (jwt_payload claims now expires_delta)) in
      signing_input ++ (b'.' ∷ sign signing_input secret)

  -- The part of `decode_jwt` past the signature.
  unfoldable pub decode_checked : Text → Text → ℕ → Outcome JwtFailure Fields
  decode_checked header_text payload_text now = elim (json_unb64 header_text) [
    | err e ↦ err e
    | ok header ↦
        if not (is_hs256 (get (codes "alg") header))
        then err jwt_error
        else (elim (json_unb64 payload_text) [
          | err e ↦ err e
          | ok payload ↦
              if is_current now (get (codes "exp") payload) then ok payload else err jwt_error
        ])
  ]
    where
      is_hs256 : Json → Bool
      is_hs256 (str s) = text_eq s (codes "HS256")
      is_hs256 _ = false

  -- `decode_jwt`
  unfoldable pub decode_jwt : Text → Text → ℕ → Outcome JwtFailure Fields
  decode_jwt token secret now = elim (split_dot token) [
    | none ↦ err jwt_error
    | some (header_text, rest) ↦ (elim (split_dot rest) [
      | none ↦ err jwt_error
      | some (payload_text, signature) ↦
          let signing_input = header_text ++ (b'.' ∷ payload_text) in
          let checked = decode_checked header_text payload_text now in
          if not (is_ascii signing_input)
          then err unicode_error
          else if not (is_ascii signature)
          then err type_error
          else if text_eq signature (sign signing_input secret)
          then checked
          else err jwt_error
    ])
  ]
