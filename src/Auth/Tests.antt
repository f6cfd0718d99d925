-- ===== src/Auth/Tests.antt =====
-- Concrete runs of backend/auth.
pub mod Codec
mod Service
mod Platform
use deepdive.Base.{
  ℕ, suc, ◌+◌, ◌≡◌, refl, sym, ap, ◌∙◌, true, false, Option, none, some, List, [], ◌∷◌, ◌++◌, arith,
  if◌then◌else◌, ltb,
}
use deepdive.Base.Int.{ℤ, pos}
use deepdive.Text.{Text, codes, text_eq, join}
use deepdive.Text.Decimal.{decimal}
use deepdive.Json.{Fields, str, field, end}
use deepdive.Exec.{Outcome, ok, err}
use deepdive.Auth.Jwt.{jwt_error, encode_jwt, decode_jwt, jwt_payload, sign}
use deepdive.Auth.Jwt.Roundtrip.{jwt_roundtrip, decode_jwt-signed}
use deepdive.Auth.Tokens.{create_code, pop_code}
use deepdive.Auth.Oauth.{code_once}
use deepdive.Auth.Passwords.{
  password_scheme, password_iterations, b64, hash_password, verify_password,
}
use deepdive.Auth.Passwords.Verify.{verify_password-hash_password}
use deepdive.Auth.Tests.Platform.{plain_os}
use deepdive.Auth.Tests.Codec.{plain_jwt, plain_jwt-laws}

abbrev claims : Fields
claims = field (codes "sub") (str (codes "7")) end

abbrev secret : Text
secret = codes "s"

-- Issued at 3 for 5 seconds, read at 8.
jwt_roundtrip_example :
    decode_jwt plain_jwt (encode_jwt plain_jwt claims secret 3 5) secret 8
    ≡ ok (plain_jwt-laws.sorted_keys (jwt_payload claims 3 5))
jwt_roundtrip_example = jwt_roundtrip plain_jwt plain_jwt-laws claims secret 3 5 8

-- Read at 9, too late.
expired_token :
    decode_jwt plain_jwt (encode_jwt plain_jwt claims secret 3 5) secret 9 ≡ err jwt_error
expired_token = jwt_roundtrip plain_jwt plain_jwt-laws claims secret 3 5 9

decode_jwt-signed_example :
    (signing_input : Text) × (encode_jwt plain_jwt claims secret 3 5
      ≡ signing_input ++ b'.' ∷ sign plain_jwt signing_input secret)
decode_jwt-signed_example =
    decode_jwt-signed plain_jwt (encode_jwt plain_jwt claims secret 3 5) secret 8
      (plain_jwt-laws.sorted_keys (jwt_payload claims 3 5))
      (jwt_roundtrip plain_jwt plain_jwt-laws claims secret 3 5 8)

-- The hash of "a" under the salt 1.
abbrev stored_hash : Text
unfolding b64
stored_hash = join (codes "$") (
    password_scheme
    ∷ decimal password_iterations
    ∷ b64 plain_os (1 ∷ [])
    ∷ b64 plain_os (1 ∷ 97 ∷ [])
    ∷ [])

-- "b" does not pass.
other_password : verify_password plain_os (codes "b") stored_hash ≡ some false
unfolding hash_password text_eq stored_hash
other_password =
    verify_password-hash_password plain_os plain_jwt-laws (codes "a") (codes "b") (1 ∷ [])
      (1 ∷ 97 ∷ []) (1 ∷ 98 ∷ []) stored_hash refl refl refl refl

-- A code of 60 seconds, made at 0, is popped at 60 seconds and again at 61.
popped_code :
    ((pop_code (codes "c") 60000000 (create_code (codes "c") (codes "7") 60 0 []).1).0
      ≡ some (record { user_id = codes "7"; expires_at = 60000000 }))
    × ((pop_code
          (codes "c")
          61000000
          (pop_code (codes "c") 60000000 (create_code (codes "c") (codes "7") 60 0 []).1).1).0
        ≡ none)
popped_code = code_once (codes "c") (codes "7") 60 0 60000000 61000000 []
