-- ===== src/Auth/Passwords.antt =====
-- backend/auth/passwords.py. The salt that `secrets` draws is an argument.
pub mod Verify
use deepdive.Base.{
  ℕ, zero, suc, Bool, true, false, not, Option, none, some, List, [], ◌∷◌, ◌++◌, ◌==◌,
  if◌then◌else◌,
}
use deepdive.Base.Int.{ℤ, pos}
use deepdive.Text.{Text, codes, text_eq, join}
use deepdive.Text.Decimal.{decimal}
use deepdive.Auth.Jwt.{JwtLibrary, strip_padding, padding_of}
use deepdive.Auth.Model.{AuthPlatform}

-- PASSWORD_SCHEME
abbrev pub password_scheme : Text
password_scheme = codes "pbkdf2_sha256"

-- PASSWORD_ITERATIONS
abbrev pub password_iterations : ℕ
password_iterations = 210000

-- `value.split(sep, n)`
unfoldable pub split_at_most : ℕ → ℕ → Text → List Text
split_at_most sep n [] = [] ∷ []
split_at_most sep zero (c ∷ s) = (c ∷ s) ∷ []
split_at_most sep (suc n) (c ∷ s) =
    let next = split_at_most sep n s in
    let same = split_at_most sep (suc n) s in if c == sep then [] ∷ next else push_to_first c same
  where
    push_to_first : ℕ → List Text → List Text
    push_to_first a [] = (a ∷ []) ∷ []
    push_to_first a (w ∷ ws) = (a ∷ w) ∷ ws

module _ (os : AuthPlatform) where
  -- `_b64`
  unfoldable pub b64 : List ℕ → Text
  unfolding strip_padding
  b64 value = strip_padding (os.jwt.b64encode value)

  -- `_unb64`
  unfoldable pub unb64 : Text → Option (List ℕ)
  unfolding padding_of
  unb64 value = os.jwt.b64decode (value ++ padding_of value)

  -- `hash_password`; `none` is a `ValueError` of `pbkdf2_hmac`
  unfoldable pub hash_password : Text → List ℕ → Option Text
  unfolding decimal join
  hash_password password salt = elim (os.pbkdf2_sha256 password salt (pos password_iterations)) [
    | none ↦ none
    | some digest ↦ some (
        join (codes "$")
          (password_scheme ∷ decimal password_iterations ∷ b64 salt ∷ b64 digest ∷ []))
  ]

  -- `verify_password` of the parts of a hash; `none` is a `ValueError` of `pbkdf2_hmac`
  unfoldable pub verify_parts : Text → List Text → Option Bool
  unfolding unb64 text_eq
  verify_parts password (scheme ∷ iterations_text ∷ salt_text ∷ digest_text ∷ []) =
      if not (text_eq scheme password_scheme)
      then some false
      else (elim (os.parse_int iterations_text) [
        | none ↦ some false
        | some iterations ↦ (elim (unb64 salt_text) [
          | none ↦ some false
          | some salt ↦ (elim (unb64 digest_text) [
            | none ↦ some false
            | some expected ↦ (elim (os.pbkdf2_sha256 password salt iterations) [
              | none ↦ none
              | some actual ↦ some (text_eq actual expected)
            ])
          ])
        ])
      ])
  verify_parts password _ = some false

  -- `verify_password`
  unfoldable pub verify_password : Text → Text → Option Bool
  unfolding split_at_most
  verify_password password password_hash =
      verify_parts password (split_at_most b'$' 3 password_hash)
