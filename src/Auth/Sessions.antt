-- ===== src/Auth/Sessions.antt =====
-- backend/auth/service.py: the tokens that `InMemoryAuthService` issues and accepts, and its constructor.
use deepdive.Base.{
  ℕ, ◌+◌, ◌/◌, not, Option, none, some, List, [], ◌∷◌, ◌++◌, map, if◌then◌else◌, Dict, lookup,
  distinct, sorted,
}
use deepdive.Text.{Text, codes, text_lt}
use deepdive.Text.Keyed.{text_key}
use deepdive.Json.{Json, Fields, str, arr, end, field, get, from_list}
use deepdive.Exec.{ok, err, pure, raise, gets, modify, raise_if, or_raise, ◌>>=◌, ◌>>◌}
use deepdive.Auth.Jwt.{
  JwtFailure, jwt_error, unicode_error, type_error, value_error, encode_jwt, decode_jwt,
}
use deepdive.Auth.Model.{
  access_token_ttl_seconds, RoleRecord, UserRecord, CurrentUser, TokenPair, AuthError,
  invalid_credentials, invalid_refresh_token, invalid_oauth_code, invalid_token, raised,
  AuthPlatform, AuthAction,
}
use deepdive.Auth.Tokens.{seconds, put_refresh_token, pop_refresh_token}
use deepdive.Auth.Passwords.{verify_password}
use deepdive.Auth.Accounts.{normalize_email, user_by_email, draw, new_uuid7}

abbrev permission_names : List RoleRecord → List Text
permission_names [] = []
permission_names (role ∷ roles) = map (λ p. p.name) role.permissions ++ permission_names roles

-- `current_user_from_record`
unfoldable pub current_user_from_record : UserRecord → CurrentUser
unfolding distinct
current_user_from_record user = record {
  id = user.id;
  tenant_id = user.tenant_id;
  email = user.email;
  roles = map (λ r. r.name) user.roles;
  permissions = distinct (permission_names user.roles);
}

-- The seconds of a time.
abbrev pub timestamp : ℕ → ℕ
timestamp now = now / 1000000

-- `timedelta(days=30)`
abbrev pub refresh_token_ttl : ℕ
refresh_token_ttl = seconds 2592000

abbrev pub texts : List Text → Json
texts names = arr (from_list (map str names))

-- The error that `current_user` makes of what `decode_jwt` raises: it catches a `JwtError` only.
abbrev pub token_failure : JwtFailure → AuthError
token_failure jwt_error = invalid_token
token_failure unicode_error = raised unicode_error
token_failure type_error = raised type_error
token_failure value_error = raised value_error

module _ (os : AuthPlatform) where
  -- `token_hash`
  unfoldable pub token_hash : Text → Text
  token_hash token = codes "sha256:" ++ os.sha256_hex token

  -- The claims of `_issue_tokens`.
  unfoldable pub access_claims : UserRecord → ℕ → Fields
  unfolding current_user_from_record
  access_claims user jti =
      let current_user = current_user_from_record user in
      field (codes "sub") (str (os.uuid_text user.id)) (
        field (codes "tenant_id") (str (os.uuid_text user.tenant_id)) (
          field (codes "email") (str user.email) (
            field (codes "roles") (texts current_user.roles) (
              field (codes "permissions") (texts (sorted text_lt current_user.permissions))
                (field (codes "jti") (str (os.uuid_text jti)) end)))))

  -- `isinstance(subject, str)` and `UUID(subject)`
  unfoldable pub subject_id : Json → Option ℕ
  subject_id (str subject) = os.parse_uuid subject
  subject_id _ = none

  -- A user that is there and active.
  unfoldable pub active_user : ℕ → Dict UserRecord → Option UserRecord
  unfolding lookup
  active_user user_id users = elim (lookup user_id users) [
    | none ↦ none
    | some user ↦ if user.is_active then some user else none
  ]

  module _ (jwt_secret : Text) where
    -- `_issue_tokens`
    unfoldable pub issue_tokens : UserRecord → ℕ → AuthAction TokenPair
    unfolding put_refresh_token
    issue_tokens user now = do
      jti ← new_uuid7 os
      let access_token =
          encode_jwt os.jwt (access_claims user jti) jwt_secret (timestamp now)
            access_token_ttl_seconds
      n ← draw
      let refresh_token = os.token_urlsafe n
      modify (λ s. record s {
        refresh_tokens =
            put_refresh_token (token_hash refresh_token) (os.uuid_text user.id)
              (now + refresh_token_ttl) s.refresh_tokens;
      })
      pure (record {
        access_token = access_token;
        refresh_token = refresh_token;
        token_type = codes "bearer";
        expires_in = access_token_ttl_seconds;
      })

    -- `login`
    unfoldable pub login : Text → Text → ℕ → AuthAction TokenPair
    login email password now = do
      found ← gets (λ s. user_by_email (normalize_email email) s.users)
      user ← or_raise found invalid_credentials
      raise_if (not user.is_active) invalid_credentials
      stored ← gets (λ s. lookup user.id s.password_hashes)
      password_hash ← or_raise stored invalid_credentials
      verified ← or_raise (verify_password os password password_hash) (raised value_error)
      raise_if (not verified) invalid_credentials
      issue_tokens user now

    -- `refresh`, past the pop of the token
    unfoldable pub renew : Option Text → ℕ → AuthAction TokenPair
    renew popped now = do
      user_id_text ← or_raise popped invalid_refresh_token
      user_id ← or_raise (os.parse_uuid user_id_text) invalid_refresh_token
      found ← gets (λ s. active_user user_id s.users)
      user ← or_raise found invalid_refresh_token
      issue_tokens user now

    -- `refresh`
    unfoldable pub refresh : Text → ℕ → AuthAction TokenPair
    unfolding pop_refresh_token
    refresh refresh_token now = do
      let hashed = token_hash refresh_token
      popped ← gets (λ s. (pop_refresh_token hashed now s.refresh_tokens).0)
      modify (λ s. record s { refresh_tokens = (pop_refresh_token hashed now s.refresh_tokens).1 })
      renew popped now

    -- `exchange_code`
    unfoldable pub exchange_code : ℕ → ℕ → AuthAction TokenPair
    exchange_code user_id now = do
      found ← gets (λ s. active_user user_id s.users)
      user ← or_raise found invalid_oauth_code
      issue_tokens user now

    -- `current_user`
    unfoldable pub current_user : Text → ℕ → AuthAction CurrentUser
    current_user access_token now =
        elim (decode_jwt os.jwt access_token jwt_secret (timestamp now)) [
          | err e ↦ raise (token_failure e)
          | ok claims ↦ (do
            user_id ← or_raise (subject_id (get (codes "sub") claims)) invalid_token
            found ← gets (λ s. active_user user_id s.users)
            user ← or_raise found invalid_token
            pure (current_user_from_record user))
        ]

  -- `logout`
  unfoldable pub logout : Text → ℕ → AuthAction (Unit {0})
  unfolding pop_refresh_token
  logout refresh_token now = modify (λ s. record s {
    refresh_tokens = (pop_refresh_token (token_hash refresh_token) now s.refresh_tokens).1;
  })
