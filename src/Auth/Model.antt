-- ===== src/Auth/Model.antt =====
-- backend/auth/models.py, `AuthError`, and the state that `InMemoryAuthService` of
-- backend/auth/service.py keeps. A time is a number of microseconds.
use deepdive.Base.{ℕ, Bool, Option, List, Dict, Table}
use deepdive.Base.Int.{ℤ}
use deepdive.Text.{Text}
use deepdive.Exec.{Action}
use deepdive.Auth.Jwt.{JwtLibrary, JwtFailure}

-- ACCESS_TOKEN_TTL_SECONDS
abbrev pub access_token_ttl_seconds : ℕ
access_token_ttl_seconds = 86400

pub record PermissionRecord : Type 0 where
  pub id : ℕ
  pub name : Text
  pub description : Text

pub record RoleRecord : Type 0 where
  pub id : ℕ
  pub name : Text
  pub description : Text
  pub permissions : List PermissionRecord

pub record UserRecord : Type 0 where
  pub id : ℕ
  pub tenant_id : ℕ
  pub email : Text
  pub display_name : Option Text
  pub is_active : Bool
  pub created_at : ℕ
  pub updated_at : ℕ
  pub roles : List RoleRecord

-- The frozen set of permissions is a list without repetitions.
pub record CurrentUser : Type 0 where
  pub id : ℕ
  pub tenant_id : ℕ
  pub email : Text
  pub roles : List Text
  pub permissions : List Text

pub record TokenPair : Type 0 where
  pub access_token : Text
  pub refresh_token : Text
  pub token_type : Text
  pub expires_in : ℕ

pub record ExternalIdentityRecord : Type 0 where
  pub user_id : ℕ
  pub provider : Text
  pub provider_account_id : Text
  pub provider_login : Option Text
  pub provider_email : Text
  pub provider_email_verified : Bool

-- The codes of `AuthError`, and the other exceptions that a call lets through.
pub data AuthError : Type 0 where
  user_already_exists invalid_credentials invalid_refresh_token invalid_oauth_code : AuthError
  invalid_token role_not_found : AuthError
  raised : JwtFailure → AuthError

-- The UUIDs, tokens and salts that the platform draws, one for each number; UUIDs as texts;
-- hashes; `isdigit` and `int` of a text. `none` is a `ValueError`.
pub record AuthPlatform : Type 0 where
  pub uuid7 : ℕ → ℕ
  pub uuid_text : ℕ → Text
  pub parse_uuid : Text → Option ℕ
  pub token_urlsafe : ℕ → Text
  pub token_bytes : ℕ → List ℕ
  pub sha256_hex : Text → Text
  pub pbkdf2_sha256 : Text → List ℕ → ℤ → Option (List ℕ)
  pub isdigit : Text → Bool
  pub parse_int : Text → Option ℤ
  pub jwt : JwtLibrary

-- The fields of the service, with the tokens of its store and the number of draws.
pub record AuthState : Type 0 where
  pub permissions : Table Text PermissionRecord
  pub roles : Table Text RoleRecord
  pub users : Dict UserRecord
  pub password_hashes : Dict Text
  pub external_identities : Table (Text × Text) ExternalIdentityRecord
  pub refresh_tokens : Table Text (Text × ℕ)
  pub drawn : ℕ

abbrev pub AuthAction {ℓ} : Type ℓ → Type ℓ
AuthAction A = Action AuthState AuthError A
