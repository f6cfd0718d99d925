-- ===== src/Auth/Steps.antt =====
-- The changes that the methods of backend/auth/service.py make, as a step relation.
pub mod Accounts
pub mod Sessions
use deepdive.Base.{
  ℕ, suc, ◌+◌, ◌≡◌, Option, none, some, Dict, lookup, insert, values, Member, true, is_some, Table,
  put_key, remove_key,
}
use deepdive.Text.{Text}
use deepdive.Text.Keyed.{text_key, pair_key}
use deepdive.Auth.Model.{UserRecord, ExternalIdentityRecord, AuthPlatform, AuthState}
use deepdive.Auth.Tokens.{put_refresh_token}
use deepdive.Auth.Accounts.{normalize_email, user_by_email, put_user}
use deepdive.Auth.Sessions.{token_hash}

-- One change of the state. A user is added under an email that no user has, and is changed but for its
-- id and email; what refers to a user refers to one that is there; a refresh token is drawn where it
-- is stored.
pub data AuthStep (os : AuthPlatform) : AuthState → AuthState → Type 0 where
  drew : (s : AuthState) → AuthStep os s (record s { drawn = suc s.drawn })
  added_user :
      (s : AuthState) (user : UserRecord) (email : Text)
      → user.email ≡ normalize_email email
      → user_by_email user.email s.users ≡ none
      → AuthStep os s (put_user user s)
  changed_a_user :
      (s : AuthState) (user old : UserRecord) (user_id : ℕ)
      → lookup user_id s.users ≡ some old
      → user.id ≡ old.id
      → user.email ≡ old.email
      → AuthStep os s (put_user user s)
  set_password :
      (s : AuthState) (user_id : ℕ) (password_hash : Text)
      → is_some (lookup user_id s.users) ≡ true
      → AuthStep os s
          (record s { password_hashes = insert user_id password_hash s.password_hashes })
  linked_identity :
      (s : AuthState) (key : Text × Text) (identity : ExternalIdentityRecord) (user : UserRecord)
      → Member user (values s.users)
      → identity.user_id ≡ user.id
      → AuthStep os s
          (record s { external_identities = put_key key identity s.external_identities })
  issued_token :
      (s : AuthState) (user : UserRecord) (expires_at : ℕ)
      → Member user (values s.users)
      → AuthStep os s (record s {
        drawn = suc s.drawn;
        refresh_tokens =
            put_refresh_token
              (token_hash os (os.token_urlsafe s.drawn))
              (os.uuid_text user.id)
              expires_at
              s.refresh_tokens;
      })
  removed_token :
      (s : AuthState) (hashed : Text)
      → AuthStep os s (record s { refresh_tokens = remove_key hashed s.refresh_tokens })
