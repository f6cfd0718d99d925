-- ===== src/Auth/Registration.antt =====
-- backend/auth/service.py: how an account of `InMemoryAuthService` comes to be, by a password or by an
-- account elsewhere.
use deepdive.Base.{ℕ, Bool, not, Option, some, [], ◌∷◌, lookup, find_key, put_key, is_some}
use deepdive.Text.{Text}
use deepdive.Text.Keyed.{text_key, pair_key}
use deepdive.Exec.{pure, gets, modify, raise_if, or_raise, on_option, ◌>>=◌, ◌>>◌}
use deepdive.Auth.Model.{
  UserRecord, ExternalIdentityRecord, user_already_exists, invalid_credentials, AuthPlatform,
  AuthAction,
}
use deepdive.Auth.Accounts.{
  normalize_email, user_by_email, first_role, create_user, create_user_without_password,
}

module _ (os : AuthPlatform) where
  -- `register`
  unfoldable pub register : Text → Text → Option Text → ℕ → AuthAction UserRecord
  register email password display_name now = do
    let normalized_email = normalize_email email
    existing ← gets (λ s. user_by_email normalized_email s.users)
    raise_if (is_some existing) user_already_exists
    role_name ← gets (λ s. first_role s.users)
    create_user os normalized_email password display_name (some (role_name ∷ [])) now

  -- The user that an external identity is linked to: the one with its email, or a new one.
  unfoldable pub linked_user : Text → Option Text → ℕ → AuthAction UserRecord
  linked_user normalized_email display_name now = do
    existing ← gets (λ s. user_by_email normalized_email s.users)
    role_name ← gets (λ s. first_role s.users)
    on_option existing
        (create_user_without_password os normalized_email display_name (some (role_name ∷ [])) now)
        pure

  -- `login_or_register_external_user`
  unfoldable pub login_or_register_external_user :
      Text → Text → Option Text → Text → Bool → Option Text → ℕ → AuthAction UserRecord
  unfolding find_key put_key
  login_or_register_external_user provider account login email email_verified display_name now = do
    let normalized_email = normalize_email email
    identity ← gets (λ s. find_key (provider, account) s.external_identities)
    on_option identity
        (do
          user ← linked_user normalized_email display_name now
          let linked : ExternalIdentityRecord = record {
            user_id = user.id;
            provider = provider;
            provider_account_id = account;
            provider_login = login;
            provider_email = normalized_email;
            provider_email_verified = email_verified;
          }
          modify (λ s. record s {
            external_identities = put_key (provider, account) linked s.external_identities;
          })
          pure user)
        (λ known. do
          found ← gets (λ s. lookup known.user_id s.users)
          user ← or_raise found invalid_credentials
          raise_if (not user.is_active) invalid_credentials
          pure user)
