-- ===== src/Auth/Steps/Sessions.antt =====
-- The methods of backend/auth/service.py that issue and accept tokens are rows of steps.
use deepdive.Base.{
  ℕ, suc, ◌+◌, ◌≡◌, Option, some, Member, lookup, values, Option-cases, inl, inr, arith,
}
use deepdive.Text.{Text}
use deepdive.Exec.{◌>>=◌}
use deepdive.Exec.Reach.{
  Steps, then_, one_step, Leads, Anything, Leads-gets, Leads-or_raise, Leads-raise_if,
  Leads-modify_last,
}
use deepdive.Auth.Model.{UserRecord, AuthPlatform, AuthState}
use deepdive.Auth.Tokens.{pop_refresh_token}
use deepdive.Auth.Accounts.{draw, new_uuid7}
use deepdive.Auth.Sessions.{
  refresh_token_ttl, token_hash, active_user, issue_tokens, login, renew, refresh, exchange_code,
  logout,
}
use deepdive.Auth.Steps.{AuthStep, drew, issued_token, removed_token}
use deepdive.Auth.Steps.Accounts.{Member-lookup, Member-user_by_email}

Member-active_user :
    (os : AuthPlatform) (user_id : ℕ) (user : UserRecord) (s : AuthState)
    → active_user os user_id s.users ≡ some user
    → Member user (values s.users)
unfolding active_user
Member-active_user os user_id user s h = elim (Option-cases (lookup user_id s.users)) [
  | inl none_ ↦ absurd (ground (arith, none_))
  | inr (found, e) ↦ Member-lookup user_id user s.users (ground (arith, e))
]

module _ (os : AuthPlatform) (jwt_secret : Text) where
  pub issue_tokens-Leads :
      (user : UserRecord) (now : ℕ) (s : AuthState)
      → Member user (values s.users)
      → Leads (AuthStep os) s (issue_tokens os jwt_secret user now) Anything
  unfolding issue_tokens new_uuid7 draw ◌>>=◌
  issue_tokens-Leads user now s there = record {
    steps = then_ (drew s) (
        one_step
          (issued_token (record s { drawn = suc s.drawn }) user (now + refresh_token_ttl) there));
    ends = tt;
  }

  pub login-Leads :
      (email password : Text) (now : ℕ) (s : AuthState)
      → Leads (AuthStep os) s (login os jwt_secret email password now) Anything
  unfolding login
  login-Leads email password now s = Leads-gets _ _ (
      Leads-or_raise _ _ _ (λ user found. Leads-raise_if _ _ _ (λ active. Leads-gets _ _ (
        Leads-or_raise _ _ _ (λ password_hash e. Leads-or_raise _ _ _ (λ verified e'.
          Leads-raise_if _ _ _
            (λ yes. issue_tokens-Leads user now s (Member-user_by_email _ user s.users found))))))))

  -- The state once the token of a `refresh` or `logout` is taken out.
  abbrev pub without_token : Text → ℕ → AuthState → AuthState
  without_token refresh_token now s = record s {
    refresh_tokens = (pop_refresh_token (token_hash os refresh_token) now s.refresh_tokens).1;
  }

  renew-Leads :
      (popped : Option Text) (now : ℕ) (s : AuthState)
      → Leads (AuthStep os) s (renew os jwt_secret popped now) Anything
  unfolding renew
  renew-Leads popped now s = Leads-or_raise _ _ _ (λ user_id_text e.
      Leads-or_raise _ _ _ (λ user_id e'. Leads-gets _ _ (
        Leads-or_raise _ _ _ (λ user found.
          issue_tokens-Leads user now s (Member-active_user os user_id user s found)))))

  -- `refresh` takes the token out first.
  pub refresh-without_token :
      (refresh_token : Text) (now : ℕ) (s : AuthState)
      → Steps
          (AuthStep os)
          (without_token refresh_token now s)
          (refresh os jwt_secret refresh_token now s).1
  unfolding refresh ◌>>=◌
  refresh-without_token refresh_token now s =
      (renew-Leads (pop_refresh_token (token_hash os refresh_token) now s.refresh_tokens).0 now
        (without_token refresh_token now s)).steps

  pub refresh-Steps :
      (refresh_token : Text) (now : ℕ) (s : AuthState)
      → Steps (AuthStep os) s (refresh os jwt_secret refresh_token now s).1
  unfolding pop_refresh_token
  refresh-Steps refresh_token now s =
      then_ (removed_token s (token_hash os refresh_token))
        (refresh-without_token refresh_token now s)

  pub exchange_code-Leads :
      (user_id now : ℕ) (s : AuthState)
      → Leads (AuthStep os) s (exchange_code os jwt_secret user_id now) Anything
  unfolding exchange_code
  exchange_code-Leads user_id now s = Leads-gets _ _ (
      Leads-or_raise _ _ _
        (λ user found. issue_tokens-Leads user now s (Member-active_user os user_id user s found)))

  pub logout-Leads :
      (refresh_token : Text) (now : ℕ) (s : AuthState)
      → Leads (AuthStep os) s (logout os refresh_token now) Anything
  unfolding logout
  logout-Leads refresh_token now s =
      Leads-modify_last _ (removed_token s (token_hash os refresh_token)) tt
