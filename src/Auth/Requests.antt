-- ===== src/Auth/Requests.antt =====
-- Any row of calls of `InMemoryAuthService` of backend/auth/service.py, from the constructor on.
pub mod Tokens
use deepdive.Base.{
  ℕ, suc, ◌≡◌, ◌≢◌, ◌<◌, refl, sym, ap, ◌∙◌, true, false, Bool, Option, none, some, List, [], ◌∷◌,
  arith, inl, inr, Bool-cases, Option-cases, subst, All, Pairwise, values, is_some, find_key,
  remove_key, find_key-put_key, find_key-remove_key, lookup-empty, if◌then◌else◌, same_refl, Dict,
  lookup,
}
use deepdive.Text.{Text}
use deepdive.Text.Keyed.{text_key, pair_key}
use deepdive.Exec.{Outcome, ok, err, ◌>>=◌}
use deepdive.Exec.Reach.{Steps, done, then_, Steps-keep, Leads}
use deepdive.Auth.Model.{AuthPlatform, AuthState, AuthError, invalid_refresh_token, TokenPair}
use deepdive.Auth.Tokens.{put_refresh_token, pop_refresh_token}
use deepdive.Auth.Accounts.{
  normalize_email, create_user, create_user_without_password, update_user, assign_roles,
  reset_password,
}
use deepdive.Auth.Registration.{register, login_or_register_external_user}
use deepdive.Auth.Sessions.{token_hash, login, renew, refresh, exchange_code, logout}
use deepdive.Auth.Setup.{
  new_service, new_roles, new_permissions, permission_descriptions, role_permissions,
}
use deepdive.Auth.Steps.{
  AuthStep, drew, added_user, changed_a_user, set_password, linked_identity, issued_token,
  removed_token,
}
use deepdive.Auth.Steps.Accounts.{
  register-Leads, create_user-Leads, create_user_without_password-Leads, update_user-Leads,
  assign_roles-Leads, reset_password-Leads, external-Leads,
}
use deepdive.Auth.Steps.Sessions.{
  without_token, login-Leads, refresh-Steps, refresh-without_token, exchange_code-Leads,
  logout-Leads,
}
use deepdive.Auth.Invariant.{IsConsistent, AuthStep-IsConsistent}

-- A call that may change the state.
pub data AuthRequest : Type 0 where
  registration : Text → Text → Option Text → AuthRequest
  sign_in : Text → Text → AuthRequest
  renewal : Text → AuthRequest
  code_exchange : ℕ → AuthRequest
  sign_out : Text → AuthRequest
  user_creation : Text → Text → Option Text → Option (List Text) → AuthRequest
  passwordless_creation : Text → Option Text → Option (List Text) → AuthRequest
  external_sign_in : Text → Text → Option Text → Text → Bool → Option Text → AuthRequest
  user_update : ℕ → Option Text → Option Bool → AuthRequest
  password_reset : ℕ → Text → AuthRequest
  role_assignment : ℕ → List ℕ → AuthRequest

module _ (os : AuthPlatform) (jwt_secret : Text) where
  -- The state after a call at a time, whether it returned or raised.
  abbrev pub served : AuthRequest → ℕ → AuthState → AuthState
  served (registration email password name) now s = (register os email password name now s).1
  served (sign_in email password) now s = (login os jwt_secret email password now s).1
  served (renewal token) now s = (refresh os jwt_secret token now s).1
  served (code_exchange user_id) now s = (exchange_code os jwt_secret user_id now s).1
  served (sign_out token) now s = (logout os token now s).1
  served (user_creation email password name roles) now s =
      (create_user os email password name roles now s).1
  served (passwordless_creation email name roles) now s =
      (create_user_without_password os email name roles now s).1
  served (external_sign_in provider account login_ email verified name) now s =
      (login_or_register_external_user os provider account login_ email verified name now s).1
  served (user_update user_id name active) now s = (update_user user_id name active now s).1
  served (password_reset user_id password) now s = (reset_password os user_id password s).1
  served (role_assignment user_id role_ids) now s = (assign_roles user_id role_ids now s).1

  abbrev pub all_served : List (AuthRequest × ℕ) → AuthState → AuthState
  all_served [] s = s
  all_served ((q, now) ∷ qs) s = all_served qs (served q now s)

  -- Every call, whether it returns or raises, makes no other change of the state than a row of the steps:
  -- users are added under new emails only, and everything that refers to a user refers to one that is there.
  pub served-Steps :
      (q : AuthRequest) (now : ℕ) (s : AuthState) → Steps (AuthStep os) s (served q now s)
  served-Steps (registration email password name) now s =
      (register-Leads os email password name now s).steps
  served-Steps (sign_in email password) now s =
      (login-Leads os jwt_secret email password now s).steps
  served-Steps (renewal token) now s = refresh-Steps os jwt_secret token now s
  served-Steps (code_exchange user_id) now s =
      (exchange_code-Leads os jwt_secret user_id now s).steps
  served-Steps (sign_out token) now s = (logout-Leads os jwt_secret token now s).steps
  served-Steps (user_creation email password name roles) now s =
      (create_user-Leads os email password name roles now s).steps
  served-Steps (passwordless_creation email name roles) now s =
      (create_user_without_password-Leads os email name roles now s).steps
  served-Steps (external_sign_in provider account login_ email verified name) now s =
      (external-Leads os provider account login_ email verified name now s).steps
  served-Steps (user_update user_id name active) now s =
      (update_user-Leads os user_id name active now s).steps
  served-Steps (password_reset user_id password) now s =
      (reset_password-Leads os user_id password s).steps
  served-Steps (role_assignment user_id role_ids) now s =
      (assign_roles-Leads os user_id role_ids now s).steps

  pub all_served-keep :
      (P : AuthState → Type 0)
      → ((s t : AuthState) → AuthStep os s t → P s → P t)
      → (qs : List (AuthRequest × ℕ)) (s : AuthState) → P s
      → P (all_served qs s)
  all_served-keep P keep_ [] s h = h
  all_served-keep P keep_ ((q, now) ∷ qs) s h =
      all_served-keep P keep_ qs (served q now s) (Steps-keep P keep_ (served-Steps q now s) h)

  new_service-empty :
      (s : AuthState)
      → new_service os ≡ some s
      → (s.users ≡ [])
        × (s.password_hashes ≡ [])
        × (s.external_identities ≡ [])
        × (s.refresh_tokens ≡ [])
  unfolding new_service
  new_service-empty s h =
      elim (Option-cases
        (new_roles os (new_permissions os 0 permission_descriptions) 10 role_permissions)) [
          | inl none_ ↦ ground (arith, h, none_)
          | inr (roles, e) ↦ ground (arith, h, e)
        ]

  new_service-IsConsistent : (s : AuthState) → new_service os ≡ some s → IsConsistent os s
  unfolding lookup find_key
  new_service-IsConsistent s h =
      let (users, password_hashes, identities, tokens) = new_service-empty s h in
      record {
        ids = subst (All (λ row. row.1.id ≡ row.0)) (sym users) tt;
        emails = subst (All (λ row. normalize_email row.1.email ≡ row.1.email)) (sym users) tt;
        distinct_emails =
            subst (λ us. Pairwise (λ u v. u.email ≢ v.email) (values us)) (sym users) tt;
        passwords = λ i there. absurd (cc there);
        identities = λ key x found. absurd (cc (ap (find_key key) identities, found));
        tokens = λ hashed text e found. absurd (cc (ap (find_key hashed) tokens, found));
      }

  -- After any row of calls, returning or raising, from the constructor on, no two users have the same
  -- email, emails are normalized, and password hashes, external identities and refresh tokens belong to
  -- users that are there.
  pub all_served-IsConsistent :
      (start : AuthState) (qs : List (AuthRequest × ℕ))
      → new_service os ≡ some start
      → IsConsistent os (all_served qs start)
  all_served-IsConsistent start qs h =
      all_served-keep (IsConsistent os) (AuthStep-IsConsistent os) qs start
        (new_service-IsConsistent start h)
