-- ===== src/Auth/Tests/Service.antt =====
-- Concrete runs of backend/auth/service.py.
use deepdive.Base.{
  ℕ, ◌≡◌, ◌++◌, refl, ap, true, false, none, some, List, [], ◌∷◌, arith, lookup, insert, find_key,
}
use deepdive.Text.{Text, codes, text_eq}
use deepdive.Text.Keyed.{text_key}
use deepdive.Exec.{ok, err, ◌>>=◌}
use deepdive.Exec.Reach.{Steps}
use deepdive.Auth.Jwt.{sign}
use deepdive.Auth.Model.{
  AuthState, UserRecord, RoleRecord, TokenPair, invalid_credentials, invalid_refresh_token,
}
use deepdive.Auth.Passwords.{hash_password, verify_password}
use deepdive.Auth.Accounts.{
  new_user, create_user, reset_password, normalize_email, user_by_email, new_uuid7, draw,
  create_user_without_password, roles_by_names, put_password,
}
use deepdive.Auth.Registration.{register}
use deepdive.Auth.Sessions.{
  active_user, current_user_from_record, login, refresh, logout, issue_tokens, token_hash,
}
use deepdive.Auth.Setup.{new_service}
use deepdive.Auth.Steps.{AuthStep}
use deepdive.Auth.Invariant.{IsConsistent}
use deepdive.Auth.Requests.{
  AuthRequest, registration, sign_in, user_update, all_served, served-Steps,
  all_served-IsConsistent,
}
use deepdive.Auth.Access.{current_user-issue_tokens, current_user-active}
use deepdive.Auth.Login.{login-verified, login-reset_password, login-create_user, PasswordLaws}
use deepdive.Auth.Tests.Codec.{plain_jwt, plain_jwt-laws}
use deepdive.Auth.Requests.Tokens.{DistinctTokens, refresh_once, logout_ends}
use deepdive.Auth.Tests.Platform.{plain_os}

abbrev secret : Text
secret = codes "s"

abbrev nothing : AuthState
nothing = record {
  permissions = [];
  roles = [];
  users = [];
  password_hashes = [];
  external_identities = [];
  refresh_tokens = [];
  drawn = 0;
}

-- The state after the constructor.
abbrev started : AuthState
unfolding new_service
started = elim (new_service plain_os) [ none ↦ nothing | some s ↦ s ]

-- "Ada@x" is registered and signs in, and is deactivated.
abbrev requests : List (AuthRequest × ℕ)
requests =
    (registration (codes " Ada@x") (codes "a") none, 1)
    ∷ (sign_in (codes "ada@X") (codes "a"), 2)
    ∷ (user_update 13 none (some false), 3)
    ∷ []

served-Steps_example :
    Steps
      (AuthStep plain_os)
      started
      (register plain_os (codes " Ada@x") (codes "a") none 1 started).1
served-Steps_example =
    served-Steps plain_os secret (registration (codes " Ada@x") (codes "a") none) 1 started

all_served-IsConsistent_example :
    IsConsistent plain_os (all_served plain_os secret requests started)
unfolding new_service text_eq
all_served-IsConsistent_example = all_served-IsConsistent plain_os secret started requests refl

distinct_tokens : DistinctTokens plain_os
unfolding token_hash
distinct_tokens n m h = cc h

-- "Ada@x" is registered.
abbrev with_ada : AuthState
with_ada = (create_user plain_os (codes " Ada@x") (codes "a") none none 1 started).1

abbrev ada : UserRecord
ada = new_user 13 (codes "ada@x") none (member_roles started) 1
  where
    member_roles : AuthState → List RoleRecord
    member_roles s = elim (find_key (codes "member") s.roles) [ none ↦ [] | some role ↦ role ∷ [] ]

abbrev issued : TokenPair
issued = elim (issue_tokens plain_os secret ada 2000000 with_ada).0 [ ok p ↦ p | err _ ↦ no_tokens ]
  where
    no_tokens : TokenPair
    no_tokens = record { access_token = []; refresh_token = []; token_type = []; expires_in = 0 }

-- Ada holds the token 16, the last draw.
abbrev with_token : AuthState
with_token = (issue_tokens plain_os secret ada 2000000 with_ada).1

drawn_16 : with_token.drawn ≡ 17
unfolding new_service text_eq issue_tokens ◌>>=◌ new_uuid7 draw active_user create_user
    create_user_without_password roles_by_names put_password hash_password insert normalize_email
drawn_16 = refl

refresh_once_example :
    (refresh plain_os secret
      (16 ∷ [])
      9
      (all_served plain_os secret requests (refresh plain_os secret (16 ∷ []) 4 with_token).1)).0
    ≡ err invalid_refresh_token
refresh_once_example =
    refresh_once plain_os secret 16 distinct_tokens with_token 4 requests 9
      (omega (arith, drawn_16))

logout_ends_example :
    (refresh plain_os secret
      (16 ∷ [])
      9
      (all_served plain_os secret requests (logout plain_os (16 ∷ []) 4 with_token).1)).0
    ≡ err invalid_refresh_token
logout_ends_example =
    logout_ends plain_os secret 16 distinct_tokens with_token 4 requests 9 (omega (arith, drawn_16))

current_user-active_example :
    (user : UserRecord) × (user_id : ℕ) × (lookup user_id with_ada.users ≡ some user)
    × (user.is_active ≡ true)
    × (current_user_from_record ada ≡ current_user_from_record user)
    × ((signing_input : Text) × (issued.access_token
          ≡ signing_input ++ b'.' ∷ sign plain_jwt signing_input secret))
unfolding new_service text_eq issue_tokens ◌>>=◌ new_uuid7 draw active_user create_user
    create_user_without_password roles_by_names put_password hash_password insert normalize_email
current_user-active_example =
    current_user-active plain_os secret issued.access_token 5000000 with_ada
      (current_user_from_record ada)
      (ap (λ p. p.0)
        (current_user-issue_tokens plain_os secret plain_jwt-laws (λ i. refl) ada 2000000 with_ada
          issued refl 5000000 with_ada))

abbrev plain_passwords : PasswordLaws plain_os
plain_passwords = record {
  derive = λ password salt. salt ++ password;
  derived = λ password salt. refl;
  read_iterations = refl;
}

login-create_user_example :
    login plain_os secret (codes "ADA@X ") (codes "a") 3 with_ada
    ≡ issue_tokens plain_os secret ada 3 with_ada
unfolding new_service text_eq issue_tokens ◌>>=◌ new_uuid7 draw active_user create_user
    create_user_without_password roles_by_names put_password hash_password insert normalize_email
login-create_user_example =
    login-create_user plain_os plain_jwt-laws plain_passwords secret (codes " Ada@x") (codes "a")
      none none 1 started with_ada ada refl (codes "ADA@X ") (codes "a") 3 refl

login-reset_password_example :
    login plain_os secret
      (codes "ada@x")
      (codes "a")
      3
      (reset_password plain_os 13 (codes "b") with_ada).1
    ≡ (err invalid_credentials, (reset_password plain_os 13 (codes "b") with_ada).1)
unfolding new_service text_eq issue_tokens ◌>>=◌ new_uuid7 draw active_user create_user
    create_user_without_password roles_by_names put_password hash_password insert normalize_email
login-reset_password_example =
    login-reset_password plain_os plain_jwt-laws plain_passwords secret (codes "ada@x") (codes "b")
      (codes "a") ada 3 with_ada (reset_password plain_os 13 (codes "b") with_ada).1 refl refl refl
      refl

login-verified_example :
    (user : UserRecord) × (password_hash : Text) × (user_by_email (codes "ada@x") with_ada.users
      ≡ some user)
    × (user.is_active ≡ true)
    × (lookup user.id with_ada.password_hashes ≡ some password_hash)
    × (verify_password plain_os (codes "a") password_hash ≡ some true)
    × (login plain_os secret (codes "ada@x") (codes "a") 2000000 with_ada
        ≡ issue_tokens plain_os secret user 2000000 with_ada)
unfolding new_service text_eq issue_tokens ◌>>=◌ new_uuid7 draw active_user create_user
    create_user_without_password roles_by_names put_password hash_password insert normalize_email
login-verified_example =
    login-verified plain_os secret (codes "ada@x") (codes "a") 2000000 with_ada issued (
      ap (λ p. p.0)
        (login-create_user plain_os plain_jwt-laws plain_passwords secret (codes " Ada@x")
          (codes "a") none none 1 started with_ada ada refl (codes "ada@x") (codes "a") 2000000
          refl))
