-- ===== src/Auth/Login.antt =====
-- Passwords of backend/auth/service.py: what `login` accepts.
use deepdive.Base.{
  ℕ, suc, ◌≡◌, refl, sym, subst, ap, ◌∙◌, true, Bool, Option, none, some, List, [], ◌∷◌, arith, inl,
  inr, Option-cases, if◌then◌else◌, Dict, lookup, insert, distinct, lookup-insert_self,
}
use deepdive.Base.Int.{pos}
use deepdive.Text.{Text, text_eq}
use deepdive.Text.Keyed.{text_key}
use deepdive.Text.Lemmas.{text_eq_iff}
use deepdive.Text.Decimal.{decimal}
use deepdive.Exec.{ok, err, ok-injective, Outcome-cases, ◌>>=◌}
use deepdive.Auth.Jwt.Roundtrip.{JwtLaws}
use deepdive.Auth.Model.{UserRecord, TokenPair, AuthPlatform, AuthState, invalid_credentials}
use deepdive.Auth.Passwords.{password_iterations, hash_password, verify_password}
use deepdive.Auth.Passwords.Verify.{verify_password-hash_password}
use deepdive.Auth.Accounts.{
  normalize_email, user_by_email, draw, new_user, new_uuid7, named_roles, roles_by_names, or_member,
  put_password, create_user, create_user_without_password, reset_password, put_user,
}
use deepdive.Auth.Sessions.{issue_tokens, login}

-- PBKDF2 does not fail on the iterations of the backend, and `int` reads a decimal.
pub record PasswordLaws (os : AuthPlatform) : Type 0 where
  pub derive : Text → List ℕ → List ℕ
  pub derived :
      (password : Text) (salt : List ℕ)
      → os.pbkdf2_sha256 password salt (pos password_iterations) ≡ some (derive password salt)
  pub read_iterations : os.parse_int (decimal password_iterations) ≡ some (pos password_iterations)

module _ (os : AuthPlatform) (jwt_secret : Text) where
  -- Tokens are given by `login` only for the email of an active user with a stored hash that the password
  -- passes, and are those of that user.
  pub login-verified :
      (email password : Text) (now : ℕ) (s : AuthState) (pair : TokenPair)
      → (login os jwt_secret email password now s).0 ≡ ok pair
      → (user : UserRecord) × (password_hash : Text) × (user_by_email
            (normalize_email email)
            s.users
          ≡ some user)
        × (user.is_active ≡ true)
        × (lookup user.id s.password_hashes ≡ some password_hash)
        × (verify_password os password password_hash ≡ some true)
        × (login os jwt_secret email password now s ≡ issue_tokens os jwt_secret user now s)
  unfolding login ◌>>=◌
  login-verified email password now s pair h =
      elim (Option-cases (user_by_email (normalize_email email) s.users)) [
        | inl none_ ↦ absurd (ground (arith, h, none_))
        | inr (user, found) ↦ elim (Option-cases (lookup user.id s.password_hashes)) [
          | inl none_ ↦ absurd (ground (arith, h, found, none_))
          | inr (password_hash, stored) ↦ (
            user,
            password_hash,
            found,
            ground (arith, h, found, stored),
            stored,
            ground (arith, h, found, stored),
            ground (arith, h, found, stored),
          )
        ]
      ]

  login-open :
      (email password : Text) (now : ℕ) (s : AuthState) (user : UserRecord) (password_hash : Text)
      (same : Bool)
      → user_by_email (normalize_email email) s.users ≡ some user
      → user.is_active ≡ true
      → lookup user.id s.password_hashes ≡ some password_hash
      → verify_password os password password_hash ≡ some same
      → login os jwt_secret email password now s
        ≡ (if same then issue_tokens os jwt_secret user now s else (err invalid_credentials, s))
  unfolding login ◌>>=◌
  login-open email password now s user password_hash same found active stored verified =
      ground arith

-- Whether an attempt has the digest of the password, under the salt.
abbrev pub same_digest : {os : AuthPlatform} → PasswordLaws os → Text → Text → List ℕ → Bool
same_digest laws attempt password salt =
    text_eq (laws.derive attempt salt) (laws.derive password salt)

-- The state in which a password is set.
abbrev pub with_password : ℕ → Text → AuthState → AuthState
with_password user_id password_hash s = record s {
  drawn = suc s.drawn;
  password_hashes = insert user_id password_hash s.password_hashes;
}

module _ (os : AuthPlatform) (jwt : JwtLaws os.jwt) (laws : PasswordLaws os) where
  put_password-hash :
      (user_id : ℕ) (password : Text) (s : AuthState)
      → (password_hash : Text) × (hash_password os password (os.token_bytes s.drawn)
          ≡ some password_hash)
        × (put_password os user_id password s ≡ (ok tt, with_password user_id password_hash s))
  unfolding put_password draw ◌>>=◌ hash_password
  put_password-hash user_id password s =
      elim (Option-cases (hash_password os password (os.token_bytes s.drawn))) [
        | inl none_ ↦ absurd (ground (arith, laws.derived password (os.token_bytes s.drawn), none_))
        | inr (password_hash, made) ↦ (password_hash, made, rw made refl)
      ]

  -- The login of an active user whose password was just set.
  login-put_password :
      (jwt_secret email password attempt : Text) (user : UserRecord) (now : ℕ) (s t : AuthState)
      → user_by_email (normalize_email email) s.users ≡ some user
      → user.is_active ≡ true
      → put_password os user.id password s ≡ (ok tt, t)
      → login os jwt_secret email attempt now t ≡ (
          if same_digest laws attempt password (os.token_bytes s.drawn)
          then issue_tokens os jwt_secret user now t
          else (err invalid_credentials, t))
  login-put_password jwt_secret email password attempt user now s t found active put =
      let (password_hash, made, is) = put_password-hash user.id password s in
      let salt = os.token_bytes s.drawn in
      let t_is : with_password user.id password_hash s ≡ t = ap (λ p. p.1) (sym is ∙ put) in
      subst
        (λ u. login os jwt_secret email attempt now u ≡ (
          if same_digest laws attempt password salt
          then issue_tokens os jwt_secret user now u
          else (err invalid_credentials, u)))
        t_is
        (login-open os jwt_secret email attempt now (with_password user.id password_hash s) user
          password_hash (same_digest laws attempt password salt) found active
          (lookup-insert_self user.id password_hash s.password_hashes)
          (verify_password-hash_password os jwt password attempt salt (laws.derive password salt)
            (laws.derive attempt salt) password_hash laws.read_iterations
            (laws.derived password salt) (laws.derived attempt salt) made))

  -- After `reset_password` of an active user, `login` with the user's email, in any case of its letters and
  -- with any space around, accepts exactly the passwords with the digest of the new one, and refuses the
  -- others, the old password among them, with INVALID_CREDENTIALS.
  pub login-reset_password :
      (jwt_secret email password attempt : Text) (user : UserRecord) (now : ℕ) (s t : AuthState)
      → user_by_email (normalize_email email) s.users ≡ some user
      → user.is_active ≡ true
      → lookup user.id s.users ≡ some user
      → (reset_password os user.id password s).1 ≡ t
      → login os jwt_secret email attempt now t ≡ (
          if same_digest laws attempt password (os.token_bytes s.drawn)
          then issue_tokens os jwt_secret user now t
          else (err invalid_credentials, t))
  unfolding reset_password ◌>>=◌
  login-reset_password jwt_secret email password attempt user now s t found active there reset =
      let (password_hash, made, is) = put_password-hash user.id password s in
      let put : put_password os user.id password s ≡ (ok tt, t) =
        is ∙ ground (arith, there, is, reset) in
      login-put_password jwt_secret email password attempt user now s t found active put

user_by_email-insert :
    (user : UserRecord) (email : Text) (users : Dict UserRecord)
    → user_by_email email users ≡ none
    → user.email ≡ email
    → user_by_email email (insert user.id user users) ≡ some user
unfolding user_by_email insert
user_by_email-insert user email [] h same = ground (arith, text_eq_iff user.email email)
user_by_email-insert user email ((k, w) ∷ users) h same =
    ground (arith, text_eq_iff user.email email, user_by_email-insert user email users)

module _ (os : AuthPlatform) where
  -- What a created user is found by.
  created_user :
      (email : Text) (name : Option Text) (roles : Option (List Text)) (now : ℕ) (s t : AuthState)
      → (user : UserRecord) → create_user_without_password os email name roles now s ≡ (ok user, t)
      → (user_by_email (normalize_email email) t.users ≡ some user)
        × (user.is_active ≡ true)
        × (t.drawn ≡ suc s.drawn)
  unfolding create_user_without_password roles_by_names new_uuid7 draw ◌>>=◌
  created_user email name roles now s t user h =
      elim (Option-cases (user_by_email (normalize_email email) s.users)) [
        | inr (other, found) ↦ absurd (ground (arith, h, found))
        | inl fresh ↦ elim (Outcome-cases (named_roles s.roles (distinct (or_member roles)))) [
          | inr (e, failed) ↦ absurd (ground (arith, h, fresh, failed))
          | inl (granted, named) ↦
              let v = new_user (os.uuid7 s.drawn) (normalize_email email) name granted now in
              let u : AuthState = put_user v (record s { drawn = suc s.drawn }) in
              let made : create_user_without_password os email name roles now s ≡ (ok v, u) =
                rw (create_user_without_password, fresh, named) refl in
              let v_is : v ≡ user = ok-injective (ap (λ p. p.0) (sym made ∙ h)) in
              let t_is : u ≡ t = ap (λ p. p.1) (sym made ∙ h) in
              (
                sym (ap (λ x. user_by_email (normalize_email email) x.users) t_is)
                    ∙ user_by_email-insert v (normalize_email email) s.users fresh refl
                    ∙ ap some v_is,
                sym (ap (λ x. x.is_active) v_is),
                sym (ap (λ x. x.drawn) t_is),
              )
        ]
      ]

  created_parts :
      (email password : Text) (name : Option Text) (roles : Option (List Text)) (now : ℕ)
      (s t : AuthState)
      → (user : UserRecord) → create_user os email password name roles now s ≡ (ok user, t)
      → (u : AuthState) × (create_user_without_password os email name roles now s ≡ (ok user, u))
        × (put_password os user.id password u ≡ (ok tt, t))
  unfolding create_user ◌>>=◌
  created_parts email password name roles now s t user h =
      elim (Outcome-cases (create_user_without_password os email name roles now s).0) [
        | inr (e, failed) ↦ absurd (ground (arith, h, failed))
        | inl (made, created) ↦
            let u = (create_user_without_password os email name roles now s).1 in
            elim (Outcome-cases (put_password os made.id password u).0) [
              | inr (e, failed) ↦ absurd (ground (arith, h, created, failed))
              | inl (_, put) ↦
                  let v = (put_password os made.id password u).1 in
                  let ended : create_user os email password name roles now s ≡ (ok made, v) =
                    rw (create_user, created, put) refl in
                  let made_is : made ≡ user = ok-injective (ap (λ p. p.0) (sym ended ∙ h)) in
                  let v_is : v ≡ t = ap (λ p. p.1) (sym ended ∙ h) in
                  (
                    u,
                    ap (λ r. (r, u)) (created ∙ ap ok made_is),
                    ap (λ x. put_password os x.id password u) (sym made_is)
                        ∙ ap (λ r. (r, v)) put
                        ∙ ap (λ x. (ok tt, x)) v_is,
                  )
            ]
      ]

module _ (os : AuthPlatform) (jwt : JwtLaws os.jwt) (laws : PasswordLaws os) where
  -- Whoever was created, by `create_user`, with an email and a password signs in with them: `login` with the
  -- email, in any case of its letters and with any space around, accepts exactly the passwords with the
  -- digest of that one, and refuses the others with INVALID_CREDENTIALS.
  pub login-create_user :
      (jwt_secret email password : Text) (name : Option Text) (roles : Option (List Text)) (now : ℕ)
      (s t : AuthState)
      → (user : UserRecord) → create_user os email password name roles now s ≡ (ok user, t)
      → (other attempt : Text) (last : ℕ) → normalize_email other ≡ normalize_email email
      → login os jwt_secret other attempt last t ≡ (
          if same_digest laws attempt password (os.token_bytes (suc s.drawn))
          then issue_tokens os jwt_secret user last t
          else (err invalid_credentials, t))
  login-create_user jwt_secret email password name roles now s t user h other attempt last same =
      let (u, created, put) = created_parts os email password name roles now s t user h in
      let (found, active, drawn_) = created_user os email name roles now s u user created in
      login-put_password os jwt laws jwt_secret other password attempt user last u t
        (ap (λ e. user_by_email e u.users) same ∙ found) active put
      ∙ ap
          (λ n.
            if same_digest laws attempt password (os.token_bytes n)
            then issue_tokens os jwt_secret user last t
            else (err invalid_credentials, t))
          drawn_
