-- ===== src/Auth/Access.antt =====
-- Access tokens of backend/auth/service.py: what `current_user` accepts.
use deepdive.Base.{
  ℕ, ◌+◌, ◌≡◌, refl, sym, ap, ◌∙◌, true, none, some, ◌∷◌, ◌++◌, arith, inl, inr, Option-cases,
  Bool-cases, ltb, if◌then◌else◌, lookup,
}
use deepdive.Text.{Text, codes, text_eq}
use deepdive.Json.{Fields, str, get}
use deepdive.Exec.{Outcome, ok, err, Outcome-cases, ◌>>=◌}
use deepdive.Auth.Jwt.{JwtFailure, encode_jwt, decode_jwt, jwt_payload, sign}
use deepdive.Auth.Jwt.Roundtrip.{JwtLaws, jwt_roundtrip, decode_jwt-signed}
use deepdive.Auth.Model.{
  access_token_ttl_seconds, UserRecord, CurrentUser, TokenPair, AuthPlatform, AuthState, AuthError,
  invalid_token,
}
use deepdive.Auth.Accounts.{draw, new_uuid7}
use deepdive.Auth.Sessions.{
  current_user_from_record, timestamp, token_failure, access_claims, subject_id, active_user,
  issue_tokens, current_user,
}

module _ (os : AuthPlatform) (jwt_secret : Text) where
  -- The user that a token of a subject is accepted as.
  abbrev pub accepted_as : ℕ → AuthState → Outcome AuthError CurrentUser
  accepted_as user_id s = elim (active_user os user_id s.users) [
    | none ↦ err invalid_token
    | some user ↦ ok (current_user_from_record user)
  ]

  claimed : Outcome JwtFailure Fields → AuthState → Outcome AuthError CurrentUser
  claimed (err e) s = err (token_failure e)
  claimed (ok claims) s = elim (subject_id os (get (codes "sub") claims)) [
    | none ↦ err invalid_token
    | some user_id ↦ accepted_as user_id s
  ]

  current_user-claimed :
      (token : Text) (now : ℕ) (s : AuthState)
      → current_user os jwt_secret token now s
        ≡ (claimed (decode_jwt os.jwt token jwt_secret (timestamp now)) s, s)
  unfolding current_user claimed ◌>>=◌
  current_user-claimed token now s = ground arith

  access_token-issued :
      (user : UserRecord) (now : ℕ) (s : AuthState) (pair : TokenPair)
      → (issue_tokens os jwt_secret user now s).0 ≡ ok pair
      → pair.access_token
        ≡ encode_jwt os.jwt
            (access_claims os user (os.uuid7 s.drawn))
            jwt_secret
            (timestamp now)
            access_token_ttl_seconds
  unfolding issue_tokens new_uuid7 draw ◌>>=◌
  access_token-issued user now s pair issued =
      let token_of : Outcome AuthError TokenPair → Text =
        λ r. elim r [ ok p ↦ p.access_token | err _ ↦ pair.access_token ] in
      ap token_of (sym issued)

  claimed-user :
      (claims : Fields) (s : AuthState) (accepted : CurrentUser)
      → claimed (ok claims) s ≡ ok accepted
      → (user_id : ℕ) × (user : UserRecord) × (lookup user_id s.users ≡ some user)
        × (user.is_active ≡ true)
        × (accepted ≡ current_user_from_record user)
  unfolding claimed active_user
  claimed-user claims s accepted h =
      elim (Option-cases (subject_id os (get (codes "sub") claims))) [
        | inl none_ ↦ absurd (ground (arith, h, none_))
        | inr (user_id, e) ↦ elim (Option-cases (lookup user_id s.users)) [
          | inl none_ ↦ absurd (ground (arith, h, e, none_))
          | inr (user, found) ↦
              (user_id, user, found, ground (arith, h, e, found), ground (arith, h, e, found))
        ]
      ]

  claimed-subject :
      (user_id : ℕ) (claims : Fields) (s : AuthState)
      → os.parse_uuid (os.uuid_text user_id) ≡ some user_id
      → get (codes "sub") claims ≡ str (os.uuid_text user_id)
      → claimed (ok claims) s ≡ accepted_as user_id s
  unfolding claimed subject_id
  claimed-subject user_id claims s parsed subject =
      let named : subject_id os (get (codes "sub") claims) ≡ some user_id =
        ap (subject_id os) subject ∙ parsed in
      rw (claimed, named) refl

  -- Whoever a token is accepted as is there and active, and the token carries the signature of all in front of it.
  pub current_user-active :
      (token : Text) (now : ℕ) (s : AuthState) (accepted : CurrentUser)
      → (current_user os jwt_secret token now s).0 ≡ ok accepted
      → (user : UserRecord) × (user_id : ℕ) × (lookup user_id s.users ≡ some user)
        × (user.is_active ≡ true)
        × (accepted ≡ current_user_from_record user)
        × ((signing_input : Text) × (token
              ≡ signing_input ++ b'.' ∷ sign os.jwt signing_input jwt_secret))
  unfolding claimed
  current_user-active token now s accepted h =
      let accepted_claims : claimed (decode_jwt os.jwt token jwt_secret (timestamp now)) s
          ≡ ok accepted =
        sym (ap (λ p. p.0) (current_user-claimed token now s)) ∙ h in
      elim (Outcome-cases (decode_jwt os.jwt token jwt_secret (timestamp now))) [
        | inr (e, failed) ↦ absurd (ground (arith, accepted_claims, failed))
        | inl (claims, decoded) ↦
            let subject_accepted = sym (ap (λ r. claimed r s) decoded) ∙ accepted_claims in
            let (user_id, user, found, active, is) =
              claimed-user claims s accepted subject_accepted in
            (
              user,
              user_id,
              found,
              active,
              is,
              decode_jwt-signed os.jwt token jwt_secret (timestamp now) claims decoded,
            )
      ]

  module _ (laws : JwtLaws os.jwt) where
    subject-jwt_payload :
        (user : UserRecord) (jti now delta : ℕ)
        → get (codes "sub") (laws.sorted_keys (jwt_payload (access_claims os user jti) now delta))
          ≡ str (os.uuid_text user.id)
    unfolding jwt_payload access_claims get text_eq
    subject-jwt_payload user jti now delta =
        laws.values_kept (codes "sub") (jwt_payload (access_claims os user jti) now delta)

    pub current_user-issue_tokens :
        ((i : ℕ) → os.parse_uuid (os.uuid_text i) ≡ some i)
        → (user : UserRecord) (now : ℕ) (s : AuthState) (pair : TokenPair)
        → (issue_tokens os jwt_secret user now s).0 ≡ ok pair
        → (last : ℕ) (t : AuthState)
        → current_user os jwt_secret pair.access_token last t ≡ (
          if ltb (timestamp now + access_token_ttl_seconds) (timestamp last)
              then err invalid_token
              else accepted_as user.id t,
          t,
        )
    unfolding claimed
    current_user-issue_tokens parsed user now s pair issued last t =
        let jti = os.uuid7 s.drawn in
        let claims =
          jwt_payload (access_claims os user jti) (timestamp now) access_token_ttl_seconds in
        let decoded =
          ap (λ token. decode_jwt os.jwt token jwt_secret (timestamp last))
            (access_token-issued user now s pair issued)
          ∙ jwt_roundtrip os.jwt laws (access_claims os user jti) jwt_secret (timestamp now)
              access_token_ttl_seconds (timestamp last) in
        let subject =
          claimed-subject user.id (laws.sorted_keys claims) t (parsed user.id)
            (subject-jwt_payload user jti (timestamp now) access_token_ttl_seconds) in
        current_user-claimed pair.access_token last t
        ∙ ap (λ r. (claimed r t, t)) decoded
        ∙ elim (Bool-cases (ltb (timestamp now + access_token_ttl_seconds) (timestamp last))) [
          | inl late ↦ rw late refl
          | inr in_time ↦ rw (in_time, subject) refl
        ]
