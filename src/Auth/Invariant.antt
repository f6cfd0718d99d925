-- ===== src/Auth/Invariant.antt =====
-- What the state of `InMemoryAuthService` of backend/auth/service.py satisfies after each step.
use deepdive.Base.{
  ℕ, ◌≡◌, ◌≢◌, refl, sym, ap, ◌∙◌, subst, true, none, some, [], ◌∷◌, arith, All, Pairwise, Member,
  first, later, Dict, lookup, values, lookup-insert, is_some, Bool-cases, inl, inr, find_key,
  find_key-put_key, find_key-remove_key, All-Member,
}
use deepdive.Auth.Rows.{All-insert, Pairwise-insert, Pairwise-replace, is_some-insert, All-lookup}
use deepdive.Text.{Text}
use deepdive.Text.Keyed.{text_key, pair_key}
use deepdive.Text.Lemmas.{text_eq_iff}
use deepdive.Auth.Model.{UserRecord, ExternalIdentityRecord, AuthPlatform, AuthState}
use deepdive.Auth.Tokens.{put_refresh_token}
use deepdive.Auth.Accounts.{normalize_email, user_by_email, put_user}
use deepdive.Auth.Emails.{normalize_email_idem}
use deepdive.Auth.Sessions.{token_hash}
use deepdive.Auth.Steps.{
  AuthStep, drew, added_user, changed_a_user, set_password, linked_identity, issued_token,
  removed_token,
}

-- There is a user with the id.
abbrev pub HasUser : ℕ → AuthState → Type 0
HasUser user_id s = is_some (lookup user_id s.users) ≡ true

-- Users stand under their ids, with normalized emails, of which no two are the same; password hashes,
-- external identities and refresh tokens belong to users that are there.
pub record IsConsistent (os : AuthPlatform) (s : AuthState) : Type 0 where
  pub ids : All (λ row. row.1.id ≡ row.0) s.users
  pub emails : All (λ row. normalize_email row.1.email ≡ row.1.email) s.users
  pub distinct_emails : Pairwise (λ u v. u.email ≢ v.email) (values s.users)
  pub passwords :
      (user_id : ℕ) → is_some (lookup user_id s.password_hashes) ≡ true → HasUser user_id s
  pub identities :
      (key : Text × Text) (identity : ExternalIdentityRecord)
      → find_key key s.external_identities ≡ some identity
      → HasUser identity.user_id s
  pub tokens :
      (hashed user_id_text : Text) (expires_at : ℕ)
      → find_key hashed s.refresh_tokens ≡ some (user_id_text, expires_at)
      → (user_id : ℕ) × (user_id_text ≡ os.uuid_text user_id) × HasUser user_id s

Member-HasUser :
    (user : UserRecord) (users : Dict UserRecord)
    → All (λ row. row.1.id ≡ row.0) users
    → Member user (values users)
    → is_some (lookup user.id users) ≡ true
unfolding lookup
Member-HasUser user [] all m = absurd (All-Member (λ _. ⊥) m tt)
Member-HasUser user ((k, w) ∷ users) all (first _) = ground (arith, all.0)
Member-HasUser user ((k, w) ∷ users) all (later _ m) =
    ground (arith, Member-HasUser user users all.1 m)

-- No user has an email that is not found.
user_by_email-none :
    (email : Text) (users : Dict UserRecord)
    → user_by_email email users ≡ none
    → All (λ u. email ≢ u.email) (values users)
unfolding user_by_email
user_by_email-none email [] h = tt
user_by_email-none email ((k, w) ∷ users) h =
    (ground (arith, text_eq_iff w.email email), user_by_email-none email users (ground arith))

-- A change of the users that keeps those that are there.
put_user-references :
    (os : AuthPlatform) (s : AuthState) (user : UserRecord)
    → IsConsistent os s
    → All (λ row. row.1.id ≡ row.0) (put_user user s).users
    → All (λ row. normalize_email row.1.email ≡ row.1.email) (put_user user s).users
    → Pairwise (λ u v. u.email ≢ v.email) (values (put_user user s).users)
    → IsConsistent os (put_user user s)
put_user-references os s user h ids emails distinct_emails = record {
  ids = ids;
  emails = emails;
  distinct_emails = distinct_emails;
  passwords = λ i there. is_some-insert i user.id user s.users (h.passwords i there);
  identities = λ key identity found.
      is_some-insert identity.user_id user.id user s.users (h.identities key identity found);
  tokens = λ hashed text expires_at found.
      let known = h.tokens hashed text expires_at found in
      (known.0, known.1, is_some-insert known.0 user.id user s.users known.2);
}

added-IsConsistent :
    (os : AuthPlatform) (s : AuthState) (user : UserRecord) (email : Text)
    → user.email ≡ normalize_email email
    → user_by_email user.email s.users ≡ none
    → IsConsistent os s
    → IsConsistent os (put_user user s)
added-IsConsistent os s user email normal fresh h =
    put_user-references os s user h
      (All-insert (λ row. row.1.id ≡ row.0) user.id user s.users refl h.ids)
      (All-insert (λ row. normalize_email row.1.email ≡ row.1.email) user.id user s.users
        (ap normalize_email normal ∙ normalize_email_idem email ∙ sym normal) h.emails)
      (Pairwise-insert (λ u v. u.email ≢ v.email) (λ u v ne e. ne (sym e)) user.id user s.users
        (user_by_email-none user.email s.users fresh) h.distinct_emails)

changed-IsConsistent :
    (os : AuthPlatform) (s : AuthState) (user old : UserRecord) (user_id : ℕ)
    → lookup user_id s.users ≡ some old
    → user.id ≡ old.id
    → user.email ≡ old.email
    → IsConsistent os s
    → IsConsistent os (put_user user s)
changed-IsConsistent os s user old user_id found same_id same_email h =
    let there : lookup user.id s.users ≡ some old =
      ap (λ i. lookup i s.users)
        (same_id ∙ All-lookup (λ row. row.1.id ≡ row.0) user_id old s.users found h.ids)
      ∙ found in
    put_user-references os s user h
      (All-insert (λ row. row.1.id ≡ row.0) user.id user s.users refl h.ids)
      (All-insert (λ row. normalize_email row.1.email ≡ row.1.email) user.id user s.users
        (ap normalize_email same_email
          ∙ All-lookup (λ row. normalize_email row.1.email ≡ row.1.email) user_id old s.users found
              h.emails
          ∙ sym same_email)
        h.emails)
      (Pairwise-replace (λ u v. u.email ≢ v.email) (λ u v ne e. ne (sym e)) user.id user old s.users
        there (λ u ne e. ne (e ∙ same_email)) h.distinct_emails)

-- Every step keeps the state consistent.
pub AuthStep-IsConsistent :
    (os : AuthPlatform) (s t : AuthState) → AuthStep os s t → IsConsistent os s → IsConsistent os t
unfolding put_refresh_token
AuthStep-IsConsistent os _ _ (drew s) h = record {
  ids = h.ids;
  emails = h.emails;
  distinct_emails = h.distinct_emails;
  passwords = h.passwords;
  identities = h.identities;
  tokens = h.tokens;
}
AuthStep-IsConsistent os _ _ (added_user s user email normal fresh) h =
    added-IsConsistent os s user email normal fresh h
AuthStep-IsConsistent os _ _ (changed_a_user s user old user_id found same_id same_email) h =
    changed-IsConsistent os s user old user_id found same_id same_email h
AuthStep-IsConsistent os _ _ (set_password s user_id password_hash there) h = record {
  ids = h.ids;
  emails = h.emails;
  distinct_emails = h.distinct_emails;
  passwords = λ i stored.
      ground (arith, lookup-insert user_id i password_hash s.password_hashes, h.passwords i);
  identities = h.identities;
  tokens = h.tokens;
}
AuthStep-IsConsistent os _ _ (linked_identity s key identity user there same) h = record {
  ids = h.ids;
  emails = h.emails;
  distinct_emails = h.distinct_emails;
  passwords = h.passwords;
  identities = λ k x found. elim (Bool-cases (pair_key.same key k)) [
    | inl t ↦
        let is : identity ≡ x =
          ground (arith, found, t, find_key-put_key key k identity s.external_identities) in
        subst (λ y. HasUser y.user_id s) is
          (ap (λ i. is_some (lookup i s.users)) same ∙ Member-HasUser user s.users h.ids there)
    | inr f ↦
        h.identities k x
          (ground (arith, found, f, find_key-put_key key k identity s.external_identities))
  ];
  tokens = h.tokens;
}
AuthStep-IsConsistent os _ _ (issued_token s user expires_at there) h = record {
  ids = h.ids;
  emails = h.emails;
  distinct_emails = h.distinct_emails;
  passwords = h.passwords;
  identities = h.identities;
  tokens = λ k text e found.
      let hashed = token_hash os (os.token_urlsafe s.drawn) in
      elim (Bool-cases (text_key.same hashed k)) [
        | inl t ↦ (
          user.id,
          ground (
            arith,
            found,
            t,
            find_key-put_key hashed k (os.uuid_text user.id, expires_at) s.refresh_tokens,
          ),
          Member-HasUser user s.users h.ids there,
        )
        | inr f ↦ h.tokens k text e (
            ground (
              arith,
              found,
              f,
              find_key-put_key hashed k (os.uuid_text user.id, expires_at) s.refresh_tokens,
            ))
      ];
}
AuthStep-IsConsistent os _ _ (removed_token s hashed) h = record {
  ids = h.ids;
  emails = h.emails;
  distinct_emails = h.distinct_emails;
  passwords = h.passwords;
  identities = h.identities;
  tokens = λ k text expires_at found.
      h.tokens k text expires_at
        (ground (arith, found, find_key-remove_key hashed k s.refresh_tokens));
}
