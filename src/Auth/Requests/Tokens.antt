-- ===== src/Auth/Requests/Tokens.antt =====
-- Refresh tokens of backend/auth/service.py, over any row of calls.
use deepdive.Base.{
  ℕ, ◌≡◌, ◌<◌, none, List, arith, find_key, find_key-put_key, find_key-remove_key, same_refl,
}
use deepdive.Text.{Text}
use deepdive.Text.Keyed.{text_key, pair_key}
use deepdive.Exec.{err, modify, ◌>>=◌}
use deepdive.Exec.Reach.{Steps-keep}
use deepdive.Auth.Model.{AuthPlatform, AuthState, invalid_refresh_token}
use deepdive.Auth.Tokens.{put_refresh_token, pop_refresh_token}
use deepdive.Auth.Sessions.{token_hash, renew, refresh, logout}
use deepdive.Auth.Steps.{
  AuthStep, drew, added_user, changed_a_user, set_password, linked_identity, issued_token,
  removed_token,
}
use deepdive.Auth.Steps.Sessions.{without_token, refresh-without_token}
use deepdive.Auth.Requests.{AuthRequest, all_served, all_served-keep}

-- The hashes of drawn tokens are different.
abbrev pub DistinctTokens : AuthPlatform → Type 0
DistinctTokens os =
    (n m : ℕ) → token_hash os (os.token_urlsafe n) ≡ token_hash os (os.token_urlsafe m) → n ≡ m

-- The n-th token was drawn, and is not stored any more.
abbrev Gone : AuthPlatform → ℕ → AuthState → Type 0
Gone os n s =
    (n < s.drawn) × (find_key (token_hash os (os.token_urlsafe n)) s.refresh_tokens ≡ none)

AuthStep-Gone :
    (os : AuthPlatform) (n : ℕ)
    → DistinctTokens os
    → (s t : AuthState) → AuthStep os s t
    → Gone os n s
    → Gone os n t
unfolding put_refresh_token
AuthStep-Gone os n distinct _ _ (drew s) h = (omega (arith, h.0), h.1)
AuthStep-Gone os n distinct _ _ (added_user s user email normal fresh) h = h
AuthStep-Gone os n distinct _ _ (changed_a_user s user old user_id found same_id same_email) h = h
AuthStep-Gone os n distinct _ _ (set_password s user_id password_hash there) h = h
AuthStep-Gone os n distinct _ _ (linked_identity s key identity user there same) h = h
AuthStep-Gone os n distinct _ _ (issued_token s user expires_at there) h = (
  omega (arith, h.0),
  ground (
    arith,
    h,
    distinct s.drawn n,
    text_key.same_iff (token_hash os (os.token_urlsafe s.drawn))
        (token_hash os (os.token_urlsafe n)),
    find_key-put_key (token_hash os (os.token_urlsafe s.drawn)) (token_hash os (os.token_urlsafe n))
        (os.uuid_text user.id, expires_at) s.refresh_tokens,
  ),
)
AuthStep-Gone os n distinct _ _ (removed_token s hashed) h = (
  h.0,
  ground (
    arith,
    h.1,
    find_key-remove_key hashed (token_hash os (os.token_urlsafe n)) s.refresh_tokens,
  ),
)

module _ (os : AuthPlatform) (jwt_secret : Text) (n : ℕ) where
  removed-Gone :
      (now : ℕ) (s : AuthState)
      → n < s.drawn
      → Gone os n (without_token os jwt_secret (os.token_urlsafe n) now s)
  unfolding pop_refresh_token
  removed-Gone now s drawn_ = (
    drawn_,
    ground (
      arith,
      same_refl (token_hash os (os.token_urlsafe n)),
      find_key-remove_key (token_hash os (os.token_urlsafe n)) (token_hash os (os.token_urlsafe n))
          s.refresh_tokens,
    ),
  )

  refresh-Gone :
      (now : ℕ) (s : AuthState)
      → Gone os n s
      → (refresh os jwt_secret (os.token_urlsafe n) now s).0 ≡ err invalid_refresh_token
  unfolding refresh renew pop_refresh_token ◌>>=◌
  refresh-Gone now s h = ground (arith, h.1)

  all_served-Gone :
      DistinctTokens os
      → (qs : List (AuthRequest × ℕ)) (s : AuthState) → Gone os n s
      → Gone os n (all_served os jwt_secret qs s)
  all_served-Gone distinct qs s h =
      all_served-keep os jwt_secret (Gone os n) (AuthStep-Gone os n distinct) qs s h

  -- Where the hashes of drawn tokens are different, a drawn refresh token is good for one `refresh` at most:
  -- once it was given to `refresh`, whether that returned or raised, and after any calls that follow, it is
  -- refused.
  pub refresh_once :
      DistinctTokens os
      → (s : AuthState) (now : ℕ) (qs : List (AuthRequest × ℕ)) (last : ℕ) → n < s.drawn
      → (refresh os jwt_secret
          (os.token_urlsafe n)
          last
          (all_served os jwt_secret qs (refresh os jwt_secret (os.token_urlsafe n) now s).1)).0
        ≡ err invalid_refresh_token
  refresh_once distinct s now qs last drawn_ =
      let after_ = (refresh os jwt_secret (os.token_urlsafe n) now s).1 in
      refresh-Gone last (all_served os jwt_secret qs after_) (
        all_served-Gone distinct qs after_ (
          Steps-keep (Gone os n) (AuthStep-Gone os n distinct)
            (refresh-without_token os jwt_secret (os.token_urlsafe n) now s)
            (removed-Gone now s drawn_)))

  -- Where the hashes of drawn tokens are different, a drawn refresh token that was given to `logout` is
  -- refused after any calls that follow.
  pub logout_ends :
      DistinctTokens os
      → (s : AuthState) (now : ℕ) (qs : List (AuthRequest × ℕ)) (last : ℕ) → n < s.drawn
      → (refresh os jwt_secret
          (os.token_urlsafe n)
          last
          (all_served os jwt_secret qs (logout os (os.token_urlsafe n) now s).1)).0
        ≡ err invalid_refresh_token
  unfolding logout modify
  logout_ends distinct s now qs last drawn_ =
      let after_ = without_token os jwt_secret (os.token_urlsafe n) now s in
      refresh-Gone last (all_served os jwt_secret qs after_)
        (all_served-Gone distinct qs after_ (removed-Gone now s drawn_))
