-- ===== src/Auth/Tokens.antt =====
-- The in-memory stores of backend/auth/tokens.py and backend/auth/oauth.py. `now` is the
-- clock's value in microseconds; a token that `secrets` draws is an argument.
use deepdive.Base.{
  ℕ, ◌+◌, ◌*◌, Option, none, some, ltb, if◌then◌else◌, Table, find_key, put_key, remove_key,
}
use deepdive.Text.{Text}
use deepdive.Text.Keyed.{text_key}

-- `timedelta(seconds=ttl_seconds)`
abbrev pub seconds : ℕ → ℕ
seconds n = n * 1000000

-- `InMemoryRefreshTokenStore._tokens`
abbrev pub RefreshTokens : Type 0
RefreshTokens = Table Text (Text × ℕ)

-- `InMemoryRefreshTokenStore.put`
unfoldable pub put_refresh_token : Text → Text → ℕ → RefreshTokens → RefreshTokens
unfolding put_key
put_refresh_token token_hash user_id expires_at tokens =
    put_key token_hash (user_id, expires_at) tokens

abbrev unexpired : ℕ → Option (Text × ℕ) → Option Text
unexpired now none = none
unexpired now (some (user_id, expires_at)) = if ltb expires_at now then none else some user_id

-- `InMemoryRefreshTokenStore.pop`
unfoldable pub pop_refresh_token : Text → ℕ → RefreshTokens → Option Text × RefreshTokens
unfolding find_key remove_key
pop_refresh_token token_hash now tokens =
    (unexpired now (find_key token_hash tokens), remove_key token_hash tokens)

pub record OauthState : Type 0 where
  pub redirect_to : Option Text
  pub expires_at : ℕ

pub record OauthExchangeCode : Type 0 where
  pub user_id : Text
  pub expires_at : ℕ

-- `InMemoryOAuthStateStore.create`, given the token that is drawn
unfoldable pub create_state :
    Text → Option Text → ℕ → ℕ → Table Text OauthState → Text × Table Text OauthState
unfolding put_key
create_state token redirect_to ttl_seconds now states = (
  token,
  put_key token (record { redirect_to = redirect_to; expires_at = now + seconds ttl_seconds })
      states,
)

abbrev live_state : ℕ → Option OauthState → Option OauthState
live_state now none = none
live_state now (some value) = if ltb value.expires_at now then none else some value

-- `InMemoryOAuthStateStore.pop`
unfoldable pub pop_state :
    Text → ℕ → Table Text OauthState → Option OauthState × Table Text OauthState
unfolding find_key remove_key
pop_state state now states = (live_state now (find_key state states), remove_key state states)

-- `InMemoryOAuthCodeStore.create`, given the token that is drawn
unfoldable pub create_code :
    Text → Text → ℕ → ℕ → Table Text OauthExchangeCode → Text × Table Text OauthExchangeCode
unfolding put_key
create_code token user_id ttl_seconds now codes_ = (
  token,
  put_key token (record { user_id = user_id; expires_at = now + seconds ttl_seconds }) codes_,
)

abbrev live_code : ℕ → Option OauthExchangeCode → Option OauthExchangeCode
live_code now none = none
live_code now (some value) = if ltb value.expires_at now then none else some value

-- `InMemoryOAuthCodeStore.pop`
unfoldable pub pop_code :
    Text
    → ℕ
    → Table Text OauthExchangeCode
    → Option OauthExchangeCode × Table Text OauthExchangeCode
unfolding find_key remove_key
pop_code code now codes_ = (live_code now (find_key code codes_), remove_key code codes_)
