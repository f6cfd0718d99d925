-- ===== src/Auth/Oauth.antt =====
-- The one-time states and codes of backend/auth/oauth.py, kept in memory.
use deepdive.Base.{
  ℕ, ◌+◌, ◌≡◌, refl, none, some, ltb, if◌then◌else◌, Table, put_key, find_key-put_key,
  find_key-remove_key, same_refl,
}
use deepdive.Text.{Text}
use deepdive.Text.Keyed.{text_key}
use deepdive.Auth.Tokens.{seconds, OauthExchangeCode, create_code, pop_code}

-- A code that is created for a user is popped once, as that user's, until its time is over; whoever
-- pops it again, at any time, is given nothing.
pub code_once :
    (token user_id : Text) (ttl_seconds now last again : ℕ) (codes_ : Table Text OauthExchangeCode)
    → ((pop_code token last (create_code token user_id ttl_seconds now codes_).1).0 ≡ (
        if ltb (now + seconds ttl_seconds) last
        then none
        else some (record { user_id = user_id; expires_at = now + seconds ttl_seconds })))
      × ((pop_code token again
            (pop_code token last (create_code token user_id ttl_seconds now codes_).1).1).0
          ≡ none)
unfolding create_code pop_code
code_once token user_id ttl_seconds now last again codes_ =
    let value : OauthExchangeCode = record {
      user_id = user_id;
      expires_at = now + seconds ttl_seconds;
    } in
    (
      rw (find_key-put_key token token value codes_, same_refl token) refl,
      rw (find_key-remove_key token token (put_key token value codes_), same_refl token) refl,
    )
