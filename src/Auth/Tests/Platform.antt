-- ===== src/Auth/Tests/Platform.antt =====
-- A platform to run backend/auth with.
use deepdive.Base.{false, none, some, [], ◌∷◌, ◌++◌}
use deepdive.Base.Int.{pos}
use deepdive.Auth.Model.{AuthPlatform}
use deepdive.Auth.Passwords.{password_iterations}
use deepdive.Auth.Tests.Codec.{plain_jwt}

-- UUIDs and tokens of one character, and a digest that is the password behind its salt.
abbrev pub plain_os : AuthPlatform
plain_os = record {
  uuid7 = λ n. n;
  uuid_text = λ i. i ∷ [];
  parse_uuid = λ s. elim s [ [] ↦ none | i ∷ _ ↦ some i ];
  token_urlsafe = λ n. n ∷ [];
  token_bytes = λ n. n ∷ [];
  sha256_hex = λ s. s;
  pbkdf2_sha256 = λ password salt n. some (salt ++ password);
  isdigit = λ s. false;
  parse_int = λ s. some (pos password_iterations);
  jwt = plain_jwt;
}
