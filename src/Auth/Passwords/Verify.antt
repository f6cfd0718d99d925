-- ===== src/Auth/Passwords/Verify.antt =====
-- Hashes of backend/auth/passwords.py that are made and verified.
use deepdive.Base.{ℕ, zero, suc, ◌≡◌, refl, false, some, List, [], ◌∷◌, ◌++◌, arith}
use deepdive.Base.Int.{pos}
use deepdive.Text.{Text, codes, text_eq, has_char, join}
use deepdive.Text.Decimal.{decimal}
use deepdive.Auth.Jwt.Roundtrip.{JwtLaws, strip_padding-b64encode, b64decode-strip_padding}
use deepdive.Auth.Model.{AuthPlatform}
use deepdive.Auth.Passwords.{
  password_scheme, password_iterations, split_at_most, b64, unb64, hash_password, verify_parts,
  verify_password,
}

pub split_at_most-append :
    (sep n : ℕ) (s t : Text)
    → has_char sep s ≡ false
    → split_at_most sep (suc n) (s ++ sep ∷ t) ≡ s ∷ split_at_most sep n t
unfolding split_at_most has_char
split_at_most-append sep n [] t h = ground arith
split_at_most-append sep n (c ∷ s) t h = ground (arith, split_at_most-append sep n s t)

pub split_at_most-zero : (sep : ℕ) (s : Text) → split_at_most sep zero s ≡ s ∷ []
unfolding split_at_most
split_at_most-zero sep [] = refl
split_at_most-zero sep (c ∷ s) = refl

split_at_most-join :
    (a b c d : Text)
    → has_char b'$' a ≡ false
    → has_char b'$' b ≡ false
    → has_char b'$' c ≡ false
    → split_at_most b'$' 3 (join (codes "$") (a ∷ b ∷ c ∷ d ∷ [])) ≡ a ∷ b ∷ c ∷ d ∷ []
unfolding join
split_at_most-join a b c d h k l =
    rw
      (
        split_at_most-append b'$' 2 a (join (codes "$") (b ∷ c ∷ d ∷ [])) h,
        split_at_most-append b'$' 1 b (join (codes "$") (c ∷ d ∷ [])) k,
        split_at_most-append b'$' 0 c d l,
        split_at_most-zero b'$' d,
      )
      refl

module _ (os : AuthPlatform) (laws : JwtLaws os.jwt) where
  has_char-b64 : (x : List ℕ) → has_char b'$' (b64 os x) ≡ false
  unfolding b64
  has_char-b64 x = rw (strip_padding-b64encode os.jwt laws x) (laws.no_dollar x)

  unb64-b64 : (x : List ℕ) → unb64 os (b64 os x) ≡ some x
  unfolding b64 unb64
  unb64-b64 x = b64decode-strip_padding os.jwt laws x

  verify_parts-b64 :
      (other : Text) (salt digest other_digest : List ℕ)
      → os.parse_int (decimal password_iterations) ≡ some (pos password_iterations)
      → os.pbkdf2_sha256 other salt (pos password_iterations) ≡ some other_digest
      → verify_parts os other
          (password_scheme ∷ decimal password_iterations ∷ b64 os salt ∷ b64 os digest ∷ [])
        ≡ some (text_eq other_digest digest)
  unfolding verify_parts text_eq
  verify_parts-b64 other salt digest other_digest int_ tried =
      rw (verify_parts, int_, unb64-b64 salt, unb64-b64 digest, tried) refl

  -- A password is compared with a stored hash by the digests, under the salt and the iterations that
  -- the hash names: the password that was hashed passes, and any other is refused unless its digest is
  -- the same.
  pub verify_password-hash_password :
      (password other : Text) (salt digest other_digest : List ℕ) (password_hash : Text)
      → os.parse_int (decimal password_iterations) ≡ some (pos password_iterations)
      → os.pbkdf2_sha256 password salt (pos password_iterations) ≡ some digest
      → os.pbkdf2_sha256 other salt (pos password_iterations) ≡ some other_digest
      → hash_password os password salt ≡ some password_hash
      → verify_password os other password_hash ≡ some (text_eq other_digest digest)
  unfolding hash_password verify_password has_char decimal
  verify_password-hash_password password other salt digest other_digest password_hash int_ made
        tried h =
      let parts =
        password_scheme ∷ decimal password_iterations ∷ b64 os salt ∷ b64 os digest ∷ [] in
      let stored : password_hash ≡ join (codes "$") parts = ground (arith, h, made) in
      rw
        (
          stored,
          split_at_most-join password_scheme (decimal password_iterations) (b64 os salt)
              (b64 os digest) refl refl (has_char-b64 salt),
        )
        (verify_parts-b64 other salt digest other_digest int_ tried)
