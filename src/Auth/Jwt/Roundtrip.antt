-- ===== src/Auth/Jwt/Roundtrip.antt =====
-- Tokens of backend/auth/jwt.py that are made and read back.
use mathlib.Core.List.{append_assoc}
use deepdive.Base.{
  ℕ, ◌+◌, ◌%◌, ◌≤◌, ◌≡◌, refl, sym, ap, ◌∙◌, true, false, not, some, List, ◌∷◌, ◌++◌, arith, any,
  any-append, length, ltb, Option-cases, inl, inr, ◌==◌, if◌then◌else◌,
}
use deepdive.Base.Int.{pos}
use deepdive.Text.{Text, codes, text_eq, has_char}
use deepdive.Text.Lemmas.{text_eq_iff, text_eq_refl}
use deepdive.Json.{Json, Fields, num, obj, end, field, get}
use deepdive.Exec.{ok, err}
use deepdive.Auth.Jwt.{
  JwtLibrary, jwt_error, is_ascii, strip_padding, equals_signs, padding_of, split_dot, set_field,
  jwt_header, json_b64, json_unb64, sign, jwt_payload, encode_jwt, decode_checked, decode_jwt,
  is_current,
}
use deepdive.Auth.Jwt.Base64.{
  strip_padding-append, padding_of_lem, split_dot-append, split_dot-join,
}

-- Base64 of RFC 4648 in the URL-safe alphabet: its form and its inverse, and JSON, whose sorted keys
-- keep their values. The law of JSON is stronger than Python's: a value is taken to come back as
-- it was, which holds of a nested object up to the order of its keys.
pub record JwtLaws (lib : JwtLibrary) : Type 0 where
  pub body : List ℕ → Text
  pub pads : List ℕ → ℕ
  pub encoded : (x : List ℕ) → lib.b64encode x ≡ body x ++ equals_signs (pads x)
  pub few : (x : List ℕ) → pads x ≤ 2
  pub whole : (x : List ℕ) → (length (body x) + pads x) % 4 ≡ 0
  pub no_equals : (x : List ℕ) → any (λ c. c == b'=') (body x) ≡ false
  pub no_dot : (x : List ℕ) → has_char b'.' (body x) ≡ false
  pub no_dollar : (x : List ℕ) → has_char b'$' (body x) ≡ false
  pub ascii : (x : List ℕ) → is_ascii (body x) ≡ true
  pub decoded : (x : List ℕ) → lib.b64decode (lib.b64encode x) ≡ some x
  pub sorted_keys : Fields → Fields
  pub loaded : (fields : Fields) → lib.loads (lib.dumps fields) ≡ some (obj (sorted_keys fields))
  pub values_kept : (key : Text) (fields : Fields) → get key (sorted_keys fields) ≡ get key fields

module _ (lib : JwtLibrary) where
  -- A token that is accepted carries the signature, under the secret, of all in front of it.
  pub decode_jwt-signed :
      (token secret : Text) (now : ℕ) (payload : Fields)
      → decode_jwt lib token secret now ≡ ok payload
      → (signing_input : Text) × (token ≡ signing_input ++ b'.' ∷ sign lib signing_input secret)
  unfolding decode_jwt
  decode_jwt-signed token secret now payload h = elim (Option-cases (split_dot token)) [
    | inl none_ ↦ absurd (ground (arith, none_))
    | inr ((header_text, rest), e) ↦ elim (Option-cases (split_dot rest)) [
      | inl none_ ↦ absurd (ground (arith, e, none_))
      | inr ((payload_text, signature), e') ↦
          let signing_input = header_text ++ b'.' ∷ payload_text in
          let same : text_eq signature (sign lib signing_input secret) ≡ true =
            ground (arith, e, e') in
          let signature_is : signature ≡ sign lib signing_input secret =
            (text_eq_iff signature (sign lib signing_input secret)).0 same in
          (
            signing_input,
            split_dot-join token header_text rest e
                ∙ ap (λ t. header_text ++ b'.' ∷ t) (split_dot-join rest payload_text signature e')
                ∙ sym (append_assoc header_text (b'.' ∷ payload_text) (b'.' ∷ signature))
                ∙ ap (λ t. signing_input ++ b'.' ∷ t) signature_is,
          )
    ]
  ]

module _ (lib : JwtLibrary) (laws : JwtLaws lib) where
  pub strip_padding-b64encode : (x : List ℕ) → strip_padding (lib.b64encode x) ≡ laws.body x
  strip_padding-b64encode x =
      ap strip_padding (laws.encoded x)
      ∙ strip_padding-append (laws.body x) (laws.pads x) (laws.no_equals x)

  -- Bytes that were written without their padding are read back.
  pub b64decode-strip_padding :
      (x : List ℕ)
      → lib.b64decode
          (strip_padding (lib.b64encode x) ++ padding_of (strip_padding (lib.b64encode x)))
        ≡ some x
  b64decode-strip_padding x =
      rw
        (
          strip_padding-b64encode x,
          padding_of_lem (laws.body x) (laws.pads x) (laws.few x) (laws.whole x),
        )
        (ap lib.b64decode (sym (laws.encoded x)) ∙ laws.decoded x)

  json_unb64-loads :
      (value : Text) (bytes : List ℕ) (payload : Fields)
      → lib.b64decode (value ++ padding_of value) ≡ some bytes
      → lib.loads bytes ≡ some (obj payload)
      → json_unb64 lib value ≡ ok payload
  unfolding json_unb64
  json_unb64-loads value bytes payload e e' = rw (json_unb64, e, e') refl

  json_unb64-json_b64 :
      (fields : Fields) → json_unb64 lib (json_b64 lib fields) ≡ ok (laws.sorted_keys fields)
  unfolding json_b64
  json_unb64-json_b64 fields =
      let x = lib.dumps fields in
      json_unb64-loads (strip_padding (lib.b64encode x)) x (laws.sorted_keys fields)
        (b64decode-strip_padding x) (laws.loaded fields)

  -- The parts of a token are ASCII and have no dot.
  json_b64-plain :
      (fields : Fields)
      → (has_char b'.' (json_b64 lib fields) ≡ false) × (is_ascii (json_b64 lib fields) ≡ true)
  unfolding json_b64
  json_b64-plain fields =
      let x = lib.dumps fields in rw (strip_padding-b64encode x) (laws.no_dot x, laws.ascii x)

  sign-is_ascii : (value secret : Text) → is_ascii (sign lib value secret) ≡ true
  unfolding sign
  sign-is_ascii value secret =
      rw (strip_padding-b64encode (lib.hmac_sha256 secret value))
        (laws.ascii (lib.hmac_sha256 secret value))

  is_ascii-append :
      (s t : Text) → is_ascii s ≡ true → is_ascii t ≡ true → is_ascii (s ++ b'.' ∷ t) ≡ true
  unfolding is_ascii
  is_ascii-append s t h k = ground (arith, any-append (λ c. not (ltb c 128)) s (b'.' ∷ t))

  decode_jwt-parts :
      (a b secret : Text) (later : ℕ)
      → (has_char b'.' a ≡ false) × (is_ascii a ≡ true)
      → (has_char b'.' b ≡ false) × (is_ascii b ≡ true)
      → decode_jwt lib (a ++ b'.' ∷ (b ++ b'.' ∷ sign lib (a ++ b'.' ∷ b) secret)) secret later
        ≡ decode_checked lib a b later
  unfolding decode_jwt
  decode_jwt-parts a b secret later (a_dot, a_ascii) (b_dot, b_ascii) =
      rw
        (
          decode_jwt,
          split_dot-append a (b ++ b'.' ∷ sign lib (a ++ b'.' ∷ b) secret) a_dot,
          split_dot-append b (sign lib (a ++ b'.' ∷ b) secret) b_dot,
          is_ascii-append a b a_ascii b_ascii,
          sign-is_ascii (a ++ b'.' ∷ b) secret,
          text_eq_refl (sign lib (a ++ b'.' ∷ b) secret),
        )
        refl

  -- Past the signature of a token that was made under the same secret.
  decode_jwt-encode_jwt :
      (claims : Fields) (secret : Text) (now expires_delta later : ℕ)
      → decode_jwt lib (encode_jwt lib claims secret now expires_delta) secret later
        ≡ decode_checked lib
            (json_b64 lib jwt_header)
            (json_b64 lib (jwt_payload claims now expires_delta))
            later
  unfolding encode_jwt
  decode_jwt-encode_jwt claims secret now expires_delta later =
      let a = json_b64 lib jwt_header in
      let b = json_b64 lib (jwt_payload claims now expires_delta) in
      ap (λ t. decode_jwt lib t secret later)
        (append_assoc a (b'.' ∷ b) (b'.' ∷ sign lib (a ++ b'.' ∷ b) secret))
      ∙ decode_jwt-parts a b secret later (json_b64-plain jwt_header)
          (json_b64-plain (jwt_payload claims now expires_delta))

  get-set_field :
      (key : Text) (value : Json) (fields : Fields) → get key (set_field key value fields) ≡ value
  unfolding get set_field
  get-set_field key value end = rw (text_eq_refl key) refl
  get-set_field key value (field k v rest) = ground (arith, get-set_field key value rest)

  decode_checked-payload :
      (fields : Fields) (later : ℕ)
      → decode_checked lib (json_b64 lib jwt_header) (json_b64 lib fields) later ≡ (
          if is_current later (get (codes "exp") fields)
          then ok (laws.sorted_keys fields)
          else err jwt_error)
  unfolding decode_checked get text_eq
  decode_checked-payload fields later =
      rw
        (
          decode_checked,
          json_unb64-json_b64 jwt_header,
          laws.values_kept (codes "alg") jwt_header,
          json_unb64-json_b64 fields,
          laws.values_kept (codes "exp") fields,
        )
        refl

  is_current-jwt_payload :
      (claims : Fields) (now expires_delta later : ℕ)
      → is_current later (get (codes "exp") (jwt_payload claims now expires_delta))
        ≡ not (ltb (now + expires_delta) later)
  unfolding is_current jwt_payload
  is_current-jwt_payload claims now expires_delta later =
      let issued = set_field (codes "iat") (num (pos now)) claims in
      ap (is_current later) (get-set_field (codes "exp") (num (pos (now + expires_delta))) issued)
      ∙ ground arith

  -- A token of `encode_jwt` is read back under the same secret until it expires, with all its claims,
  -- and is refused from then on.
  pub jwt_roundtrip :
      (claims : Fields) (secret : Text) (now expires_delta later : ℕ)
      → decode_jwt lib (encode_jwt lib claims secret now expires_delta) secret later ≡ (
          if ltb (now + expires_delta) later
          then err jwt_error
          else ok (laws.sorted_keys (jwt_payload claims now expires_delta)))
  jwt_roundtrip claims secret now expires_delta later =
      decode_jwt-encode_jwt claims secret now expires_delta later
      ∙ decode_checked-payload (jwt_payload claims now expires_delta) later
      ∙ ground (arith, is_current-jwt_payload claims now expires_delta later)
