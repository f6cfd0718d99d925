-- ===== src/Auth/Tests/Codec.antt =====
-- A codec of JSON objects and bytes, to run backend/auth/jwt.py with.
use mathlib.Core.List.{append-nil}
use deepdive.Base.{
  ℕ, zero, suc, ◌+◌, ◌%◌, ◌≡◌, ◌≤◌, refl, sym, ap, true, false, Bool, not, Option, none, some, List,
  [], ◌∷◌, ◌++◌, arith, length, any, ltb, ◌==◌, if◌then◌else◌,
}
use deepdive.Base.Int.{pos, negsuc}
use deepdive.Text.{Text, has_char}
use deepdive.Json.{Json, Items, Fields, null, bool, num, str, arr, obj, nil, cons, end, field}
use deepdive.Auth.Jwt.{JwtLibrary, is_ascii}
use deepdive.Auth.Jwt.Roundtrip.{JwtLaws}

-- A text, behind its length.
abbrev write_text : Text → List ℕ → List ℕ
write_text s rest = length s ∷ (s ++ rest)

read_text : ℕ → List ℕ → Option (Text × List ℕ)
read_text zero rest = some ([], rest)
read_text (suc n) [] = none
read_text (suc n) (c ∷ rest) = elim (read_text n rest) [
  | none ↦ none
  | some (s, left) ↦ some (c ∷ s, left)
]

read-write_text : (s : Text) (rest : List ℕ) → read_text (length s) (s ++ rest) ≡ some (s, rest)
unfolding read_text
read-write_text [] rest = refl
read-write_text (c ∷ s) rest = ground (arith, read-write_text s rest)

unfoldable mutual
  write_json : Json → List ℕ → List ℕ
  write_json null rest = 0 ∷ rest
  write_json (bool false) rest = 1 ∷ rest
  write_json (bool true) rest = 2 ∷ rest
  write_json (num (pos n)) rest = 3 ∷ n ∷ rest
  write_json (num (negsuc n)) rest = 4 ∷ n ∷ rest
  write_json (str s) rest = 5 ∷ write_text s rest
  write_json (arr xs) rest = 6 ∷ write_items xs rest
  write_json (obj fs) rest = 7 ∷ write_fields fs rest

  write_items : Items → List ℕ → List ℕ
  write_items nil rest = 0 ∷ rest
  write_items (cons x xs) rest = 1 ∷ write_json x (write_items xs rest)

  pub write_fields : Fields → List ℕ → List ℕ
  write_fields end rest = 0 ∷ rest
  write_fields (field k v fs) rest = 1 ∷ write_text k (write_json v (write_fields fs rest))

unfoldable mutual
  json_size : Json → ℕ
  json_size (arr xs) = suc (items_size xs)
  json_size (obj fs) = suc (fields_size fs)
  json_size _ = 1

  items_size : Items → ℕ
  items_size nil = 1
  items_size (cons x xs) = suc (json_size x + items_size xs)

  pub fields_size : Fields → ℕ
  fields_size end = 1
  fields_size (field k v fs) = suc (json_size v + fields_size fs)

size-pos : (v : Json) → json_size v ≤ 0 → ⊥
unfolding json_size
size-pos null h = omega arith
size-pos (bool _) h = omega arith
size-pos (num _) h = omega arith
size-pos (str _) h = omega arith
size-pos (arr xs) h = omega arith
size-pos (obj fs) h = omega arith

items-pos : (xs : Items) → items_size xs ≤ 0 → ⊥
unfolding items_size
items-pos nil h = omega arith
items-pos (cons x xs) h = omega arith

fields-pos : (fs : Fields) → fields_size fs ≤ 0 → ⊥
unfolding fields_size
fields-pos end h = omega arith
fields-pos (field k v fs) h = omega arith

-- `f` on what was read, and on the rest.
abbrev then_read {ℓ κ} :
    {A : Type ℓ} {B : Type κ} → Option (A × List ℕ) → (A → List ℕ → Option B) → Option B
then_read none f = none
then_read (some (a, rest)) f = f a rest

-- The first number and the rest.
abbrev next {ℓ} : {B : Type ℓ} → List ℕ → (ℕ → List ℕ → Option B) → Option B
next [] f = none
next (n ∷ rest) f = f n rest

mutual
  read_json : ℕ → List ℕ → Option (Json × List ℕ)
  read_json zero s = none
  read_json (suc f) [] = none
  read_json (suc f) (tag ∷ rest) =
      if tag == 0
      then some (null, rest)
      else if tag == 1
      then some (bool false, rest)
      else if tag == 2
      then some (bool true, rest)
      else if tag == 3
      then next rest (λ n left. some (num (pos n), left))
      else if tag == 4
      then next rest (λ n left. some (num (negsuc n), left))
      else if tag == 5
      then next rest (λ n left. then_read (read_text n left) (λ s more. some (str s, more)))
      else if tag == 6
      then then_read (read_items f rest) (λ xs left. some (arr xs, left))
      else then_read (read_fields f rest) (λ fs left. some (obj fs, left))

  read_items : ℕ → List ℕ → Option (Items × List ℕ)
  read_items zero s = none
  read_items (suc f) [] = none
  read_items (suc f) (tag ∷ rest) =
      if tag == 0
      then some (nil, rest)
      else then_read (read_json f rest)
          (λ x left. then_read (read_items f left) (λ xs more. some (cons x xs, more)))

  pub read_fields : ℕ → List ℕ → Option (Fields × List ℕ)
  read_fields zero s = none
  read_fields (suc f) [] = none
  read_fields (suc f) (tag ∷ rest) =
      if tag == 0
      then some (end, rest)
      else next rest (λ n rest. then_read (read_text n rest) (λ k left.
        then_read (read_json f left)
          (λ v more. then_read (read_fields f more) (λ fs last. some (field k v fs, last)))))

mutual
  unfolding write_json json_size read_json

  read-write_json :
      (v : Json) (f : ℕ) (rest : List ℕ)
      → json_size v ≤ f
      → read_json f (write_json v rest) ≡ some (v, rest)
  read-write_json v zero rest h = absurd (size-pos v h)
  read-write_json null (suc f) rest h = refl
  read-write_json (bool false) (suc f) rest h = refl
  read-write_json (bool true) (suc f) rest h = refl
  read-write_json (num (pos n)) (suc f) rest h = refl
  read-write_json (num (negsuc n)) (suc f) rest h = refl
  read-write_json (str s) (suc f) rest h = rw (read-write_text s rest) refl
  read-write_json (arr xs) (suc f) rest h = rw (read-write_items xs f rest (omega (arith, h))) refl
  read-write_json (obj fs) (suc f) rest h = rw (read-write_fields fs f rest (omega (arith, h))) refl

  read-write_items :
      (xs : Items) (f : ℕ) (rest : List ℕ)
      → items_size xs ≤ f
      → read_items f (write_items xs rest) ≡ some (xs, rest)
  read-write_items xs zero rest h = absurd (items-pos xs h)
  read-write_items nil (suc f) rest h = refl
  read-write_items (cons x xs) (suc f) rest h =
      rw
        (
          read-write_json x f (write_items xs rest) (omega (arith, h)),
          read-write_items xs f rest (omega (arith, h)),
        )
        refl

  read-write_fields :
      (fs : Fields) (f : ℕ) (rest : List ℕ)
      → fields_size fs ≤ f
      → read_fields f (write_fields fs rest) ≡ some (fs, rest)
  read-write_fields fs zero rest h = absurd (fields-pos fs h)
  read-write_fields end (suc f) rest h = refl
  read-write_fields (field k v fs) (suc f) rest h =
      rw
        (
          read-write_text k (write_json v (write_fields fs rest)),
          read-write_json v f (write_fields fs rest) (omega (arith, h)),
          read-write_fields fs f rest (omega (arith, h)),
        )
        refl

-- A number in four-letter words.
abbrev pub quad : ℕ → Text → Text
quad c s = c ∷ c ∷ c ∷ c ∷ s

abbrev pub unary : ℕ → Text → Text
unary zero s = quad b'B' s
unary (suc n) s = quad b'A' (unary n s)

abbrev pub letters : List ℕ → Text
letters [] = []
letters (n ∷ x) = unary n (letters x)

abbrev pub one_more : List ℕ → List ℕ
one_more [] = []
one_more (n ∷ x) = suc n ∷ x

abbrev pub read_letters : Text → Option (List ℕ)
read_letters (c ∷ _ ∷ _ ∷ _ ∷ s) = elim (read_letters s) [
  | none ↦ none
  | some x ↦ some (if c == b'B' then 0 ∷ x else one_more x)
]
read_letters _ = some []

pub read-unary :
    (n : ℕ) (s : Text) (x : List ℕ)
    → read_letters s ≡ some x
    → read_letters (unary n s) ≡ some (n ∷ x)
read-unary zero s x h = rw h refl
read-unary (suc n) s x h = rw (read-unary n s x h) refl

read-letters : (x : List ℕ) → read_letters (letters x) ≡ some x
read-letters [] = refl
read-letters (n ∷ x) = read-unary n (letters x) x (read-letters x)

length-unary : (n : ℕ) (s : Text) → length s % 4 ≡ 0 → length (unary n s) % 4 ≡ 0
length-unary zero s h = omega (arith, h)
length-unary (suc n) s h = omega (arith, length-unary n s h)

length-letters : (x : List ℕ) → length (letters x) % 4 ≡ 0
length-letters [] = omega arith
length-letters (n ∷ x) = length-unary n (letters x) (length-letters x)

pub any-unary :
    (p : ℕ → Bool)
    → p b'A' ≡ false
    → p b'B' ≡ false
    → (n : ℕ) (s : Text) → any p s ≡ false
    → any p (unary n s) ≡ false
any-unary p a b zero s h = ground arith
any-unary p a b (suc n) s h = ground (arith, any-unary p a b n s h)

pub any-letters :
    (p : ℕ → Bool) → p b'A' ≡ false → p b'B' ≡ false → (x : List ℕ) → any p (letters x) ≡ false
any-letters p a b [] = refl
any-letters p a b (n ∷ x) = any-unary p a b n (letters x) (any-letters p a b x)

abbrev pub plain_jwt : JwtLibrary
plain_jwt = record {
  dumps = λ fs. fields_size fs ∷ write_fields fs [];
  loads =
      λ x. next x (λ n rest. elim (read_fields n rest) [ none ↦ none | some p ↦ some (obj p.0) ]);
  b64encode = letters;
  b64decode = read_letters;
  hmac_sha256 = λ secret value. length secret ∷ length value ∷ [];
}

pub plain_jwt-laws : JwtLaws plain_jwt
unfolding has_char is_ascii
plain_jwt-laws = record {
  body = letters;
  pads = λ x. 0;
  encoded = λ x. sym (append-nil (letters x));
  few = λ x. omega arith;
  whole = λ x. omega (arith, length-letters x);
  no_equals = any-letters (λ c. c == b'=') refl refl;
  no_dot = any-letters (λ c. c == b'.') refl refl;
  no_dollar = any-letters (λ c. c == b'$') refl refl;
  ascii = λ x. ap not (any-letters (λ c. not (ltb c 128)) refl refl x);
  decoded = read-letters;
  sorted_keys = λ fs. fs;
  loaded = λ fs.
      ap (λ o. elim o [ none ↦ none | some p ↦ some (obj p.0) ])
        (read-write_fields fs (fields_size fs) [] (omega arith));
  values_kept = λ key fs. refl;
}

pub body-letters : (x : List ℕ) → plain_jwt-laws.body x ≡ letters x
unfolding plain_jwt-laws
body-letters x = refl
