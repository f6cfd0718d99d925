-- ===== src/Security/SecretPaths.antt =====
-- backend/security/secret_paths.py. Of the shell patterns that `fnmatchcase` reads, the module's have
-- none but the star.
pub mod Parts
pub mod Joined
use mathlib.Core.List.{reverse}
use deepdive.Base.{
  ℕ, zero, suc, ◌-◌, Bool, true, false, not, ◌&&◌, ◌||◌, Option, none, some, List, [], ◌∷◌, ◌++◌,
  map, keep, any, length, ◌==◌, if◌then◌else◌,
}
use deepdive.Text.{
  Text, codes, text_eq, member, strip, strip_by, lower, starts_with, replace_char, split, join,
  is_empty,
}

abbrev pub safe_env_template_names : List Text
safe_env_template_names =
    codes ".env.defaults" ∷ codes ".env.example" ∷ codes ".env.sample" ∷ codes ".env.template" ∷ []

abbrev secret_path_names : List Text
secret_path_names =
    codes ".env"
    ∷ codes ".env.local"
    ∷ codes ".env.development"
    ∷ codes ".env.production"
    ∷ codes ".git-credentials"
    ∷ codes ".npmrc"
    ∷ codes ".pypirc"
    ∷ codes ".netrc"
    ∷ codes "credentials"
    ∷ codes "credentials.json"
    ∷ codes "service-account.json"
    ∷ codes "service-account-key.json"
    ∷ codes "secrets.json"
    ∷ codes "secrets.yaml"
    ∷ codes "secrets.yml"
    ∷ codes "secret.json"
    ∷ codes "secret.yaml"
    ∷ codes "secret.yml"
    ∷ codes "id_rsa"
    ∷ codes "id_dsa"
    ∷ codes "id_ecdsa"
    ∷ codes "id_ed25519"
    ∷ []

abbrev pub secret_path_parts : List Text
secret_path_parts = codes ".git" ∷ codes ".ssh" ∷ codes ".aws" ∷ codes ".azure" ∷ codes ".gcp" ∷ []

abbrev secret_path_prefixes : List Text
secret_path_prefixes = codes ".config/gcloud" ∷ codes ".docker" ∷ []

abbrev secret_path_globs : List Text
secret_path_globs =
    codes "*.pem"
    ∷ codes "*.key"
    ∷ codes "*.p12"
    ∷ codes "*.pfx"
    ∷ codes "*credentials*.json"
    ∷ codes "*service-account*.json"
    ∷ codes "*secret*.json"
    ∷ codes "*secret*.yaml"
    ∷ codes "*secret*.yml"
    ∷ codes "*secrets*.json"
    ∷ codes "*secrets*.yaml"
    ∷ codes "*secrets*.yml"
    ∷ []

-- Some suffix passes.
abbrev some_suffix : (Text → Bool) → Text → Bool
some_suffix f [] = f []
some_suffix f (c ∷ s) = f (c ∷ s) || some_suffix f s

abbrev next_matches : ℕ → (Text → Bool) → Text → Bool
next_matches p f [] = false
next_matches p f (c ∷ s) = c == p && f s

-- `fnmatchcase(s, pattern)`
unfoldable pub matches : Text → Text → Bool
matches [] s = is_empty s
matches (p ∷ pattern) s =
    if p == b'*' then some_suffix (matches pattern) s else next_matches p (matches pattern) s

-- `while normalized.startswith("**/"): normalized = normalized[3:]`
unfoldable pub drop_stars : Text → Text
drop_stars (a ∷ b ∷ c ∷ s) =
    let rest = drop_stars s in if a == b'*' && (b == b'*' && c == b'/') then rest else a ∷ b ∷ c ∷ s
drop_stars s = s

-- `s.replace("/**/", "/")`, past the first `skip` characters
unfoldable pub collapse_stars : ℕ → Text → Text
unfolding starts_with
collapse_stars skip [] = []
collapse_stars (suc skip) (c ∷ s) = collapse_stars skip s
collapse_stars zero (c ∷ s) =
    let skipped = collapse_stars 3 s in
    let kept = collapse_stars 0 s in
    if starts_with (c ∷ s) (codes "/**/") then b'/' ∷ skipped else c ∷ kept

-- `_normalize_path_pattern`
unfoldable pub normalize_path_pattern : Text → Text
unfolding drop_stars collapse_stars
normalize_path_pattern path =
    collapse_stars 0 (drop_stars (strip_by (λ c. c == b'/') (strip (replace_char b'\\' b'/' path))))

-- The parts of the normalized path, in lower case.
unfoldable pub lower_parts_of : Text → List Text
unfolding normalize_path_pattern
lower_parts_of path =
    map lower (keep (λ part. not (is_empty part)) (split b'/' (normalize_path_pattern path)))

abbrev pub last_part : List Text → Text
last_part [] = []
last_part (part ∷ []) = part
last_part (part ∷ other ∷ parts) = last_part (other ∷ parts)

-- `_matches_secret_glob`
unfoldable pub matches_secret_glob : Text → Text → Bool
unfolding matches
matches_secret_glob path pattern =
    matches pattern path || matches pattern (last_part (split b'/' path))

-- `any(joined == prefix or joined.startswith(prefix + "/") …)`
unfoldable pub is_below_secret_prefix : Text → Bool
unfolding text_eq starts_with
is_below_secret_prefix joined =
    any (λ prefix. text_eq joined prefix || starts_with joined (prefix ++ b'/' ∷ []))
      secret_path_prefixes

-- `any(_matches_secret_glob(joined, glob) for glob in SECRET_PATH_GLOBS)`
unfoldable pub matches_secret_globs : Text → Bool
unfolding matches_secret_glob
matches_secret_globs joined = any (matches_secret_glob joined) secret_path_globs

-- The tests of `is_secret_path` on the parts of a path.
unfoldable pub are_secret_parts : List Text → Bool
unfolding member starts_with is_below_secret_prefix matches_secret_globs
are_secret_parts [] = false
are_secret_parts (part ∷ parts) =
    let lower_parts = part ∷ parts in
    let name = last_part lower_parts in
    let joined = join (b'/' ∷ []) lower_parts in
    if member name safe_env_template_names
    then false
    else if member name secret_path_names
    then true
    else if starts_with name (codes ".env.")
    then true
    else if any (λ p. member p secret_path_parts) lower_parts
    then true
    else if is_below_secret_prefix joined
    then true
    else matches_secret_globs joined

-- `is_secret_path`
unfoldable pub is_secret_path : Text → Bool
unfolding lower_parts_of are_secret_parts
is_secret_path path = are_secret_parts (lower_parts_of path)
