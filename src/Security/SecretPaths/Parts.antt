-- ===== src/Security/SecretPaths/Parts.antt =====
-- Secret directories in backend/security/secret_paths.py.
use deepdive.Base.{
  refl, ap, ◌∙◌, ◌++◌, map, All, inl, inr, Bool-cases, ◌≡◌, Bool, true, false, List, [], ◌∷◌, arith,
  any, Member, first, later, if◌then◌else◌,
}
use deepdive.Text.{replace_char, lower, codes, Text, member, join}
use deepdive.Security.SecretPaths.Joined.{IsPlain, lower_parts_of-parts}
use deepdive.Text.Lemmas.{member-Member, Member-member}
use deepdive.Security.SecretPaths.{
  is_secret_path, are_secret_parts, is_below_secret_prefix, matches_secret_globs, last_part,
  safe_env_template_names, secret_path_parts,
}

any-Member {ℓ} :
    {A : Type ℓ} (p : A → Bool) {x : A} {xs : List A} → Member x xs → p x ≡ true → any p xs ≡ true
any-Member p (first xs) h = ground arith
any-Member p (later y m) h = ground (arith, any-Member p m h)

fourth_test :
    (a b c d e f : Bool)
    → d ≡ true
    → a ≡ false
    → (if a
        then false
        else if b
        then true
        else if c
        then true
        else if d
        then true
        else if e
        then true
        else f)
      ≡ true
fourth_test a b c d e f h k = ground arith

any-map-Member :
    (p : Text → Bool) {w : Text} {ws : List Text}
    → Member w ws
    → p (lower w) ≡ true
    → any p (map lower ws) ≡ true
any-map-Member p (first ws) h = ground arith
any-map-Member p (later v m) h = ground (arith, any-map-Member p m h)

last_part-lower :
    (directories : List Text) (name : Text)
    → last_part (map lower (directories ++ name ∷ [])) ≡ lower name
last_part-lower [] name = refl
last_part-lower (d ∷ []) name = refl
last_part-lower (d ∷ e ∷ directories) name = last_part-lower (e ∷ directories) name

not_member :
    (name : Text)
    → ¬ Member name safe_env_template_names
    → member name safe_env_template_names ≡ false
not_member name h = elim (Bool-cases (member name safe_env_template_names)) [
  | inl m ↦ absurd (h (Member-member name safe_env_template_names m))
  | inr n ↦ n
]

secret_by_part :
    (parts : List Text)
    → any (λ p. member p secret_path_parts) parts ≡ true
    → member (last_part parts) safe_env_template_names ≡ false
    → are_secret_parts parts ≡ true
unfolding are_secret_parts
secret_by_part [] h ordinary = cc
secret_by_part (part ∷ parts) h ordinary =
    fourth_test _ _ _ _ (is_below_secret_prefix (join (b'/' ∷ []) (part ∷ parts)))
      (matches_secret_globs (join (b'/' ∷ []) (part ∷ parts))) h ordinary

-- The names of secret directories, and the names of files that never are secret.
abbrev pub secret_directories : List Text
secret_directories = codes ".git" ∷ codes ".ssh" ∷ codes ".aws" ∷ codes ".azure" ∷ codes ".gcp" ∷ []

abbrev pub template_files : List Text
template_files =
    codes ".env.defaults" ∷ codes ".env.example" ∷ codes ".env.sample" ∷ codes ".env.template" ∷ []

-- A path of names that are not empty and have no slashes, stars and white space is secret where one of them is
-- that of a secret directory and the last is not that of an environment template, in any case, and with "/"
-- or with "\" between them.
pub secret_directory_lem :
    (directories : List Text) (name part : Text)
    → All IsPlain (directories ++ name ∷ [])
    → Member part (directories ++ name ∷ [])
    → Member (lower part) secret_directories
    → ¬ Member (lower name) template_files
    → (is_secret_path (join (codes "/") (directories ++ name ∷ [])) ≡ true)
      × (is_secret_path (join (codes "\\") (directories ++ name ∷ [])) ≡ true)
unfolding is_secret_path replace_char
secret_directory_lem directories name part plain m secret ordinary =
    let parts = directories ++ name ∷ [] in
    let judged : are_secret_parts (map lower parts) ≡ true =
      secret_by_part (map lower parts)
        (any-map-Member (λ p. member p secret_path_parts) m (member-Member (lower part) secret))
        (rw (last_part-lower directories name) (not_member (lower name) ordinary)) in
    (
      ap are_secret_parts (lower_parts_of-parts b'/' refl directories name plain) ∙ judged,
      ap are_secret_parts (lower_parts_of-parts b'\\' refl directories name plain) ∙ judged,
    )
