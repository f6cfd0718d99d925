-- ===== src/Cache.antt =====
-- The paths of backend/cache/__init__.py, and the prefixes that `LocalSourceCache` marks as covered. The
-- files themselves are left out.
pub mod Safe
pub mod Root
mod Tests
use deepdive.Base.{
  ℕ, Bool, true, false, not, ◌&&◌, ◌||◌, Option, none, some, List, [], ◌∷◌, ◌++◌, map, ◌==◌,
  if◌then◌else◌, keep, any,
}
use deepdive.Text.{
  Text, codes, text_eq, member, has_char, lower, split, join, starts_with, strip_by, replace_char,
  is_empty,
}

-- `part.split(".", 1)[0]`
unfoldable pub before_dot : Text → Text
before_dot [] = []
before_dot (c ∷ s) = let rest = before_dot s in if c == b'.' then [] else c ∷ rest

-- The names of devices.
abbrev pub reserved_devices : List Text
reserved_devices =
    codes "con"
    ∷ codes "prn"
    ∷ codes "aux"
    ∷ codes "nul"
    ∷ (map (λ i. codes "com" ++ i ∷ []) (codes "123456789")
        ++ map (λ i. codes "lpt" ++ i ∷ []) (codes "123456789"))

-- `_is_unsafe_repo_path_part`
unfoldable pub is_unsafe_repo_path_part : Text → Bool
unfolding before_dot lower text_eq has_char starts_with member
is_unsafe_repo_path_part part =
    text_eq part (codes "..")
    || has_char b':' part
    || starts_with part (codes "//")
    || member (lower (before_dot part)) reserved_devices

-- `path.replace("\\", "/").strip("/")`
unfoldable pub slashed : Text → Text
unfolding replace_char strip_by
slashed path = strip_by (λ c. c == b'/') (replace_char 92 b'/' path)

-- `[part for part in normalized.split("/") if part and part != "."]`
unfoldable pub path_parts : Text → List Text
unfolding split text_eq
path_parts normalized =
    keep (λ part. not (is_empty part) && not (text_eq part (codes "."))) (split b'/' normalized)

-- `normalize_repo_path`; `none` is a `ValueError`
unfoldable pub normalize_repo_path : Text → Option Text
unfolding slashed path_parts is_unsafe_repo_path_part join
normalize_repo_path path =
    let names = path_parts (slashed path) in
    if is_empty names || any is_unsafe_repo_path_part names
    then none
    else some (join (codes "/") names)

-- `normalize_prefix`; `none` is a `ValueError`
unfoldable pub normalize_prefix : Option Text → Option Text
unfolding slashed path_parts is_unsafe_repo_path_part join
normalize_prefix none = some []
normalize_prefix (some prefix) =
    if is_empty prefix || is_empty (slashed prefix)
    then some []
    else (let names = path_parts (slashed prefix) in
        if any is_unsafe_repo_path_part names
        then none
        else some (join (codes "/") names ++ codes "/"))

abbrev covered_by : Text → List Text → Option Bool
covered_by target [] = some false
covered_by target (prefix ∷ prefixes) = elim (normalize_prefix (some prefix)) [
  | none ↦ none
  | some covered ↦
      if text_eq target covered || starts_with target covered
      then some true
      else covered_by target prefixes
]

-- `is_prefix_covered`, over the prefixes of the coverage file
unfoldable pub is_prefix_covered : Text → List Text → Option Bool
unfolding normalize_prefix text_eq starts_with
is_prefix_covered prefix prefixes = elim (normalize_prefix (some prefix)) [
  | none ↦ none
  | some target ↦ covered_by target prefixes
]

-- `mark_prefix_covered`, over the prefixes of the coverage file
unfoldable pub mark_prefix_covered : Text → List Text → Option (List Text)
unfolding normalize_prefix
mark_prefix_covered prefix prefixes = elim (normalize_prefix (some prefix)) [
  | none ↦ none
  | some normalized ↦ some (prefixes ++ normalized ∷ [])
]

-- The name of the lock of `prefix_lock`
unfoldable pub lock_name : Text → Option Text
unfolding normalize_prefix
lock_name prefix = elim (normalize_prefix (some prefix)) [
  | none ↦ none
  | some normalized ↦ some (if is_empty normalized then codes "root" else underscored normalized)
]
  where
    underscored : Text → Text
    underscored [] = []
    underscored (c ∷ s) = if c == b'/' then b'_' ∷ b'_' ∷ underscored s else c ∷ underscored s
