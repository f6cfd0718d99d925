-- ===== src/Cache/Root.antt =====
-- The prefix "." in backend/cache/__init__.py and in `_ensure_prefix` of backend/execution/__init__.py.
use deepdive.Base.{
  All, Bool-cases, inl, inr, ◌==◌, refl, false, ◌≡◌, ap, ◌∙◌, subst, true, some, List, [], ◌∷◌,
  arith,
}
use deepdive.Text.{split, Text, codes, text_eq, starts_with}
use deepdive.Cache.{normalize_repo_path, normalize_prefix, is_prefix_covered, mark_prefix_covered}
use deepdive.Cache.Safe.{IsSafePart, normalize_repo_path-IsSafePart}

value_of : {A : Type 0} (a b : A) → some a ≡ some b → a ≡ b
value_of a b h = cc

covered_by_nothing :
    (prefix target : Text)
    → normalize_prefix (some prefix) ≡ some target
    → is_prefix_covered prefix ([] ∷ []) ≡ some true
unfolding is_prefix_covered normalize_prefix text_eq starts_with
covered_by_nothing prefix target accepted = rw (is_prefix_covered, accepted) (ground arith)

not_below_slash :
    (safe_path : Text)
    → All IsSafePart (split b'/' safe_path)
    → starts_with safe_path (codes "/") ≡ false
unfolding split starts_with
not_below_slash [] safe = refl
not_below_slash (c ∷ s) safe = elim (Bool-cases (c == b'/')) [
  | inl slash ↦
      let parts : split b'/' (c ∷ s) ≡ [] ∷ split b'/' s = rw (split, slash) refl in
      let empty : All IsSafePart ([] ∷ split b'/' s) = subst (All IsSafePart) parts safe in
      absurd (cc (empty.0.0))
  | inr other ↦ ground (arith, other)
]

-- No accepted path of a repository begins with the normalized prefix "."; still, the cache of a new snapshot in
-- which nothing but that prefix was marked holds any prefix that is accepted to be covered.
pub root_covers_all :
    (root : Text) (marked : List Text) (path safe_path prefix target : Text)
    → normalize_prefix (some (codes ".")) ≡ some root
    → mark_prefix_covered root [] ≡ some marked
    → normalize_repo_path path ≡ some safe_path
    → normalize_prefix (some prefix) ≡ some target
    → (starts_with safe_path root ≡ false) × (is_prefix_covered prefix marked ≡ some true)
unfolding normalize_prefix mark_prefix_covered text_eq
root_covers_all root marked path safe_path prefix target dot mark in_repository accepted =
    let slash : codes "/" ≡ root = value_of (codes "/") root dot in
    let nothing : [] ∷ [] ≡ marked =
      value_of ([] ∷ []) marked (ap (λ r. mark_prefix_covered r []) slash ∙ mark) in
    (
      subst (λ r. starts_with safe_path r ≡ false) slash
          (not_below_slash safe_path (normalize_repo_path-IsSafePart path safe_path in_repository)),
      subst (λ prefixes. is_prefix_covered prefix prefixes ≡ some true) nothing
          (covered_by_nothing prefix target accepted),
    )
