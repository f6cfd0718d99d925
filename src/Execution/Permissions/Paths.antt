-- ===== src/Execution/Permissions/Paths.antt =====
-- What the paths of an allowed call are like: backend/execution/permissions.py.
use mathlib.Core.List.{reverse, reverse-cons}
use deepdive.Base.{
  ℕ, ◌≡◌, ◌≢◌, refl, sym, ap, ◌∙◌, ◌⊎◌, inl, inr, true, false, some, List, [], ◌∷◌, ◌++◌, arith,
  ◌==◌, ==_iff, subst, if◌then◌else◌, All, Bool-cases, Option-cases, find,
}
use deepdive.Text.{Text, codes, text_eq, member, starts_with, ends_with, contains, split, push_char}
use deepdive.Text.Lemmas.{text_eq_iff}
use deepdive.Json.{Fields, str, get}
use deepdive.Security.SecretPaths.{is_secret_path}
use deepdive.Execution.Permissions.{
  allow, ToolDefinition, forward_slashes, is_unsafe_path, check_paths, evaluate_result,
  path_arguments,
}

abbrev first_of : List Text → Text
first_of [] = []
first_of (w ∷ ws) = w

abbrev others_of : List Text → List Text
others_of [] = []
others_of (w ∷ ws) = ws

first_of-push_char : (c : ℕ) (ws : List Text) → first_of (push_char c ws) ≡ c ∷ first_of ws
first_of-push_char c [] = refl
first_of-push_char c (w ∷ ws) = refl

others_of-push_char : (c : ℕ) (ws : List Text) → others_of (push_char c ws) ≡ others_of ws
others_of-push_char c [] = refl
others_of-push_char c (w ∷ ws) = refl

first_of-split :
    (sep c : ℕ) (s : Text)
    → first_of (split sep (c ∷ s)) ≡ (if c == sep then [] else c ∷ first_of (split sep s))
unfolding split
first_of-split sep c s = elim (Bool-cases (c == sep)) [
  | inl t ↦ rw t refl
  | inr f ↦ rw f (first_of-push_char c (split sep s))
]

others_of-split :
    (sep c : ℕ) (s : Text)
    → others_of (split sep (c ∷ s)) ≡ (if c == sep then split sep s else others_of (split sep s))
unfolding split
others_of-split sep c s = elim (Bool-cases (c == sep)) [
  | inl t ↦ rw t refl
  | inr f ↦ rw f (others_of-push_char c (split sep s))
]

abbrev pub up : Text
up = codes ".."

first_of-split_empty : (sep : ℕ) → first_of (split sep []) ≡ []
unfolding split
first_of-split_empty sep = refl

-- A path that begins with the part ".." is it, or goes on behind a slash.
up_first :
    (s : Text)
    → first_of (split b'/' s) ≡ up
    → (text_eq s up ≡ true) ⊎ (starts_with s (codes "../") ≡ true)
unfolding text_eq starts_with
up_first [] h = cc (first_of-split_empty b'/')
up_first (a ∷ []) h = ground (arith, first_of-split b'/' a [], first_of-split_empty b'/')
up_first (a ∷ b ∷ []) h =
    ground
      (arith, first_of-split b'/' a (b ∷ []), first_of-split b'/' b [], first_of-split_empty b'/')
up_first (a ∷ b ∷ c ∷ s) h = ground (
  arith,
  first_of-split b'/' a (b ∷ c ∷ s),
  first_of-split b'/' b (c ∷ s),
  first_of-split b'/' c s,
)

starts_with-append : (s t more : Text) → starts_with s t ≡ true → starts_with (s ++ more) t ≡ true
unfolding starts_with
starts_with-append [] [] more h = refl
starts_with-append [] (b ∷ t) more h = cc
starts_with-append (a ∷ s) [] more h = refl
starts_with-append (a ∷ s) (b ∷ t) more h = ground (arith, starts_with-append s t more)

contains-tail : (c : ℕ) (s t : Text) → contains (c ∷ s) t ≡ false → contains s t ≡ false
unfolding contains
contains-tail c s t h = ground arith

ends_with-tail : (c : ℕ) (s t : Text) → ends_with (c ∷ s) t ≡ false → ends_with s t ≡ false
unfolding ends_with
ends_with-tail c s t h = elim (Bool-cases (starts_with (reverse s) (reverse t))) [
  | inl yes_ ↦
      let longer : starts_with (reverse (c ∷ s)) (reverse t) ≡ true =
        rw (reverse-cons c s) (starts_with-append (reverse s) (reverse t) (c ∷ []) yes_) in
      cc (longer, h)
  | inr no_ ↦ no_
]

All-of_parts :
    (ws : List Text) → first_of ws ≢ up → All (λ w. w ≢ up) (others_of ws) → All (λ w. w ≢ up) ws
All-of_parts [] ne h = tt
All-of_parts (w ∷ ws) ne h = (ne, h)

ends_with-up : (s : Text) → text_eq s up ≡ true → ends_with (b'/' ∷ s) (codes "/..") ≡ true
unfolding ends_with starts_with
ends_with-up s same = ap (λ t. ends_with (b'/' ∷ t) (codes "/..")) ((text_eq_iff s up).0 same)

-- What stands behind a slash is not the part "..".
not_up_behind :
    (s : Text)
    → contains (b'/' ∷ s) (codes "/../") ≡ false
    → ends_with (b'/' ∷ s) (codes "/..") ≡ false
    → first_of (split b'/' s) ≢ up
unfolding contains starts_with
not_up_behind s inside last e = elim (up_first s e) [
  | inl same ↦ cc (ends_with-up s same, last)
  | inr start ↦ ground arith
]

others_not_up :
    (s : Text)
    → contains s (codes "/../") ≡ false
    → ends_with s (codes "/..") ≡ false
    → All (λ w. w ≢ up) (others_of (split b'/' s))
unfolding split
others_not_up [] inside last = tt
others_not_up (c ∷ s) inside last =
    let rest =
      others_not_up s (contains-tail c s (codes "/../") inside)
        (ends_with-tail c s (codes "/..") last) in
    (elim (Bool-cases (c == b'/')) [
      | inl slash ↦
          let is_slash : c ≡ b'/' = (==_iff c b'/').0 slash in
          let first =
            not_up_behind s (subst (λ x. contains (x ∷ s) (codes "/../") ≡ false) is_slash inside)
              (subst (λ x. ends_with (x ∷ s) (codes "/..") ≡ false) is_slash last) in
          rw slash (All-of_parts (split b'/' s) first rest)
      | inr other ↦ rw (other, others_of-push_char c (split b'/' s)) rest
    ])

-- A path that may be used has no part "..", and is not absolute.
pub safe_path_lem :
    (path : Text)
    → is_unsafe_path path ≡ false
    → All (λ part. part ≢ up) (split b'/' (forward_slashes path))
      × (starts_with (forward_slashes path) (codes "/") ≡ false)
unfolding is_unsafe_path
safe_path_lem path h = (
  All-of_parts (split b'/' (forward_slashes path))
      (λ e. elim (up_first (forward_slashes path) e) [
        | inl same ↦ ground arith
        | inr start ↦ ground arith
      ])
      (others_not_up (forward_slashes path) (ground arith) (ground arith)),
  ground arith,
)

module _ (tool : ToolDefinition) (arguments : Fields) (name path : Text)
    (given : get name arguments ≡ str path) where
  checked_path :
      (names : List Text)
      → member name names ≡ true
      → (check_paths tool arguments names).decision ≡ allow
      → (is_unsafe_path path ≡ false) × (is_secret_path path ≡ false)
  unfolding check_paths member
  checked_path [] named allowed_ = cc
  checked_path (n ∷ names) named allowed_ = elim (Bool-cases (text_eq name n)) [
    | inl same ↦
        let here : get n arguments ≡ str path =
          ap (λ m. get m arguments) (sym ((text_eq_iff name n).0 same)) ∙ given in
        ground (arith, here)
    | inr other ↦ ground (arith, checked_path names)
  ]

-- Of an allowed call, the tool is enabled, and each path among the arguments that the engine reads is
-- relative, has no part "..", with either kind of slash, and is not secret.
pub allowed_paths :
    (tools : List ToolDefinition) (tool_name : Text) (arguments : Fields) (name path : Text)
    → (evaluate_result tools tool_name arguments).decision ≡ allow
    → member name path_arguments ≡ true
    → get name arguments ≡ str path
    → All (λ part. part ≢ up) (split b'/' (forward_slashes path))
      × (starts_with (forward_slashes path) (codes "/") ≡ false)
      × (is_secret_path path ≡ false)
      × ((tool : ToolDefinition) × (find (λ t. text_eq t.name tool_name) (reverse tools)
            ≡ some tool))
unfolding evaluate_result
allowed_paths tools tool_name arguments name path allowed_ named given =
    elim (Option-cases (find (λ (t : ToolDefinition). text_eq t.name tool_name) (reverse tools))) [
      | inl missing ↦ absurd (ground (arith, missing))
      | inr (tool, e) ↦
          let checked : (check_paths tool arguments path_arguments).decision ≡ allow =
            ground (arith, e) in
          let (safe, open_) =
            checked_path tool arguments name path given path_arguments named checked in
          let (parts, relative) = safe_path_lem path safe in (parts, relative, open_, (tool, e))
    ]
