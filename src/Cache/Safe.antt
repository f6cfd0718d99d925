-- ===== src/Cache/Safe.antt =====
-- Where the paths of backend/cache/__init__.py lead.
use deepdive.Base.{
  Member, All-Member, ◌⊎◌, ◌≡◌, ◌≢◌, refl, sym, ap, ◌∙◌, subst, Bool, true, false, not, ◌&&◌, ◌||◌,
  none, some, List, [], ◌∷◌, ◌++◌, arith, inl, inr, Bool-cases, if◌then◌else◌, All, All-keep,
  keep-All, any,
}
use deepdive.Text.{lower, lower_char, Text, codes, text_eq, split, join, has_char, is_empty}
use deepdive.Text.Lemmas.{has_char-split, text_eq_iff, member-Member}
use deepdive.Text.Splits.{split-join}
use deepdive.Cache.{before_dot, is_unsafe_repo_path_part, slashed, path_parts, normalize_repo_path}

All-any : (p : Text → Bool) (xs : List Text) → any p xs ≡ false → All (λ x. p x ≡ false) xs
All-any p [] h = tt
All-any p (x ∷ xs) h = (ground arith, All-any p xs (ground arith))

-- The names that Windows keeps for devices.
abbrev pub device_names : List Text
device_names =
    codes "con"
    ∷ codes "prn"
    ∷ codes "aux"
    ∷ codes "nul"
    ∷ codes "com1"
    ∷ codes "com2"
    ∷ codes "com3"
    ∷ codes "com4"
    ∷ codes "com5"
    ∷ codes "com6"
    ∷ codes "com7"
    ∷ codes "com8"
    ∷ codes "com9"
    ∷ codes "lpt1"
    ∷ codes "lpt2"
    ∷ codes "lpt3"
    ∷ codes "lpt4"
    ∷ codes "lpt5"
    ∷ codes "lpt6"
    ∷ codes "lpt7"
    ∷ codes "lpt8"
    ∷ codes "lpt9"
    ∷ []

-- The name of a device in any case, alone or before a dot and anything else.
abbrev pub IsDevice : Text → Type 0
IsDevice part =
    (name : Text) × (rest : Text) × Member (lower name) device_names
    × ((part ≡ name) ⊎ (part ≡ name ++ b'.' ∷ rest))

-- A part of a path that stays below its directory.
abbrev pub IsSafePart : Text → Type 0
IsSafePart part =
    (is_empty part ≡ false)
    × (part ≢ codes ".")
    × (part ≢ codes "..")
    × (has_char b':' part ≡ false)
    × ¬ IsDevice part

has_char-lower : (s : Text) → has_char b'.' (lower s) ≡ has_char b'.' s
unfolding has_char lower lower_char
has_char-lower [] = refl
has_char-lower (c ∷ s) = ground (arith, has_char-lower s)

before_dot-plain : (s : Text) → has_char b'.' s ≡ false → before_dot s ≡ s
unfolding before_dot has_char
before_dot-plain [] h = refl
before_dot-plain (c ∷ s) h = ground (arith, before_dot-plain s)

before_dot-append : (s rest : Text) → has_char b'.' s ≡ false → before_dot (s ++ b'.' ∷ rest) ≡ s
unfolding before_dot has_char
before_dot-append [] rest h = refl
before_dot-append (c ∷ s) rest h = ground (arith, before_dot-append s rest)

device_names-plain : All (λ d. has_char b'.' d ≡ false) device_names
unfolding has_char
device_names-plain = All-any (has_char b'.') device_names refl

before_dot-IsDevice : (part : Text) → IsDevice part → Member (lower (before_dot part)) device_names
before_dot-IsDevice part (name, rest, device, shape) =
    let plain : has_char b'.' name ≡ false =
      sym (has_char-lower name)
      ∙ All-Member (λ d. has_char b'.' d ≡ false) device device_names-plain in
    let stem : name ≡ before_dot part = elim shape [
      | inl alone ↦ sym (ap before_dot alone ∙ before_dot-plain name plain)
      | inr dotted ↦ sym (ap before_dot dotted ∙ before_dot-append name rest plain)
    ] in
    subst (λ s. Member (lower s) device_names) stem device

unsafe_device : (part : Text) → IsDevice part → is_unsafe_repo_path_part part ≡ true
unfolding is_unsafe_repo_path_part
unsafe_device part device =
    ground (arith, member-Member (lower (before_dot part)) (before_dot-IsDevice part device))

safe_part :
    (part : Text)
    → (not (is_empty part) && not (text_eq part (codes "."))) ≡ true
    → is_unsafe_repo_path_part part ≡ false
    → IsSafePart part
unfolding is_unsafe_repo_path_part
safe_part part named safe = (
  ground arith,
  ground (arith, text_eq_iff part (codes ".")),
  ground (arith, text_eq_iff part (codes "..")),
  ground arith,
  λ device. cc (unsafe_device part device, safe),
)

All-both :
    {A : Type 0} (P Q R : A → Type 0) (xs : List A)
    → ((x : A) → P x → Q x → R x)
    → All P xs
    → All Q xs
    → All R xs
All-both P Q R [] f p q = tt
All-both P Q R (x ∷ xs) f p q = (f x p.0 q.0, All-both P Q R xs f p.1 q.1)

abbrev is_named : Text → Bool
is_named part = not (is_empty part) && not (text_eq part (codes "."))

-- The end of `normalize_repo_path`.
accepted_parts :
    (names : List Text) (safe_path : Text)
    → All (λ part. is_named part ≡ true) names
    → All (λ part. has_char b'/' part ≡ false) names
    → (if is_empty names || any is_unsafe_repo_path_part names
        then none
        else some (join (codes "/") names))
      ≡ some safe_path
    → All IsSafePart (split b'/' safe_path)
accepted_parts [] safe_path named plain h = absurd cc
accepted_parts (w ∷ ws) safe_path named plain h =
    elim (Bool-cases (any is_unsafe_repo_path_part (w ∷ ws))) [
      | inl unsafe ↦ absurd (ground (arith, h, unsafe))
      | inr safe ↦
          let joined : join (codes "/") (w ∷ ws) ≡ safe_path = ground (arith, h, safe) in
          subst (λ s. All IsSafePart (split b'/' s)) joined
            (subst (All IsSafePart) (sym (split-join w ws plain)) (
              All-both (λ part. is_named part ≡ true)
                (λ part. is_unsafe_repo_path_part part ≡ false) IsSafePart (w ∷ ws) safe_part named
                (All-any is_unsafe_repo_path_part (w ∷ ws) safe)))
    ]

-- A path that is accepted has, between its slashes, only parts that are neither empty nor "." nor "..", have
-- no colon, and are not the name of a device in any case, alone or before a dot: below the files of a snapshot it leads to a place below them.
pub normalize_repo_path-IsSafePart :
    (path safe_path : Text)
    → normalize_repo_path path ≡ some safe_path
    → All IsSafePart (split b'/' safe_path)
unfolding normalize_repo_path path_parts
normalize_repo_path-IsSafePart path safe_path h =
    let raw = split b'/' (slashed path) in
    accepted_parts (path_parts (slashed path)) safe_path (keep-All is_named raw)
      (All-keep is_named (λ part. has_char b'/' part ≡ false) raw
        (has_char-split b'/' (slashed path)))
      h
