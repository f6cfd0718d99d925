-- ===== src/Security/SecretPaths/Joined.antt =====
-- The parts that backend/security/secret_paths.py finds in a path that is joined of plain names.
use deepdive.Base.{
  ℕ, ◌≡◌, refl, ap, ◌∙◌, Bool, true, false, not, ◌||◌, List, [], ◌∷◌, ◌++◌, map, any, arith, All,
  All-map, ◌==◌, if◌then◌else◌, keep_everything,
}
use deepdive.Text.{
  Text, codes, lower, join, replace_char, strip, is_space, is_empty, has_char, starts_with,
}
use deepdive.Text.Splits.{split-join}
use deepdive.Text.Strip.{IsFull, strip_by-join}
use deepdive.Security.SecretPaths.{
  drop_stars, collapse_stars, normalize_path_pattern, lower_parts_of,
}

-- The characters with a meaning in a pattern, and white space.
abbrev is_special : ℕ → Bool
is_special c = c == b'/' || c == b'\\' || c == b'*' || is_space c

-- The name of a file or a directory: not empty, without slashes, stars and white space.
abbrev pub IsPlain : Text → Type 0
IsPlain w = (is_empty w ≡ false) × (any is_special w ≡ false)

-- A weaker test.
any-weaken :
    (p : ℕ → Bool) (w : Text)
    → ((c : ℕ) → is_special c ≡ false → p c ≡ false)
    → any is_special w ≡ false
    → any p w ≡ false
any-weaken p [] weaker h = refl
any-weaken p (c ∷ w) weaker h =
    ground (arith, weaker c (ground arith), any-weaken p w weaker (ground arith))

All-any_weaken :
    (p : ℕ → Bool) (ws : List Text)
    → ((c : ℕ) → is_special c ≡ false → p c ≡ false)
    → All IsPlain ws
    → All (IsFull p) ws
All-any_weaken p ws weaker = All-map IsPlain (IsFull p) ws (λ w h. (h.0, any-weaken p w weaker h.1))

replace-plain : (w : Text) → any is_special w ≡ false → replace_char b'\\' b'/' w ≡ w
unfolding replace_char
replace-plain [] h = refl
replace-plain (c ∷ w) h = ground (arith, replace-plain w)

replace-append :
    (a b : ℕ) (s t : Text) → replace_char a b (s ++ t) ≡ replace_char a b s ++ replace_char a b t
unfolding replace_char
replace-append a b [] t = refl
replace-append a b (c ∷ s) t = ap (λ r. (if c == a then b else c) ∷ r) (replace-append a b s t)

-- With either slash between the parts.
replace-join :
    (sep : ℕ) (w : Text) (ws : List Text)
    → replace_char b'\\' b'/' (sep ∷ []) ≡ codes "/"
    → All IsPlain (w ∷ ws)
    → replace_char b'\\' b'/' (join (sep ∷ []) (w ∷ ws)) ≡ join (codes "/") (w ∷ ws)
unfolding join
replace-join sep w [] slash h = replace-plain w h.0.1
replace-join sep w (v ∷ ws) slash h =
    replace-append b'\\' b'/' w (sep ∷ join (sep ∷ []) (v ∷ ws))
    ∙ rw
        (
          replace-plain w h.0.1,
          replace-append b'\\' b'/' (sep ∷ []) (join (sep ∷ []) (v ∷ ws)),
          slash,
          replace-join sep v ws slash h.1,
        )
        refl

has_char-append : (c : ℕ) (s t : Text) → has_char c (s ++ t) ≡ (has_char c s || has_char c t)
unfolding has_char
has_char-append c [] t = refl
has_char-append c (d ∷ s) t = ground (arith, has_char-append c s t)

no_star :
    (w : Text) (ws : List Text)
    → All IsPlain (w ∷ ws)
    → has_char b'*' (join (codes "/") (w ∷ ws)) ≡ false
unfolding join has_char
no_star w [] h = any-weaken (λ c. c == b'*') w (λ c e. ground arith) h.0.1
no_star w (v ∷ ws) h =
    has_char-append b'*' w (b'/' ∷ join (codes "/") (v ∷ ws))
    ∙ ground (arith, any-weaken (λ c. c == b'*') w (λ c e. ground arith) h.0.1, no_star v ws h.1)

drop_stars-plain : (s : Text) → has_char b'*' s ≡ false → drop_stars s ≡ s
unfolding drop_stars has_char
drop_stars-plain [] h = refl
drop_stars-plain (a ∷ []) h = refl
drop_stars-plain (a ∷ b ∷ []) h = refl
drop_stars-plain (a ∷ b ∷ c ∷ s) h = ground arith

collapse_stars-plain : (s : Text) → has_char b'*' s ≡ false → collapse_stars 0 s ≡ s
unfolding collapse_stars has_char starts_with
collapse_stars-plain [] h = refl
collapse_stars-plain (c ∷ []) h = ground arith
collapse_stars-plain (c ∷ d ∷ s) h = ground (arith, collapse_stars-plain (d ∷ s))

normalized-join :
    (sep : ℕ) (w : Text) (ws : List Text)
    → replace_char b'\\' b'/' (sep ∷ []) ≡ codes "/"
    → All IsPlain (w ∷ ws)
    → normalize_path_pattern (join (sep ∷ []) (w ∷ ws)) ≡ join (codes "/") (w ∷ ws)
unfolding normalize_path_pattern strip
normalized-join sep w ws slash h =
    let path = join (codes "/") (w ∷ ws) in
    let trimmed =
      strip_by-join is_space (codes "/") w ws
        (All-any_weaken is_space (w ∷ ws) (λ c e. ground arith) h) in
    let bare =
      strip_by-join (λ c. c == b'/') (codes "/") w ws
        (All-any_weaken (λ c. c == b'/') (w ∷ ws) (λ c e. ground arith) h) in
    rw (replace-join sep w ws slash h, trimmed, bare, drop_stars-plain path (no_star w ws h))
      (collapse_stars-plain path (no_star w ws h))

lower_parts_of-join :
    (sep : ℕ) (w : Text) (ws : List Text)
    → replace_char b'\\' b'/' (sep ∷ []) ≡ codes "/"
    → All IsPlain (w ∷ ws)
    → lower_parts_of (join (sep ∷ []) (w ∷ ws)) ≡ map lower (w ∷ ws)
unfolding lower_parts_of has_char
lower_parts_of-join sep w ws slash h =
    rw
      (
        normalized-join sep w ws slash h,
        split-join w ws (
            All-map IsPlain (λ v. has_char b'/' v ≡ false) (w ∷ ws)
              (λ v e. any-weaken (λ c. c == b'/') v (λ c e'. ground arith) e.1) h),
      )
      (ap (map lower) (
        keep_everything (λ part. not (is_empty part)) (w ∷ ws)
          (All-map IsPlain (λ v. not (is_empty v) ≡ true) (w ∷ ws) (λ v e. ground arith) h)))

-- The parts in lower case, for a path of plain names with either slash between them.
pub lower_parts_of-parts :
    (sep : ℕ)
    → replace_char b'\\' b'/' (sep ∷ []) ≡ codes "/"
    → (directories : List Text) (name : Text) → All IsPlain (directories ++ name ∷ [])
    → lower_parts_of (join (sep ∷ []) (directories ++ name ∷ []))
      ≡ map lower (directories ++ name ∷ [])
lower_parts_of-parts sep slash [] name h = lower_parts_of-join sep name [] slash h
lower_parts_of-parts sep slash (d ∷ directories) name h =
    lower_parts_of-join sep d (directories ++ name ∷ []) slash h
