-- ===== src/Text/Lemmas.antt =====
-- Laws of the `str` methods. Models no file of the repository.
use deepdive.Base.{
  Bool-cases, inl, inr, subst, Member, first, later, ℕ, ◌≡◌, ◌≢◌, refl, ◌↔◌, true, false, List, [],
  ◌∷◌, arith, ◌==◌, if◌then◌else◌, All,
}
use deepdive.Text.{Text, member, text_eq, text_lt, lower, lower_char, split, push_char, has_char}

text_eq_sound : (s t : Text) → text_eq s t ≡ true → s ≡ t
unfolding text_eq
text_eq_sound [] [] h = refl
text_eq_sound [] (b ∷ t) h = cc
text_eq_sound (a ∷ s) [] h = cc
text_eq_sound (a ∷ s) (b ∷ t) h = ground (arith, text_eq_sound s t)

pub text_eq_refl : (s : Text) → text_eq s s ≡ true
unfolding text_eq
text_eq_refl [] = refl
text_eq_refl (a ∷ s) = ground (arith, text_eq_refl s)

pub text_eq_iff : (s t : Text) → (text_eq s t ≡ true) ↔ (s ≡ t)
text_eq_iff s t = (text_eq_sound s t, λ e. rw e (text_eq_refl t))

pub text_lt_asymm : (s t : Text) → text_lt s t ≡ true → text_lt t s ≡ false
unfolding text_lt
text_lt_asymm [] [] h = refl
text_lt_asymm [] (b ∷ t) h = refl
text_lt_asymm (a ∷ s) [] h = cc
text_lt_asymm (a ∷ s) (b ∷ t) h = ground (arith, text_lt_asymm s t)

pub text_lt_total : (s t : Text) → text_lt s t ≡ false → text_lt t s ≡ false → s ≡ t
unfolding text_lt
text_lt_total [] [] h k = refl
text_lt_total [] (b ∷ t) h k = cc
text_lt_total (a ∷ s) [] h k = cc
text_lt_total (a ∷ s) (b ∷ t) h k = ground (arith, text_lt_total s t)

pub lower_char_idem : (c : ℕ) → lower_char (lower_char c) ≡ lower_char c
unfolding lower_char
lower_char_idem c = ground arith

pub lower_idem : (s : Text) → lower (lower s) ≡ lower s
unfolding lower
lower_idem [] = refl
lower_idem (c ∷ s) = cc (lower_char_idem c, lower_idem s)

-- No part of a split has the separator.
pub has_char-split : (sep : ℕ) (s : Text) → All (λ w. has_char sep w ≡ false) (split sep s)
unfolding split has_char
has_char-split sep [] = (refl, tt)
has_char-split sep (c ∷ s) = go (split sep s) (has_char-split sep s)
  where
    go :
        (ws : List Text)
        → All (λ w. has_char sep w ≡ false) ws
        → All (λ w. has_char sep w ≡ false) (if c == sep then [] ∷ ws else push_char c ws)
    go [] h = ground arith
    go (w ∷ ws) h = ground arith

pub member-cons_false :
    (x y : Text) (seen : List Text)
    → member x (y ∷ seen) ≡ false
    → (y ≢ x) × (member x seen ≡ false)
unfolding member
member-cons_false x y seen h = ground (arith, text_eq_iff x y)

pub member-Member : (s : Text) {texts : List Text} → Member s texts → member s texts ≡ true
unfolding member
member-Member s (first texts) = ground (arith, text_eq_refl s)
member-Member s (later t m) = ground (arith, member-Member s m)

pub Member-member : (s : Text) (texts : List Text) → member s texts ≡ true → Member s texts
unfolding member
Member-member s [] h = absurd cc
Member-member s (t ∷ texts) h = elim (Bool-cases (text_eq s t)) [
  | inl same ↦ subst (λ u. Member s (u ∷ texts)) ((text_eq_iff s t).0 same) (first texts)
  | inr other ↦ later t (Member-member s texts (ground (arith, h, other)))
]
