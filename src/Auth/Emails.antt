-- ===== src/Auth/Emails.antt =====
-- `normalize_email` of backend/auth/service.py.
use mathlib.Core.List.{reverse, reverse_aux}
use deepdive.Base.{ℕ, ◌≡◌, refl, sym, ap, ◌∙◌, [], ◌∷◌, map, arith}
use deepdive.Text.{Text, is_space, lower, lower_char, drop_while, strip, strip_by}
use deepdive.Text.Lemmas.{lower_idem}
use deepdive.Text.Strip.{strip_idem}
use deepdive.Auth.Accounts.{normalize_email}

is_space-lower_char : (c : ℕ) → is_space (lower_char c) ≡ is_space c
unfolding is_space lower_char
is_space-lower_char c = ground arith

drop_while-lower :
    (s : Text) → drop_while is_space (map lower_char s) ≡ map lower_char (drop_while is_space s)
unfolding drop_while
drop_while-lower [] = refl
drop_while-lower (c ∷ s) = ground (arith, is_space-lower_char c, drop_while-lower s)

map-reverse_aux :
    (f : ℕ → ℕ) (s t : Text) → map f (reverse_aux s t) ≡ reverse_aux (map f s) (map f t)
map-reverse_aux f [] t = refl
map-reverse_aux f (c ∷ s) t = map-reverse_aux f s (c ∷ t)

strip-lower : (s : Text) → strip (lower s) ≡ lower (strip s)
unfolding strip strip_by lower
strip-lower s =
    rw
      (
        drop_while-lower s,
        sym (map-reverse_aux lower_char (drop_while is_space s) []),
        drop_while-lower (reverse (drop_while is_space s)),
        sym (map-reverse_aux lower_char (drop_while is_space (reverse (drop_while is_space s))) []),
      )
      refl

-- A normalized email is normalized to itself.
pub normalize_email_idem :
    (email : Text) → normalize_email (normalize_email email) ≡ normalize_email email
unfolding normalize_email
normalize_email_idem email =
    ap lower (strip-lower (strip email) ∙ ap lower (strip_idem email)) ∙ lower_idem (strip email)
