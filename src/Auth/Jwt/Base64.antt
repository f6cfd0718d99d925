-- ===== src/Auth/Jwt/Base64.antt =====
-- The padding of Base64, which backend/auth/jwt.py takes off and puts on, and the dots of a token.
use mathlib.Core.List.{reverse, reverse-append, reverse-cons, reverse-reverse}
use deepdive.Base.{
  ℕ, zero, suc, ◌+◌, ◌%◌, ◌≤◌, ◌≡◌, refl, ap, ◌∙◌, Bool, false, some, [], ◌∷◌, ◌++◌, arith, any,
  any-append, length, ◌==◌, Option-cases, inl, inr,
}
use deepdive.Text.{Text, has_char, drop_while}
use deepdive.Auth.Jwt.{strip_padding, equals_signs, padding_of, split_dot}

abbrev is_equals : ℕ → Bool
is_equals c = c == b'='

any-reverse : (p : ℕ → Bool) (s : Text) → any p (reverse s) ≡ any p s
any-reverse p [] = refl
any-reverse p (c ∷ s) =
    rw (reverse-cons c s) (ground (arith, any-append p (reverse s) (c ∷ []), any-reverse p s))

equals_signs_snoc : (n : ℕ) → equals_signs n ++ b'=' ∷ [] ≡ b'=' ∷ equals_signs n
equals_signs_snoc zero = refl
equals_signs_snoc (suc n) = ap (λ s. b'=' ∷ s) (equals_signs_snoc n)

reverse-equals_signs : (n : ℕ) → reverse (equals_signs n) ≡ equals_signs n
reverse-equals_signs zero = refl
reverse-equals_signs (suc n) =
    reverse-cons b'=' (equals_signs n)
    ∙ ap (λ s. s ++ b'=' ∷ []) (reverse-equals_signs n)
    ∙ equals_signs_snoc n

drop_while-equals_signs :
    (n : ℕ) (s : Text) → drop_while is_equals (equals_signs n ++ s) ≡ drop_while is_equals s
unfolding drop_while
drop_while-equals_signs zero s = refl
drop_while-equals_signs (suc n) s = drop_while-equals_signs n s

drop_while-none : (s : Text) → any is_equals s ≡ false → drop_while is_equals s ≡ s
unfolding drop_while
drop_while-none [] h = refl
drop_while-none (c ∷ s) h = ground arith

pub strip_padding-append :
    (body : Text) (n : ℕ)
    → any is_equals body ≡ false
    → strip_padding (body ++ equals_signs n) ≡ body
unfolding strip_padding
strip_padding-append body n h =
    ap (λ s. reverse (drop_while is_equals s))
      (reverse-append body (equals_signs n) ∙ ap (λ s. s ++ reverse body) (reverse-equals_signs n))
    ∙ ap reverse (
        drop_while-equals_signs n (reverse body)
        ∙ drop_while-none (reverse body) (any-reverse is_equals body ∙ h))
    ∙ reverse-reverse body

pub padding_of_lem :
    (body : Text) (n : ℕ) → n ≤ 2 → (length body + n) % 4 ≡ 0 → padding_of body ≡ equals_signs n
unfolding padding_of
padding_of_lem body n small whole = ap equals_signs (omega arith)

pub split_dot-append :
    (front rest : Text)
    → has_char b'.' front ≡ false
    → split_dot (front ++ b'.' ∷ rest) ≡ some (front, rest)
unfolding split_dot has_char
split_dot-append [] rest h = refl
split_dot-append (c ∷ front) rest h = ground (arith, split_dot-append front rest)

-- A split text is put together again.
pub split_dot-join :
    (s front rest : Text) → split_dot s ≡ some (front, rest) → s ≡ front ++ b'.' ∷ rest
unfolding split_dot
split_dot-join [] front rest h = cc
split_dot-join (c ∷ s) front rest h = elim (Option-cases (split_dot s)) [
  | inl none_ ↦ ground (arith, none_)
  | inr ((p, q), e) ↦ ground (arith, e, split_dot-join s p q e)
]
