-- ===== src/Text/Splits.antt =====
-- Joining texts and splitting them again. Models no file of the repository.
use deepdive.Base.{◌≡◌, refl, ap, ◌∙◌, false, [], ◌∷◌, ◌++◌, List, arith, All}
use deepdive.Text.{Text, codes, split, join, has_char}

split-append :
    (w s : Text) → has_char b'/' w ≡ false → split b'/' (w ++ b'/' ∷ s) ≡ w ∷ split b'/' s
unfolding split has_char
split-append [] s h = ground arith
split-append (c ∷ w) s h = ground (arith, split-append w s)

split-plain : (w : Text) → has_char b'/' w ≡ false → split b'/' w ≡ w ∷ []
unfolding split has_char
split-plain [] h = refl
split-plain (c ∷ w) h = ground (arith, split-plain w)

-- Joined parts are split again.
pub split-join :
    (w : Text) (ws : List Text)
    → All (λ v. has_char b'/' v ≡ false) (w ∷ ws)
    → split b'/' (join (codes "/") (w ∷ ws)) ≡ w ∷ ws
unfolding join
split-join w [] h = split-plain w h.0
split-join w (v ∷ ws) h =
    split-append w (join (codes "/") (v ∷ ws)) h.0 ∙ ap (λ rest. w ∷ rest) (split-join v ws h.1)
