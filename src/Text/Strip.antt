-- ===== src/Text/Strip.antt =====
-- Stripping twice, and stripping joined texts. Models no file of the repository.
use mathlib.Core.List.{reverse, reverse-append, reverse-cons}
use deepdive.Base.{
  All, any, List, subst, ℕ, ◌≤◌, length, ◌≡◌, refl, ap, ◌∙◌, Bool, false, ◌&&◌, [], ◌∷◌, ◌++◌,
  arith, if◌then◌else◌,
}
use deepdive.Text.{join, Text, is_space, drop_while, strip, strip_by, is_empty}

module _ (p : ℕ → Bool) where
  -- `rstrip` from the front.
  cut_end : Text → Text
  cut_end [] = []
  cut_end (c ∷ s) = let rest = cut_end s in if p c && is_empty rest then [] else c ∷ rest

  drop_while-append_one :
      (s : Text) (c : ℕ)
      → drop_while p (s ++ c ∷ [])
        ≡ (if is_empty (drop_while p s) then drop_while p (c ∷ []) else drop_while p s ++ c ∷ [])
  unfolding drop_while
  drop_while-append_one [] c = refl
  drop_while-append_one (d ∷ s) c = ground (arith, drop_while-append_one s c)

is_empty-reverse : (s : Text) → is_empty (reverse s) ≡ is_empty s
is_empty-reverse [] = refl
is_empty-reverse (c ∷ s) = rw (reverse-append (c ∷ []) s) (go (reverse s))
  where
    go : (t : Text) → is_empty (t ++ c ∷ []) ≡ false
    go [] = refl
    go (d ∷ t) = refl

module _ (p : ℕ → Bool) where
  rev_if :
      (t : Text) (c : ℕ)
      → reverse (if is_empty t then drop_while p (c ∷ []) else t ++ c ∷ [])
        ≡ (if p c && is_empty (reverse t) then [] else c ∷ reverse t)
  unfolding drop_while
  rev_if [] c = ground arith
  rev_if (d ∷ t) c = rw (reverse-append (d ∷ t) (c ∷ [])) (ground (arith, is_empty-reverse (d ∷ t)))

  reverse-drop_while-reverse : (s : Text) → reverse (drop_while p (reverse s)) ≡ cut_end p s
  unfolding drop_while cut_end
  reverse-drop_while-reverse [] = refl
  reverse-drop_while-reverse (c ∷ s) =
      rw (reverse-cons c s, drop_while-append_one p (reverse s) c)
        (cc (rev_if (drop_while p (reverse s)) c, reverse-drop_while-reverse s))

  drop_while_shorter : (s : Text) → length (drop_while p s) ≤ length s
  unfolding drop_while
  drop_while_shorter [] = omega arith
  drop_while_shorter (c ∷ s) = ground (arith, drop_while_shorter s)

  head_fails : (c : ℕ) (s : Text) → drop_while p (c ∷ s) ≡ c ∷ s → p c ≡ false
  unfolding drop_while
  head_fails c s h = ground (arith, drop_while_shorter s, ap {B = ℕ} length h)

  drop_while-cut_end : (s : Text) → drop_while p s ≡ s → drop_while p (cut_end p s) ≡ cut_end p s
  unfolding drop_while cut_end
  drop_while-cut_end [] h = refl
  drop_while-cut_end (c ∷ s) h = ground (arith, head_fails c s h)

  cut_end_idem : (s : Text) → cut_end p (cut_end p s) ≡ cut_end p s
  unfolding cut_end
  cut_end_idem [] = refl
  cut_end_idem (c ∷ s) = ground (arith, cut_end_idem s)

  drop_while_idem : (s : Text) → drop_while p (drop_while p s) ≡ drop_while p s
  unfolding drop_while
  drop_while_idem [] = refl
  drop_while_idem (c ∷ s) = ground (arith, drop_while_idem s)

  pub strip_by_idem : (s : Text) → strip_by p (strip_by p s) ≡ strip_by p s
  unfolding strip_by
  strip_by_idem s = rw (reverse-drop_while-reverse (drop_while p s)) (
      rw (drop_while-cut_end (drop_while p s) (drop_while_idem s))
        (reverse-drop_while-reverse (cut_end p (drop_while p s)) ∙ cut_end_idem (drop_while p s)))

pub strip_idem : (s : Text) → strip (strip s) ≡ strip s
unfolding strip
strip_idem s = strip_by_idem is_space s

is_empty-append : (a s : Text) → is_empty s ≡ false → is_empty (a ++ s) ≡ false
is_empty-append [] s h = h
is_empty-append (c ∷ a) s h = refl

append-nil : (w : Text) → w ++ [] ≡ w
append-nil [] = refl
append-nil (c ∷ w) = ap (λ s. c ∷ s) (append-nil w)

module _ (p : ℕ → Bool) where
  -- Neither empty nor with a character that is stripped.
  abbrev pub IsFull : Text → Type 0
  IsFull w = (is_empty w ≡ false) × (any p w ≡ false)

  cut_end-full : (w : Text) → any p w ≡ false → cut_end p w ≡ w
  unfolding cut_end
  cut_end-full [] h = refl
  cut_end-full (c ∷ w) h = ground (arith, cut_end-full w)

  cut_end-append : (a s : Text) → is_empty s ≡ false → cut_end p s ≡ s → cut_end p (a ++ s) ≡ a ++ s
  unfolding cut_end
  cut_end-append [] s full h = h
  cut_end-append (c ∷ a) s full h =
      ground (arith, cut_end-append a s full h, is_empty-append a s full)

  drop_while-full : (w s : Text) → IsFull w → drop_while p (w ++ s) ≡ w ++ s
  unfolding drop_while
  drop_while-full [] s h = absurd (cc (h.0))
  drop_while-full (c ∷ w) s h = ground (arith, h.1)

  is_empty-join : (sep w : Text) (ws : List Text) → IsFull w → is_empty (join sep (w ∷ ws)) ≡ false
  unfolding join
  is_empty-join sep [] ws h = absurd (cc (h.0))
  is_empty-join sep (c ∷ w) [] h = refl
  is_empty-join sep (c ∷ w) (v ∷ ws) h = refl

  cut_end-join :
      (sep w : Text) (ws : List Text)
      → All IsFull (w ∷ ws)
      → cut_end p (join sep (w ∷ ws)) ≡ join sep (w ∷ ws)
  unfolding join
  cut_end-join sep w [] h = cut_end-full w h.0.1
  cut_end-join sep w (v ∷ ws) h =
      let rest = join sep (v ∷ ws) in
      let full = is_empty-join sep v ws h.1.0 in
      cut_end-append w (sep ++ rest) (is_empty-append sep rest full)
        (cut_end-append sep rest full (cut_end-join sep v ws h.1))

  drop_while-join :
      (sep w : Text) (ws : List Text)
      → All IsFull (w ∷ ws)
      → drop_while p (join sep (w ∷ ws)) ≡ join sep (w ∷ ws)
  unfolding join
  drop_while-join sep w [] h =
      subst (λ s. drop_while p s ≡ s) (append-nil w) (drop_while-full w [] h.0)
  drop_while-join sep w (v ∷ ws) h = drop_while-full w (sep ++ join sep (v ∷ ws)) h.0

  -- Joined texts are not stripped where none of them has a character that is.
  pub strip_by-join :
      (sep w : Text) (ws : List Text)
      → All IsFull (w ∷ ws)
      → strip_by p (join sep (w ∷ ws)) ≡ join sep (w ∷ ws)
  unfolding strip_by
  strip_by-join sep w ws h =
      rw (drop_while-join sep w ws h)
        (reverse-drop_while-reverse p (join sep (w ∷ ws)) ∙ cut_end-join sep w ws h)
