-- ===== src/Text/Slug.antt =====
-- The pattern `^[a-z0-9][a-z0-9-]{0,n}$` under `fullmatch`: TODO_ID_PATTERN of todo/service.py,
-- SLUG_PATTERN and SECTION_ID_PATTERN of document/service.py.
use deepdive.Base.{ℕ, Bool, false, not, ◌&&◌, ◌||◌, [], ◌∷◌, leb, ◌==◌, length, any}
use deepdive.Text.{Text}

-- `[a-z0-9]`
unfoldable pub is_alnum : ℕ → Bool
is_alnum c = (leb b'a' c && leb c b'z') || (leb b'0' c && leb c b'9')

-- `[a-z0-9-]`
unfoldable pub is_slug_char : ℕ → Bool
unfolding is_alnum
is_slug_char c = is_alnum c || c == b'-'

-- `^[a-z0-9][a-z0-9-]{0,n}$`
unfoldable pub is_slug : ℕ → Text → Bool
unfolding is_slug_char
is_slug n [] = false
is_slug n (c ∷ s) = is_alnum c && not (any (λ d. not (is_slug_char d)) s) && leb (length s) n
