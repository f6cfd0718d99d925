-- ===== src/Cache/Tests.antt =====
-- Concrete runs of backend/cache/__init__.py.
use deepdive.Base.{false, ◌≡◌, refl, true, some, [], ◌∷◌, All}
use deepdive.Text.{starts_with, codes, text_eq, split}
use deepdive.Cache.{normalize_repo_path, normalize_prefix, mark_prefix_covered, is_prefix_covered}
use deepdive.Cache.Root.{root_covers_all}
use deepdive.Cache.Safe.{IsSafePart, normalize_repo_path-IsSafePart}

-- "src/a.py" is not found below the prefix of the root, and "src" is covered where that is marked.
root_covers_all_example :
    (starts_with (codes "src/a.py") (codes "/") ≡ false)
    × (is_prefix_covered (codes "src") ([] ∷ []) ≡ some true)
unfolding normalize_prefix normalize_repo_path mark_prefix_covered text_eq
root_covers_all_example =
    root_covers_all (codes "/") ([] ∷ []) (codes "src/a.py") (codes "src/a.py") (codes "src")
      (codes "src/") refl refl refl refl

normalize_repo_path-IsSafePart_example : All IsSafePart (split b'/' (codes "src/a.py"))
unfolding normalize_repo_path
normalize_repo_path-IsSafePart_example =
    normalize_repo_path-IsSafePart (codes "/src/./a.py") (codes "src/a.py") refl
