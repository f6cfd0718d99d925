-- ===== src/Snapshot/PosixPath.antt =====
-- Python's `PurePosixPath`, as far as backend/snapshot/scanner.py uses it. Models no file of the repository.
use deepdive.Base.{not, ◌&&◌, ◌||◌, List, [], ◌∷◌, ◌++◌, if◌then◌else◌, keep}
use deepdive.Text.{Text, codes, text_eq, split, join, starts_with, is_empty}

-- The root, "", "/" or "//", and the parts below it.
pub record PosixPath : Type 0 where
  pub root : Text
  pub names : List Text

abbrev root_of : Text → Text
root_of s =
    if starts_with s (codes "//") && not (starts_with s (codes "///"))
    then codes "//"
    else if starts_with s (codes "/")
    then codes "/"
    else []

-- `PurePosixPath(s)`
unfoldable pub posix_path : Text → PosixPath
unfolding text_eq starts_with split
posix_path s = record {
  root = root_of s;
  names = keep (λ part. not (is_empty part || text_eq part (codes "."))) (split b'/' s);
}

-- `path.as_posix()`
unfoldable pub as_posix : PosixPath → Text
unfolding join
as_posix p =
    if is_empty p.root && is_empty p.names then codes "." else p.root ++ join (codes "/") p.names

-- All but the last element.
abbrev pub init {ℓ} : {A : Type ℓ} → List A → List A
init [] = []
init (x ∷ []) = []
init (x ∷ y ∷ xs) = x ∷ init (y ∷ xs)

abbrev last_name : List Text → Text
last_name [] = []
last_name (x ∷ []) = x
last_name (x ∷ y ∷ xs) = last_name (y ∷ xs)

-- `path.parent`
unfoldable pub parent : PosixPath → PosixPath
parent p = record p { names = init p.names }

-- `path.name`
unfoldable pub name_of : PosixPath → Text
name_of p = last_name p.names

-- `path.parts`
unfoldable pub parts : PosixPath → List Text
parts p = if is_empty p.root then p.names else p.root ∷ p.names

-- `path / part`, for a part of a path
unfoldable pub below : PosixPath → Text → PosixPath
unfolding starts_with
below p part =
    if starts_with part (codes "/")
    then record { root = part; names = [] }
    else record p { names = p.names ++ part ∷ [] }
