-- ===== src/Snapshot/Tests.antt =====
-- Concrete runs of backend/snapshot.
use deepdive.Base.{◌≡◌, refl, none, some, List, [], ◌∷◌, All, map}
use deepdive.Text.{Text, codes, strip_by, strip, lower}
use deepdive.Snapshot.Scanner.{GitTreeEntry, ScanInput, scan, count_lines}
use deepdive.Snapshot.Scanner.Clean.{IsClean, scan-IsClean}

-- Every file reads as its path, and the hash is the content.
abbrev input : ScanInput
input = record {
  snapshot_id = 1;
  max_file_bytes = 12;
  blob_reader = some (λ e. e.path);
  checkout = none;
  sha256_hex = λ x. x;
  encode = λ s. s;
}

abbrev blob : Text → GitTreeEntry
blob path = record {
  mode = codes "100644";
  kind = codes "blob";
  oid = codes "0";
  size = none;
  path = path;
}

-- A source, a secret and a file that is too large.
abbrev entries : List GitTreeEntry
entries = blob (codes "src/b.py") ∷ blob (codes "src/.env") ∷ blob (codes "a_long_name.py") ∷ []

scan-IsClean_example : All (IsClean input) (scan input entries []).2
scan-IsClean_example = scan-IsClean input entries

-- Only the source is stored, and the directory has a record.
stored_files : map (λ row. row.1) (scan input entries []).2 ≡ codes "src/b.py" ∷ []
unfolding scan strip_by strip lower
stored_files = refl

lines : count_lines (codes "a") ≡ 1
unfolding count_lines
lines = refl
