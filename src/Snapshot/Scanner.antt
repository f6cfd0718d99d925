-- ===== src/Snapshot/Scanner.antt =====
-- backend/snapshot/scanner.py. The files of the checkout and the reader of blobs are arguments, and so is
-- SHA-256 in hexadecimal.
pub mod Clean
use deepdive.Base.{
  ℕ, zero, suc, ◌+◌, Bool, true, false, not, ◌&&◌, ◌||◌, Option, none, some, List, [], ◌∷◌, ◌++◌,
  ltb, ◌==◌, if◌then◌else◌, length, any, count_if, Table, find_key, put_key, table_values, sorted,
  is_some,
}
use deepdive.Text.{Text, codes, text_eq, text_lt, replace_char, is_empty}
use deepdive.Text.Keyed.{text_key}
use deepdive.Storage.Keys.{blob_key, instruction_key}
use deepdive.Storage.Memory.{Bytes, Objects, put_bytes}
use deepdive.Security.SecretPaths.{is_secret_path}
use deepdive.Snapshot.PosixPath.{
  PosixPath, posix_path, as_posix, parent, name_of, parts, below, init,
}

-- A row of `git ls-tree`.
pub record GitTreeEntry : Type 0 where
  pub mode : Text
  pub kind : Text
  pub oid : Text
  pub size : Option ℕ
  pub path : Text

pub record SnapshotFileRecord : Type 0 where
  pub path : Text
  pub path_hash : Text
  pub parent_path : Option Text
  pub name : Text
  pub entry_kind : Text
  pub git_mode : Option Text
  pub git_blob_oid : Option Text
  pub content_key : Option Text
  pub content_hash : Option Text
  pub size_bytes : Option ℕ
  pub line_count : Option ℕ
  pub is_binary : Bool
  pub is_large : Bool

pub record SnapshotInstructionRecord : Type 0 where
  pub path : Text
  pub scope_path : Text
  pub depth : ℕ
  pub content_hash : Text
  pub content_ref : Text

-- What the scanner is given: the largest size, the reader of blobs, the files of the checkout by
-- their paths, and the hashes.
pub record ScanInput : Type 0 where
  pub snapshot_id : ℕ
  pub max_file_bytes : ℕ
  pub blob_reader : Option (GitTreeEntry → Bytes)
  pub checkout : Option (Text → Option Bytes)
  pub sha256_hex : Bytes → Text
  pub encode : Text → Bytes

-- The variables of the loop, and the storage.
pub record ScanState : Type 0 where
  pub records : Table Text SnapshotFileRecord
  pub instructions : List SnapshotInstructionRecord
  pub objects : Objects

-- `_normalize_path`
unfoldable pub normalize_path : Text → Text
unfolding posix_path as_posix replace_char
normalize_path path = as_posix (posix_path (replace_char 92 b'/' path))

-- `_parent_path`
unfoldable pub parent_path_of : Text → Option Text
unfolding posix_path as_posix parent text_eq
parent_path_of path =
    let p = as_posix (parent (posix_path path)) in if text_eq p (codes ".") then none else some p

-- `_path_depth`
unfoldable pub path_depth : Text → ℕ
unfolding posix_path parts
path_depth path = if is_empty path then 0 else length (parts (posix_path path))

-- `_is_binary`
unfoldable pub is_binary_content : Bytes → Bool
is_binary_content content = any (λ b. b == 0) content

abbrev ends_with_newline : Bytes → Bool
ends_with_newline [] = false
ends_with_newline (b ∷ []) = b == 10
ends_with_newline (b ∷ c ∷ bs) = ends_with_newline (c ∷ bs)

-- `_line_count`
unfoldable pub count_lines : Bytes → ℕ
count_lines [] = 0
count_lines (b ∷ bs) =
    let newline_count = count_if (λ c. c == 10) (b ∷ bs) in
    if ends_with_newline (b ∷ bs) then newline_count else newline_count + 1

-- The bytes of a file, if the scanner has a way to read them.
unfoldable pub content_of : ScanInput → Text → GitTreeEntry → Option Bytes
content_of input path entry = elim input.blob_reader [
  | some reader ↦ some (reader entry)
  | none ↦ (elim input.checkout [ none ↦ none | some files ↦ files path ])
]

-- `tree_entry.size is not None and tree_entry.size > max_file_bytes`
abbrev pub is_oversized : ScanInput → Option ℕ → Bool
is_oversized input none = false
is_oversized input (some size) = ltb input.max_file_bytes size

module _ (input : ScanInput) where
  -- `sha256_bytes` and `sha256_text` of backend/snapshot/hashing.py
  unfoldable pub sha256_bytes : Bytes → Text
  sha256_bytes value = codes "sha256:" ++ input.sha256_hex value

  unfoldable pub sha256_text : Text → Text
  sha256_text value = sha256_bytes (input.encode value)

  -- The record of a file whose content is not stored.
  unfoldable pub unread_record : Text → Option GitTreeEntry → Text → Bool → SnapshotFileRecord
  unfolding sha256_text parent_path_of name_of posix_path
  unread_record path entry entry_kind is_large = record {
    path = path;
    path_hash = sha256_text path;
    parent_path = parent_path_of path;
    name = name_of (posix_path path);
    entry_kind = entry_kind;
    git_mode = elim entry [ none ↦ none | some e ↦ some e.mode ];
    git_blob_oid = elim entry [ none ↦ none | some e ↦ some e.oid ];
    content_key = none;
    content_hash = none;
    size_bytes = elim entry [ none ↦ none | some e ↦ e.size ];
    line_count = none;
    is_binary = false;
    is_large = is_large;
  }

  -- The loop of `_ensure_directory_records`.
  unfoldable pub ensure_directories :
      PosixPath → List Text → Table Text SnapshotFileRecord → Table Text SnapshotFileRecord
  unfolding find_key put_key unread_record below as_posix
  ensure_directories current [] records = records
  ensure_directories current (part ∷ rest) records =
      let next = below current part in
      let path = as_posix next in
      ensure_directories next rest (
        if is_some (find_key path records)
        then records
        else put_key path (unread_record path none (codes "directory") false) records)

  -- `_ensure_directory_records`
  unfoldable pub ensure_directory_records :
      Text → Table Text SnapshotFileRecord → Table Text SnapshotFileRecord
  unfolding ensure_directories posix_path parts
  ensure_directory_records path records =
      ensure_directories (record { root = []; names = [] }) (init (parts (posix_path path))) records

  abbrev pub put_record : SnapshotFileRecord → ScanState → ScanState
  put_record r s = record s { records = put_key r.path r s.records }

  -- The branch for an AGENTS.md.
  unfoldable pub add_instruction : Text → Text → Bytes → ScanState → ScanState
  unfolding instruction_key sha256_text parent_path_of path_depth put_bytes
  add_instruction path content_hash content s =
      let key = instruction_key input.snapshot_id (sha256_text path) in
      let scope_path : Text = elim (parent_path_of path) [ none ↦ [] | some p ↦ p ] in
      record s {
        objects = put_bytes key content (codes "text/markdown; charset=utf-8") s.objects;
        instructions =
            s.instructions
            ++ record {
              path = path;
              scope_path = scope_path;
              depth = path_depth scope_path;
              content_hash = content_hash;
              content_ref = key;
            }
              ∷ [];
      }

  -- The body of the loop for content that was read.
  unfoldable pub scan_content : Text → GitTreeEntry → Bytes → ScanState → ScanState
  unfolding is_binary_content sha256_bytes sha256_text blob_key add_instruction put_bytes
      count_lines parent_path_of name_of posix_path put_key text_eq
  scan_content path entry content s =
      let is_binary = is_binary_content content in
      let is_large = ltb input.max_file_bytes (length content) in
      let is_text = not is_binary && not is_large in
      let content_hash = sha256_bytes content in
      let key = blob_key content_hash in
      let stored : ScanState =
        if is_text
        then record s {
          objects = put_bytes key content (codes "text/plain; charset=utf-8") s.objects;
        }
        else s in
      let recorded =
        put_record
          (record {
            path = path;
            path_hash = sha256_text path;
            parent_path = parent_path_of path;
            name = name_of (posix_path path);
            entry_kind = codes "file";
            git_mode = some entry.mode;
            git_blob_oid = some entry.oid;
            content_key = if is_text then some key else none;
            content_hash = some content_hash;
            size_bytes = some (length content);
            line_count = if is_text then some (count_lines content) else none;
            is_binary = is_binary;
            is_large = is_large;
          })
          stored in
      if text_eq (name_of (posix_path path)) (codes "AGENTS.md") && is_text
      then add_instruction path content_hash content recorded
      else recorded

  -- The body of the loop of `scan`.
  unfoldable pub scan_entry : GitTreeEntry → ScanState → ScanState
  unfolding normalize_path ensure_directory_records unread_record content_of is_secret_path
      scan_content put_key text_eq
  scan_entry entry s =
      let path = normalize_path entry.path in
      let t : ScanState = record s { records = ensure_directory_records path s.records } in
      if not (text_eq entry.kind (codes "blob"))
      then put_record (unread_record path (some entry) entry.kind false) t
      else (elim (content_of input path entry) [
        | none ↦ put_record (unread_record path (some entry) (codes "file") false) t
        | some content ↦
            if is_secret_path path
            then put_record (unread_record path (some entry) (codes "file") true) t
            else if is_oversized input entry.size
            then put_record (unread_record path (some entry) (codes "file") true) t
            else scan_content path entry content t
      ])

  abbrev pub scan_entries : List GitTreeEntry → ScanState → ScanState
  scan_entries [] s = s
  scan_entries (entry ∷ entries) s = scan_entries entries (scan_entry entry s)

  -- `scan`, with the storage
  unfoldable pub scan :
      List GitTreeEntry
      → Objects
      → List SnapshotFileRecord × List SnapshotInstructionRecord × Objects
  unfolding scan_entry sorted text_lt
  scan tree_entries objects =
      let end_ =
        scan_entries (sorted (λ a b. text_lt a.path b.path) tree_entries)
          (record { records = []; instructions = []; objects = objects }) in
      (table_values end_.records, end_.instructions, end_.objects)
