-- ===== src/Snapshot/Scanner/Clean.antt =====
-- What the scanner of backend/snapshot/scanner.py writes to the storage.
use deepdive.Base.{
  ◌≡◌, refl, sym, subst, Bool, true, false, not, ◌&&◌, some, List, [], ◌∷◌, arith, inl, inr,
  Bool-cases, Option-cases, ltb, length, All, sorted,
}
use deepdive.Text.{Text, codes, text_eq, text_lt}
use deepdive.Security.SecretPaths.{is_secret_path}
use deepdive.Storage.Memory.{Bytes, Objects, put_bytes}
use deepdive.Storage.Keys.{blob_key, instruction_key}
use deepdive.Snapshot.PosixPath.{posix_path, name_of}
use deepdive.Snapshot.Scanner.{
  GitTreeEntry, ScanInput, ScanState, normalize_path, is_binary_content, content_of, is_oversized,
  sha256_bytes, sha256_text, add_instruction, scan_content, scan_entry, scan_entries, scan,
  ensure_directory_records,
}

-- Bytes of a file that may be stored: its path is not secret, and the content is text and not too large.
abbrev pub IsStorable : ScanInput → GitTreeEntry → Bytes → Type 0
IsStorable input entry content =
    (is_secret_path (normalize_path entry.path) ≡ false)
    × (content_of input (normalize_path entry.path) entry ≡ some content)
    × (is_binary_content content ≡ false)
    × (ltb input.max_file_bytes (length content) ≡ false)

-- Content of a storable file.
abbrev pub IsClean : ScanInput → Text × Bytes × Text → Type 0
IsClean input row = (entry : GitTreeEntry) × IsStorable input entry row.1

All-put_bytes :
    (P : Text × Bytes × Text → Type 0) (key : Text) (content : Bytes) (content_type : Text)
    (objects : Objects)
    → ((k : Text) → P (k, content, content_type))
    → All P objects
    → All P (put_bytes key content content_type objects)
unfolding put_bytes
All-put_bytes P key content content_type [] h all = (h key, tt)
All-put_bytes P key content content_type ((k, d, t) ∷ rest) h all =
    elim (Bool-cases (text_eq k key)) [
      | inl same ↦ rw same (h k, all.1)
      | inr other ↦ rw other (all.0, All-put_bytes P key content content_type rest h all.1)
    ]

text_parts : (b l : Bool) → (not b && not l) ≡ true → (b ≡ false) × (l ≡ false)
text_parts b l h = ground arith

module _ (input : ScanInput) where
  -- What is stored of a content that is no text, or is too large.
  unstored :
      (entry : GitTreeEntry) (content : Bytes) (s : ScanState)
      → (not (is_binary_content content) && not (ltb input.max_file_bytes (length content))) ≡ false
      → (scan_content input (normalize_path entry.path) entry content s).objects ≡ s.objects
  unfolding scan_content
  unstored entry content s binary =
      elim (Bool-cases
        (text_eq (name_of (posix_path (normalize_path entry.path))) (codes "AGENTS.md"))) [
          | inl t ↦ rw (scan_content, t, binary) refl
          | inr f ↦ rw (scan_content, f, binary) refl
        ]

  scan_content-IsClean :
      (entry : GitTreeEntry) (content : Bytes) (s : ScanState)
      → is_secret_path (normalize_path entry.path) ≡ false
      → content_of input (normalize_path entry.path) entry ≡ some content
      → All (IsClean input) s.objects
      → All (IsClean input) (scan_content input (normalize_path entry.path) entry content s).objects
  unfolding scan_content add_instruction
  scan_content-IsClean entry content s open_ read all =
      elim (Bool-cases
        (not (is_binary_content content) && not (ltb input.max_file_bytes (length content)))) [
          | inr binary ↦ subst (All (IsClean input)) (sym (unstored entry content s binary)) all
          | inl text ↦
              let (plain, small) =
                text_parts (is_binary_content content) (ltb input.max_file_bytes (length content))
                  text in
              let clean : (k t : Text) → IsClean input (k, content, t) =
                λ k t. (entry, (open_, read, plain, small)) in
              let once =
                All-put_bytes (IsClean input) (blob_key (sha256_bytes input content)) content
                  (codes "text/plain; charset=utf-8") s.objects
                  (λ k. clean k (codes "text/plain; charset=utf-8")) all in
              elim (Bool-cases
                (text_eq (name_of (posix_path (normalize_path entry.path))) (codes "AGENTS.md"))) [
                  | inr other ↦ rw (scan_content, other, text) once
                  | inl agents ↦
                      rw (scan_content, agents, text)
                        (All-put_bytes (IsClean input)
                          (instruction_key input.snapshot_id
                            (sha256_text input (normalize_path entry.path)))
                          content (codes "text/markdown; charset=utf-8")
                          (put_bytes (blob_key (sha256_bytes input content)) content
                            (codes "text/plain; charset=utf-8") s.objects)
                          (λ k. clean k (codes "text/markdown; charset=utf-8")) once)
                ]
        ]

  scan_entry-IsClean :
      (entry : GitTreeEntry) (s : ScanState)
      → All (IsClean input) s.objects
      → All (IsClean input) (scan_entry input entry s).objects
  unfolding scan_entry
  scan_entry-IsClean entry s all = elim (Bool-cases (text_eq entry.kind (codes "blob"))) [
    | inr other ↦ rw (scan_entry, other) all
    | inl blob ↦ elim (Option-cases (content_of input (normalize_path entry.path) entry)) [
      | inl none_ ↦ rw (scan_entry, blob, none_) all
      | inr (content, read) ↦ elim (Bool-cases (is_secret_path (normalize_path entry.path))) [
        | inl secret ↦ rw (scan_entry, blob, read, secret) all
        | inr open_ ↦ elim (Bool-cases (is_oversized input entry.size)) [
          | inl large ↦ rw (scan_entry, blob, read, open_, large) all
          | inr small ↦
              rw (scan_entry, blob, read, open_, small)
                (scan_content-IsClean entry content
                  (record s {
                    records = ensure_directory_records input (normalize_path entry.path) s.records;
                  })
                  open_ read all)
        ]
      ]
    ]
  ]

  scan_entries-IsClean :
      (entries : List GitTreeEntry) (s : ScanState)
      → All (IsClean input) s.objects
      → All (IsClean input) (scan_entries input entries s).objects
  scan_entries-IsClean [] s all = all
  scan_entries-IsClean (entry ∷ entries) s all =
      scan_entries-IsClean entries (scan_entry input entry s) (scan_entry-IsClean entry s all)

  -- All that a scan writes to an empty storage is the content of files whose paths are not secret, that have
  -- no null byte and are not larger than the policy allows.
  pub scan-IsClean : (entries : List GitTreeEntry) → All (IsClean input) (scan input entries []).2
  unfolding scan
  scan-IsClean entries = scan_entries-IsClean (sorted (λ a b. text_lt a.path b.path) entries) _ tt
