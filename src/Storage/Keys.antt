-- ===== src/Storage/Keys.antt =====
-- backend/storage/keys.py. A `UUID` is its number, below 2 ^ 128; its text is the canonical one, in
-- hexadecimal digits.
use deepdive.Base.{
  ℕ, zero, suc, ◌+◌, ◌-◌, ◌/◌, ◌%◌, ◌^◌, Option, none, some, [], ◌∷◌, ◌++◌, ltb, ◌==◌,
  if◌then◌else◌, take, drop,
}
use deepdive.Text.{Text, codes, has_char}
use deepdive.Text.Decimal.{decimal}

unfoldable pub hex_digit : ℕ → ℕ
hex_digit d = if ltb d 10 then b'0' + d else b'a' + (d - 10)

-- The lowest `width` hexadecimal digits of a number, from the highest.
unfoldable pub hex : ℕ → ℕ → Text
unfolding hex_digit
hex zero n = []
hex (suc width) n = hex_digit (n / 16 ^ width % 16) ∷ hex width n

-- `str(uuid)`
unfoldable pub uuid_text : ℕ → Text
unfolding hex
uuid_text n =
    hex 8 (n / 16 ^ 24)
    ++ (b'-' ∷ hex 4 (n / 16 ^ 20))
    ++ (b'-' ∷ hex 4 (n / 16 ^ 16))
    ++ (b'-' ∷ hex 4 (n / 16 ^ 12))
    ++ (b'-' ∷ hex 12 n)

-- `value.split(":", 1)[1]`, where the value has a colon
abbrev after_colon : Text → Text
after_colon [] = []
after_colon (c ∷ s) = let rest = after_colon s in if c == b':' then s else rest

-- `_hash_value`
unfoldable pub hash_value : Text → Text
unfolding has_char
hash_value value = if has_char b':' value then after_colon value else value

unfoldable pub blob_key : Text → Text
unfolding hash_value
blob_key content_hash =
    let digest = hash_value content_hash in
    codes "blobs/sha256/" ++ (take 2 digest ++ (b'/' ∷ (take 2 (drop 2 digest) ++ (b'/' ∷ digest))))

unfoldable pub instruction_key : ℕ → Text → Text
unfolding hash_value uuid_text
instruction_key snapshot_id path_hash =
    codes "instructions/"
    ++ (uuid_text snapshot_id ++ (b'/' ∷ (hash_value path_hash ++ codes ".md")))

unfoldable pub manifest_key : ℕ → Text
unfolding uuid_text
manifest_key snapshot_id =
    codes "snapshots/" ++ (uuid_text snapshot_id ++ codes "/manifest.json.zst")

unfoldable pub tree_text_key : ℕ → Text
unfolding uuid_text
tree_text_key snapshot_id = codes "snapshots/" ++ (uuid_text snapshot_id ++ codes "/tree.txt")

unfoldable pub file_tree_key : ℕ → Text
unfolding uuid_text
file_tree_key snapshot_id =
    codes "snapshots/" ++ (uuid_text snapshot_id ++ codes "/file-tree.json.zst")

-- `f"-{tool_call_id}" if tool_call_id is not None else ""`
unfoldable pub revision_suffix : Option ℕ → Text
unfolding uuid_text
revision_suffix none = []
revision_suffix (some tool_call_id) = b'-' ∷ uuid_text tool_call_id

unfoldable pub document_content_key : ℕ → ℕ → ℕ → Option ℕ → Text
unfolding uuid_text revision_suffix
document_content_key analysis_id document_id version tool_call_id =
    codes "documents/"
    ++ (uuid_text analysis_id
        ++ (b'/'
            ∷ (uuid_text document_id
                ++ (codes "/v"
                    ++ (decimal version ++ (revision_suffix tool_call_id ++ codes ".md"))))))

unfoldable pub document_section_content_key : ℕ → ℕ → ℕ → ℕ → Option ℕ → Text
unfolding uuid_text revision_suffix
document_section_content_key analysis_id document_id section_id version tool_call_id =
    codes "documents/"
    ++ (uuid_text analysis_id
        ++ (b'/'
            ∷ (uuid_text document_id
                ++ (codes "/sections/"
                    ++ (uuid_text section_id
                        ++ (codes "/v"
                            ++ (decimal version
                                ++ (revision_suffix tool_call_id ++ codes ".md"))))))))

unfoldable pub git_bundle_key : Text → Text → Text
unfolding hash_value
git_bundle_key repository_url_hash commit_sha =
    codes "git-bundles/"
    ++ (hash_value repository_url_hash ++ (b'/' ∷ (commit_sha ++ codes ".bundle")))

unfoldable pub tool_result_key : ℕ → Text
unfolding uuid_text
tool_result_key tool_call_id = codes "tool-results/" ++ (uuid_text tool_call_id ++ codes ".json")

unfoldable pub evidence_key : ℕ → Text
unfolding uuid_text
evidence_key evidence_id = codes "evidence/" ++ (uuid_text evidence_id ++ codes ".txt")
