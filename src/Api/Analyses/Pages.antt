-- ===== src/Api/Analyses/Pages.antt =====
-- Pages of the list of analyses of backend/api/in_memory.py, with the cursors of backend/api/pagination.py.
use deepdive.Base.{
  ℕ, ◌≡◌, ◌≢◌, refl, sym, subst, ap, ◌∙◌, Bool, true, false, Option, some, List, [], ◌∷◌, ◌++◌,
  arith, inl, inr, Bool-cases, take, keep, keep_everything, All, All-map, All-Member, Member, first,
  later, All-keep, Pairwise, InOrder, HeadInOrder, sorted-InOrder, sorted-Pairwise, values,
}
use deepdive.Text.{Text, has_char, is_empty}
use deepdive.Auth.Jwt.{padding_of}
use deepdive.Auth.Jwt.Roundtrip.{JwtLaws, strip_padding-b64encode, b64decode-strip_padding}
use deepdive.Auth.Passwords.{split_at_most}
use deepdive.Auth.Passwords.Verify.{split_at_most-append, split_at_most-zero}
use deepdive.Api.Records.{AnalysisRecord, AnalysisState, Scope, ApiPlatform}
use deepdive.Api.Pagination.{encode_list_cursor, decode_cursor_text, decode_list_cursor}
use deepdive.Api.Analyses.{key_before, key_of, newer, selected, listed, list_analyses}

-- Times, UUIDs and texts are read back as they were written; Base64 and the text of a time have no "|".
pub record CursorLaws (os : ApiPlatform) (jwt : JwtLaws os.jwt) : Type 0 where
  pub no_pipe : (x : List ℕ) → has_char b'|' (jwt.body x) ≡ false
  pub full : (s : Text) → is_empty s ≡ false → is_empty (jwt.body (os.encode s)) ≡ false
  pub decoded : (s : Text) → os.decode (os.encode s) ≡ some s
  pub plain_time : (t : ℕ) → has_char b'|' (os.events.isoformat t) ≡ false
  pub read_time : (t : ℕ) → os.events.fromisoformat (os.events.isoformat t) ≡ some t
  pub read_uuid : (id : ℕ) → os.events.parse_uuid (os.events.uuid_text id) ≡ some id

is_empty-append : (s : Text) (c : ℕ) (t : Text) → is_empty (s ++ c ∷ t) ≡ false
is_empty-append [] c t = refl
is_empty-append (a ∷ s) c t = refl

decode_list_cursor-parts :
    (os : ApiPlatform) (value decoded time id : Text) (t i : ℕ)
    → is_empty value ≡ false
    → decode_cursor_text os value ≡ some decoded
    → split_at_most b'|' 1 decoded ≡ time ∷ id ∷ []
    → os.events.fromisoformat time ≡ some t
    → os.events.parse_uuid id ≡ some i
    → decode_list_cursor os (some value) ≡ some (t, i)
unfolding decode_list_cursor
decode_list_cursor-parts os value decoded time id t i full_ read parts time_ id_ = ground arith

module _ (os : ApiPlatform) (jwt : JwtLaws os.jwt) (laws : CursorLaws os jwt) where
  module _ (r : AnalysisRecord) where
    abbrev raw : Text
    raw = os.events.isoformat r.created_at ++ b'|' ∷ os.events.uuid_text r.analysis_id

    encode_list_cursor-body : encode_list_cursor os r ≡ jwt.body (os.encode raw)
    unfolding encode_list_cursor
    encode_list_cursor-body = strip_padding-b64encode os.jwt jwt (os.encode raw)

    b64decode-cursor :
        os.jwt.b64decode (encode_list_cursor os r ++ padding_of (encode_list_cursor os r))
        ≡ some (os.encode raw)
    unfolding encode_list_cursor
    b64decode-cursor = b64decode-strip_padding os.jwt jwt (os.encode raw)

    decode_cursor_text-encode : decode_cursor_text os (encode_list_cursor os r) ≡ some raw
    unfolding decode_cursor_text
    decode_cursor_text-encode =
        rw
          (
            decode_cursor_text,
            ap (has_char b'|') encode_list_cursor-body ∙ laws.no_pipe (os.encode raw),
            b64decode-cursor,
          )
          (laws.decoded raw)

    -- The cursor of a record is its position.
    pub decode-encode_list_cursor :
        decode_list_cursor os (some (encode_list_cursor os r)) ≡ some (key_of r)
    decode-encode_list_cursor =
        let time = os.events.isoformat r.created_at in
        let id = os.events.uuid_text r.analysis_id in
        let parts : split_at_most b'|' 1 raw ≡ time ∷ id ∷ [] =
          split_at_most-append b'|' 0 time id (laws.plain_time r.created_at)
          ∙ ap (λ others. time ∷ others) (split_at_most-zero b'|' id) in
        decode_list_cursor-parts os (encode_list_cursor os r) raw time id r.created_at r.analysis_id
          (ap is_empty encode_list_cursor-body ∙ laws.full raw (is_empty-append time b'|' id))
          decode_cursor_text-encode parts (laws.read_time r.created_at)
          (laws.read_uuid r.analysis_id)

-- Strictly newer than all that follow.
newer_trans : (a b c : AnalysisRecord) → newer a b ≡ true → newer b c ≡ true → newer a c ≡ true
newer_trans a b c h k = ground arith

newer_asymm : (a b : AnalysisRecord) → newer a b ≡ true → newer b a ≡ false
newer_asymm a b h = ground arith

Member-middle : {A : Type 0} (front : List A) (c : A) (rest : List A) → Member c (front ++ c ∷ rest)
Member-middle [] c rest = first rest
Member-middle (x ∷ front) c rest = later x (Member-middle front c rest)

newer-All :
    (x : AnalysisRecord) (xs : List AnalysisRecord)
    → HeadInOrder newer x xs
    → All (λ y. x.analysis_id ≢ y.analysis_id) xs
    → Pairwise (λ a b. newer a b ≡ true) xs
    → All (λ y. newer x y ≡ true) xs
newer-All x [] h ne p = tt
newer-All x (y ∷ ys) h ne p =
    let first_ : newer x y ≡ true = ground (arith, h, ne.0) in
    (
      first_,
      All-map (λ z. newer y z ≡ true) (λ z. newer x z ≡ true) ys (λ z k. newer_trans x y z first_ k)
          p.0,
    )

newest_first :
    (xs : List AnalysisRecord)
    → InOrder newer xs
    → Pairwise (λ a b. a.analysis_id ≢ b.analysis_id) xs
    → Pairwise (λ a b. newer a b ≡ true) xs
newest_first [] h ne = tt
newest_first (x ∷ xs) h ne = let p = newest_first xs h.1 ne.1 in (newer-All x xs h.0 ne.0 p, p)

keep-after :
    (front : List AnalysisRecord) (c : AnalysisRecord) (rest : List AnalysisRecord)
    → Pairwise (λ a b. newer a b ≡ true) (front ++ c ∷ rest)
    → keep (λ r. key_before (key_of r) (key_of c)) (front ++ c ∷ rest) ≡ rest
keep-after [] c rest p =
    ground (arith, keep_everything (λ r. key_before (key_of r) (key_of c)) rest p.0)
keep-after (x ∷ front) c rest p = ground (
  arith,
  keep-after front c rest p.1,
  newer_asymm x c (All-Member (λ y. newer x y ≡ true) (Member-middle front c rest) p.0),
)

Pairwise-keep :
    {A : Type 0} (R : A → A → Type 0) (p : A → Bool) (xs : List A)
    → Pairwise R xs
    → Pairwise R (keep p xs)
Pairwise-keep R p [] h = tt
Pairwise-keep R p (x ∷ xs) h = elim (Bool-cases (p x)) [
  | inl t ↦ rw t (All-keep p (R x) xs h.0, Pairwise-keep R p xs h.1)
  | inr f ↦ rw f (Pairwise-keep R p xs h.1)
]

-- No two analyses have the same id.
abbrev pub DistinctIds : AnalysisState → Type 0
DistinctIds s = Pairwise (λ a b. a.analysis_id ≢ b.analysis_id) (values s.records)

listed-newest_first :
    (status : Option Text) (scope : Scope) (s : AnalysisState)
    → DistinctIds s
    → Pairwise (λ a b. newer a b ≡ true) (listed status scope s)
unfolding listed selected
listed-newest_first status scope s distinct =
    newest_first (listed status scope s)
      (sorted-InOrder newer newer_asymm (selected status scope s))
      (sorted-Pairwise newer (λ a b. a.analysis_id ≢ b.analysis_id) (λ a b ne e. ne (sym e))
        (selected status scope s)
        (Pairwise-keep _ _ _ (Pairwise-keep _ _ _ (Pairwise-keep _ _ _ distinct))))

list_analyses-position :
    (os : ApiPlatform) (status : Option Text) (limit : ℕ) (cursor : Option Text) (position : ℕ × ℕ)
    → (scope : Scope) (s : AnalysisState) → decode_list_cursor os cursor ≡ some position
    → list_analyses os status limit cursor scope s
      ≡ some (take limit (keep (λ r. key_before (key_of r) position) (listed status scope s)))
unfolding list_analyses
list_analyses-position os status limit cursor position scope s e = rw (list_analyses, e) refl

-- Where no two analyses have the same id, the page after the cursor of any analysis of the list has just
-- those that follow it, newest first, up to the limit: no page repeats an analysis or leaves one out.
pub page_after :
    (os : ApiPlatform) (jwt : JwtLaws os.jwt) (laws : CursorLaws os jwt) (status : Option Text)
    (limit : ℕ)
    → (scope : Scope) (s : AnalysisState) (front : List AnalysisRecord) (c : AnalysisRecord)
      (rest : List AnalysisRecord)
    → DistinctIds s
    → listed status scope s ≡ front ++ c ∷ rest
    → list_analyses os status limit (some (encode_list_cursor os c)) scope s
      ≡ some (take limit rest)
page_after os jwt laws status limit scope s front c rest distinct whole =
    let strict =
      subst (Pairwise (λ a b. newer a b ≡ true)) whole
        (listed-newest_first status scope s distinct) in
    list_analyses-position os status limit (some (encode_list_cursor os c)) (key_of c) scope s
      (decode-encode_list_cursor os jwt laws c)
    ∙ ap (λ xs. some (take limit (keep (λ r. key_before (key_of r) (key_of c)) xs))) whole
    ∙ ap (λ xs. some (take limit xs)) (keep-after front c rest strict)
