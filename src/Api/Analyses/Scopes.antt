-- ===== src/Api/Analyses/Scopes.antt =====
-- What a caller of backend/api/in_memory.py can see.
use deepdive.Base.{
  ℕ, ◌≡◌, ◌≢◌, ◌⊎◌, refl, false, Option, none, some, [], arith, inl, inr, Option-cases, lookup,
}
use deepdive.Api.Records.{AnalysisRecord, AnalysisState, Scope, ApiPlatform}
use deepdive.Api.Analyses.{
  within, record_matches_scope, in_scope, get_analysis, analysis_status, stream_events, cancel,
}

-- The scope asks for an id that the record does not have.
abbrev pub IsOther : Option ℕ → Option ℕ → Type 0
IsOther wanted value = (id : ℕ) × (wanted ≡ some id) × (value ≢ some id)

-- The analysis is of another tenant or another user than the scope asks for, or there is none.
abbrev pub IsHidden : ℕ → Scope → AnalysisState → Type 0
IsHidden analysis_id scope s =
    (r : AnalysisRecord)
    → lookup analysis_id s.records ≡ some r
    → IsOther scope.tenant_id r.tenant_id ⊎ IsOther scope.created_by_user_id r.created_by_user_id

within-IsOther : (wanted value : Option ℕ) → IsOther wanted value → within wanted value ≡ false
within-IsOther none value (id, asked, ne) = absurd cc
within-IsOther (some i) none (id, asked, ne) = refl
within-IsOther (some i) (some j) (id, asked, ne) = ground (arith, asked, ne)

record_matches_scope-IsOther :
    (r : AnalysisRecord) (scope : Scope)
    → IsOther scope.tenant_id r.tenant_id ⊎ IsOther scope.created_by_user_id r.created_by_user_id
    → record_matches_scope r scope ≡ false
unfolding record_matches_scope
record_matches_scope-IsOther r scope (inl other) =
    ground (arith, within-IsOther scope.tenant_id r.tenant_id other)
record_matches_scope-IsOther r scope (inr other) =
    ground (arith, within-IsOther scope.created_by_user_id r.created_by_user_id other)

module _ (os : ApiPlatform) (analysis_id : ℕ) (scope : Scope) (s : AnalysisState) where
  hidden-get : IsHidden analysis_id scope s → get_analysis analysis_id scope s ≡ none
  unfolding get_analysis in_scope
  hidden-get h = elim (Option-cases (lookup analysis_id s.records)) [
    | inl none_ ↦ rw none_ refl
    | inr (r, found) ↦ rw (found, record_matches_scope-IsOther r scope (h r found)) refl
  ]

  -- An analysis of another tenant or user is like a missing one: it is not returned, has no status and no
  -- events, and a request to cancel it changes nothing and emits nothing.
  pub hidden_analysis :
      (now after_seq : ℕ)
      → IsHidden analysis_id scope s
      → (get_analysis analysis_id scope s ≡ none)
        × (analysis_status analysis_id scope s ≡ none)
        × (stream_events analysis_id after_seq scope s ≡ [])
        × (cancel os analysis_id scope now s ≡ (none, s))
  unfolding analysis_status stream_events cancel
  hidden_analysis now after_seq h =
      let missing = hidden-get h in
      (
        missing,
        rw (analysis_status, missing) refl,
        rw (stream_events, missing) refl,
        rw (cancel, missing) refl,
      )
