-- ===== src/Api/Analyses/Cancels.antt =====
-- Rows of requests to cancel, in backend/api/in_memory.py.
use deepdive.Base.{
  ℕ, ◌≡◌, refl, subst, ◌∙◌, Bool, true, false, not, ◌&&◌, ◌||◌, none, some, List, [], ◌∷◌, arith,
  inl, inr, Bool-cases, insert, ==_iff, Option-cases, ◌==◌, if◌then◌else◌, any, lookup,
  lookup-insert,
}
use deepdive.Text.{Text, codes, member, text_eq}
use deepdive.Api.Records.{AnalysisRecord, AnalysisState, Scope, ApiPlatform}
use deepdive.Api.Analyses.{
  record_matches_scope, get_analysis, in_scope, emit, cancelled_record, cancel,
}

-- A call of `cancel` and the time it is made.
pub record CancelRequest : Type 0 where
  pub analysis_id : ℕ
  pub scope : Scope
  pub now : ℕ

-- The request is for this analysis, in a scope that shows it.
abbrev pub reaches : ℕ → AnalysisRecord → CancelRequest → Bool
reaches analysis_id r q = q.analysis_id == analysis_id && record_matches_scope r q.scope

-- The statuses of an analysis that has ended.
abbrev pub has_ended : Text → Bool
has_ended status =
    text_eq status (codes "completed")
    || text_eq status (codes "failed")
    || text_eq status (codes "cancelled")

abbrev stopped : Text → Text
stopped status = if has_ended status then status else codes "cancelling"

status-cancelled_record :
    (r : AnalysisRecord) (now : ℕ) → (cancelled_record r now).status ≡ stopped r.status
unfolding cancelled_record member
status-cancelled_record r now = ground arith

-- To stop an analysis that is stopped makes no difference.
stopped_again :
    (aimed : Bool) (status : Text)
    → (if aimed && not (has_ended (stopped status)) then codes "cancelling" else stopped status)
      ≡ (if not (has_ended status) then codes "cancelling" else status)
unfolding text_eq
stopped_again true status = elim (Bool-cases (has_ended status)) [
  | inl ended ↦ rw (ended, ended) refl
  | inr open_ ↦ rw open_ refl
]
stopped_again false status = elim (Bool-cases (has_ended status)) [
  | inl ended ↦ rw ended refl
  | inr open_ ↦ rw open_ refl
]

module _ (os : ApiPlatform) where
  -- The state after a row of requests.
  unfoldable pub cancel_all : List CancelRequest → AnalysisState → AnalysisState
  cancel_all [] s = s
  cancel_all (q ∷ qs) s = cancel_all qs (cancel os q.analysis_id q.scope q.now s).1

  records-cancel_shown :
      (q : CancelRequest) (s : AnalysisState) (r : AnalysisRecord)
      → get_analysis q.analysis_id q.scope s ≡ some r
      → (cancel os q.analysis_id q.scope q.now s).1.records
        ≡ insert q.analysis_id (cancelled_record r q.now) s.records
  unfolding cancel emit
  records-cancel_shown q s r shown = rw (cancel, shown) refl

  cancel_hidden :
      (q : CancelRequest) (s : AnalysisState)
      → get_analysis q.analysis_id q.scope s ≡ none
      → (cancel os q.analysis_id q.scope q.now s).1 ≡ s
  unfolding cancel
  cancel_hidden q s hidden = rw (cancel, hidden) refl

  cancel_reached :
      (q : CancelRequest) (s : AnalysisState) (i : ℕ) (r : AnalysisRecord)
      → lookup i s.records ≡ some r
      → reaches i r q ≡ true
      → lookup i (cancel os q.analysis_id q.scope q.now s).1.records
        ≡ some (cancelled_record r q.now)
  unfolding get_analysis in_scope
  cancel_reached q s i r found reached =
      let same : q.analysis_id ≡ i = (==_iff q.analysis_id i).0 (ground arith) in
      let own : record_matches_scope r q.scope ≡ true = ground arith in
      let shown : get_analysis q.analysis_id q.scope s ≡ some r =
        rw (get_analysis, same, found, own) refl in
      rw
        (
          records-cancel_shown q s r shown,
          lookup-insert q.analysis_id i (cancelled_record r q.now) s.records,
        )
        (ground (arith, ==_iff q.analysis_id i))

  cancel_missed :
      (q : CancelRequest) (s : AnalysisState) (i : ℕ) (r : AnalysisRecord)
      → lookup i s.records ≡ some r
      → reaches i r q ≡ false
      → lookup i (cancel os q.analysis_id q.scope q.now s).1.records ≡ some r
  unfolding get_analysis in_scope
  cancel_missed q s i r found missed = elim (Option-cases (get_analysis q.analysis_id q.scope s)) [
    | inl hidden ↦ rw (cancel_hidden q s hidden) found
    | inr (t, shown) ↦ elim (Bool-cases (q.analysis_id == i)) [
      | inl same ↦
          let at_i : q.analysis_id ≡ i = (==_iff q.analysis_id i).0 same in
          let foreign : record_matches_scope r q.scope ≡ false = ground arith in
          let hidden : get_analysis q.analysis_id q.scope s ≡ none =
            rw (get_analysis, at_i, found, foreign) refl in
          absurd cc
      | inr other ↦
          rw
            (
              records-cancel_shown q s t shown,
              lookup-insert q.analysis_id i (cancelled_record t q.now) s.records,
            )
            (rw other found)
    ]
  ]

  -- After any row of requests to cancel, an analysis has the tenant and the user it had, and its status is
  -- "cancelling" where a request was for it, in a scope that shows it, and it was not "completed",
  -- "failed" or "cancelled" before; else its status is what it was.
  pub status-cancel_all :
      (qs : List CancelRequest) (s : AnalysisState) (i : ℕ) (r : AnalysisRecord)
      → lookup i s.records ≡ some r
      → (t : AnalysisRecord) × (lookup i (cancel_all qs s).records ≡ some t)
        × (t.status ≡ (
            if any (reaches i r) qs && not (has_ended r.status)
            then codes "cancelling"
            else r.status))
        × (t.tenant_id ≡ r.tenant_id)
        × (t.created_by_user_id ≡ r.created_by_user_id)
  unfolding cancel_all record_matches_scope cancelled_record
  status-cancel_all [] s i r found = (r, found, refl, refl, refl)
  status-cancel_all (q ∷ qs) s i r found = elim (Bool-cases (reaches i r q)) [
    | inl reached ↦
        let (t, kept, status, tenant, user) =
          status-cancel_all qs (cancel os q.analysis_id q.scope q.now s).1 i
            (cancelled_record r q.now) (cancel_reached q s i r found reached) in
        (
          t,
          kept,
          rw reached (
              subst
                (λ (now : Text). t.status ≡ (
                  if any (reaches i r) qs && not (has_ended now) then codes "cancelling" else now))
                (status-cancelled_record r q.now) status
              ∙ stopped_again (any (reaches i r) qs) r.status),
          tenant,
          user,
        )
    | inr missed ↦
        let (t, kept, status, tenant, user) =
          status-cancel_all qs (cancel os q.analysis_id q.scope q.now s).1 i r
            (cancel_missed q s i r found missed) in
        (t, kept, rw missed status, tenant, user)
  ]
