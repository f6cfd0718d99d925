-- ===== src/Api/Analyses.antt =====
-- backend/api/in_memory.py: `InMemoryAnalysisService`, without the search of repositories. `now` is the
-- clock's value.
pub mod Scopes
pub mod Cancels
pub mod Pages
use deepdive.Base.{
  ℕ, zero, suc, ◌+◌, Bool, true, false, not, ◌&&◌, ◌||◌, Option, none, some, List, [], ◌∷◌, ◌++◌,
  ltb, ◌==◌, if◌then◌else◌, length, take, drop, keep, Dict, lookup, insert, values, eq_option,
  sorted,
}
use deepdive.Base.Int.{ℤ}
use deepdive.Text.{Text, codes, text_eq, member}
use deepdive.Json.{Fields, str, num, field, end}
use deepdive.Events.Types.{
  EventType, analysis_requested, analysis_cancel_requested, analysis_batch_submitted,
}
use deepdive.Events.Envelope.{EventFields, new_event}
use deepdive.Api.Records.{
  AnalysisRecord, AnalysisBatchCreateItem, AnalysisBatchItemRecord, AnalysisBatchRecord,
  AgentStreamEventRecord, AnalysisState, Scope, ApiPlatform,
}
use deepdive.Api.Pagination.{decode_list_cursor, cursor_offset}

-- `id is None or value == id`
abbrev pub within : Option ℕ → Option ℕ → Bool
within none value = true
within (some id) value = eq_option value (some id)

-- `_record_matches_scope`
unfoldable pub record_matches_scope : AnalysisRecord → Scope → Bool
record_matches_scope r scope =
    within scope.tenant_id r.tenant_id && within scope.created_by_user_id r.created_by_user_id

abbrev pub terminal_statuses : List Text
terminal_statuses = codes "completed" ∷ codes "failed" ∷ codes "cancelled" ∷ []

-- `get`, past the look-up
unfoldable pub in_scope : Scope → Option AnalysisRecord → Option AnalysisRecord
unfolding record_matches_scope
in_scope scope none = none
in_scope scope (some r) = if record_matches_scope r scope then some r else none

-- `get`
unfoldable pub get_analysis : ℕ → Scope → AnalysisState → Option AnalysisRecord
unfolding in_scope
get_analysis analysis_id scope s = in_scope scope (lookup analysis_id s.records)

-- `analysis_status`
unfoldable pub analysis_status : ℕ → Scope → AnalysisState → Option Text
analysis_status analysis_id scope s = elim (get_analysis analysis_id scope s) [
  | none ↦ none
  | some r ↦ some r.status
]

-- `stream_events`
unfoldable pub stream_events : ℕ → ℕ → Scope → AnalysisState → List AgentStreamEventRecord
stream_events analysis_id after_seq scope s = elim (get_analysis analysis_id scope s) [
  | none ↦ []
  | some r ↦ drop after_seq (
      record {
        seq = 1;
        event_type = codes "status";
        payload_json = field (codes "status") (str r.status) end;
      }
      ∷ [])
]

-- The order of `(created_at, analysis_id)`.
abbrev pub key_before : ℕ × ℕ → ℕ × ℕ → Bool
key_before (t, i) (u, j) = ltb t u || (t == u && ltb i j)

abbrev pub key_of : AnalysisRecord → ℕ × ℕ
key_of r = (r.created_at, r.analysis_id)

-- `reverse=True`
abbrev pub newer : AnalysisRecord → AnalysisRecord → Bool
newer a b = key_before (key_of b) (key_of a)

abbrev pub status_is : Option Text → AnalysisRecord → Bool
status_is none r = true
status_is (some status) r = text_eq r.status status

-- The records that pass the filters of `list`.
unfoldable pub selected : Option Text → Scope → AnalysisState → List AnalysisRecord
unfolding text_eq
selected status scope s =
    keep (λ r. within scope.created_by_user_id r.created_by_user_id)
      (keep (λ r. within scope.tenant_id r.tenant_id) (keep (status_is status) (values s.records)))

-- Newest first.
unfoldable pub listed : Option Text → Scope → AnalysisState → List AnalysisRecord
unfolding selected sorted
listed status scope s = sorted newer (selected status scope s)

-- The changes of `cancel` to the record.
unfoldable pub cancelled_record : AnalysisRecord → ℕ → AnalysisRecord
unfolding member
cancelled_record r now = record r {
  status = if member r.status terminal_statuses then r.status else codes "cancelling";
  updated_at = now;
}

module _ (os : ApiPlatform) where
  -- `list`; `none` is a `ValueError`
  unfoldable pub list_analyses :
      Option Text → ℕ → Option Text → Scope → AnalysisState → Option (List AnalysisRecord)
  unfolding decode_list_cursor listed cursor_offset
  list_analyses status limit cursor scope s = elim (decode_list_cursor os cursor) [
    | some position ↦
        some (take limit (keep (λ r. key_before (key_of r) position) (listed status scope s)))
    | none ↦ (elim (cursor_offset os.isdigit os.parse_int cursor) [
      | none ↦ none
      | some offset ↦ some (take limit (drop offset (listed status scope s)))
    ])
  ]

  -- `self._outbox.add(EventEnvelope.new(…))`
  unfoldable pub emit : EventFields → ℕ → AnalysisState → AnalysisState
  unfolding new_event
  emit fields now s =
      let (event, drawn) = new_event os.events fields now s.drawn in
      record s { outbox = s.outbox ++ event ∷ []; drawn = drawn }

  -- The record of a new analysis, whose UUIDs are the next two.
  unfoldable pub new_analysis : Text → Text → Scope → ℕ → ℕ → AnalysisRecord
  new_analysis repository_url requested_ref scope now drawn = record {
    analysis_id = os.events.uuid7 drawn;
    agent_id = os.events.uuid7 (suc drawn);
    snapshot_id = none;
    status = codes "queued";
    repository_url = repository_url;
    requested_ref = requested_ref;
    resolved_commit_sha = none;
    created_at = now;
    updated_at = now;
    error_code = none;
    error_message = none;
    tenant_id = scope.tenant_id;
    created_by_user_id = scope.created_by_user_id;
  }

  -- `create`; the scope is the tenant and the user that the record is given.
  unfoldable pub create_analysis :
      Text → Text → Scope → ℕ → AnalysisState → AnalysisRecord × AnalysisState
  unfolding new_analysis emit
  create_analysis repository_url requested_ref scope now s =
      let r = new_analysis repository_url requested_ref scope now s.drawn in
      let stored : AnalysisState = record s {
        records = insert r.analysis_id r s.records;
        drawn = s.drawn + 2;
      } in
      (
        r,
        emit
            (record {
              event_type = analysis_requested;
              analysis_id = some r.analysis_id;
              agent_id = some r.agent_id;
              snapshot_id = none;
              correlation_id = none;
              causation_id = none;
              payload =
                  field (codes "repository_url") (str r.repository_url)
                    (field (codes "requested_ref") (str r.requested_ref) end);
            })
            now stored,
      )

  -- `cancel`
  unfoldable pub cancel : ℕ → Scope → ℕ → AnalysisState → Option AnalysisRecord × AnalysisState
  unfolding get_analysis cancelled_record emit
  cancel analysis_id scope now s = elim (get_analysis analysis_id scope s) [
    | none ↦ (none, s)
    | some r ↦
        let changed = cancelled_record r now in
        (
          some changed,
          emit
              (record {
                event_type = analysis_cancel_requested;
                analysis_id = some r.analysis_id;
                agent_id = some r.agent_id;
                snapshot_id = none;
                correlation_id = none;
                causation_id = none;
                payload = end;
              })
              now (record s { records = insert analysis_id changed s.records }),
        )
  ]

  -- The loop of `create_batch`, with the position and the number of UUIDs drawn: the records and the
  -- rows of the items, in order, and the UUIDs drawn then.
  unfoldable pub batch_rows :
      ℕ
      → Scope
      → ℕ
      → ℕ
      → ℕ
      → List AnalysisBatchCreateItem
      → List AnalysisRecord × List AnalysisBatchItemRecord × ℕ
  unfolding new_analysis
  batch_rows batch_id scope now sort_order drawn [] = ([], [], drawn)
  batch_rows batch_id scope now sort_order drawn (item ∷ items) =
      let r = new_analysis item.repository_url item.requested_ref scope now drawn in
      let rest = batch_rows batch_id scope now (suc sort_order) (drawn + 3) items in
      (
        r ∷ rest.0,
        record {
          batch_item_id = os.events.uuid7 (drawn + 2);
          batch_id = batch_id;
          analysis_id = r.analysis_id;
          agent_id = r.agent_id;
          repository_url = r.repository_url;
          requested_ref = r.requested_ref;
          status = codes "pending";
          sort_order = sort_order;
          created_at = now;
          updated_at = now;
          error_code = none;
          error_message = none;
        }
            ∷ rest.1,
        rest.2,
      )

  abbrev insert_all : List AnalysisRecord → Dict AnalysisRecord → Dict AnalysisRecord
  insert_all [] d = d
  insert_all (r ∷ rs) d = insert_all rs (insert r.analysis_id r d)

  -- `create_batch`
  unfoldable pub create_batch :
      List AnalysisBatchCreateItem
      → ℤ
      → Scope
      → ℕ
      → AnalysisState
      → AnalysisBatchRecord × AnalysisState
  unfolding batch_rows emit insert
  create_batch items max_parallel scope now s =
      let batch_id = os.events.uuid7 s.drawn in
      let rows = batch_rows batch_id scope now 0 (suc s.drawn) items in
      let batch : AnalysisBatchRecord = record {
        batch_id = batch_id;
        status = codes "queued";
        max_parallel = max_parallel;
        total_count = length rows.1;
        pending_count = length rows.1;
        active_count = 0;
        completed_count = 0;
        failed_count = 0;
        cancelled_count = 0;
        created_at = now;
        updated_at = now;
        items = rows.1;
        tenant_id = scope.tenant_id;
        created_by_user_id = scope.created_by_user_id;
      } in
      let stored : AnalysisState = record s {
        records = insert_all rows.0 s.records;
        batches = insert batch_id batch s.batches;
        drawn = rows.2;
      } in
      (
        batch,
        emit
            (record {
              event_type = analysis_batch_submitted;
              analysis_id = none;
              agent_id = none;
              snapshot_id = none;
              correlation_id = none;
              causation_id = none;
              payload =
                  field (codes "batch_id") (str (os.events.uuid_text batch_id))
                    (field (codes "max_parallel") (num max_parallel) end);
            })
            now stored,
      )
