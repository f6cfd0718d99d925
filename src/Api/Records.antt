-- ===== src/Api/Records.antt =====
-- The analyses of backend/api/records.py, and what `InMemoryAnalysisService` of backend/api/in_memory.py
-- keeps.
use deepdive.Base.{ℕ, Bool, Option, List, Dict}
use deepdive.Base.Int.{ℤ}
use deepdive.Text.{Text}
use deepdive.Json.{Fields}
use deepdive.Events.Envelope.{EventEnvelope, EventPlatform}
use deepdive.Auth.Jwt.{JwtLibrary}

pub record AnalysisRecord : Type 0 where
  pub analysis_id : ℕ
  pub agent_id : ℕ
  pub snapshot_id : Option ℕ
  pub status : Text
  pub repository_url : Text
  pub requested_ref : Text
  pub resolved_commit_sha : Option Text
  pub created_at : ℕ
  pub updated_at : ℕ
  pub error_code : Option Text
  pub error_message : Option Text
  pub tenant_id : Option ℕ
  pub created_by_user_id : Option ℕ

pub record AnalysisBatchCreateItem : Type 0 where
  pub repository_url : Text
  pub requested_ref : Text
  pub analysis_profile_id : Option ℕ

pub record AnalysisBatchItemRecord : Type 0 where
  pub batch_item_id : ℕ
  pub batch_id : ℕ
  pub analysis_id : ℕ
  pub agent_id : ℕ
  pub repository_url : Text
  pub requested_ref : Text
  pub status : Text
  pub sort_order : ℕ
  pub created_at : ℕ
  pub updated_at : ℕ
  pub error_code : Option Text
  pub error_message : Option Text

pub record AnalysisBatchRecord : Type 0 where
  pub batch_id : ℕ
  pub status : Text
  pub max_parallel : ℤ
  pub total_count : ℕ
  pub pending_count : ℕ
  pub active_count : ℕ
  pub completed_count : ℕ
  pub failed_count : ℕ
  pub cancelled_count : ℕ
  pub created_at : ℕ
  pub updated_at : ℕ
  pub items : List AnalysisBatchItemRecord
  pub tenant_id : Option ℕ
  pub created_by_user_id : Option ℕ

pub record AgentStreamEventRecord : Type 0 where
  pub seq : ℕ
  pub event_type : Text
  pub payload_json : Fields

-- The outbox is the row of the events that were added to it.
pub record AnalysisState : Type 0 where
  pub records : Dict AnalysisRecord
  pub batches : Dict AnalysisBatchRecord
  pub outbox : List EventEnvelope
  pub drawn : ℕ

-- The tenant and the user that a caller is restricted to; `none` does not restrict.
pub record Scope : Type 0 where
  pub tenant_id : Option ℕ
  pub created_by_user_id : Option ℕ

-- The texts of UUIDs and times, Base64, UTF-8, and `isdigit` and `int` of a text; `none` is a `ValueError`.
pub record ApiPlatform : Type 0 where
  pub events : EventPlatform
  pub jwt : JwtLibrary
  pub encode : Text → List ℕ
  pub decode : List ℕ → Option Text
  pub isdigit : Text → Bool
  pub parse_int : Text → Option ℤ
