-- ===== src/Events/Types.antt =====
-- backend/events/types.py.
use deepdive.Base.{◌≡◌, refl, Bool, Option, some, List, [], ◌∷◌, find}
use deepdive.Text.{Text, codes, text_eq}

pub data EventType : Type 0 where
  analysis_batch_submitted analysis_batch_slot_available analysis_requested
        analysis_cancel_requested snapshot_requested :
      EventType
  snapshot_started snapshot_ready snapshot_failed agent_continue_requested agent_started : EventType
  agent_waiting_for_tool agent_compacted analysis_completed analysis_failed analysis_cancelled :
      EventType
  tool_call_requested tool_call_started tool_call_completed tool_call_failed tool_call_denied :
      EventType
  event_processing_failed : EventType

-- `event_type.value`
abbrev pub value : EventType → Text
value analysis_batch_submitted = codes "AnalysisBatchSubmitted"
value analysis_batch_slot_available = codes "AnalysisBatchSlotAvailable"
value analysis_requested = codes "AnalysisRequested"
value analysis_cancel_requested = codes "AnalysisCancelRequested"
value snapshot_requested = codes "SnapshotRequested"
value snapshot_started = codes "SnapshotStarted"
value snapshot_ready = codes "SnapshotReady"
value snapshot_failed = codes "SnapshotFailed"
value agent_continue_requested = codes "AgentContinueRequested"
value agent_started = codes "AgentStarted"
value agent_waiting_for_tool = codes "AgentWaitingForTool"
value agent_compacted = codes "AgentCompacted"
value analysis_completed = codes "AnalysisCompleted"
value analysis_failed = codes "AnalysisFailed"
value analysis_cancelled = codes "AnalysisCancelled"
value tool_call_requested = codes "ToolCallRequested"
value tool_call_started = codes "ToolCallStarted"
value tool_call_completed = codes "ToolCallCompleted"
value tool_call_failed = codes "ToolCallFailed"
value tool_call_denied = codes "ToolCallDenied"
value event_processing_failed = codes "EventProcessingFailed"

abbrev all_types : List EventType
all_types =
    analysis_batch_submitted ∷ analysis_batch_slot_available ∷ analysis_requested
    ∷ analysis_cancel_requested ∷ snapshot_requested ∷ snapshot_started ∷ snapshot_ready
    ∷ snapshot_failed ∷ agent_continue_requested ∷ agent_started ∷ agent_waiting_for_tool
    ∷ agent_compacted ∷ analysis_completed ∷ analysis_failed ∷ analysis_cancelled
    ∷ tool_call_requested ∷ tool_call_started ∷ tool_call_completed ∷ tool_call_failed
    ∷ tool_call_denied ∷ event_processing_failed ∷ []

-- `EventType(text)`; `none` is a `ValueError`
unfoldable pub event_type_of : Text → Option EventType
unfolding text_eq
event_type_of text = find (λ t. text_eq (value t) text) all_types

-- A value names its type.
pub event_type_of-value : (t : EventType) → event_type_of (value t) ≡ some t
unfolding event_type_of
event_type_of-value analysis_batch_submitted = refl
event_type_of-value analysis_batch_slot_available = refl
event_type_of-value analysis_requested = refl
event_type_of-value analysis_cancel_requested = refl
event_type_of-value snapshot_requested = refl
event_type_of-value snapshot_started = refl
event_type_of-value snapshot_ready = refl
event_type_of-value snapshot_failed = refl
event_type_of-value agent_continue_requested = refl
event_type_of-value agent_started = refl
event_type_of-value agent_waiting_for_tool = refl
event_type_of-value agent_compacted = refl
event_type_of-value analysis_completed = refl
event_type_of-value analysis_failed = refl
event_type_of-value analysis_cancelled = refl
event_type_of-value tool_call_requested = refl
event_type_of-value tool_call_started = refl
event_type_of-value tool_call_completed = refl
event_type_of-value tool_call_failed = refl
event_type_of-value tool_call_denied = refl
event_type_of-value event_processing_failed = refl

-- `a == b`
abbrev pub eq_type : EventType → EventType → Bool
eq_type a b = text_eq (value a) (value b)
