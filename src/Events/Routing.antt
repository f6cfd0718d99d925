-- ===== src/Events/Routing.antt =====
-- backend/events/routing.py: the topic and the key of an event. STREAM_TOPICS is empty.
use deepdive.Base.{◌&&◌, Option, none, some, List, [], ◌∷◌, ◌++◌, any, if◌then◌else◌}
use deepdive.Text.{Text, codes, text_eq}
use deepdive.Json.{Builtins, get, truthy, to_text}
use deepdive.Events.Types.{
  EventType, eq_type, analysis_requested, analysis_cancel_requested, analysis_batch_submitted,
  analysis_batch_slot_available, analysis_completed, analysis_failed, analysis_cancelled,
  snapshot_requested, snapshot_ready, agent_continue_requested, tool_call_requested,
  tool_call_started, tool_call_completed, tool_call_failed, tool_call_denied,
  event_processing_failed,
}
use deepdive.Events.Envelope.{EventPlatform, EventEnvelope}

abbrev pub Topics : Type 0
Topics = List (EventType × Text)

-- ANALYSIS_COMMAND_TOPICS
abbrev pub analysis_command_topics : Topics
analysis_command_topics =
    (analysis_requested, codes "deepdive.analysis.commands")
    ∷ (analysis_cancel_requested, codes "deepdive.analysis.commands")
    ∷ []

-- ANALYSIS_BATCH_SCHEDULER_COMMAND_TOPICS
abbrev pub analysis_batch_scheduler_command_topics : Topics
analysis_batch_scheduler_command_topics =
    (analysis_batch_submitted, codes "deepdive.analysis-batch.commands")
    ∷ (analysis_batch_slot_available, codes "deepdive.analysis-batch.commands")
    ∷ (analysis_completed, codes "deepdive.analysis-batch.commands")
    ∷ (analysis_failed, codes "deepdive.analysis-batch.commands")
    ∷ (analysis_cancelled, codes "deepdive.analysis-batch.commands")
    ∷ []

-- SNAPSHOT_COMMAND_TOPICS
abbrev pub snapshot_command_topics : Topics
snapshot_command_topics = (snapshot_requested, codes "deepdive.snapshot.commands") ∷ []

-- AGENT_INBOX_TOPICS
abbrev pub agent_inbox_topics : Topics
agent_inbox_topics =
    (snapshot_ready, codes "deepdive.agent.commands")
    ∷ (agent_continue_requested, codes "deepdive.agent.commands")
    ∷ (tool_call_completed, codes "deepdive.agent.commands")
    ∷ (tool_call_failed, codes "deepdive.agent.commands")
    ∷ (tool_call_denied, codes "deepdive.agent.commands")
    ∷ []

-- EXECUTION_COMMAND_TOPICS
abbrev pub execution_command_topics : Topics
execution_command_topics = (tool_call_requested, codes "deepdive.execution.commands") ∷ []

-- COMMAND_TOPICS, whose parts have no type in common
abbrev pub command_topics : Topics
command_topics =
    analysis_command_topics
    ++ (analysis_batch_scheduler_command_topics
        ++ (snapshot_command_topics ++ (agent_inbox_topics ++ execution_command_topics)))

-- DLQ_TOPICS
abbrev pub dlq_topics : Topics
dlq_topics = (event_processing_failed, codes "deepdive.dlq") ∷ []

-- `topics[event_type]`
unfoldable pub topic_in : EventType → Topics → Option Text
unfolding text_eq
topic_in t [] = none
topic_in t ((u, topic) ∷ topics) = if eq_type u t then some topic else topic_in t topics

-- `event_topic`
unfoldable pub event_topic : EventEnvelope → Text
unfolding topic_in
event_topic e = elim (topic_in e.event_type command_topics) [
  | some topic ↦ topic
  | none ↦ (elim (topic_in e.event_type dlq_topics) [
    | some topic ↦ topic
    | none ↦ codes "deepdive.domain.events"
  ])
]

abbrev pub tool_call_types : List EventType
tool_call_types =
    tool_call_requested ∷ tool_call_started ∷ tool_call_completed ∷ tool_call_failed
    ∷ tool_call_denied ∷ []

-- `str(event.analysis_id)`, or `str(event.correlation_id)`
abbrev analysis_key : EventPlatform → EventEnvelope → Text
analysis_key os e = elim e.analysis_id [
  | some id ↦ os.uuid_text id
  | none ↦ os.uuid_text e.correlation_id
]

-- `event_key`
unfoldable pub event_key : Builtins → EventPlatform → EventEnvelope → Text
unfolding text_eq get truthy to_text
event_key py os e =
    let tool_call_id = get (codes "tool_call_id") e.payload in
    if any (eq_type e.event_type) tool_call_types && truthy tool_call_id
    then to_text py tool_call_id
    else analysis_key os e
