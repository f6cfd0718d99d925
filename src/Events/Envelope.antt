-- ===== src/Events/Envelope.antt =====
-- backend/events/envelope.py: `EventEnvelope`. UUIDs and times as texts are those of the platform.
pub mod Roundtrip
use deepdive.Base.{ℕ, suc, ◌+◌, Bool, true, false, not, Option, none, some, List, if◌then◌else◌}
use deepdive.Base.Int.{pos}
use deepdive.Text.{Text, codes, text_eq}
use deepdive.Json.{Json, Fields, null, num, str, obj, end, field, get, has_key, truthy}
use deepdive.Events.Types.{EventType, value, event_type_of}

-- UUIDs, one for each number, and UUIDs and times as texts; `none` is a `ValueError`.
pub record EventPlatform : Type 0 where
  pub uuid7 : ℕ → ℕ
  pub uuid_text : ℕ → Text
  pub parse_uuid : Text → Option ℕ
  pub isoformat : ℕ → Text
  pub fromisoformat : Text → Option ℕ

-- `from_dict` does not check the version and the attempt.
pub record EventEnvelope : Type 0 where
  pub event_id : ℕ
  pub schema_version : Json
  pub event_type : EventType
  pub occurred_at : ℕ
  pub correlation_id : ℕ
  pub causation_id : Option ℕ
  pub analysis_id : Option ℕ
  pub agent_id : Option ℕ
  pub snapshot_id : Option ℕ
  pub attempt : Json
  pub payload : Fields

-- The arguments of `new`.
pub record EventFields : Type 0 where
  pub event_type : EventType
  pub analysis_id : Option ℕ
  pub agent_id : Option ℕ
  pub snapshot_id : Option ℕ
  pub correlation_id : Option ℕ
  pub causation_id : Option ℕ
  pub payload : Fields

-- `with_attempt`
unfoldable pub with_attempt : ℕ → EventEnvelope → EventEnvelope
with_attempt attempt e = record e { attempt = num (pos attempt) }

module _ (os : EventPlatform) where
  -- `correlation_id or analysis_id or new_uuid7()`, and the number of UUIDs drawn
  abbrev correlation : Option ℕ → Option ℕ → ℕ → ℕ × ℕ
  correlation (some id) _ drawn = (id, drawn)
  correlation none (some id) drawn = (id, drawn)
  correlation none none drawn = (os.uuid7 drawn, suc drawn)

  -- `EventEnvelope.new`, given the number of UUIDs drawn so far
  unfoldable pub new_event : EventFields → ℕ → ℕ → EventEnvelope × ℕ
  new_event fields now drawn =
      let (correlation_id, next) = correlation fields.correlation_id fields.analysis_id drawn in
      (
        record {
          event_id = os.uuid7 next;
          schema_version = num (pos 1);
          event_type = fields.event_type;
          occurred_at = now;
          correlation_id = correlation_id;
          causation_id = fields.causation_id;
          analysis_id = fields.analysis_id;
          agent_id = fields.agent_id;
          snapshot_id = fields.snapshot_id;
          attempt = num (pos 1);
          payload = fields.payload;
        },
        suc next,
      )

  abbrev pub optional_text : Option ℕ → Json
  optional_text none = null
  optional_text (some id) = str (os.uuid_text id)

  -- `to_dict`
  unfoldable pub to_dict : EventEnvelope → Fields
  to_dict e = field (codes "event_id") (str (os.uuid_text e.event_id)) (
      field (codes "schema_version") e.schema_version (
        field (codes "event_type") (str (value e.event_type)) (
          field (codes "occurred_at") (str (os.isoformat e.occurred_at)) (
            field (codes "correlation_id") (str (os.uuid_text e.correlation_id)) (
              field (codes "causation_id") (optional_text e.causation_id) (
                field (codes "analysis_id") (optional_text e.analysis_id) (
                  field (codes "agent_id") (optional_text e.agent_id) (
                    field (codes "snapshot_id") (optional_text e.snapshot_id) (
                      field (codes "attempt") e.attempt
                        (field (codes "payload") (obj e.payload) end))))))))))

  -- What a constructor makes of a text; another value makes it raise.
  abbrev pub of_text {ℓ} : {A : Type ℓ} → (Text → Option A) → Json → Option A
  of_text parse (str s) = parse s
  of_text parse _ = none

  -- `_optional_uuid`
  unfoldable pub optional_uuid : Json → Option (Option ℕ)
  unfolding truthy
  optional_uuid v =
      if not (truthy v)
      then some none
      else (elim (of_text os.parse_uuid v) [ none ↦ none | some id ↦ some (some id) ])

  -- `data[key]`
  abbrev pub item : Text → Fields → Option Json
  item key data_ = if has_key key data_ then some (get key data_) else none

  abbrev pub payload_of : Json → Fields
  payload_of (obj payload) = payload
  payload_of _ = end

  infixl 10 ◌>>=◌
  abbrev pub ◌>>=◌ {ℓ κ} : {A : Type ℓ} {B : Type κ} → Option A → (A → Option B) → Option B
  none >>= f = none
  some a >>= f = f a

  -- `from_dict`; `none` is a `KeyError`, `ValueError`, `TypeError` or `AttributeError`
  unfoldable pub from_dict : Fields → Option EventEnvelope
  unfolding get has_key event_type_of
  from_dict data_ = do
    event_id_text ← item (codes "event_id") data_
    event_id ← of_text os.parse_uuid event_id_text
    schema_version ← item (codes "schema_version") data_
    event_type_text ← item (codes "event_type") data_
    event_type ← of_text event_type_of event_type_text
    occurred_at_text ← item (codes "occurred_at") data_
    occurred_at ← of_text os.fromisoformat occurred_at_text
    correlation_text ← item (codes "correlation_id") data_
    correlation_id ← of_text os.parse_uuid correlation_text
    causation_id ← optional_uuid (get (codes "causation_id") data_)
    analysis_id ← optional_uuid (get (codes "analysis_id") data_)
    agent_id ← optional_uuid (get (codes "agent_id") data_)
    snapshot_id ← optional_uuid (get (codes "snapshot_id") data_)
    attempt ← item (codes "attempt") data_
    payload ← item (codes "payload") data_
    some (record {
      event_id = event_id;
      schema_version = schema_version;
      event_type = event_type;
      occurred_at = occurred_at;
      correlation_id = correlation_id;
      causation_id = causation_id;
      analysis_id = analysis_id;
      agent_id = agent_id;
      snapshot_id = snapshot_id;
      attempt = attempt;
      payload = payload_of payload;
    })
