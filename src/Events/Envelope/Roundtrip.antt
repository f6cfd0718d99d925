-- ===== src/Events/Envelope/Roundtrip.antt =====
-- Events of backend/events/envelope.py that are written as a dict and read back.
use deepdive.Base.{ℕ, ◌≡◌, refl, false, Option, none, some}
use deepdive.Text.{text_eq, is_empty}
use deepdive.Events.Types.{event_type_of-value}
use deepdive.Events.Envelope.{
  EventPlatform, EventEnvelope, to_dict, from_dict, optional_text, optional_uuid,
}

-- UUIDs and times are read back from their texts, and a UUID's text is not empty.
pub record EventLaws (os : EventPlatform) : Type 0 where
  pub parsed : (id : ℕ) → os.parse_uuid (os.uuid_text id) ≡ some id
  pub full : (id : ℕ) → is_empty (os.uuid_text id) ≡ false
  pub read : (t : ℕ) → os.fromisoformat (os.isoformat t) ≡ some t

module _ (os : EventPlatform) (laws : EventLaws os) where
  optional_uuid-text : (id : Option ℕ) → optional_uuid os (optional_text os id) ≡ some id
  unfolding optional_uuid
  optional_uuid-text none = refl
  optional_uuid-text (some id) = rw (laws.full id, laws.parsed id) refl

  -- An event that is written as a dict is read back unchanged.
  pub from_dict-to_dict : (e : EventEnvelope) → from_dict os (to_dict os e) ≡ some e
  unfolding from_dict to_dict text_eq
  from_dict-to_dict e =
      rw
        (
          laws.parsed e.event_id,
          event_type_of-value e.event_type,
          laws.read e.occurred_at,
          laws.parsed e.correlation_id,
          optional_uuid-text e.causation_id,
          optional_uuid-text e.analysis_id,
          optional_uuid-text e.agent_id,
          optional_uuid-text e.snapshot_id,
        )
        refl
