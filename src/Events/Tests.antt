-- ===== src/Events/Tests.antt =====
-- Concrete runs of backend/events.
use deepdive.Base.{◌≡◌, refl, none, some, [], ◌∷◌}
use deepdive.Text.{codes, text_eq}
use deepdive.Json.{end}
use deepdive.Events.Types.{analysis_requested}
use deepdive.Events.Envelope.{EventPlatform, EventEnvelope, new_event, to_dict, from_dict}
use deepdive.Events.Envelope.Roundtrip.{EventLaws, from_dict-to_dict}
use deepdive.Events.Routing.{event_topic}

-- UUIDs and times of one character.
abbrev plain_events : EventPlatform
plain_events = record {
  uuid7 = λ n. n;
  uuid_text = λ i. i ∷ [];
  parse_uuid = λ s. elim s [ [] ↦ none | i ∷ _ ↦ some i ];
  isoformat = λ t. t ∷ [];
  fromisoformat = λ s. elim s [ [] ↦ none | t ∷ _ ↦ some t ];
}

plain_events-laws : EventLaws plain_events
plain_events-laws = record { parsed = λ id. refl; full = λ id. refl; read = λ t. refl }

abbrev requested : EventEnvelope
unfolding new_event
requested =
    (new_event plain_events
      (record {
        event_type = analysis_requested;
        analysis_id = some 7;
        agent_id = some 8;
        snapshot_id = none;
        correlation_id = none;
        causation_id = none;
        payload = end;
      })
      100 3).0

requested_topic : event_topic requested ≡ codes "deepdive.analysis.commands"
unfolding event_topic text_eq new_event
requested_topic = refl

from_dict-to_dict_example : from_dict plain_events (to_dict plain_events requested) ≡ some requested
from_dict-to_dict_example = from_dict-to_dict plain_events plain_events-laws requested
