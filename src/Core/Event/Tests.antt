-- ===== src/Core/Event/Tests.antt =====
-- Runs of the validations and of the filter.
use pluribus.Base.{ok, refl, ◌≡◌}
use pluribus.Core.Event.{validate, CommittedEvent, event_schema}
use pluribus.Core.Examples.{first_request}
use pluribus.Base.{pos}

abbrev event : CommittedEvent
event = record {
  schema = event_schema;
  event_id = "e-1";
  sequence = 1;
  recorded_at_ms = pos 7;
  request = first_request;
}

accepts_request : validate first_request ≡ ok tt
unfolding validate
accepts_request = refl
