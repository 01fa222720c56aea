-- ===== src/Core/Event/Filter.antt =====
-- The filter `EventQuery::matches` against the predicates that its fields document.
use pluribus.Base.{
  ◌<◌, ◌≡◌, ◌↔◌, ◌⊎◌, true, some, [], arith, Among, Holds, ==_iff, any_eq_iff, string_eq, option_eq,
  ◌≤ℤ◌,
}
use pluribus.Core.Event.{CommittedEvent, EventQuery, matches}

-- What an event that passes the filter satisfies: strict bounds on the sequence, inclusive bounds
-- on the time, one of the wanted types, and the wanted identifiers.
pub record Matches (query : EventQuery) (event : CommittedEvent) : Type 0 where
  pub after : Holds (λ a. a < event.sequence) query.after_sequence
  pub before : Holds (λ b. event.sequence < b) query.before_sequence
  pub event_type : (query.event_types ≡ []) ⊎ Among event.request.event_type query.event_types
  pub correlation : Holds (λ c. event.request.correlation_id ≡ some c) query.correlation_id
  pub activity : Holds (λ a. event.request.activity_id ≡ some a) query.activity_id
  pub from : Holds (λ t. t ≤ℤ event.recorded_at_ms) query.recorded_from_ms
  pub to : Holds (λ t. event.recorded_at_ms ≤ℤ t) query.recorded_to_ms

-- The filter passes exactly the events that satisfy every predicate set in the query.
pub matches_iff :
    (query : EventQuery) (event : CommittedEvent)
    → (matches query event ≡ true) ↔ Matches query event
unfolding matches
matches_iff query event = ground (
  arith,
  any_eq_iff event.request.event_type query.event_types,
  ==_iff query.correlation_id event.request.correlation_id,
  ==_iff query.activity_id event.request.activity_id,
)
