-- ===== src/Cognition/Dispatch/Polling.antt =====
-- `recipients`, `owns_timer` and `poll`.
use pluribus.Base.{
  ℕ, zero, suc, String, Bool, true, false, not, ◌&&◌, ◌||◌, Option, none, some, List, [], ◌∷◌, ◌++◌,
  Result, ok, err, ◌==◌, string_eq, filter, find, any, map, length, codes, ltb, eqb, if◌then◌else◌,
}
use pluribus.Core.Event.{CommittedEvent, default_query, no_types}
use pluribus.Json.{JsonText}
use pluribus.Cognition.EventStore.{EventStore}
use pluribus.Cognition.Dispatch.{
  Registration, Router, RouterError, unknown_instance, storage, payload_field, accepts,
}

abbrev pub found_event : Result String (Option CommittedEvent) → (CommittedEvent → Bool) → Bool
found_event (ok (some event)) p = p event
found_event (ok none) p = false
found_event (err e) p = false

-- The loop over a page: what matches is taken until the limit is reached.
unfoldable pub collect :
    ℕ → (CommittedEvent → Bool) → List CommittedEvent → List CommittedEvent → List CommittedEvent
collect limit wants [] matched = matched
collect limit wants (event ∷ page) matched = elim (wants event) [
  | false ↦ collect limit wants page matched
  | true ↦
      let grown = matched ++ (event ∷ []) in
      elim (eqb (length grown) limit) [ true ↦ grown | false ↦ collect limit wants page grown ]
]

-- `page.last().map_or(after, |event| event.sequence)`
unfoldable pub last_sequence : ℕ → List CommittedEvent → ℕ
last_sequence after [] = after
last_sequence after (event ∷ page) = last_sequence event.sequence page

-- The `while` loop, in at most as many rounds as the fuel; `none` means that the fuel ran out.
unfoldable pub poll_from :
    ℕ
    → (ℕ → Result String (List CommittedEvent))
    → (CommittedEvent → Bool)
    → ℕ
    → ℕ
    → List CommittedEvent
    → Option (Result RouterError (List CommittedEvent))
poll_from zero page_after wants limit after matched = none
poll_from (suc rounds) page_after wants limit after matched = elim (ltb (length matched) limit) [
  | false ↦ some (ok matched)
  | true ↦ elim (page_after after) [
    | err e ↦ some (err (storage e))
    | ok page ↦ elim page [
      | [] ↦ some (ok matched)
      | event ∷ rest ↦
          poll_from rounds page_after wants limit (last_sequence after (event ∷ rest))
            (collect limit wants (event ∷ rest) matched)
    ]
  ]
]

-- `pattern.contains('*')`
abbrev pub has_star : String → Bool
has_star pattern_text = any (λ c. eqb c b'*') (codes pattern_text)

-- `if !names.is_empty() { event_types.push(…) }`
abbrev pub when_any : List String → String → List String
when_any [] event_type = []
when_any (name ∷ names) event_type = event_type ∷ []

-- The types that `poll` asks for.
unfoldable pub polled_types : Registration → List String
polled_types registration =
    let subscriptions = registration.subscriptions in
    (subscriptions.event_types ++ when_any subscriptions.capabilities "capability.requested")
    ++ when_any subscriptions.models "model.requested"

abbrev pub reads_all : Registration → Bool
reads_all registration =
    registration.subscriptions.whole_stream || any has_star (polled_types registration)

module _ {S : Type 0} (json : JsonText) (store : EventStore S) (router : Router) where
  unfoldable pub owns_timer : S → String → CommittedEvent → Bool
  owns_timer s instance_id event =
      if not (event.request.event_type == "timer.fired")
      then true
      else elim (payload_field json event "requestEventId") [
        | none ↦ false
        | some id ↦ found_event (store.get s id) (λ request.
            (request.request.stream_id == router.stream_id)
            && (request.request.event_type == "timer.set")
            && (request.request.actor.id == instance_id))
      ]

  -- What an instance is given.
  unfoldable pub receives : S → Registration → CommittedEvent → Bool
  receives s registration event =
      accepts json registration.subscriptions event && owns_timer s registration.instance_id event

  unfoldable pub recipients : S → CommittedEvent → List String
  recipients s event =
      map (λ r. r.instance_id) (filter (λ r. receives s r event) router.registrations)

  unfoldable pub page_after : S → Registration → ℕ → ℕ → Result String (List CommittedEvent)
  page_after s registration limit after =
      if reads_all registration
      then store.read s router.stream_id after limit
      else store.query s router.stream_id
          (record default_query {
            after_sequence = some after;
            event_types = polled_types registration;
          })
          limit

  unfoldable pub poll : ℕ → S → String → ℕ → ℕ → Option (Result RouterError (List CommittedEvent))
  poll rounds s instance_id checkpoint limit =
      elim (find (λ r. r.instance_id == instance_id) router.registrations) [
        | none ↦ some (err (unknown_instance instance_id))
        | some registration ↦
            if not (reads_all registration) && no_types (polled_types registration)
            then some (ok [])
            else poll_from rounds (page_after s registration limit) (receives s registration) limit
                checkpoint []
      ]
