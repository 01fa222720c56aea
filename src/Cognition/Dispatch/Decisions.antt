-- ===== src/Cognition/Dispatch/Decisions.antt =====
-- `route_request` and the events that the host appends about a request.
use Prim.Native.String.{◌++◌ as joined}
use pluribus.Base.{
  ℕ, String, Bool, true, false, Option, none, some, List, [], ◌∷◌, Result, ok, err, ◌>>=◌, map_err,
  ◌==◌, string_eq, lookup, filter, any, ℤ, pos, decimal_text,
}
use pluribus.Core.Identity.{PrincipalRef, component, node}
use pluribus.Core.Event.{AppendRequest, CommittedEvent, canonical_json, StreamKind}
use pluribus.Core.Authority.{Authority, Decision, allow, deny, decide}
use pluribus.Core.Registry as Registry
use pluribus.Json.{Value, string, bool, null, number, obj, opt_string, at, JsonText}
use pluribus.Cognition.EventStore.{EventStore}
use pluribus.Cognition.Dispatch.{
  Registration, Router, Routed, deliver, no_provider, denied, RouterError, storage, denial_reason,
  payload_value, payload_field, projected,
}

-- A result and the state that the call leaves.
abbrev pub Answer : Type 0 → Type 0 → Type 0
Answer S A = Result RouterError A × S

abbrev pub node_ref : Router → PrincipalRef
node_ref router = record { kind = node; id = router.agent.id }

-- The request of a host event that `source` caused.
unfoldable pub host_request :
    Router → CommittedEvent → String → String → List ℕ → String → AppendRequest
host_request router source event_type payload_schema payload key = record {
  stream_id = router.stream_id;
  stream_kind = StreamKind.agent;
  observed_at_ms = none;
  event_type = event_type;
  payload_schema = payload_schema;
  payload = canonical_json payload;
  actor = node_ref router;
  authority_id = source.request.authority_id;
  activity_id = source.request.activity_id;
  correlation_id = source.request.correlation_id;
  causation_id = some source.event_id;
  deduplication_key = some key;
}

abbrev pub decision_reason : Routed → Value
decision_reason (deliver instance_id) = null
decision_reason (no_provider reason) = string reason
decision_reason (denied reason) = string reason

abbrev pub decided_provider : Routed → Option String
decided_provider (deliver instance_id) = some instance_id
decided_provider _ = none

abbrev pub is_delivery : Routed → Bool
is_delivery (deliver instance_id) = true
is_delivery _ = false

unfoldable pub decision_payload : CommittedEvent → String → Routed → Value
decision_payload event capability routed = obj (
    ("capability", string capability)
    ∷ ("allowed", bool (is_delivery routed))
    ∷ ("provider", opt_string (decided_provider routed))
    ∷ ("reason", decision_reason routed)
    ∷ ("requestEventId", string event.event_id)
    ∷ [])

-- The texts of `RegistryError`.
abbrev pub registry_text : Registry.RegistryError → String
registry_text (Registry.unknown event_type) = joined "unknown event type: " event_type
registry_text (Registry.reserved event_type) = joined "event type is core-owned: " event_type
registry_text (Registry.not_granted event_type) = joined "instance may not emit " event_type
registry_text (Registry.schema_mismatch event_type expected actual) = joined "event type " (
    joined event_type
      (joined " carries schema " (joined expected (joined ", proposal used " actual))))

-- `arguments`, as the request carries them.
abbrev pub arguments_of : Option Value → Value
arguments_of none = null
arguments_of (some value) = at value "arguments"

-- `candidates.len() != 1`, with the reason that is recorded.
pub data Provider : Type 0 where
  only : Registration → Provider
  none_or_many : String → Provider

unfoldable pub provider_of : String → List Registration → Provider
provider_of capability [] = none_or_many (joined "no instance provides " capability)
provider_of capability (r ∷ []) = only r
provider_of capability (r ∷ q ∷ rest) = none_or_many (joined "multiple providers for " capability)

unfoldable pub provides : String → Registration → Bool
provides capability r = any (λ owned. owned == capability) r.subscriptions.capabilities

abbrev pub routed_by : String → Decision → Routed
routed_by instance_id (allow grant) = deliver instance_id
routed_by instance_id (deny reason) = denied (denial_reason reason)

module _ {S : Type 0} (json : JsonText) (store : EventStore S) (router : Router) where
  -- `events.append(request)`, its error as the router's.
  unfoldable pub append_request : S → AppendRequest → Answer S CommittedEvent
  append_request s request =
      let (answer, after) = store.append s request in (map_err storage answer, after)

  -- The same behind `registry.validate`.
  unfoldable pub append_valid : S → AppendRequest → Answer S CommittedEvent
  append_valid s request = elim (Registry.validate router.registry request) [
    | err e ↦ (err (storage (registry_text e)), s)
    | ok u ↦ append_request s request
  ]

  abbrev pub decision_request : CommittedEvent → String → Routed → AppendRequest
  decision_request event capability routed =
      host_request router event "policy.decision" "pluribus.policy-decision/1"
        (json.to_vec (decision_payload event capability routed)) (joined "policy:" event.event_id)

  unfoldable pub append_decision : S → CommittedEvent → String → Routed → Answer S (Unit {0})
  append_decision s event capability routed =
      let (answer, after) = append_valid s (decision_request event capability routed) in
      (answer >>= λ committed. ok tt, after)

  -- How a request for a capability is routed, before the decision is recorded.
  unfoldable pub routed_to : CommittedEvent → Authority → ℤ → String → Routed
  routed_to event authority now_ms capability =
      elim (provider_of capability (filter (provides capability) router.registrations)) [
        | none_or_many reason ↦ no_provider reason
        | only candidate ↦ routed_by candidate.instance_id (
            decide authority capability (record { kind = component; id = candidate.instance_id })
              (json.to_vec (arguments_of (payload_value json event)))
              (projected json router.constraints
                (lookup capability candidate.subscriptions.constraint_bindings))
              now_ms)
      ]

  unfoldable pub route_request : S → CommittedEvent → Authority → ℤ → Answer S Routed
  route_request s event authority now_ms = elim (payload_field json event "capability") [
    | none ↦ (ok (no_provider "request has no capability name"), s)
    | some capability ↦
        let routed = routed_to event authority now_ms capability in
        let (answer, after) = append_decision s event capability routed in
        (answer >>= λ u. ok routed, after)
  ]

  unfoldable pub append_denial : S → CommittedEvent → String → Answer S CommittedEvent
  append_denial s event reason = append_request s (
      host_request router event "capability.denied" "pluribus.capability-denied/1"
        (json.to_vec
          (obj (("requestEventId", string event.event_id) ∷ ("reason", string reason) ∷ [])))
        (joined "denied:" event.event_id))

  abbrev first_of : List CommittedEvent → Option CommittedEvent
  first_of [] = none
  first_of (event ∷ batch) = some event

  abbrev last_of : List CommittedEvent → Option CommittedEvent
  last_of [] = none
  last_of (event ∷ []) = some event
  last_of (event ∷ next ∷ batch) = last_of (next ∷ batch)

  abbrev sequence_value : Option CommittedEvent → Value
  sequence_value none = null
  sequence_value (some event) = number (pos event.sequence)

  -- The request of `component.failed`; what the batch does not tell is left out.
  unfoldable pub failure_request : String → List CommittedEvent → String → AppendRequest
  failure_request instance_id batch reason =
      let payload = json.to_vec (
        obj (
          ("instanceId", string instance_id)
          ∷ ("reason", string reason)
          ∷ ("deliveredFrom", sequence_value (first_of batch))
          ∷ ("deliveredThrough", sequence_value (last_of batch))
          ∷ [])) in
      record {
        stream_id = router.stream_id;
        stream_kind = StreamKind.agent;
        observed_at_ms = none;
        event_type = "component.failed";
        payload_schema = "pluribus.component-failed/1";
        payload = canonical_json payload;
        actor = node_ref router;
        authority_id = elim (last_of batch) [ none ↦ none | some e ↦ e.request.authority_id ];
        activity_id = elim (last_of batch) [ none ↦ none | some e ↦ e.request.activity_id ];
        correlation_id = elim (last_of batch) [ none ↦ none | some e ↦ e.request.correlation_id ];
        causation_id = elim (last_of batch) [ none ↦ none | some e ↦ some e.event_id ];
        deduplication_key = elim (last_of batch) [
          | none ↦ none
          | some e ↦ some (
              joined "component-failed:"
                (joined instance_id (joined ":" (decimal_text e.sequence))))
        ];
      }

  unfoldable pub append_component_failure :
      S → String → List CommittedEvent → String → Answer S CommittedEvent
  append_component_failure s instance_id batch reason =
      append_request s (failure_request instance_id batch reason)

  unfoldable pub append_health : S → String → Value → Answer S CommittedEvent
  append_health s kind payload = append_request s (record {
    stream_id = router.stream_id;
    stream_kind = StreamKind.agent;
    observed_at_ms = none;
    event_type = kind;
    payload_schema = "pluribus.component-health/1";
    payload = canonical_json (json.to_vec payload);
    actor = node_ref router;
    authority_id = none;
    activity_id = none;
    correlation_id = none;
    causation_id = none;
    deduplication_key = none;
  })
