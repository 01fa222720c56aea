-- ===== src/Cognition/Dispatch.antt =====
-- crates/pluribus-cognition/src/dispatch.rs: what an instance receives, the router's state, and the
-- constraints that a provider projects from a request.
pub mod Manifest
pub mod Polling
mod Paging
pub mod Decisions
pub mod Projection
pub mod Revisions
pub mod Attempts
pub mod Searches
pub mod Results
pub mod Refreshes
pub mod Audit
pub mod Admissions
pub mod SingleAttempt
mod Tests
mod Selections
pub mod Deliveries
pub mod Polls
use Prim.Native.String.{◌++◌ as joined}
use pluribus.Base.{
  ℕ, zero, suc, ◌/◌, ◌%◌, String, Bool, true, false, not, Option, none, some, List, [], ◌∷◌, ◌++◌,
  Result, ok, err, ◌>>=◌, ok_or, map_err, ◌==◌, string_eq, Assoc, lookup, insert, filter, find, any,
  map, codes, ltb, if◌then◌else◌, ℤ,
}
use pluribus.Core.Identity.{PrincipalRef, PrincipalKind, component, kind_eq, node}
use pluribus.Core.Event.{
  AppendRequest, CommittedEvent, EventPayload, canonical_json, blob, StreamKind, is_some_and,
  is_some,
}
use pluribus.Core.Authority.{
  Grant, Policy, DenialReason, missing_grant, constraint_mismatch, expired, depth_exceeded,
  policy_error,
}
use pluribus.Core.Registry.{EventTypeRegistry, matches_pattern}
use pluribus.Json.{
  Value, string, number, null, object, members, JsonText, get, as_str, as_i64, as_object,
}

-- `ConstraintPart` and `ConstraintBinding` of crates/pluribus-plugin-package/src/manifest.rs.
pub record ConstraintPart : Type 0 where
  pub pointer : String
  pub prefix : String
  pub optional : Bool

pub record ConstraintBinding : Type 0 where
  pub parts : List ConstraintPart
  pub required : Bool

pub record Subscriptions : Type 0 where
  pub idempotency : Assoc String String
  pub whole_stream : Bool
  pub event_types : List String
  pub capabilities : List String
  pub models : List String
  pub constraint_bindings : Assoc String (Assoc String ConstraintBinding)

pub record Registration : Type 0 where
  pub instance_id : String
  pub subscriptions : Subscriptions

pub data Routed : Type 0 where
  deliver : String → Routed
  no_provider : String → Routed
  denied : String → Routed

pub data RouterError : Type 0 where
  unknown_instance : String → RouterError
  storage : String → RouterError

-- `ConstraintPolicy::allows_projected`: the grant, the request and the projected selectors.
abbrev pub ProjectedPolicy : Type 0
ProjectedPolicy = Grant → List ℕ → List ℕ → Result String Bool

-- The event store and the projection of `Router` are states of the operations.
pub record Router : Type 0 where
  pub stream_id : String
  pub agent : PrincipalRef
  pub registrations : List Registration
  pub registry : EventTypeRegistry
  pub constraints : ProjectedPolicy

unfoldable pub denial_reason : DenialReason → String
denial_reason missing_grant = "no grant for this capability"
denial_reason constraint_mismatch = "constraints reject the request"
denial_reason expired = "authority expired"
denial_reason depth_exceeded = "recursion depth exhausted"
denial_reason (policy_error message) = joined "policy error: " message

unfoldable pub unregister : String → Router → Router
unregister instance_id router = record router {
  registrations = filter (λ r. not (r.instance_id == instance_id)) router.registrations;
}

unfoldable pub register : Registration → Router → Router
register registration router = record router {
  registrations =
      filter (λ r. not (r.instance_id == registration.instance_id)) router.registrations
      ++ (registration ∷ []);
}

module _ (json : JsonText) where
  -- `EventPayload::CanonicalJson` that parses.
  abbrev pub payload_value : CommittedEvent → Option Value
  payload_value event = elim event.request.payload [
    | canonical_json bytes ↦ elim (json.from_slice bytes) [ ok value ↦ some value | err e ↦ none ]
    | blob b ↦ none
  ]

  abbrev pub field_of : Option Value → String → Option Value
  field_of none field = none
  field_of (some value) field = get value field

  abbrev pub string_of : Option Value → Option String
  string_of none = none
  string_of (some value) = as_str value

  abbrev pub integer_of : Option Value → Option ℤ
  integer_of none = none
  integer_of (some value) = as_i64 value

  unfoldable pub payload_field : CommittedEvent → String → Option String
  payload_field event field = string_of (field_of (payload_value event) field)

  unfoldable pub json_number : CommittedEvent → String → Option ℤ
  json_number event field = integer_of (field_of (payload_value event) field)

  unfoldable pub accepts : Subscriptions → CommittedEvent → Bool
  accepts self event =
      let event_type = event.request.event_type in
      if self.whole_stream
      then true
      else if any (λ pattern_text. matches_pattern (codes pattern_text) (codes event_type))
          self.event_types
      then true
      else if event_type == "capability.requested"
      then is_some_and (payload_field event "capability")
          (λ name. any (λ owned. owned == name) self.capabilities)
      else if event_type == "model.requested"
      then is_some_and (payload_field event "model")
          (λ name. any (λ owned. owned == name) self.models)
      else false

  abbrev part_text : Value → Option String
  part_text (string value) = some value
  part_text (number n) = some (json.number_text (number n))
  part_text _ = none

  -- The loop over the parts of a binding: `none` where it returns `Ok(false)`.
  unfoldable pub selector_of : Value → List ConstraintPart → String → Option String
  selector_of request [] selector = some selector
  selector_of request (part ∷ parts) selector = elim (json.pointer request part.pointer) [
    | none ↦ elim part.optional [ true ↦ selector_of request parts selector | false ↦ none ]
    | some value ↦ elim (part_text value) [
      | none ↦ none
      | some text ↦ selector_of request parts (joined selector (joined part.prefix text))
    ]
  ]

  -- The loop over the bindings, with the selectors that it fills.
  unfoldable pub selectors_of :
      List (String × Value)
      → Value
      → Assoc String ConstraintBinding
      → Assoc String Value
      → Option (Assoc String Value)
  selectors_of constraints request [] selectors = some selectors
  selectors_of constraints request ((key, binding) ∷ bindings) selectors =
      elim (any (λ field. field.0 == key) constraints) [
        | false ↦ elim binding.required [
          | true ↦ none
          | false ↦ selectors_of constraints request bindings selectors
        ]
        | true ↦ elim binding.parts [
          | [] ↦ none
          | part ∷ parts ↦ elim (selector_of request (part ∷ parts) "") [
            | none ↦ none
            | some selector ↦
                selectors_of constraints request bindings (insert key (string selector) selectors)
          ]
        ]
      ]

  -- `ProjectedConstraints`
  unfoldable pub projected : ProjectedPolicy → Option (Assoc String ConstraintBinding) → Policy
  projected policy bindings grant request = do
    constraints ← json.from_slice grant.constraints
    fields ← ok_or (as_object constraints) "constraints must be an object"
    request_value ← json.from_slice request
    elim (selectors_of fields request_value (elim bindings [ none ↦ [] | some b ↦ b ]) []) [
      | none ↦ ok false
      | some selectors ↦ policy grant request (json.to_vec (object (members selectors)))
    ]
