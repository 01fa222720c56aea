-- ===== src/Cognition/Authority.antt =====
-- crates/pluribus-cognition/src/authority.rs: the authority that an event inherits from the
-- observation at the origin of its causal chain. The event store's `get` and the JSON text are
-- parameters.
mod Visits
pub mod Ancestry
pub mod Inheritance
pub mod Grants
mod Tests
use Prim.Native.String
use pluribus.Base.{
  ℕ, zero, suc, String, Bool, true, false, not, ◌&&◌, ◌||◌, Option, none, some, List, [], ◌∷◌,
  Result, ok, err, ◌>>=◌, ◌>>◌, fail_if, ok_or, ◌==◌, string_eq, Assoc, lookup, insert, find, any,
  all, leb, if◌then◌else◌, is_empty,
}
use pluribus.Core.Identity.{PrincipalRef, principal_eq, human, component}
use pluribus.Core.Event.{CommittedEvent, EventPayload, canonical_json, blob, is_some_and}
use pluribus.Core.Authority.{Authority, Grant, Audience, Origin, OriginKind}
use pluribus.Json.{
  Value, bool, string, array, cons, nil, JsonText, get, at, as_str, as_array, as_object, obj,
}
use pluribus.Json.Equality.{value_eq, bool_eq}

pub record Connector : Type 0 where
  pub provider : String
  pub inherits_origin : Bool
  pub ingress : String
  pub reply : String
  pub reply_capabilities : List String

-- The fields but the event store, which is a parameter of the operations.
pub record OriginAuthority : Type 0 where
  pub agent : PrincipalRef
  pub connectors : List Connector
  pub grants : Assoc String (List Grant)
  pub max_depth : ℕ

abbrev pub component_ref : String → PrincipalRef
component_ref id = record { kind = component; id = id }

abbrev pub answers_for : PrincipalRef → Connector → Bool
answers_for actor connector = actor == component_ref connector.ingress

-- `value.get("trusted").is_none_or(|v| v == true)`
unfoldable pub is_trusted : Value → Bool
is_trusted value = elim (get value "trusted") [ none ↦ true | some v ↦ v == bool true ]

abbrev pub origin_fields : List String
origin_fields = "provider" ∷ "externalSenderId" ∷ "conversationId" ∷ []

-- The test that a derived observation does not change its origin.
unfoldable pub changes_origin : CommittedEvent → Value → Option (String × Value) → Bool
changes_origin origin value none = false
changes_origin origin value (some (expected_id, expected)) =
    not (origin.event_id == expected_id)
    || any (λ field. not (at value field == at expected field)) origin_fields
    || not (is_trusted value == is_trusted expected)

-- `let EventPayload::CanonicalJson(bytes) = … else`, then `serde_json::from_slice`.
unfoldable pub observation : JsonText → CommittedEvent → Result String Value
observation json event = elim event.request.payload [
  | canonical_json bytes ↦ json.from_slice bytes
  | blob b ↦ err "invalid observation"
]

unfoldable pub reply_grant : JsonText → Connector → String → String → Grant
reply_grant json connector conversation capability = record {
  capability = capability;
  provider = some (component_ref connector.reply);
  constraints =
      json.to_vec (obj (("conversation_ids", array (cons (string conversation) nil)) ∷ []));
}

-- The loop over the reply capabilities.
unfoldable pub insert_replies :
    (String → Grant) → List String → Assoc String (List Grant) → Assoc String (List Grant)
insert_replies grant [] grants = grants
insert_replies grant (capability ∷ rest) grants =
    insert_replies grant rest (insert capability (grant capability ∷ []) grants)

abbrev pub sender_ref : String → String → PrincipalRef
sender_ref provider sender = record {
  kind = human;
  id = String.◌++◌ provider (String.◌++◌ ":" sender);
}

-- The authority that `issue` makes from the parts that it read.
unfoldable pub issued :
    JsonText → OriginAuthority → Connector → CommittedEvent → String → String → Bool → Authority
issued json self connector event conversation sender trusted = record {
  schema = "pluribus.authority/1";
  authority_id = String.◌++◌ "origin:" event.event_id;
  agent = self.agent;
  origin = record {
    kind = OriginKind.connector;
    principal = some (sender_ref connector.provider sender);
    connector = some event.request.actor;
    conversation_id = some conversation;
    source_event_id = event.event_id;
    trusted = trusted;
  };
  delegation_chain = [];
  grants =
      if trusted
      then insert_replies (reply_grant json connector conversation) connector.reply_capabilities
          self.grants
      else [];
  audiences =
      if trusted && not (is_empty connector.reply)
      then record {
        connector = component_ref connector.reply;
        conversation_id = conversation;
        recipients = sender_ref connector.provider sender ∷ [];
      }
        ∷ []
      else [];
  parent_authority = none;
  issued_at_ms = event.recorded_at_ms;
  expires_at_ms = none;
  max_depth = self.max_depth;
  current_depth = 0;
}

unfoldable pub issue : JsonText → OriginAuthority → CommittedEvent → Result String Authority
issue json self event = do
  connector ←
      ok_or (find (answers_for event.request.actor) self.connectors)
        "unrecognized observation connector"
  value ← observation json event
  fail_if (not (at value "provider" == string connector.provider)) "unsupported origin"
  conversation ← ok_or (as_str (at value "conversationId")) "missing conversation"
  sender ← ok_or (as_str (at value "externalSenderId")) "missing sender"
  ok (issued json self connector event conversation sender (is_trusted value))

-- What a round of `resolve` does at an event: it issues the authority, or goes on to the cause with
-- what a derived observation inherits.
pub data Visit : Type 0 where
  issues : Authority → Visit
  climbs : Option (String × Value) → Visit

unfoldable pub visit_observation :
    JsonText → OriginAuthority → CommittedEvent → Option (String × Value) → Result String Visit
visit_observation json self origin inherited = do
  connector ←
      ok_or (find (answers_for origin.request.actor) self.connectors)
        "unrecognized observation connector"
  value ← observation json origin
  fail_if (changes_origin origin value inherited) "derived observation changes its origin"
  elim connector.inherits_origin [
    | false ↦ issue json self origin >>= λ authority. ok (issues authority)
    | true ↦
        ok_or (as_str (at value "originEventId")) "derived observation requires originEventId"
        >>= λ id. ok (climbs (some (id, value)))
  ]

unfoldable pub visit :
    JsonText → OriginAuthority → CommittedEvent → Option (String × Value) → Result String Visit
unfolding visit_observation
visit json self origin inherited =
    if not (origin.request.stream_id == self.agent.id)
    then err "origin belongs to another agent"
    else if origin.request.event_type == "observation.received"
    then visit_observation json self origin inherited
    else ok (climbs inherited)

-- `EventStore::get`, its error as its text.
abbrev pub GetEvent : Type 0
GetEvent = String → Result String (Option CommittedEvent)

unfoldable pub parent_of : GetEvent → CommittedEvent → Result String CommittedEvent
parent_of get_event origin = do
  cause ← ok_or origin.request.causation_id "request has no observation origin"
  found ← get_event cause
  parent ← ok_or found "origin not found"
  fail_if (leb origin.sequence parent.sequence) "invalid origin chain"
  ok parent

-- `for _ in 0..4096`: `rounds` are left.
unfoldable pub walk :
    JsonText
    → OriginAuthority
    → GetEvent
    → ℕ
    → CommittedEvent
    → Option (String × Value)
    → Result String Authority
walk json self get_event zero origin inherited = err "origin chain exceeds limit"
walk json self get_event (suc rounds) origin inherited = elim (visit json self origin inherited) [
  | err e ↦ err e
  | ok step ↦ elim step [
    | issues authority ↦ ok authority
    | climbs next ↦ elim (parent_of get_event origin) [
      | err e ↦ err e
      | ok parent ↦ walk json self get_event rounds parent next
    ]
  ]
]

abbrev pub max_rounds : ℕ
max_rounds = 4096

unfoldable pub resolve :
    JsonText → OriginAuthority → GetEvent → CommittedEvent → Result String Authority
resolve json self get_event event = walk json self get_event max_rounds event none

-- `selectors.get(key).is_some_and(|value| values.contains(value))`
unfoldable pub selects : Value → String × Value → Bool
selects selectors (key, allowed) =
    is_some_and (as_array allowed)
      (λ values. is_some_and (get selectors key) (λ value. any (λ v. v == value) values))

-- `OriginConstraints::allows`
unfoldable pub allows : JsonText → Grant → List ℕ → Result String Bool
unfolding selects
allows json grant selectors_bytes = do
  constraints ← json.from_slice grant.constraints
  selectors ← json.from_slice selectors_bytes
  fields ← ok_or (as_object constraints) "constraints must be an object"
  ok (all (selects selectors) fields)
