-- ===== src/Cognition/Examples.antt =====
-- A conversation over one connector, for the tests: an observation, a notice derived from it and a
-- request that the notice caused.
use pluribus.Base.{
  ℕ, String, true, false, none, some, List, [], ◌∷◌, Result, Assoc, ok, err, pos, ◌==◌, list_eq,
  nat_eq, string_eq, if◌then◌else◌,
}
use pluribus.Core.Identity.{agent, component}
use pluribus.Core.Event.{AppendRequest, CommittedEvent, canonical_json}
use pluribus.Core.Authority.{Authority, OriginKind}
use pluribus.Core.Registry.{undeclared_schema, core}
use pluribus.Core.Examples.{first_request}
use pluribus.Json.{Value, null, string, bool, array, cons, nil, obj, JsonText, get}
use pluribus.Cognition.Dispatch.{Registration, Router}
use pluribus.Cognition.Authority.{Connector, OriginAuthority, GetEvent}

abbrev pub content : List (String × Value)
content =
    ("provider", string "telegram")
    ∷ ("externalSenderId", string "7")
    ∷ ("conversationId", string "room")
    ∷ []

abbrev pub derived_content : Value
derived_content = obj (("originEventId", string "o-1") ∷ content)

abbrev pub call_content : Value
call_content = obj (("capability", string "shell.run") ∷ ("call_id", string "c") ∷ [])

abbrev decision_content : Value
decision_content = obj (
    ("capability", string "shell.run")
    ∷ ("allowed", bool true)
    ∷ ("provider", string "shell")
    ∷ ("reason", null)
    ∷ ("requestEventId", string "e-0")
    ∷ [])

-- One byte stands for each text.
abbrev texts : Assoc ℕ Value
texts =
    (1, obj content)
    ∷ (2, derived_content)
    ∷ (3, call_content)
    ∷ (4, obj (("conversation_ids", array (cons (string "room") nil)) ∷ []))
    ∷ (5, obj (("conversation_ids", string "room") ∷ []))
    ∷ (6, obj [])
    ∷ (7, decision_content)
    ∷ (8, obj (("admissionClaim", string "claim-1") ∷ []))
    ∷ []

abbrev find_text : ℕ → Assoc ℕ Value → Result String Value
find_text n [] = err "not JSON"
find_text n ((m, value) ∷ rest) = if m == n then ok value else find_text n rest

abbrev read_text : List ℕ → Result String Value
read_text [] = err "not JSON"
read_text (n ∷ rest) = find_text n texts

abbrev pub json : JsonText
json = record {
  from_slice = read_text;
  to_vec = λ value. 4 ∷ [];
  pointer = λ value path. get value path;
  number_text = λ value. "0";
}

abbrev pub telegram : Connector
telegram = record {
  provider = "telegram";
  inherits_origin = false;
  ingress = "telegram-1/receive";
  reply = "telegram-1/send";
  reply_capabilities = "message.send" ∷ [];
}

abbrev pub notices : Connector
notices = record {
  provider = "telegram";
  inherits_origin = true;
  ingress = "scheduler-1/in";
  reply = "";
  reply_capabilities = [];
}

abbrev pub operator : OriginAuthority
operator = record {
  agent = record { kind = agent; id = "agent:1" };
  connectors = telegram ∷ notices ∷ [];
  grants = [];
  max_depth = 2;
}

abbrev pub observed : CommittedEvent
observed = record {
  schema = "pluribus.event/1";
  event_id = "o-1";
  sequence = 1;
  recorded_at_ms = pos 10;
  request = record first_request {
    event_type = "observation.received";
    payload = canonical_json (1 ∷ []);
    actor = record { kind = component; id = "telegram-1/receive" };
  };
}

abbrev pub notice : CommittedEvent
notice = record {
  schema = "pluribus.event/1";
  event_id = "o-2";
  sequence = 2;
  recorded_at_ms = pos 20;
  request = record first_request {
    event_type = "observation.received";
    payload = canonical_json (2 ∷ []);
    actor = record { kind = component; id = "scheduler-1/in" };
    causation_id = some "o-1";
  };
}

abbrev pub call : CommittedEvent
call = record {
  schema = "pluribus.event/1";
  event_id = "r-3";
  sequence = 3;
  recorded_at_ms = pos 30;
  request = record first_request {
    event_type = "capability.requested";
    payload = canonical_json (3 ∷ []);
    causation_id = some "o-2";
  };
}

abbrev pub history : GetEvent
history id =
    if id == "o-1" then ok (some observed) else if id == "o-2" then ok (some notice) else ok none

abbrev pub shell_registration : Registration
shell_registration = record {
  instance_id = "shell";
  subscriptions = record {
    idempotency = ("shell.run", "keyed") ∷ [];
    whole_stream = false;
    event_types = [];
    capabilities = "shell.run" ∷ [];
    models = [];
    constraint_bindings = [];
  };
}

abbrev pub router : Router
router = record {
  stream_id = "agent:1";
  agent = record { kind = agent; id = "agent:1" };
  registrations = shell_registration ∷ [];
  registry = record {
    types =
        ("policy.decision", undeclared_schema core)
        ∷ ("activity.attempted", undeclared_schema core)
        ∷ [];
  };
  constraints = λ grant request selectors. ok true;
}

-- The texts that are written all read as the decision, or as an admission.
abbrev pub deciding : JsonText
deciding = record json { to_vec = λ value. 7 ∷ [] }

abbrev pub admitting : JsonText
admitting = record json { to_vec = λ value. 8 ∷ [] }

abbrev pub first_call : AppendRequest
first_call = record first_request {
  event_type = "capability.requested";
  payload = canonical_json (3 ∷ []);
}

abbrev pub called : CommittedEvent
called = record {
  schema = "pluribus.event/1";
  event_id = "e-0";
  sequence = 1;
  recorded_at_ms = pos 1;
  request = first_call;
}

abbrev pub permitted : Authority
permitted = record {
  schema = "pluribus.authority/1";
  authority_id = "origin:o-1";
  agent = record { kind = agent; id = "agent:1" };
  origin = record {
    kind = OriginKind.connector;
    principal = none;
    connector = none;
    conversation_id = none;
    source_event_id = "o-1";
    trusted = true;
  };
  delegation_chain = [];
  grants =
      ("shell.run", record { capability = "shell.run"; provider = none; constraints = 6 ∷ [] } ∷ [])
      ∷ [];
  audiences = [];
  parent_authority = none;
  issued_at_ms = pos 1;
  expires_at_ms = none;
  max_depth = 2;
  current_depth = 0;
}

-- A result of an earlier request.
abbrev pub first_denial : AppendRequest
first_denial = record first_request {
  event_type = "capability.denied";
  payload = canonical_json (6 ∷ []);
  causation_id = some "r-0";
}

abbrev pub denial : CommittedEvent
denial = record called { request = first_denial }
