-- ===== src/Core/Registry/Vocabulary.antt =====
-- The event vocabulary of crates/pluribus-core/src/registry.rs.
use pluribus.Base.{String, List, [], ◌∷◌}

-- `RESERVED_EVENT_TYPES`
abbrev pub reserved_event_types : List String
reserved_event_types =
    "component.failed" ∷ "component.backoff" ∷ "component.recovered"
    ∷ "cognition.resource-exhausted" ∷ "operator.job-control" ∷ "operator.attempt-reconciled"
    ∷ "observation.received" ∷ "policy.decision" ∷ "credential.enrollment.requested"
    ∷ "activity.attempted" ∷ "activity.unknown" ∷ "capability.denied" ∷ "capability.timed-out"
    ∷ "capability.cancelled" ∷ "stream.closed" ∷ "agent.failed" ∷ []

-- `PLUGIN_EVENT_TYPES`
abbrev pub plugin_event_types : List String
plugin_event_types =
    "credential.enrollment.started" ∷ "http.request.received" ∷ "http.response.requested"
    ∷ "capability.requested" ∷ "model.requested" ∷ "capability.output" ∷ "capability.completed"
    ∷ "capability.failed" ∷ "model.stream" ∷ "model.completed" ∷ "model.failed"
    ∷ "cognition.checkpoint" ∷ "cognition.job-updated" ∷ "cognition.observation-associated"
    ∷ "cognition.cancel-requested" ∷ "cognition.completed" ∷ "cognition.failed"
    ∷ "memory.remembered" ∷ "memory.superseded" ∷ "memory.forgotten" ∷ "code.close-requested"
    ∷ "code.closed" ∷ "code.evaluate-requested" ∷ "code.yielded" ∷ "code.resumed" ∷ "code.completed"
    ∷ "code.failed" ∷ "timer.set" ∷ "timer.cancel" ∷ "timer.fired" ∷ "schedule.updated" ∷ []

-- The types with one payload schema.
abbrev pub pinned_schemas : List (String × String)
pinned_schemas =
    ("operator.job-control", "pluribus.operator-job-control/1")
    ∷ ("operator.attempt-reconciled", "pluribus.operator-attempt-reconciled/1")
    ∷ ("component.backoff", "pluribus.component-health/1")
    ∷ ("component.recovered", "pluribus.component-health/1")
    ∷ ("cognition.resource-exhausted", "pluribus.cognition-resource-exhausted/1")
    ∷ ("activity.attempted", "pluribus.activity-attempt/1")
    ∷ ("activity.unknown", "pluribus.activity-attempt/1")
    ∷ ("cognition.checkpoint", "pluribus.cognition-checkpoint/1")
    ∷ ("cognition.job-updated", "pluribus.job/1")
    ∷ ("cognition.observation-associated", "pluribus.observation-association/1")
    ∷ ("cognition.cancel-requested", "pluribus.cognition-cancel/1")
    ∷ []
