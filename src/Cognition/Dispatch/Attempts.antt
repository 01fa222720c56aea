-- ===== src/Cognition/Dispatch/Attempts.antt =====
-- The admission of attempts, and the events that end them: `attempt_event`, `expired`,
-- `reject_stale_code`, `cancel_attempt`, `admit_attempt` and `authorized_for`.
use Prim.Native.String.{◌++◌ as joined}
use pluribus.Base.{
  ℕ, zero, suc, String, Bool, true, false, not, Option, none, some, List, [], ◌∷◌, Result, ok, err,
  ◌>>=◌, ◌==◌, string_eq, option_eq, lookup, find, codes, strip_prefix, if◌then◌else◌, ℤ, leb_ℤ,
}
use pluribus.Core.Event.{
  AppendRequest, CommittedEvent, EventQuery, default_query, is_some, is_some_and,
}
use pluribus.Json.{Value, string, null, number, obj, opt_string, JsonText}
use pluribus.Cognition.EventStore.{EventStore}
use pluribus.Cognition.Dispatch.{Router, RouterError, storage, payload_field, json_number}
use pluribus.Cognition.Dispatch.Polling.{last_sequence}
use pluribus.Cognition.Dispatch.Decisions.{Answer, host_request, append_valid}
use pluribus.Cognition.Dispatch.Projection.{DispatchProjection, result_for}

abbrev pub opt_number : Option ℤ → Value
opt_number none = null
opt_number (some n) = number n

-- `kind.starts_with("activity.")`
abbrev pub attempt_schema : String → String
attempt_schema kind =
    if is_some (strip_prefix (codes "activity.") (codes kind))
    then "pluribus.activity-attempt/1"
    else "pluribus.activity-failure/1"

abbrev pub caused_by : String → CommittedEvent → Bool
caused_by request event = event.request.causation_id == some request

-- A result, the store's state and the projection.
abbrev pub Settled : Type 0 → Type 0 → Type 0
Settled S A = Result RouterError A × S × DispatchProjection

-- What the request's own type ends with when its deadline has passed, and when it is cancelled.
unfoldable pub expiry_kind : String → Option String
expiry_kind event_type =
    if event_type == "capability.requested"
    then some "capability.timed-out"
    else if event_type == "model.requested"
    then some "model.failed"
    else if event_type == "code.evaluate-requested"
    then some "code.failed"
    else none

unfoldable pub cancel_kind : String → Option String
cancel_kind event_type =
    if event_type == "capability.requested"
    then some "capability.cancelled"
    else if event_type == "model.requested"
    then some "model.failed"
    else if event_type == "code.evaluate-requested"
    then some "code.failed"
    else if event_type == "code.resumed"
    then some "code.failed"
    else none

unfoldable pub interrupted_kind : String → String
interrupted_kind event_type =
    if event_type == "model.requested"
    then "model.failed"
    else if event_type == "code.evaluate-requested"
    then "code.failed"
    else "capability.failed"

-- The pages of a query are searched for the first event that satisfies `p`; `none` means that the
-- fuel ran out.
unfoldable pub search_pages :
    ℕ
    → (ℕ → Result String (List CommittedEvent))
    → (CommittedEvent → Bool)
    → ℕ
    → Option (Result RouterError (Option CommittedEvent))
search_pages zero page_after p after = none
search_pages (suc rounds) page_after p after = elim (page_after after) [
  | err e ↦ some (err (storage e))
  | ok page ↦ elim page [
    | [] ↦ some (ok none)
    | event ∷ rest ↦ elim (find p (event ∷ rest)) [
      | some found ↦ some (ok (some found))
      | none ↦ search_pages rounds page_after p (last_sequence after (event ∷ rest))
    ]
  ]
]

abbrev pub typed_query : String → ℕ → EventQuery
typed_query event_type after = record default_query {
  after_sequence = some after;
  event_types = event_type ∷ [];
}

-- How the provider declares the capability of the request to be idempotent.
unfoldable pub classification : JsonText → Router → CommittedEvent → String → Option String
classification json router request provider =
    elim (find (λ r. r.instance_id == provider) router.registrations) [
      | none ↦ none
      | some r ↦ elim (payload_field json request "capability") [
        | none ↦ none
        | some capability ↦ lookup capability r.subscriptions.idempotency
      ]
    ]

abbrev pub attempt_key : CommittedEvent → String
attempt_key request = joined "attempt:" request.event_id

module _ {S : Type 0} (json : JsonText) (store : EventStore S) (router : Router) where
  abbrev pub attempt_request : CommittedEvent → String → Value → String → AppendRequest
  attempt_request source kind payload key =
      host_request router source kind (attempt_schema kind) (json.to_vec payload) key

  unfoldable pub attempt_event :
      S → CommittedEvent → String → Value → String → Answer S CommittedEvent
  attempt_event s source kind payload key =
      append_valid json store router s (attempt_request source kind payload key)

  abbrev request_fields : CommittedEvent → List (String × Value) → Value
  request_fields request rest = obj (
      ("requestEventId", string request.event_id)
      ∷ ("call_id", opt_string (payload_field json request "call_id"))
      ∷ ("sessionId", opt_string (payload_field json request "sessionId"))
      ∷ rest)

  unfoldable pub expired : S → CommittedEvent → ℤ → Answer S Bool
  expired s request now_ms =
      if not
        (is_some_and (json_number json request "deadlineAtMs") (λ deadline. leb_ℤ deadline now_ms))
      then (ok false, s)
      else elim (expiry_kind request.request.event_type) [
        | none ↦ (ok false, s)
        | some kind ↦
            let (answer, after) =
              attempt_event s request kind
                (request_fields request (
                  ("code", string "deadline-exceeded")
                  ∷ ("reason", string "request deadline expired before admission")
                  ∷ []))
                (joined "expired:" request.event_id) in
            (answer >>= λ event. ok true, after)
      ]

  unfoldable pub reject_stale_code : S → CommittedEvent → Answer S (Unit {0})
  reject_stale_code s request =
      let (answer, after) =
        attempt_event s request "code.failed"
          (obj (
            ("requestEventId", string request.event_id)
            ∷ ("sessionId", opt_string (payload_field json request "sessionId"))
            ∷ ("reason", string "job revision changed before cell admission")
            ∷ []))
          (joined "stale:" request.event_id) in
      (answer >>= λ event. ok tt, after)

  unfoldable pub cancel_attempt :
      ℕ → S → DispatchProjection → CommittedEvent → Option (Settled S (Unit {0}))
  cancel_attempt rounds s projection request = elim (cancel_kind request.request.event_type) [
    | none ↦ some (ok tt, s, projection)
    | some kind ↦
        elim (result_for json store router.stream_id rounds s projection request.event_id) [
          | none ↦ none
          | some known ↦ elim known.0 [
            | err e ↦ some (err e, s, known.1)
            | ok result ↦ elim result [
              | some event ↦ some (ok tt, s, known.1)
              | none ↦
                  let (answer, after) =
                    attempt_event s request kind
                      (request_fields request (
                        ("code", string "cancelled")
                        ∷ ("outcome", string "unknown")
                        ∷ (
                          "reason",
                          string
                              "activity cancelled; effects may have occurred; reconcile before retrying",
                        )
                        ∷ []))
                      (joined "cancelled:" request.event_id) in
                  some (answer >>= (λ event. ok tt), after, known.1)
            ]
          ]
        ]
  ]

  -- An earlier attempt has no committed outcome: `activity.unknown`, then the failure.
  unfoldable pub note_unknown : S → CommittedEvent → String → String → Answer S CommittedEvent
  note_unknown s request provider key =
      attempt_event s request "activity.unknown"
        (obj (
          ("requestEventId", string request.event_id)
          ∷ ("provider", string provider)
          ∷ ("attemptId", string key)
          ∷ ("status", string "unknown")
          ∷ []))
        (joined "unknown:" request.event_id)

  unfoldable pub fail_interrupted : S → CommittedEvent → Answer S CommittedEvent
  fail_interrupted s request =
      attempt_event s request (interrupted_kind request.request.event_type)
        (request_fields request (
          ("code", string "outcome-unknown")
          ∷ ("message", string "admitted attempt has no committed outcome; reconciliation required")
          ∷ []))
        (joined "interrupted:" request.event_id)

  unfoldable pub interrupt : S → CommittedEvent → String → String → Answer S Bool
  interrupt s request provider key =
      let (answer, noted) = note_unknown s request provider key in
      elim answer [
        | err e ↦ (err e, noted)
        | ok event ↦
            let (failed, after) = fail_interrupted noted request in
            (failed >>= λ event'. ok false, after)
      ]

  abbrev or_default : Option String → String
  or_default none = "non-idempotent"
  or_default (some kind) = kind

  -- `claim` names the process, the time and the call.
  unfoldable pub admission_payload : CommittedEvent → String → String → Value
  admission_payload request provider claim = obj (
      ("admissionClaim", string claim)
      ∷ ("requestEventId", string request.event_id)
      ∷ ("provider", string provider)
      ∷ ("attemptId", string (attempt_key request))
      ∷ ("status", string "running")
      ∷ ("jobId", opt_string (payload_field json request "jobId"))
      ∷ ("revision", opt_number (json_number json request "revision"))
      ∷ ("idempotency", string (or_default (classification json router request provider)))
      ∷ ("idempotencyKey", opt_string request.request.deduplication_key)
      ∷ ("deadlineAtMs", opt_number (json_number json request "deadlineAtMs"))
      ∷ ("cancellation", string "not-requested")
      ∷ [])

  unfoldable pub admit : S → CommittedEvent → String → String → Answer S Bool
  admit s request provider claim =
      let (answer, after) =
        attempt_event s request "activity.attempted" (admission_payload request provider claim)
          (attempt_key request) in
      (answer >>= (λ event. ok (payload_field json event "admissionClaim" == some claim)), after)

  unfoldable pub admit_attempt : ℕ → S → CommittedEvent → String → String → Option (Answer S Bool)
  admit_attempt rounds s request provider claim =
      elim (search_pages rounds
        (λ after. store.query s router.stream_id (typed_query "activity.attempted" after) 100)
        (caused_by request.event_id) 0) [
          | none ↦ none
          | some searched ↦ elim searched [
            | err e ↦ some (err e, s)
            | ok found ↦ elim found [
              | none ↦ some (admit s request provider claim)
              | some event ↦
                  if classification json router request provider == some "inherent"
                  then some (ok true, s)
                  else some (interrupt s request provider (attempt_key request))
            ]
          ]
        ]

  unfoldable pub authorized_for : ℕ → S → String → String → Option (Result RouterError Bool)
  authorized_for rounds s request provider =
      elim (search_pages rounds
        (λ after. store.query s router.stream_id (typed_query "policy.decision" after) 1000)
        (caused_by request) 0) [
          | none ↦ none
          | some searched ↦ elim searched [
            | err e ↦ some (err e)
            | ok found ↦ elim found [
              | none ↦ some (ok false)
              | some event ↦ some (ok (payload_field json event "provider" == some provider))
            ]
          ]
        ]
