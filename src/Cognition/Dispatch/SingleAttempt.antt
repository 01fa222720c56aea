-- ===== src/Cognition/Dispatch/SingleAttempt.antt =====
-- A request is admitted to a provider once, unless the provider declares it inherently idempotent.
use pluribus.Base.{
  ℕ, suc, ◌<◌, ◌≡◌, ◌≢◌, refl, ap, inl, inr, String, Bool, true, false, Option, none, some, [], ◌∷◌,
  ◌++◌, Result, ok, err, ◌>>=◌, arith, find, length, length-append, ◌+◌, Result-cases, ◌==◌,
  string_eq, option_eq,
}
use pluribus.Core.Event.{AppendRequest, CommittedEvent}
use pluribus.Json.{JsonText}
use pluribus.Store.Events.Log.{Log, of_stream, on_stream, repeats}
use pluribus.Cognition.EventStore.{EventStore, IsEventLog}
use pluribus.Cognition.EventStore.Growth.{Later, Later-Grown}
use pluribus.Cognition.Dispatch.{Router, RouterError, payload_field}
use pluribus.Cognition.Dispatch.Decisions.{host_request}
use pluribus.Cognition.Dispatch.Attempts.{
  caused_by, classification, attempt_key, attempt_request, attempt_event, admission_payload, admit,
  admit_attempt, interrupt, note_unknown, fail_interrupted,
}
use pluribus.Cognition.Dispatch.Selections.{length-filter}
use pluribus.Cognition.Dispatch.Audit.{pair_path, of_type, search_type, append_valid_new}
use pluribus.Cognition.Dispatch.Admissions.{find_appended, find_kept, done_append}

some_same : {A : Type 0} {a b : A} → ◌≡◌ {A = Option A} (some a) (some b) → a ≡ b
some_same h = ground arith

false_answer : (r : Result RouterError CommittedEvent) → (r >>= λ e. ok false) ≢ ok true
false_answer (ok e) h = ground arith
false_answer (err e) h = ground arith

not_admitted : {e : RouterError} → ◌≢◌ {A = Result RouterError Bool} (err e) (ok true)
not_admitted h = ground arith

module _ {S : Type 0} (json : JsonText) (store : EventStore S) (router : Router)
    (Shows : S → Log → Type 0) (law : IsEventLog store Shows) where
  whole :
      (rounds : ℕ) (log : Log)
      → suc (length log) < rounds
      → length (of_stream router.stream_id log) < rounds
  whole rounds log h = omega (arith, length-filter (on_stream router.stream_id) log)

  interrupt-ne-true :
      (s : S) (request : CommittedEvent) (provider key : String)
      → (interrupt json store router s request provider key).0 ≢ ok true
  unfolding interrupt
  interrupt-ne-true s request provider key h =
      let noted = note_unknown json store router s request provider key in
      elim (Result-cases noted.0) [
        | inr (e, f) ↦ not_admitted (rw (interrupt, f) at h)
        | inl (event, f) ↦
            false_answer (fail_interrupted json store router noted.1 request).0
              (rw (interrupt, f) at h)
      ]

  -- Where the log has an attempt that the request caused, and the provider does not declare the
  -- capability inherently idempotent, a call answers and does not admit.
  attempted_refused :
      (s : S) (log : Log) (request : CommittedEvent) (provider claim : String) (rounds : ℕ)
      (event : CommittedEvent)
      → Shows s log
      → length (of_stream router.stream_id log) < rounds
      → (classification json router request provider == some "inherent") ≡ false
      → find (caused_by request.event_id) (of_type "activity.attempted" router.stream_id log)
        ≡ some event
      → (answer : Result RouterError Bool × S) × (admit_attempt json store router rounds s request
            provider claim
          ≡ some answer)
        × (answer.0 ≢ ok true)
  unfolding admit_attempt
  attempted_refused s log request provider claim rounds event shows enough keyed found = (
    interrupt json store router s request provider (attempt_key request),
    rw
        (
          admit_attempt,
          search_type json store router Shows law s log "activity.attempted"
              (caused_by request.event_id) 100 99 rounds shows refl (omega arith) enough,
          found,
          keyed,
        )
        refl,
    interrupt-ne-true s request provider (attempt_key request),
  )

  -- The request of an admission.
  abbrev admission : CommittedEvent → String → String → AppendRequest
  admission request provider claim =
      attempt_request json store router request "activity.attempted"
        (admission_payload json store router request provider claim) (attempt_key request)

  admitted_logged :
      (s after : S) (log : Log) (request : CommittedEvent) (provider claim : String)
      → Shows s log
      → find (repeats (admission request provider claim)) log ≡ none
      → admit json store router s request provider claim ≡ (ok true, after)
      → (event : CommittedEvent) × (event.request ≡ admission request provider claim)
        × Shows after (log ++ (event ∷ []))
  unfolding admit attempt_event host_request
  admitted_logged s after log request provider claim shows unused h =
      let answer =
        attempt_event json store router s request "activity.attempted"
          (admission_payload json store router request provider claim) (attempt_key request) in
      let (event, p, claimed, left) =
        done_append answer.0 (λ e. payload_field json e "admissionClaim" == some claim) true
          answer.1 after h in
      let (written, shown) =
        append_valid_new json store router Shows law s after log (admission request provider claim)
          (json.to_vec (admission_payload json store router request provider claim)) event shows
          refl unused (pair_path answer p left) in
      (event, written, shown)

  -- A request without an attempt in the log that is admitted once, its admission being recorded, is
  -- not admitted again: after any number of further appends to the store, of any JSON events, a call
  -- by whatever caller and for whatever provider that does not declare the capability inherently
  -- idempotent returns and does not admit. The rounds exceed the events that the log can then have.
  pub admit_once :
      (s after later : S) (log : Log) (request : CommittedEvent)
      (provider again claim claim' : String) (rounds rounds' appends : ℕ)
      → Shows s log
      → suc (length log) < rounds
      → suc (length log) + appends < rounds'
      → find (caused_by request.event_id) (of_type "activity.attempted" router.stream_id log) ≡ none
      → find (repeats (admission request provider claim)) log ≡ none
      → (classification json router request again == some "inherent") ≡ false
      → admit_attempt json store router rounds s request provider claim ≡ some (ok true, after)
      → Later store after appends later
      → (answer : Result RouterError Bool × S) × (admit_attempt json store router rounds' later
            request again claim'
          ≡ some answer)
        × (answer.0 ≢ ok true)
  unfolding admit_attempt host_request
  admit_once s after later log request provider again claim claim' rounds rounds' appends shows
        enough enough' fresh unused keyed h reached =
      let first : admit json store router s request provider claim ≡ (ok true, after) = some_same (
        rw
          (
            admit_attempt,
            search_type json store router Shows law s log "activity.attempted"
                (caused_by request.event_id) 100 99 rounds shows refl (omega arith)
                (whole rounds log enough),
            fresh,
          )
          at h) in
      let (event, written, shown) =
        admitted_logged s after log request provider claim shows unused first in
      let (added, few, grown) =
        Later-Grown store Shows law {s = after} {t = later} (log ++ (event ∷ [])) shown reached in
      let found =
        find_kept "activity.attempted" router.stream_id request.event_id (log ++ (event ∷ [])) added
          event
          (find_appended "activity.attempted" router.stream_id request.event_id log event
            (ap (λ r. r.stream_id) written) (ap (λ r. r.event_type) written)
            (ap (λ r. r.causation_id) written) fresh) in
      attempted_refused later ((log ++ (event ∷ [])) ++ added) request again claim' rounds' event
        grown
        (omega (
          arith,
          length-filter (on_stream router.stream_id) ((log ++ (event ∷ [])) ++ added),
          length-append (log ++ (event ∷ [])) added,
          length-append log (event ∷ []),
        ))
        keyed found
