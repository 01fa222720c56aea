-- ===== src/Cognition/Dispatch/Admissions.antt =====
-- A request that is delivered is authorized for its provider alone, and is attempted once.
use mathlib.Core.Path.{subst}
use pluribus.Base.{
  ℕ, suc, ◌<◌, ◌≡◌, refl, sym, ap, ◌∙◌, String, Bool, none, some, [], ◌∷◌, ◌++◌, Result, ok, err,
  ◌>>=◌, arith, find, filter, filter-append, find-append_none, find-append_some, length,
  length-append, bind_ok, ◌==◌, string_eq, option_eq, ==_iff, ==_refl, ℤ,
}
use pluribus.Core.Event.{CommittedEvent}
use pluribus.Core.Authority.{Authority}
use pluribus.Json.{Value, JsonText}
use pluribus.Store.Events.Log.{Log, of_stream, on_stream, repeats}
use pluribus.Cognition.EventStore.{EventStore, IsEventLog}
use pluribus.Cognition.Dispatch.{
  Router, RouterError, Routed, deliver, no_provider, denied, payload_field,
}
use pluribus.Cognition.Dispatch.Decisions.{
  decision_payload, decided_provider, decision_request, host_request, append_valid, append_decision,
  routed_to, route_request,
}
use pluribus.Cognition.Dispatch.Attempts.{caused_by, authorized_for}
use pluribus.Cognition.Dispatch.Selections.{typed, length-filter}
use pluribus.Cognition.Dispatch.Audit.{
  pair_path, of_type, authorized_for_lem, append_valid_new, decided_for,
}

-- The documented behaviour of the JSON text, at one value: what is written is read back.
abbrev pub ReadsBack : JsonText → Value → Type 0
ReadsBack json value = json.from_slice (json.to_vec value) ≡ ok value

abbrev pub is_for : Routed → String → Bool
is_for routed provider = decided_provider routed == some provider

pub of_type-append :
    (event_type stream : String) (log : Log) (e : CommittedEvent)
    → e.request.stream_id ≡ stream
    → e.request.event_type ≡ event_type
    → of_type event_type stream (log ++ (e ∷ [])) ≡ of_type event_type stream log ++ (e ∷ [])
of_type-append event_type stream log e h k =
    ap (filter (typed (event_type ∷ []))) (filter-append (on_stream stream) log (e ∷ []))
    ∙ filter-append (typed (event_type ∷ [])) (of_stream stream log)
        (filter (on_stream stream) (e ∷ []))
    ∙ ap (λ xs. of_type event_type stream log ++ xs)
        (ground (arith, ==_iff e.request.stream_id stream, ==_iff event_type e.request.event_type))

-- The first event that the request caused is the one just appended.
pub find_appended :
    (event_type stream request : String) (log : Log) (e : CommittedEvent)
    → e.request.stream_id ≡ stream
    → e.request.event_type ≡ event_type
    → e.request.causation_id ≡ some request
    → find (caused_by request) (of_type event_type stream log) ≡ none
    → find (caused_by request) (of_type event_type stream (log ++ (e ∷ []))) ≡ some e
find_appended event_type stream request log e h k c new =
    ap (find (caused_by request)) (of_type-append event_type stream log e h k)
    ∙ find-append_none (caused_by request) (of_type event_type stream log) (e ∷ []) new
    ∙ ground (arith, c, ==_refl request)

-- An event that was found is found in every longer log.
pub find_kept :
    (event_type stream request : String) (log added : Log) (e : CommittedEvent)
    → find (caused_by request) (of_type event_type stream log) ≡ some e
    → find (caused_by request) (of_type event_type stream (log ++ added)) ≡ some e
find_kept event_type stream request log added e h =
    ap (λ xs. find (caused_by request) (filter (typed (event_type ∷ [])) xs))
      (filter-append (on_stream stream) log added)
    ∙ ap (find (caused_by request))
        (filter-append (typed (event_type ∷ [])) (of_stream stream log) (of_stream stream added))
    ∙ find-append_some (caused_by request) (of_type event_type stream log)
        (of_type event_type stream added) e h

done_answer :
    {S : Type 0} (r : Result RouterError (Unit {0})) (routed chosen : Routed) (t after : S)
    → ◌≡◌ {A = Result RouterError Routed × S} (r >>= (λ u. ok routed), t) (ok chosen, after)
    → (u : Unit {0}) × (r ≡ ok u) × (routed ≡ chosen) × (t ≡ after)
done_answer (ok u) routed chosen t after h = (u, refl, ground arith, ground arith)
done_answer (err e) routed chosen t after h = absurd (ground arith)

ok_same : {A : Type 0} {a b : A} → ◌≡◌ {A = Result RouterError A} (ok a) (ok b) → a ≡ b
ok_same h = ground arith

pub done_append :
    {S A : Type 0} (r : Result RouterError CommittedEvent) (f : CommittedEvent → A) (a : A)
    (t after : S)
    → ◌≡◌ {A = Result RouterError A × S} (r >>= (λ e. ok (f e)), t) (ok a, after)
    → (event : CommittedEvent) × (r ≡ ok event) × (f event ≡ a) × (t ≡ after)
done_append r f a t after h =
    let (event, p, q) = bind_ok r (λ e. ok (f e)) a (ap (λ x. x.0) h) in
    (event, p, ok_same q, ap (λ x. x.1) h)

module _ {S : Type 0} (json : JsonText) (store : EventStore S) (router : Router)
    (Shows : S → Log → Type 0) (law : IsEventLog store Shows) where
  -- The decision that a routing records names the provider of a delivery.
  provider_read :
      (event committed : CommittedEvent) (capability : String) (routed : Routed)
      → ReadsBack json (decision_payload event capability routed)
      → committed.request ≡ decision_request json store router event capability routed
      → payload_field json committed "provider" ≡ decided_provider routed
  unfolding payload_field decision_payload host_request
  provider_read event committed capability (deliver id) reads e =
      rw (payload_field, ap (λ r. r.payload) e, reads) refl
  provider_read event committed capability (no_provider reason) reads e =
      rw (payload_field, ap (λ r. r.payload) e, reads) refl
  provider_read event committed capability (denied reason) reads e =
      rw (payload_field, ap (λ r. r.payload) e, reads) refl

  recorded :
      (s after : S) (event : CommittedEvent) (capability : String) (routed : Routed) (u : Unit {0})
      → (append_decision json store router s event capability routed).0 ≡ ok u
      → (append_decision json store router s event capability routed).1 ≡ after
      → (committed : CommittedEvent) × (append_valid json store router s
            (decision_request json store router event capability routed)
          ≡ (ok committed, after))
  unfolding append_decision
  recorded s after event capability routed u h k =
      let answer =
        append_valid json store router s
          (decision_request json store router event capability routed) in
      let (committed, p, q) = bind_ok answer.0 (λ e. ok tt) u h in (committed, pair_path answer p k)

  pub within :
      (rounds : ℕ) (log : Log) (e : CommittedEvent)
      → suc (length log) < rounds
      → length (of_stream router.stream_id (log ++ (e ∷ []))) < rounds
  within rounds log e h = omega (
    arith,
    length-filter (on_stream router.stream_id) (log ++ (e ∷ [])),
    length-append log (e ∷ []),
  )

  -- A request without a decision in the log, whose decision can be recorded, is routed: what it is
  -- authorized for afterwards is the provider that it was delivered to, and nothing if it was not
  -- delivered. The text of the decision reads back.
  pub routed_authorized :
      (s after : S) (log : Log) (event : CommittedEvent) (authority : Authority) (now_ms : ℤ)
      (capability provider : String) (routed : Routed) (rounds : ℕ)
      → Shows s log
      → ReadsBack json (decision_payload event capability routed)
      → payload_field json event "capability" ≡ some capability
      → find (caused_by event.event_id) (of_type "policy.decision" router.stream_id log) ≡ none
      → find (repeats (decision_request json store router event capability routed)) log ≡ none
      → suc (length log) < rounds
      → route_request json store router s event authority now_ms ≡ (ok routed, after)
      → authorized_for json store router rounds after event.event_id provider
        ≡ some (ok (is_for routed provider))
  unfolding route_request append_decision host_request
  routed_authorized s after log event authority now_ms capability provider routed rounds shows reads
        names undecided unused enough h =
      let chosen = routed_to json store router event authority now_ms capability in
      let decision = append_decision json store router s event capability chosen in
      let (u, done, same, left) =
        done_answer decision.0 chosen routed decision.1 after (rw (route_request, names) at h) in
      let request = decision_request json store router event capability chosen in
      let (committed, appended) = recorded s after event capability chosen u done left in
      let (written, shown) =
        append_valid_new json store router Shows law s after log request
          (json.to_vec (decision_payload event capability chosen)) committed shows refl
          (subst
            (λ r. find (repeats (decision_request json store router event capability r)) log ≡ none)
            (sym same) unused)
          appended in
      authorized_for_lem json store router Shows law after (log ++ (committed ∷ [])) rounds
        event.event_id provider shown (within rounds log committed enough)
      ∙ ap (λ o. some (ok (decided_for json store router Shows law o provider)))
          (find_appended "policy.decision" router.stream_id event.event_id log committed
            (ap (λ r. r.stream_id) written) (ap (λ r. r.event_type) written)
            (ap (λ r. r.causation_id) written) undecided)
      ∙ ap (λ o. some (ok (o == some provider)))
          (provider_read event committed capability chosen
              (subst (λ r. ReadsBack json (decision_payload event capability r)) (sym same) reads)
              written
            ∙ ap decided_provider same)
