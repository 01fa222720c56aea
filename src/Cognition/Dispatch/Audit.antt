-- ===== src/Cognition/Dispatch/Audit.antt =====
-- What the host appends about a request is found again: the decision on it, and its attempt.
use mathlib.Core.Path.{subst}
use pluribus.Base.{
  ℕ, suc, ◌<◌, ◌≤◌, ◌≡◌, ◌≢◌, refl, sym, ap, ◌∙◌, inl, inr, String, Bool, false, Option, none, some,
  List, [], ◌∷◌, ◌++◌, Result, ok, err, map_err, arith, find, filter, take, length, Option-cases,
  Result-cases, ◌==◌, string_eq, option_eq, i64_max, ltb,
}
use pluribus.Core.Event.{AppendRequest, CommittedEvent, canonical_json}
use pluribus.Core.Registry as Registry
use pluribus.Json.{JsonText}
use pluribus.Store.Events.Log.{Log, of_stream, repeats, log_append_new}
use pluribus.Cognition.EventStore.{EventStore, IsEventLog}
use pluribus.Cognition.Dispatch.{Router, RouterError, payload_field}
use pluribus.Cognition.Dispatch.Decisions.{append_request, append_valid}
use pluribus.Cognition.Dispatch.Paging.{past, past-IsPaged, past-All}
use pluribus.Cognition.Dispatch.Searches.{search_pages_lem}
use pluribus.Cognition.Dispatch.Selections.{typed, select, typed-Rises, All-typed, length-filter}
use pluribus.Cognition.Dispatch.Attempts.{caused_by, search_pages, typed_query, authorized_for}

-- The events of one type on a stream.
abbrev pub of_type : String → String → Log → Log
of_type event_type stream log = filter (typed (event_type ∷ [])) (of_stream stream log)

abbrev pub Appended : Type 0 → Type 0
Appended S = Result RouterError CommittedEvent × S

not_appended :
    {S : Type 0} {e : RouterError} {event : CommittedEvent} {s t : S}
    → ◌≢◌ {A = Appended S} (err e, s) (ok event, t)
not_appended h = ground arith

map_err_ok :
    (f : String → RouterError) (r : Result String CommittedEvent) (event : CommittedEvent)
    → map_err f r ≡ ok event
    → r ≡ ok event
map_err_ok f (ok e) event h = ground arith
map_err_ok f (err e) event h = absurd (ground arith)

pub pair_path : {A B : Type 0} (r : A × B) {a : A} {b : B} → r.0 ≡ a → r.1 ≡ b → r ≡ (a, b)
pair_path r p q = λ i. (p i, q i)

module _ {S : Type 0} (json : JsonText) (store : EventStore S) (router : Router)
    (Shows : S → Log → Type 0) (law : IsEventLog store Shows) where
  -- A search of the pages of one type finds the first event of the log.
  pub search_type :
      (s : S) (log : Log) (event_type : String) (p : CommittedEvent → Bool) (limit k rounds : ℕ)
      → Shows s log
      → limit ≡ suc k
      → limit ≤ i64_max
      → length (of_stream router.stream_id log) < rounds
      → search_pages rounds
          (λ after. store.query s router.stream_id (typed_query event_type after) limit)
          p
          0
        ≡ some (ok (find p (of_type event_type router.stream_id log)))
  search_type s log event_type p limit k rounds shows e small enough =
      let own = of_stream router.stream_id log in
      let rises = typed-Rises (event_type ∷ []) own (law.rising s log router.stream_id shows) in
      let above = All-typed (event_type ∷ []) 0 own (law.positive s log router.stream_id shows) in
      let paged =
        past-IsPaged k
          (λ after. store.query s router.stream_id (typed_query event_type after) limit)
          (of_type event_type router.stream_id log) rises
          (λ after.
            law.query_law s log router.stream_id (typed_query event_type after) limit shows refl
              refl refl small
            ∙ ap (λ xs. ok (take limit xs)) (select after (event_type ∷ []) own refl)
            ∙ ap (λ n. ok (take n (past after (of_type event_type router.stream_id log)))) e) in
      search_pages_lem k
        (λ after. store.query s router.stream_id (typed_query event_type after) limit)
        (λ after. past after (of_type event_type router.stream_id log)) paged p rounds 0
        (omega (
          arith,
          length-filter (λ e. ltb 0 e.sequence) (of_type event_type router.stream_id log),
          length-filter (typed (event_type ∷ [])) own,
        ))
      ∙ ap (λ xs. some (ok (find p xs)))
          (past-All 0 (of_type event_type router.stream_id log) above)

  -- What the first decision on the request says of the provider.
  abbrev pub decided_for : Option CommittedEvent → String → Bool
  decided_for none provider = false
  decided_for (some event) provider = payload_field json event "provider" == some provider

  -- On a state that shows a log, with more rounds than the stream has events, a request is
  -- authorized for a provider exactly when the first decision in the log that it caused names the
  -- provider.
  pub authorized_for_lem :
      (s : S) (log : Log) (rounds : ℕ) (request provider : String)
      → Shows s log
      → length (of_stream router.stream_id log) < rounds
      → authorized_for json store router rounds s request provider
        ≡ some (
            ok (
              decided_for
                (find (caused_by request) (of_type "policy.decision" router.stream_id log))
                provider))
  unfolding authorized_for
  authorized_for_lem s log rounds request provider shows enough =
      let found = find (caused_by request) (of_type "policy.decision" router.stream_id log) in
      rw
        (
          authorized_for,
          search_type s log "policy.decision" (caused_by request) 1000 999 rounds shows refl
              (omega arith) enough,
        )
        (elim (Option-cases found) [ inl e ↦ rw e refl | inr (event, e) ↦ rw e refl ])

  -- An append that succeeds, of a request that repeats no event, adds it to the log.
  pub append_valid_new :
      (s after : S) (log : Log) (request : AppendRequest) (bytes : List ℕ) (event : CommittedEvent)
      → Shows s log
      → request.payload ≡ canonical_json bytes
      → find (repeats request) log ≡ none
      → append_valid json store router s request ≡ (ok event, after)
      → (event.request ≡ request) × Shows after (log ++ (event ∷ []))
  unfolding append_valid append_request
  append_valid_new s after log request bytes event shows p new h =
      elim (Result-cases (Registry.validate router.registry request)) [
        | inr (e, f) ↦ absurd (not_appended (rw (append_valid, f) at h))
        | inl (u, f) ↦
            let step = rw (append_valid, f) at h in
            let (id, time, same, shown) = law.append_law s after log request bytes event shows p (
              pair_path (store.append s request)
                (map_err_ok RouterError.storage (store.append s request).0 event
                  (ap (λ r. r.0) step))
                (ap (λ r. r.1) step)) in
            let committed_now = log_append_new log request id time new in
            let named = sym (ap (λ r. r.0) committed_now) ∙ same in
            (
              ap (λ e. e.request) (sym named),
              subst (λ e. Shows after (log ++ (e ∷ []))) named
                  (subst (Shows after) (ap (λ r. r.1) committed_now) shown),
            )
      ]
