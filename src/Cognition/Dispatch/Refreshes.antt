-- ===== src/Cognition/Dispatch/Refreshes.antt =====
-- `refresh` brings the projection up to the log, so `result_for` answers from the whole log.
use mathlib.Core.Path.{subst}
use pluribus.Base.{
  ℕ, zero, suc, max, ◌<◌, ◌≤◌, ◌≡◌, ◌≢◌, refl, sym, ap, ◌∙◌, inl, inr, String, Option, none, some,
  [], ◌∷◌, ◌++◌, Result, ok, err, arith, find, filter, take, length, append_assoc, append-nil,
  lookup, Option-cases, Result-cases, ◌==◌, string_eq, i64_max, ltb,
}
use pluribus.Core.Event.{CommittedEvent}
use pluribus.Json.{JsonText}
use pluribus.Store.Events.Log.{Log, of_stream}
use pluribus.Cognition.EventStore.{EventStore, IsEventLog}
use pluribus.Cognition.Dispatch.{RouterError}
use pluribus.Cognition.Dispatch.Polling.{last_sequence}
use pluribus.Cognition.Dispatch.Paging.{
  IsPaged, past, past-IsPaged, List-cases, next_shorter, past-All,
}
use pluribus.Cognition.Dispatch.Selections.{typed, select, typed-Rises, length-filter, All-typed}
use pluribus.Cognition.Dispatch.Projection.{
  DispatchProjection, default_projection, cognition_types, result_types, project_all,
  projection_query, refresh, result_for, found_result,
}
use pluribus.Cognition.Dispatch.Results.{Knows, first_result, project_all-Knows}

abbrev pub Refreshed : Type 0
Refreshed = Option (Result RouterError (Unit {0}) × DispatchProjection)

same_projection :
    {p q : DispatchProjection} → ◌≡◌ {A = Refreshed} (some (ok tt, p)) (some (ok tt, q)) → p ≡ q
same_projection h = ground arith

not_refreshed :
    {e : RouterError} {p q : DispatchProjection}
    → ◌≢◌ {A = Refreshed} (some (err e, p)) (some (ok tt, q))
not_refreshed h = ground arith

not_missing : {r : Result RouterError (Unit {0}) × DispatchProjection} → some r ≢ none
not_missing h = ground arith

not_exhausted : {q : DispatchProjection} → ◌≢◌ {A = Refreshed} none (some (ok tt, q))
not_exhausted h = ground arith

abbrev Answered : Type 0
Answered = Option (Result RouterError (Option CommittedEvent) × DispatchProjection)

no_answer :
    {r : Result RouterError (Option CommittedEvent) × DispatchProjection}
    → ◌≢◌ {A = Answered} none (some r)
no_answer h = ground arith

answer-ne-none :
    {r : Result RouterError (Option CommittedEvent) × DispatchProjection}
    → ◌≢◌ {A = Answered} (some r) none
answer-ne-none h = ground arith

no_error :
    {e : RouterError} {r : Option CommittedEvent} {p q : DispatchProjection}
    → ◌≢◌ {A = Answered} (some (err e, p)) (some (ok r, q))
no_error h = ground arith

answered :
    {x : Result RouterError (Option CommittedEvent)} {r : Option CommittedEvent}
    {p q : DispatchProjection}
    → ◌≡◌ {A = Answered} (some (x, p)) (some (ok r, q))
    → (x ≡ ok r) × (p ≡ q)
answered h = ground arith

ok_same :
    {r t : Option CommittedEvent}
    → ◌≡◌ {A = Result RouterError (Option CommittedEvent)} (ok r) (ok t)
    → r ≡ t
ok_same h = ground arith

-- The events that the projection follows.
abbrev pub tracked : String → Log → Log
tracked stream log = filter (typed (cognition_types ++ result_types)) (of_stream stream log)

module _ {S : Type 0} (json : JsonText) (store : EventStore S) (stream : String)
    (Shows : S → Log → Type 0) (law : IsEventLog store Shows) (s : S) (log : Log)
    (shows : Shows s log) where
  -- The projection knows the results of the tracked events up to its position.
  abbrev pub IsProjection : DispatchProjection → Type 0
  IsProjection p =
      (done : Log) × Knows json p done
      × (done ++ past p.through (tracked stream log) ≡ tracked stream log)

  -- It knows those of all of them.
  abbrev pub IsComplete : DispatchProjection → Type 0
  IsComplete p = Knows json p (tracked stream log) × (past p.through (tracked stream log) ≡ [])

  module _ (size k : ℕ) (count : max size 1 ≡ suc k) (small : suc k ≤ i64_max) where
    abbrev page : ℕ → Result String Log
    page after = store.query s stream (projection_query json store stream after) (max size 1)

    paged : IsPaged (suc k) page (λ after. past after (tracked stream log))
    paged =
        past-IsPaged k page (tracked stream log)
          (typed-Rises (cognition_types ++ result_types) (of_stream stream log)
            (law.rising s log stream shows))
          (λ after.
            ap (store.query s stream (projection_query json store stream after)) count
            ∙ law.query_law s log stream (projection_query json store stream after) (suc k) shows
                refl refl refl small
            ∙ ap (λ xs. ok (take (suc k) xs))
                (select after (cognition_types ++ result_types) (of_stream stream log) refl))

    -- A page that is projected moves the position on.
    advance :
        (p next : DispatchProjection) (x : CommittedEvent) (xs : Log)
        → IsProjection p
        → past p.through (tracked stream log) ≡ x ∷ xs
        → project_all json (x ∷ take k xs) p ≡ (ok tt, next)
        → IsProjection next
          × ((n : ℕ)
              → length (past p.through (tracked stream log)) < suc n
              → length (past next.through (tracked stream log)) < n)
    advance p next x xs (done, knows, split) e h =
        let all = tracked stream log in
        let first = x ∷ take k xs in
        let (knows', moved) = project_all-Knows json first p next done h knows in
        let onward : first ++ past next.through all ≡ past p.through all =
          ap (λ n. first ++ past n all) moved
          ∙ subst
              (λ r.
                take (suc k) r ++ past (last_sequence p.through (take (suc k) r)) all
                ≡ past p.through all)
              e (paged.onwards p.through) in
        (
          (
            done ++ first,
            knows',
            append_assoc done first (past next.through all) ∙ ap (λ ys. done ++ ys) onward ∙ split,
          ),
          λ n. next_shorter k n (past p.through all) (past next.through all) x xs e (
              subst (λ r. take (suc k) r ++ past next.through all ≡ past p.through all) (sym e)
                onward),
        )

    refresh-IsComplete :
        (rounds : ℕ) (p next : DispatchProjection)
        → IsProjection p
        → refresh json store stream rounds s size p ≡ some (ok tt, next)
        → IsComplete next
    unfolding refresh
    refresh-IsComplete zero p next i h = absurd (not_exhausted h)
    refresh-IsComplete (suc rounds) p next i h =
        elim (List-cases (past p.through (tracked stream log))) [
          | inl e ↦
              let same = same_projection (rw (refresh, paged.page p.through, e) at h) in
              let whole = sym (append-nil i.0) ∙ ap (λ xs. i.0 ++ xs) (sym e) ∙ i.2 in
              subst IsComplete same (subst (Knows json p) whole i.1, e)
          | inr (x, xs, e) ↦ elim (Result-cases (project_all json (x ∷ take k xs) p).0) [
            | inr (y, f) ↦ absurd (not_refreshed (rw (refresh, paged.page p.through, e, f) at h))
            | inl (u, f) ↦
                let p' = (project_all json (x ∷ take k xs) p).1 in
                refresh-IsComplete rounds p' next (advance p p' x xs i e (ap (λ r. (r, p')) f)).0
                  (rw (refresh, paged.page p.through, e, f) at h)
          ]
        ]

    refresh_total :
        (rounds : ℕ) (p : DispatchProjection)
        → IsProjection p
        → length (past p.through (tracked stream log)) < rounds
        → refresh json store stream rounds s size p ≢ none
    unfolding refresh
    refresh_total zero p i l h = absurd (omega arith)
    refresh_total (suc rounds) p i l h = elim (List-cases (past p.through (tracked stream log))) [
      | inl e ↦ not_missing (rw (refresh, paged.page p.through, e) at h)
      | inr (x, xs, e) ↦ elim (Result-cases (project_all json (x ∷ take k xs) p).0) [
        | inr (y, f) ↦ not_missing (rw (refresh, paged.page p.through, e, f) at h)
        | inl (u, f) ↦
            let p' = (project_all json (x ∷ take k xs) p).1 in
            let (i', shorter) = advance p p' x xs i e (ap (λ r. (r, p')) f) in
            refresh_total rounds p' i' (shorter rounds l)
              (rw (refresh, paged.page p.through, e, f) at h)
      ]
    ]

  -- The projection that a router starts with.
  pub default-IsProjection : IsProjection default_projection
  unfolding lookup
  default-IsProjection = (
    [],
    λ request. refl,
    past-All 0 (tracked stream log) (
        All-typed (cognition_types ++ result_types) 0 (of_stream stream log)
          (law.positive s log stream shows)),
  )

  -- The event of the log under an identifier, if there is one.
  abbrev pub under : Option String → Option CommittedEvent
  under none = none
  under (some id) = find (λ e. e.event_id == id) log

  found-under : (o : Option String) → found_result json store stream s o ≡ ok (under o)
  found-under none = refl
  found-under (some id) = rw (law.get_law s log id shows) refl

  bound :
      (p : DispatchProjection)
      → length (past p.through (tracked stream log)) ≤ length (of_stream stream log)
  bound p = omega (
    arith,
    length-filter (λ e. ltb p.through e.sequence) (tracked stream log),
    length-filter (typed (cognition_types ++ result_types)) (of_stream stream log),
  )

  -- From a projection that knows the log up to its position, a call of `result_for` that succeeds
  -- answers the first result of the request among all of the stream's events, as the log has it
  -- under its identifier, and leaves a projection that knows all of them.
  pub result_for_lem :
      (rounds : ℕ) (p next : DispatchProjection) (request : String) (r : Option CommittedEvent)
      → IsProjection p
      → result_for json store stream rounds s p request ≡ some (ok r, next)
      → (r ≡ under (first_result json request (tracked stream log))) × IsComplete next
  unfolding result_for
  result_for_lem rounds p next request r i h =
      elim (Option-cases (refresh json store stream rounds s 1000 p)) [
        | inl e ↦ absurd (no_answer (rw (result_for, e) at h))
        | inr (res, e) ↦ elim (Result-cases res.0) [
          | inr (x, f) ↦ absurd (no_error (rw (result_for, e, f) at h))
          | inl (u, f) ↦
              let (found, same) = answered (rw (result_for, e, f) at h) in
              let complete =
                refresh-IsComplete 1000 999 refl (omega arith) rounds p res.1 i
                  (e ∙ ap (λ x. some (x, res.1)) f) in
              (
                ok_same (
                    sym found
                    ∙ ap (found_result json store stream s) (complete.0 request)
                    ∙ found-under (first_result json request (tracked stream log))),
                subst IsComplete same complete,
              )
        ]
      ]

  -- With more rounds than the stream has events, `result_for` returns.
  pub result_for_total :
      (rounds : ℕ) (p : DispatchProjection) (request : String)
      → IsProjection p
      → length (of_stream stream log) < rounds
      → result_for json store stream rounds s p request ≢ none
  unfolding result_for
  result_for_total rounds p request i l h =
      elim (Option-cases (refresh json store stream rounds s 1000 p)) [
        | inl e ↦ refresh_total 1000 999 refl (omega arith) rounds p i (omega (arith, bound p)) e
        | inr (res, e) ↦ elim (Result-cases res.0) [
          | inr (x, f) ↦ absurd (answer-ne-none (rw (result_for, e, f) at h))
          | inl (u, f) ↦ absurd (answer-ne-none (rw (result_for, e, f) at h))
        ]
      ]
