-- ===== src/Cognition/Dispatch/Polls.antt =====
-- A poll delivers exactly what the instance receives, whichever way it reads the stream.
use pluribus.Base.{
  ℕ, zero, suc, ◌-◌, ◌<◌, ◌≤◌, ◌≡◌, refl, sym, ap, ◌∙◌, inl, inr, String, Bool, true, false, some,
  [], Result, ok, arith, find, filter, take, length, Bool-cases, ltb, ◌==◌, string_eq, i64_max,
}
use pluribus.Core.Event.{CommittedEvent, EventQuery, default_query, no_types}
use pluribus.Json.{JsonText}
use pluribus.Store.Events.Log.{Log, of_stream}
use pluribus.Cognition.EventStore.{EventStore, IsEventLog, events_after}
use pluribus.Cognition.Dispatch.{Registration, Router, accepts}
use pluribus.Cognition.Dispatch.Polling.{
  owns_timer, polled_types, reads_all, receives, page_after, poll, poll_from,
}
use pluribus.Cognition.Dispatch.Paging.{Rises, past, past-IsPaged}
use pluribus.Cognition.Dispatch.Deliveries.{poll_from_lem}
use pluribus.Cognition.Dispatch.Selections.{
  typed, select, typed-Rises, none_lost, length-filter, and_left, not_typed, refused, take_nil,
  accepts-typed,
}

module _ {S : Type 0} (json : JsonText) (store : EventStore S) (router : Router)
    (Shows : S → Log → Type 0) (law : IsEventLog store Shows) (s : S) (log : Log)
    (shows : Shows s log) where
  -- The events of the router's stream.
  abbrev own : Log
  own = of_stream router.stream_id log

  -- A page source that runs through `xs` is polled for all that is wanted of it.
  poll_pages :
      (page : ℕ → Result String Log) (wants : CommittedEvent → Bool) (xs : Log)
      (rounds checkpoint limit : ℕ)
      → Rises xs
      → length xs < rounds
      → ((after : ℕ) → page after ≡ ok (take limit (past after xs)))
      → poll_from rounds page wants limit checkpoint []
        ≡ some (ok (take limit (filter wants (past checkpoint xs))))
  poll_pages page wants xs zero checkpoint limit r h k = absurd (omega arith)
  poll_pages page wants xs (suc rounds) checkpoint zero r h k = unfold poll_from in refl
  poll_pages page wants xs (suc rounds) checkpoint (suc k) r h paged =
      poll_from_lem (suc k) wants k refl page (λ after. past after xs)
        (past-IsPaged k page xs r paged) (suc rounds) checkpoint []
        (omega (arith, length-filter (λ e. ltb checkpoint e.sequence) xs))
      ∙ ap (λ n. some (ok (take n (filter wants (past checkpoint xs))))) {x = suc k - 0} {y = suc k}
          (omega arith)

  page_whole :
      (r : Registration) (limit : ℕ)
      → reads_all r ≡ true
      → limit ≤ i64_max
      → (after : ℕ)
      → page_after json store router s r limit after ≡ ok (take limit (past after own))
  unfolding page_after
  page_whole r limit h small after =
      rw (page_after, h) (law.read_law s log router.stream_id after limit shows small)

  page_narrow :
      (r : Registration) (limit : ℕ)
      → reads_all r ≡ false
      → no_types (polled_types r) ≡ false
      → limit ≤ i64_max
      → (after : ℕ)
      → page_after json store router s r limit after
        ≡ ok (take limit (past after (filter (typed (polled_types r)) own)))
  unfolding page_after
  page_narrow r limit h t small after =
      let q : EventQuery = record default_query {
        after_sequence = some after;
        event_types = polled_types r;
      } in
      rw (page_after, h)
        (law.query_law s log router.stream_id q limit shows refl refl refl small
          ∙ ap (λ xs. ok (take limit xs)) (select after (polled_types r) own t))

  received_typed :
      (r : Registration) (e : CommittedEvent)
      → reads_all r ≡ false
      → receives json store router s r e ≡ true
      → typed (polled_types r) e ≡ true
  unfolding receives
  received_typed r e h w =
      accepts-typed json r e h (
        and_left (accepts json r.subscriptions e) (owns_timer json store router s r.instance_id e)
          w)

  never :
      (r : Registration) (e : CommittedEvent)
      → reads_all r ≡ false
      → no_types (polled_types r) ≡ true
      → receives json store router s r e ≡ false
  never r e h n = elim (Bool-cases (receives json store router s r e)) [
    | inl w ↦ absurd (not_typed (polled_types r) e n (received_typed r e h w))
    | inr miss ↦ miss
  ]

  -- On a state that shows a log, with more rounds than the stream has events, a poll of a
  -- registered instance delivers the events of the router's stream past the checkpoint that the
  -- instance receives, in their order and as many as the limit, which is at most 2^63 - 1, allows.
  pub poll_lem :
      (rounds checkpoint limit : ℕ) (instance_id : String) (r : Registration)
      → find (λ x. x.instance_id == instance_id) router.registrations ≡ some r
      → limit ≤ i64_max
      → length own < rounds
      → poll json store router rounds s instance_id checkpoint limit
        ≡ some (
            ok (
              take limit (
                filter
                  (receives json store router s r)
                  (events_after log router.stream_id checkpoint))))
  unfolding poll
  poll_lem rounds checkpoint limit instance_id r found small enough =
      let wants = receives json store router s r in
      let rises = law.rising s log router.stream_id shows in
      rw (poll, found)
        (elim (Bool-cases (reads_all r)) [
          | inl whole ↦ rw whole (
              poll_pages (page_after json store router s r limit) wants own rounds checkpoint limit
                rises enough (page_whole r limit whole small))
          | inr narrow ↦ elim (Bool-cases (no_types (polled_types r))) [
            | inl nothing ↦
                rw (narrow, nothing)
                  (ap (λ xs. some (ok xs)) (sym (take_nil limit))
                    ∙ ap (λ xs. some (ok (take limit xs)))
                        (sym (refused wants (past checkpoint own) (λ e. never r e narrow nothing))))
            | inr some_types ↦
                rw (narrow, some_types)
                  (poll_pages (page_after json store router s r limit) wants
                      (filter (typed (polled_types r)) own) rounds checkpoint limit
                      (typed-Rises (polled_types r) own rises)
                      (omega (arith, length-filter (typed (polled_types r)) own))
                      (page_narrow r limit narrow some_types small)
                    ∙ ap (λ xs. some (ok (take limit xs)))
                        (none_lost checkpoint (polled_types r) wants own
                          (λ e w. received_typed r e narrow w)))
          ]
        ])
