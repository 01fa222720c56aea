-- ===== src/Cognition/EventStore.antt =====
-- The event store as the host's half of cognition uses it (`EventStore` of
-- crates/pluribus-core/src/event.rs), an error as its text: the operations on a state, and what
-- they promise of the log that the state shows.
pub mod Growth
pub mod Sqlite
use pluribus.Base.{
  ℕ, ◌≤◌, ◌≡◌, String, Option, none, false, List, [], Result, ok, err, ltb, filter, find, take,
  i64_max, IsRising, All, ◌<◌, ◌==◌, string_eq, ℤ,
}
use pluribus.Core.Event.{
  AppendRequest, CommittedEvent, EventQuery, EventPayload, canonical_json, matches,
}
use pluribus.Store.Events.Log.{Log, of_stream, log_append}

pub record EventStore (S : Type 0) : Type 0 where
  pub append : S → AppendRequest → Result String CommittedEvent × S
  pub get : S → String → Result String (Option CommittedEvent)
  pub read : S → String → ℕ → ℕ → Result String (List CommittedEvent)
  pub query : S → String → EventQuery → ℕ → Result String (List CommittedEvent)

-- The events of a stream past a sequence.
abbrev pub events_after : Log → String → ℕ → Log
events_after log stream after = filter (λ e. ltb after e.sequence) (of_stream stream log)

-- A state that shows a log answers from it, and an append of a JSON event that succeeds is one step
-- of the log, under some identifier and time; one that is refused leaves the log.
pub record IsEventLog {S : Type 0} (store : EventStore S) (Shows : S → Log → Type 0) : Type 0 where
  pub rising :
      (s : S) (log : Log) (stream : String)
      → Shows s log
      → IsRising (λ e. e.sequence) (of_stream stream log)
  pub positive :
      (s : S) (log : Log) (stream : String)
      → Shows s log
      → All (λ e. 0 < e.sequence) (of_stream stream log)
  pub get_law :
      (s : S) (log : Log) (id : String)
      → Shows s log
      → store.get s id ≡ ok (find (λ e. e.event_id == id) log)
  pub read_law :
      (s : S) (log : Log) (stream : String) (after limit : ℕ)
      → Shows s log
      → limit ≤ i64_max
      → store.read s stream after limit ≡ ok (take limit (events_after log stream after))
  pub query_law :
      (s : S) (log : Log) (stream : String) (q : EventQuery) (limit : ℕ)
      → Shows s log
      → q.text_query ≡ none
      → q.descending ≡ false
      → q.before_sequence ≡ none
      → limit ≤ i64_max
      → store.query s stream q limit ≡ ok (take limit (filter (matches q) (of_stream stream log)))
  pub append_law :
      (s after : S) (log : Log) (request : AppendRequest) (bytes : List ℕ) (event : CommittedEvent)
      → Shows s log
      → request.payload ≡ canonical_json bytes
      → store.append s request ≡ (ok event, after)
      → (id : String) × (time : ℤ) × ((log_append log request id time).0 ≡ event)
        × Shows after (log_append log request id time).1
  pub refused_law :
      (s after : S) (log : Log) (request : AppendRequest) (e : String)
      → Shows s log
      → store.append s request ≡ (err e, after)
      → Shows after log
