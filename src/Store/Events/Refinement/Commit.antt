-- ===== src/Store/Events/Refinement/Commit.antt =====
-- `append` as a whole against the log.
use mathlib.Core.Option as Option
use mathlib.Core.Path.{subst}
use pluribus.Base.{
  ℕ, suc, ◌+◌, ◌<◌, ◌≡◌, refl, sym, ap, ◌∙◌, ◌⊎◌, inl, inr, String, true, false, none, some, [], ok,
  arith, ◌==◌, string_eq, find, any, length, lookup, lookup-insert, All, ℤ, ==_refl, Option-cases,
  Result-cases, i64_max, is_ok, append-nil,
}
use pluribus.Core.Event.{AppendRequest, CommittedEvent, validate}
use pluribus.Store.Rows.{encode_event, encode_stream_kind}
use pluribus.Store.Rows.Roundtrip.{committed, FitsWords}
use pluribus.Store.Tables.{StreamRow, Database, Metadata, TextIndex, empty}
use pluribus.Store.Events.{
  check_stream, existing, next, prepare, ensure_stream, violates_unique, insert_event, assign,
  append_in, append,
}
use pluribus.Store.Events.Log.{
  Log, of_stream, repeats, log_append, log_append_new, log_append_stable,
}
use pluribus.Store.Events.Refinement.{
  find_duplicate, All-find, decode_row_of, Represents, IsStored, no_violation, Numbered-below,
  below_of_filter,
}
use pluribus.Store.Events.Refinement.Steps.{
  ensure_stream-Represents, prepare-existing, prepare-next, counter_next, insert-Represents,
}

-- Empty tables hold the empty log.
pub empty-Represents : Represents empty []
unfolding lookup
empty-Represents = record {
  rows = refl;
  stored = tt;
  counters = λ s. refl;
  gapless = λ s. tt;
  keyed = tt;
}

prepare_total :
    (db : Database) (log : Log) (request : AppendRequest)
    → Represents db log
    → validate request ≡ ok tt
    → ((row : StreamRow)
        → lookup request.stream_id db.streams ≡ some row
        → row.stream_kind ≡ encode_stream_kind request.stream_kind)
    → suc (length (of_stream request.stream_id log)) < i64_max
    → ((event : CommittedEvent) × (prepare db request ≡ ok (existing event)))
      ⊎ ((created : Database) × (sequence : ℕ) × (prepare db request ≡ ok (next created sequence)))
unfolding prepare check_stream ensure_stream
prepare_total db log request r valid kind room = elim (Option-cases (find (repeats request) log)) [
  | inr (original, e) ↦
      let decoded =
        decode_row_of original (All-find IsStored (repeats request) log original r.stored e).0 in
      inl (original, ground (arith, find_duplicate db log request r))
  | inl e ↦ elim (Option-cases (lookup request.stream_id db.streams)) [
    | inl absent ↦ inr (
      ensure_stream request db,
      1,
      ground (
        arith,
        find_duplicate db log request r,
        ==_refl request.stream_id,
        lookup-insert request.stream_id request.stream_id
            (record { stream_kind = encode_stream_kind request.stream_kind; next_sequence = 1 })
            db.streams,
      ),
    )
    | inr (row, present) ↦ inr (
      db,
      row.next_sequence,
      ground
          (arith, find_duplicate db log request r, kind row present, r.counters request.stream_id),
    )
  ]
]

module _ {M : Type 0} (index : TextIndex) (metadata : Metadata M) where
  -- The identifier and the time that the next commit draws.
  abbrev pub drawn_id : M → String
  drawn_id m = (metadata.next_event_id m).0

  abbrev pub drawn_time : M → ℤ
  drawn_time m = (metadata.now_ms (metadata.next_event_id m).1).0

  assign_ok :
      (m m' : M) (db after : Database) (request : AppendRequest) (sequence : ℕ)
      (event : CommittedEvent)
      → assign index metadata m db request sequence ≡ (ok (event, after), m')
      → (event ≡ committed request (drawn_id m) sequence (drawn_time m))
        × (insert_event index db request (drawn_id m) sequence (drawn_time m) ≡ ok after)
  unfolding assign
  assign_ok m m' db after request sequence event h = ground arith

  pub append_in_ok :
      (m m' : M) (db after : Database) (request : AppendRequest) (event : CommittedEvent)
      → append_in index metadata m db request ≡ (ok (event, after), m')
      → ((prepare db request ≡ ok (existing event)) × (after ≡ db))
        ⊎ ((created : Database) × (sequence : ℕ) × (prepare db request ≡ ok (next created sequence))
            × (assign index metadata m created request sequence ≡ (ok (event, after), m')))
  unfolding append_in
  append_in_ok m m' db after request event h = elim (Result-cases (prepare db request)) [
    | inr (er, e) ↦ ground arith
    | inl (existing original, e) ↦ inl (ground arith)
    | inl (next created sequence, e) ↦ inr (created, sequence, e, ground arith)
  ]

  -- The same inside a transaction that goes on.
  pub append_in_refines :
      (m m' : M) (db after : Database) (log : Log) (request : AppendRequest)
      (event : CommittedEvent)
      → Represents db log
      → FitsWords request.payload
      → append_in index metadata m db request ≡ (ok (event, after), m')
      → ((log_append log request (drawn_id m) (drawn_time m)).0 ≡ event)
        × Represents after (log_append log request (drawn_id m) (drawn_time m)).1
  append_in_refines m m' db after log request event r fits h =
      elim (append_in_ok m m' db after request event h) [
        | inl (e, same) ↦
            let hit =
              log_append_stable log [] request event (drawn_id m) (drawn_time m)
                (prepare-existing db log request event r e) in
            let step : log_append log request (drawn_id m) (drawn_time m) ≡ (event, log) =
              subst (λ l. log_append l request (drawn_id m) (drawn_time m) ≡ (event, l))
                (append-nil log) hit in
            rw step (refl, subst (λ d. Represents d log) (sym same) r)
        | inr (created, sequence, e, done) ↦
            let (fresh, valid, placed, counter) =
              prepare-next db created log request sequence r e in
            let (made, inserted) = assign_ok m m' created after request sequence event done in
            let r' : Represents created log =
              subst (λ d. Represents d log) (sym placed)
                (ensure_stream-Represents request db log r) in
            let step = log_append_new log request (drawn_id m) (drawn_time m) fresh in
            rw step (
              ap (λ k. committed request (drawn_id m) k (drawn_time m))
                    (sym (counter_next created log request sequence r' counter))
                  ∙ sym made,
              insert-Represents index created after log request (drawn_id m) sequence (drawn_time m)
                  r' fresh valid fits counter inserted,
            )
      ]

  -- On tables that hold a log, for a request whose blob, if it has one, has a size of 64 bits: a
  -- commit that succeeds is one step of the log under the identifier and time that were drawn. It
  -- answers the event of that step and leaves tables that hold the new log.
  pub append_refines :
      (m m' : M) (db after : Database) (log : Log) (request : AppendRequest)
      (event : CommittedEvent)
      → Represents db log
      → FitsWords request.payload
      → append index metadata m db request ≡ (ok event, after, m')
      → ((log_append log request (drawn_id m) (drawn_time m)).0 ≡ event)
        × Represents after (log_append log request (drawn_id m) (drawn_time m)).1
  unfolding append
  append_refines m m' db after log request event r fits h =
      append_in_refines m m' db after log request event r fits (ground arith)

  -- A commit that fails leaves the tables as they were.
  pub append_rolls_back :
      (m : M) (db : Database) (request : AppendRequest)
      → (is_ok (append index metadata m db request).0 ≡ true)
        ⊎ ((append index metadata m db request).1 ≡ db)
  unfolding append
  append_rolls_back m db request = ground arith

  insert_total :
      (db : Database) (log : Log) (request : AppendRequest) (event_id : String) (sequence : ℕ)
      (t : ℤ)
      → Represents db log
      → find (repeats request) log ≡ none
      → Option.map (λ (r : StreamRow). r.next_sequence) (lookup request.stream_id db.streams)
        ≡ some sequence
      → any (λ row. row.event_id == event_id) db.events ≡ false
      → is_ok (insert_event index db request event_id sequence t) ≡ true
  unfolding insert_event
  insert_total db log request event_id sequence t r new c fresh =
      let numbered : sequence ≡ 1 + length (of_stream request.stream_id log) =
        omega (arith, counter_next db log request sequence r c) in
      let below : All (λ e. e.sequence < sequence) (of_stream request.stream_id log) =
        subst (λ k. All (λ e. e.sequence < k) (of_stream request.stream_id log)) (sym numbered)
          (Numbered-below 1 (of_stream request.stream_id log) (r.gapless request.stream_id)) in
      let free =
        no_violation request event_id sequence t log
          (ap (any (λ row. row.event_id == event_id)) (sym r.rows) ∙ fresh)
          (below_of_filter request.stream_id sequence log below) new in
      rw
        (
          ap (any (violates_unique (encode_event request event_id sequence t))) r.rows ∙ free,
          insert_event,
        )
        refl

  assigned :
      (m : M) (db created : Database) (request : AppendRequest) (sequence : ℕ)
      → prepare db request ≡ ok (next created sequence)
      → any (λ row. row.event_id == drawn_id m) created.events ≡ false
      → is_ok (insert_event index created request (drawn_id m) sequence (drawn_time m)) ≡ true
      → is_ok (append index metadata m db request).0 ≡ true
  unfolding append append_in assign
  assigned m db created request sequence e fresh inserted = ground arith

  -- On tables that hold a log, a valid request is committed when its stream, if it is there, has
  -- the request's kind, the sequence of the stream is not exhausted, and no event has the
  -- identifier that is drawn.
  pub append_total :
      (m : M) (db : Database) (log : Log) (request : AppendRequest)
      → Represents db log
      → validate request ≡ ok tt
      → ((row : StreamRow)
          → lookup request.stream_id db.streams ≡ some row
          → row.stream_kind ≡ encode_stream_kind request.stream_kind)
      → suc (length (of_stream request.stream_id log)) < i64_max
      → any (λ row. row.event_id == drawn_id m) db.events ≡ false
      → is_ok (append index metadata m db request).0 ≡ true
  unfolding append append_in
  append_total m db log request r valid kind room fresh =
      elim (prepare_total db log request r valid kind room) [
        | inl (original, e) ↦ rw (e, append, append_in) refl
        | inr (created, sequence, e) ↦
            let (new, _, placed, counter) = prepare-next db created log request sequence r e in
            let r' : Represents created log =
              subst (λ d. Represents d log) (sym placed)
                (ensure_stream-Represents request db log r) in
            let rows = r'.rows ∙ sym r.rows in
            assigned m db created request sequence e
              (ap (any (λ row. row.event_id == drawn_id m)) rows ∙ fresh)
              (insert_total created log request (drawn_id m) sequence (drawn_time m) r' new counter
                (ap (any (λ row. row.event_id == drawn_id m)) rows ∙ fresh))
      ]
