-- ===== src/Store/Events/Refinement/Steps.antt =====
-- One commit against one step of the log, part by part.
use mathlib.Core.Option as Option
use mathlib.Core.Path.{subst}
use mathlib.Core.List.{map-append}
use pluribus.Base.{
  ℕ, suc, ◌+◌, ◌≡◌, ◌≢◌, refl, sym, ap, ◌∙◌, inl, inr, String, none, some, [], ◌∷◌, ◌++◌, ok, arith,
  string_eq, option_eq, find, length, length-append, filter-append, lookup, lookup-insert,
  All-append, ℤ, ==_iff, Option-cases, i64_max, append-nil,
}
use pluribus.Core.Event.{AppendRequest, CommittedEvent, validate}
use pluribus.Store.Rows.{encode_event, encode_stream_kind}
use pluribus.Store.Rows.Roundtrip.{FitsWords}
use pluribus.Store.Tables.{StreamRow, Database, TextIndex}
use pluribus.Store.Events.{
  existing, next, prepare, ensure_stream, check_stream, insert_event, set_next_sequence,
}
use pluribus.Store.Events.Log.{
  Log, on_stream, of_stream, repeats, IsGapless, IsKeyed, log_append-IsGapless, log_append-IsKeyed,
  log_append_new, following,
}
use pluribus.Store.Events.Refinement.{
  Represents, IsStored, row_of, next_of, decode_row_of, find_duplicate, All-find,
}

-- To put a stream in place changes no counter.
pub ensure_stream-Represents :
    (request : AppendRequest) (db : Database) (log : Log)
    → Represents db log
    → Represents (ensure_stream request db) log
unfolding ensure_stream
ensure_stream-Represents request db log r =
    elim (Option-cases (lookup request.stream_id db.streams)) [
      | inr (row, e) ↦ rw (e, ensure_stream) r
      | inl e ↦
          rw (e, ensure_stream)
            (record {
              rows = r.rows;
              stored = r.stored;
              counters = λ s. ground (
                arith,
                r.counters s,
                ==_iff request.stream_id s,
                lookup-insert request.stream_id s
                    (record {
                      stream_kind = encode_stream_kind request.stream_kind;
                      next_sequence = 1;
                    })
                    db.streams,
              );
              gapless = r.gapless;
              keyed = r.keyed;
            })
    ]

pub prepare-existing :
    (db : Database) (log : Log) (request : AppendRequest) (event : CommittedEvent)
    → Represents db log
    → prepare db request ≡ ok (existing event)
    → find (repeats request) log ≡ some event
unfolding prepare check_stream
prepare-existing db log request event r h = elim (Option-cases (find (repeats request) log)) [
  | inr (original, e) ↦ ground (
    arith,
    find_duplicate db log request r,
    decode_row_of original (All-find IsStored (repeats request) log original r.stored e).0,
  )
  | inl e ↦ ground (arith, find_duplicate db log request r)
]

pub prepare-next :
    (db created : Database) (log : Log) (request : AppendRequest) (sequence : ℕ)
    → Represents db log
    → prepare db request ≡ ok (next created sequence)
    → (find (repeats request) log ≡ none)
      × (validate request ≡ ok tt)
      × (created ≡ ensure_stream request db)
      × (Option.map (λ (r : StreamRow). r.next_sequence) (lookup request.stream_id created.streams)
          ≡ some sequence)
unfolding prepare check_stream
prepare-next db created log request sequence r h =
    elim (Option-cases (find (repeats request) log)) [
      | inr (original, e) ↦ ground (arith, find_duplicate db log request r)
      | inl e ↦ ground (arith, find_duplicate db log request r)
    ]

pub counter_next :
    (db : Database) (log : Log) (request : AppendRequest) (sequence : ℕ)
    → Represents db log
    → Option.map (λ (r : StreamRow). r.next_sequence) (lookup request.stream_id db.streams)
      ≡ some sequence
    → sequence ≡ suc (length (of_stream request.stream_id log))
counter_next db log request sequence r c = ground (arith, r.counters request.stream_id)

counters_after :
    (db : Database) (log : Log) (request : AppendRequest) (event_id : String) (sequence : ℕ) (t : ℤ)
    (s : String)
    → Represents db log
    → Option.map (λ (r : StreamRow). r.next_sequence) (lookup request.stream_id db.streams)
      ≡ some sequence
    → next_of (lookup s (set_next_sequence request.stream_id (sequence + 1) db.streams))
      ≡ suc (length (of_stream s (log ++ (following log request event_id t ∷ []))))
unfolding set_next_sequence
counters_after db log request event_id sequence t s r c =
    elim (Option-cases (lookup request.stream_id db.streams)) [
      | inl n ↦ ground arith
      | inr (row, e) ↦
          rw
            (
              e,
              set_next_sequence,
              filter-append (on_stream s) log (following log request event_id t ∷ []),
            )
            (ground (
              arith,
              r.counters s,
              counter_next db log request sequence r c,
              ==_iff request.stream_id s,
              lookup-insert request.stream_id s (record row { next_sequence = sequence + 1 })
                  db.streams,
              length-append (of_stream s log) (following log request event_id t ∷ []),
              append-nil (of_stream s log),
            ))
    ]

insert_ok :
    (index : TextIndex) (db after : Database) (request : AppendRequest) (event_id : String)
    (sequence : ℕ) (t : ℤ)
    → insert_event index db request event_id sequence t ≡ ok after
    → (after.events ≡ db.events ++ (encode_event request event_id sequence t ∷ []))
      × (after.streams ≡ set_next_sequence request.stream_id (sequence + 1) db.streams)
unfolding insert_event
insert_ok index db after request event_id sequence t h = ground arith

-- An inserted row represents one more event.
pub insert-Represents :
    (index : TextIndex) (db after : Database) (log : Log) (request : AppendRequest)
    (event_id : String) (sequence : ℕ) (t : ℤ)
    → Represents db log
    → find (repeats request) log ≡ none
    → validate request ≡ ok tt
    → FitsWords request.payload
    → Option.map (λ (r : StreamRow). r.next_sequence) (lookup request.stream_id db.streams)
      ≡ some sequence
    → insert_event index db request event_id sequence t ≡ ok after
    → Represents after (log ++ (following log request event_id t ∷ []))
insert-Represents index db after log request event_id sequence t r fresh valid fits c h =
    let event = following log request event_id t in
    let inserted = insert_ok index db after request event_id sequence t h in
    let numbered : sequence ≡ suc (length (of_stream request.stream_id log)) =
      counter_next db log request sequence r c in
    let appended =
      ap (λ (p : CommittedEvent × Log). p.1) (log_append_new log request event_id t fresh) in
    record {
      rows =
          inserted.0
          ∙ ap (λ k. db.events ++ (encode_event request event_id k t ∷ [])) numbered
          ∙ ap (λ rows. rows ++ (row_of event ∷ [])) r.rows
          ∙ sym (map-append row_of log (event ∷ []));
      stored =
          All-append IsStored log (event ∷ []) r.stored
            (record { schema = refl; valid = valid; fits = fits }, tt);
      counters = λ s.
          ap (λ streams. next_of (lookup s streams)) inserted.1
          ∙ counters_after db log request event_id sequence t s r c;
      gapless = subst IsGapless appended (log_append-IsGapless log request event_id t r.gapless);
      keyed = subst IsKeyed appended (log_append-IsKeyed log request event_id t r.keyed);
    }

-- What is assigned is not the last sequence.
pub prepare-room :
    (db created : Database) (request : AppendRequest) (sequence : ℕ)
    → prepare db request ≡ ok (next created sequence)
    → sequence ≢ i64_max
unfolding prepare check_stream
prepare-room db created request sequence h =
    elim (Option-cases (lookup request.stream_id (ensure_stream request db).streams)) [
      | inl e ↦ ground arith
      | inr (row, e) ↦ ground arith
    ]
