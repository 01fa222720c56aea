-- ===== src/Store/Events.antt =====
-- `append_in`, `insert_event`, `append`, `read`, `get` and `query`.
pub mod Log
pub mod Frame
pub mod Refinement
pub mod Reading
pub mod Query
mod Tests
use Prim.Native.String.{◌++◌ as joined}
use mathlib.Core.List.{reverse}
use pluribus.Base.{
  ℕ, zero, suc, ◌+◌, min, String, Bool, true, false, not, ◌&&◌, ◌||◌, Option, none, some, List, [],
  ◌∷◌, ◌++◌, Result, ok, err, ◌>>=◌, ◌>>◌, fail_if, map_err, ◌==◌, string_eq, option_eq, nat_eq,
  list_eq, Assoc, lookup, insert, filter, find, any, take, sort_on, ltb, leb, eqb, if◌then◌else◌, ℤ,
  leb_ℤ, i64_max, u64_max, map, codes,
}
use pluribus.Core.Event.{
  EventPayload, canonical_json, blob, AppendRequest, AppendError, invalid_event, storage,
  CommittedEvent, EventQuery, event_schema, validate, is_some_and, no_types,
}
use pluribus.Store.Rows.{EventRow, encode_event, decode_event, encode_stream_kind}
use pluribus.Store.Tables.{StreamRow, SearchRow, Database, Metadata, TextIndex}

-- The row under the deduplication key of the request, on its stream.
unfoldable pub duplicate_of : AppendRequest → EventRow → Bool
duplicate_of request row = elim request.deduplication_key [
  | none ↦ false
  | some key ↦ (row.stream_id == request.stream_id) && (row.deduplication_key == some key)
]

-- What the transaction finds before it draws an identifier: the event that was committed under the
-- same key, or the tables with the stream in place and its next sequence.
pub data Prepared : Type 0 where
  existing : CommittedEvent → Prepared
  next : Database → ℕ → Prepared

-- `INSERT INTO streams … ON CONFLICT DO NOTHING`
unfoldable pub ensure_stream : AppendRequest → Database → Database
ensure_stream request db = elim (lookup request.stream_id db.streams) [
  | some row ↦ db
  | none ↦ record db {
    streams =
        insert request.stream_id
          (record { stream_kind = encode_stream_kind request.stream_kind; next_sequence = 1 })
          db.streams;
  }
]

unfoldable pub check_stream :
    AppendRequest → Database → Option StreamRow → Result AppendError Prepared
check_stream request db none = err (storage "Query returned no rows")
check_stream request db (some stream) = do
  fail_if (not (eqb stream.stream_kind (encode_stream_kind request.stream_kind)))
      (invalid_event (joined "stream kind changed for " request.stream_id))
  fail_if (eqb stream.next_sequence 0 || eqb stream.next_sequence i64_max)
      (storage "stream sequence exhausted")
  ok (next db stream.next_sequence)

unfoldable pub prepare : Database → AppendRequest → Result AppendError Prepared
prepare db request = do
  validate request
  elim (find (duplicate_of request) db.events) [
    | some row ↦ (do event ← map_err storage (decode_event row); ok (existing event))
    | none ↦
        let created = ensure_stream request db in
        check_stream request created (lookup request.stream_id created.streams)
  ]

-- The unique columns of `events`.
unfoldable pub violates_unique : EventRow → EventRow → Bool
violates_unique new row =
    (row.event_id == new.event_id)
    || ((row.stream_id == new.stream_id) && eqb row.sequence new.sequence)
    || ((row.stream_id == new.stream_id)
        && (is_some_and new.deduplication_key (λ key. row.deduplication_key == some key)))

-- `UPDATE streams SET next_sequence = …`
unfoldable pub set_next_sequence : String → ℕ → Assoc String StreamRow → Assoc String StreamRow
set_next_sequence stream_id sequence streams = elim (lookup stream_id streams) [
  | none ↦ streams
  | some row ↦ insert stream_id (record row { next_sequence = sequence }) streams
]

module _ (index : TextIndex) where
  pub searchable_payload_text : AppendRequest → List ℕ
  searchable_payload_text request =
      if (request.event_type == "cognition.checkpoint")
        || (request.event_type == "cognition.job-updated")
      then []
      else elim request.payload [
        | canonical_json bytes ↦ take 8192 (index.from_utf8_lossy bytes)
        | blob b ↦ []
      ]

  unfoldable pub insert_event :
      Database → AppendRequest → String → ℕ → ℤ → Result AppendError Database
  insert_event db request event_id sequence recorded_at_ms =
      let row = encode_event request event_id sequence recorded_at_ms in
      if any (violates_unique row) db.events
      then err (storage "UNIQUE constraint failed")
      else ok (record db {
        events = db.events ++ (row ∷ []);
        event_search =
            db.event_search
            ++ (record {
              event_id = event_id;
              stream_id = request.stream_id;
              event_type = request.event_type;
              payload_text = searchable_payload_text request;
            }
                ∷ []);
        streams = set_next_sequence request.stream_id (sequence + 1) db.streams;
      })

  module _ {M : Type 0} (metadata : Metadata M) where
    unfoldable pub assign :
        M → Database → AppendRequest → ℕ → Result AppendError (CommittedEvent × Database) × M
    assign m db request sequence =
        let (event_id, drawn) = metadata.next_event_id m in
        let (recorded_at_ms, ticked) = metadata.now_ms drawn in
        let inserted : Result AppendError (CommittedEvent × Database) = (do
          after ← insert_event db request event_id sequence recorded_at_ms
          ok (
            record {
              schema = event_schema;
              event_id = event_id;
              sequence = sequence;
              recorded_at_ms = recorded_at_ms;
              request = request;
            },
            after,
          )) in
        if any (λ row. row.event_id == event_id) db.events
        then (err (storage (joined "event ID collision: " event_id)), drawn)
        else (inserted, ticked)

    unfoldable pub append_in :
        M → Database → AppendRequest → Result AppendError (CommittedEvent × Database) × M
    append_in m db request = elim (prepare db request) [
      | err e ↦ (err e, m)
      | ok prepared ↦ elim prepared [
        | existing event ↦ (ok (event, db), m)
        | next created sequence ↦ assign m created request sequence
      ]
    ]

    -- The transaction commits only with the event; otherwise the tables are as before.
    unfoldable pub append :
        M → Database → AppendRequest → Result AppendError CommittedEvent × Database × M
    append m db request =
        let (answer, m') = append_in m db request in
        elim answer [ err e ↦ (err e, db, m') | ok done ↦ (ok done.0, done.1, m') ]

-- `rows.collect()`: the first row that does not decode fails the call.
pub decode_all : List EventRow → Result AppendError (List CommittedEvent)
decode_all [] = ok []
decode_all (row ∷ rows) = do
  event ← map_err storage (decode_event row)
  events ← decode_all rows
  ok (event ∷ events)

pub read : Database → String → ℕ → ℕ → Result AppendError (List CommittedEvent)
read db stream after_sequence limit =
    if ltb i64_max after_sequence
    then ok []
    else decode_all (
        take (min limit i64_max) (
          sort_on (λ row. row.sequence)
            (filter (λ row. (row.stream_id == stream) && ltb after_sequence row.sequence)
              db.events)))

pub get : Database → String → Result AppendError (Option CommittedEvent)
get db event_id = elim (find (λ row. row.event_id == event_id) db.events) [
  | none ↦ ok none
  | some row ↦ (do event ← map_err storage (decode_event row); ok (some event))
]
