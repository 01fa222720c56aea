-- ===== src/Store/Events/Tests.antt =====
-- Runs of the event store.
use pluribus.Base.{
  ℕ, ◌≡◌, refl, ok, true, inl, ◌⊎◌, pos, List, [], ◌∷◌, ◌++◌, false, any, lookup, take, drop, min,
  i64_max, length, find, ◌==◌, string_eq, none, some, filter, arith, is_ok, concat, all, All, codes,
  Option,
}
use mathlib.Core.List.{reverse}
use pluribus.Core.Event.{matches, validate}
use pluribus.Core.Examples.{first_request, second_request, turn_query}
use pluribus.Store.Tables.{StreamRow, Database, empty}
use pluribus.Store.Examples.{counting, plain_index, first_event}
use pluribus.Store.Events.{append, read, get}
use pluribus.Store.Events.Log.{of_stream, log_append}
use pluribus.Store.Events.Refinement.{Represents}
use pluribus.Store.Events.Refinement.Commit.{empty-Represents, append_refines, append_total}
use pluribus.Store.Events.Refinement.Bounds.{IsBounded, append-IsBounded}
use pluribus.Store.Events.Reading.{read_lem}
use pluribus.Store.Events.Query.{query, is_word, literal_search_query}
use pluribus.Store.Events.Query.Matching.{query_lem}
use pluribus.Store.Events.Query.Literal.{IsWord, expression, literal_search_query_lem}

abbrev after_first : Database
after_first = (append plain_index counting 0 empty first_request).1

commits : append plain_index counting 0 empty first_request ≡ (ok first_event, after_first, 1)
unfolding append pluribus.Store.Events.append_in pluribus.Store.Events.prepare validate
    pluribus.Store.Events.check_stream lookup pluribus.Store.Events.ensure_stream
    pluribus.Base.insert pluribus.Store.Events.assign pluribus.Store.Events.insert_event
commits = refl

append_refines_example :
    ((log_append [] first_request "e-0" (pos 1)).0 ≡ first_event)
    × Represents after_first (log_append [] first_request "e-0" (pos 1)).1
append_refines_example =
    append_refines plain_index counting 0 1 empty after_first [] first_request first_event
      empty-Represents tt commits

represents : Represents after_first (first_event ∷ [])
unfolding log_append
represents =
    (append_refines plain_index counting 0 1 empty after_first [] first_request first_event
      empty-Represents tt commits).1

valid : validate second_request ≡ ok tt
unfolding validate pluribus.Core.BlobRef.validate_blob_ref pluribus.Core.BlobRef.validate_media_type
valid = refl

present :
    lookup "agent:1" after_first.streams ≡ some (record { stream_kind = 0; next_sequence = 2 })
unfolding lookup append pluribus.Store.Events.append_in pluribus.Store.Events.prepare validate
    pluribus.Store.Events.check_stream pluribus.Store.Events.ensure_stream pluribus.Base.insert
    pluribus.Store.Events.assign pluribus.Store.Events.insert_event
    pluribus.Store.Events.set_next_sequence
present = refl

kind : (row : StreamRow) → lookup "agent:1" after_first.streams ≡ some row → row.stream_kind ≡ 0
kind row h = ground (arith, present)

fresh : any (λ row. row.event_id == "e-1") after_first.events ≡ false
unfolding append pluribus.Store.Events.append_in pluribus.Store.Events.prepare validate
    pluribus.Store.Events.check_stream lookup pluribus.Store.Events.ensure_stream
    pluribus.Base.insert pluribus.Store.Events.assign pluribus.Store.Events.insert_event
    pluribus.Store.Rows.encode_event
fresh = refl

append_total_example : is_ok (append plain_index counting 1 after_first second_request).0 ≡ true
append_total_example =
    append_total plain_index counting 1 after_first (first_event ∷ []) second_request represents
      valid (λ row h. kind row h) (omega arith) fresh

read_lem_example :
    read after_first "agent:1" 0 10
    ≡ ok (take (min 10 i64_max) (drop 0 (of_stream "agent:1" (first_event ∷ []))))
read_lem_example = read_lem after_first (first_event ∷ []) "agent:1" 0 10 represents (omega arith)

query_lem_example :
    query plain_index after_first "agent:1" turn_query 5
    ≡ ok (
        take
          (min 5 i64_max)
          (reverse (filter (matches turn_query) (of_stream "agent:1" (first_event ∷ [])))))
query_lem_example =
    query_lem plain_index after_first (first_event ∷ []) "agent:1" turn_query 5 represents refl tt
      tt

literal_search_query_lem_example :
    (words : List (List ℕ)) × All (IsWord plain_index) words
    × (concat words ≡ filter (is_word plain_index) (codes "job OR \"key\""))
    × (literal_search_query plain_index "job OR \"key\"" ≡ expression plain_index words)
literal_search_query_lem_example = literal_search_query_lem plain_index "job OR \"key\"" refl

append-IsBounded_example : IsBounded (log_append [] first_request "e-0" (pos 1)).1
append-IsBounded_example =
    append-IsBounded plain_index counting 0 1 empty after_first [] first_request first_event
      empty-Represents (λ stream. omega arith) commits
