-- ===== src/Store/Events/Query/Matching.antt =====
-- A query without text against the filter `EventQuery::matches`.
use mathlib.Core.List.{reverse_aux}
use mathlib.Mathlib.Data.List.Basic.{map-reverse_aux}
use pluribus.Base.{
  ℕ, ◌≤◌, ◌<◌, min, ◌≡◌, refl, sym, ap, ◌∙◌, String, Bool, true, false, not, ◌&&◌, ◌||◌, Option,
  none, some, [], ◌∷◌, ok, arith, ◌==◌, string_eq, option_eq, ==_iff, filter, any, map, take, All,
  sort_on, sort_on-rising, IsRising, ltb, leb_ℤ, ltb_ℤ, ℤ, leb, i64_max, Bool-cases, inl, inr,
  if◌then◌else◌, Holds,
}
use pluribus.Core.Event.{CommittedEvent, EventQuery, matches, is_some_and, no_types, is_some}
use pluribus.Store.Rows.{EventRow, encode_event}
use pluribus.Store.Tables.{Database, TextIndex}
use pluribus.Store.Events.{decode_all}
use pluribus.Store.Events.Log.{Log, on_stream, of_stream}
use pluribus.Store.Events.Refinement.{Represents, IsStored, row_of}
use pluribus.Store.Events.Reading.{
  Numbered-IsRising, take-map, All-filter, All-take, decode_all-map,
}
use pluribus.Store.Events.Query.{selects_row, unless_unset, ordered, run_query, query}

-- Each condition of the statement against its test in the filter.
after_test :
    (bound : Option ℕ) (n : ℕ)
    → unless_unset bound (λ after. ltb after n) ≡ not (is_some_and bound (λ after. leb n after))
after_test none n = refl
after_test (some after) n = ground arith

before_test :
    (bound : Option ℕ) (n : ℕ)
    → unless_unset bound (λ before. ltb n before) ≡ not (is_some_and bound (λ before. leb before n))
before_test none n = refl
before_test (some before) n = ground arith

id_test :
    (wanted own : Option String)
    → unless_unset wanted (λ id. own == some id) ≡ not (is_some wanted && not (wanted == own))
id_test none own = refl
id_test (some id) own = ground (arith, ==_iff own (some id), ==_iff (some id) own)

from_test :
    (bound : Option ℤ) (t : ℤ)
    → unless_unset bound (λ from. leb_ℤ from t) ≡ not (is_some_and bound (λ from. ltb_ℤ t from))
from_test none t = refl
from_test (some from) t = ground arith

to_test :
    (bound : Option ℤ) (t : ℤ)
    → unless_unset bound (λ to. leb_ℤ t to) ≡ not (is_some_and bound (λ to. ltb_ℤ to t))
to_test none t = refl
to_test (some to) t = ground arith

-- The conditions joined by `AND` are the early returns.
tests_in_turn :
    (own a b t u c d f g : Bool)
    → (own && not a && not b && (t || u) && not c && not d && not f && not g) ≡ (
        own
        && (if a
            then false
            else if b
            then false
            else if not t && not u
            then false
            else if c
            then false
            else if d
            then false
            else if f
            then false
            else if g
            then false
            else true))
tests_in_turn own a b t u c d f g = ground arith

pub selects_row-matches :
    (stream : String) (q : EventQuery) (e : CommittedEvent)
    → selects_row stream q (row_of e) ≡ on_stream stream e && matches q e
unfolding selects_row encode_event matches
selects_row-matches stream q e =
    rw
      (
        after_test q.after_sequence e.sequence,
        before_test q.before_sequence e.sequence,
        id_test q.correlation_id e.request.correlation_id,
        id_test q.activity_id e.request.activity_id,
        from_test q.recorded_from_ms e.recorded_at_ms,
        to_test q.recorded_to_ms e.recorded_at_ms,
      )
      (tests_in_turn (e.request.stream_id == stream)
        (is_some_and q.after_sequence (λ after. leb e.sequence after))
        (is_some_and q.before_sequence (λ before. leb before e.sequence)) (no_types q.event_types)
        (any (λ event_type. event_type == e.request.event_type) q.event_types)
        (is_some q.correlation_id && not (q.correlation_id == e.request.correlation_id))
        (is_some q.activity_id && not (q.activity_id == e.request.activity_id))
        (is_some_and q.recorded_from_ms (λ from. ltb_ℤ e.recorded_at_ms from))
        (is_some_and q.recorded_to_ms (λ to. ltb_ℤ to e.recorded_at_ms)))

-- The rows that the statement selects are the rows of the events that the filter passes.
select_rows :
    (stream : String) (q : EventQuery) (log : Log)
    → filter (λ row. selects_row stream q row && true) (map row_of log)
      ≡ map row_of (filter (matches q) (of_stream stream log))
select_rows stream q [] = refl
select_rows stream q (x ∷ log) =
    ground (arith, selects_row-matches stream q x, select_rows stream q log)

All-rows :
    (k : ℕ) (xs : Log)
    → All (λ r. k < r.sequence) (map row_of xs)
    → (p : CommittedEvent → Bool) → All (λ r. k < r.sequence) (map row_of (filter p xs))
All-rows k [] h p = tt
All-rows k (x ∷ xs) h p = elim (Bool-cases (p x)) [
  | inl hit ↦ rw hit (h.0, All-rows k xs h.1 p)
  | inr miss ↦ rw miss (All-rows k xs h.1 p)
]

IsRising-filter :
    (p : CommittedEvent → Bool) (xs : Log)
    → IsRising (λ row. row.sequence) (map row_of xs)
    → IsRising (λ row. row.sequence) (map row_of (filter p xs))
IsRising-filter p [] h = tt
IsRising-filter p (x ∷ xs) h = elim (Bool-cases (p x)) [
  | inl hit ↦ rw hit (All-rows (row_of x).sequence xs h.0 p, IsRising-filter p xs h.1)
  | inr miss ↦ rw miss (IsRising-filter p xs h.1)
]

ordered-map :
    (descending : Bool) (xs : Log)
    → ordered descending (map row_of xs) ≡ map row_of (ordered descending xs)
ordered-map false xs = refl
ordered-map true xs = sym (map-reverse_aux row_of xs [])

All-reverse_aux :
    (P : CommittedEvent → Type 0) (xs ys : Log) → All P xs → All P ys → All P (reverse_aux xs ys)
All-reverse_aux P [] ys h k = k
All-reverse_aux P (x ∷ xs) ys h k = All-reverse_aux P xs (x ∷ ys) h.1 (h.0, k)

All-ordered :
    (P : CommittedEvent → Type 0) (descending : Bool) (xs : Log)
    → All P xs
    → All P (ordered descending xs)
All-ordered P false xs h = h
All-ordered P true xs h = All-reverse_aux P xs [] h tt

in_range :
    (bound : Option ℕ)
    → Holds (λ b. b ≤ i64_max) bound
    → is_some_and bound (λ b. ltb i64_max b) ≡ false
in_range none h = refl
in_range (some b) h = ground arith

-- On tables that hold a log, a query without text whose sequence bounds, where it sets them, are
-- at most 2^63 - 1 answers the events of its stream that the filter of the core passes, in the
-- order that it asks for, as many as its limit, cut to 2^63 - 1, allows.
pub query_lem :
    (index : TextIndex) (db : Database) (log : Log) (stream : String) (q : EventQuery) (limit : ℕ)
    → Represents db log
    → q.text_query ≡ none
    → Holds (λ after. after ≤ i64_max) q.after_sequence
    → Holds (λ before. before ≤ i64_max) q.before_sequence
    → query index db stream q limit
      ≡ ok (
          take
            (min limit i64_max)
            (ordered q.descending (filter (matches q) (of_stream stream log))))
unfolding query run_query matches
query_lem index db log stream q limit r plain after before =
    let wanted = filter (matches q) (of_stream stream log) in
    let count = min limit i64_max in
    let rank : EventRow → ℕ = λ row. row.sequence in
    let stored =
      All-filter IsStored (matches q) (of_stream stream log)
        (All-filter IsStored (on_stream stream) log r.stored) in
    let rising =
      IsRising-filter (matches q) (of_stream stream log)
        (Numbered-IsRising 1 (of_stream stream log) (r.gapless stream)) in
    rw (plain, in_range q.after_sequence after, in_range q.before_sequence before)
      (ap
          (λ rows. decode_all (
            take count (
              ordered q.descending (
                sort_on (λ row. row.sequence)
                  (filter (λ row. selects_row stream q row && true) rows)))))
          r.rows
        ∙ ap
            (λ rows.
              decode_all (take count (ordered q.descending (sort_on (λ row. row.sequence) rows))))
            (select_rows stream q log)
        ∙ ap (λ rows. decode_all (take count (ordered q.descending rows)))
            (sort_on-rising (λ row. row.sequence) (map row_of wanted) rising)
        ∙ ap (λ rows. decode_all (take count rows)) (ordered-map q.descending wanted)
        ∙ ap decode_all (take-map count (ordered q.descending wanted))
        ∙ decode_all-map (take count (ordered q.descending wanted)) (
            All-take IsStored count (ordered q.descending wanted)
              (All-ordered IsStored q.descending wanted stored)))

-- A bound that no column can hold answers nothing.
pub query_beyond :
    (index : TextIndex) (db : Database) (stream : String) (q : EventQuery) (limit a : ℕ)
    → q.after_sequence ≡ some a
    → i64_max < a
    → query index db stream q limit ≡ ok []
unfolding query
query_beyond index db stream q limit a e l = ground arith
