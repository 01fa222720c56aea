-- ===== src/Store/Events/Reading.antt =====
-- `read` and `get` on tables that represent a log.
use mathlib.Core.Option as Option
use mathlib.Core.Path.{subst}
use pluribus.Base.{
  ℕ, zero, suc, ◌+◌, ◌≤◌, ◌<◌, min, ◌≡◌, refl, sym, ap, ◌∙◌, inl, inr, String, Bool, [], ◌∷◌, ok,
  arith, ◌==◌, string_eq, filter, find, map, length, take, drop, drop_all, All, sort_on,
  sort_on-rising, IsRising, ltb, i64_max, Bool-cases, Option-cases, ◌&&◌,
}
use pluribus.Core.Event.{CommittedEvent}
use pluribus.Store.Rows.{encode_event}
use pluribus.Store.Tables.{Database}
use pluribus.Store.Events.{read, get, decode_all}
use pluribus.Store.Events.Log.{Log, on_stream, of_stream, Numbered}
use pluribus.Store.Events.Refinement.{
  Represents, IsStored, row_of, decode_row_of, find-map, All-find,
}

-- The rows that the statement selects are the rows of the events after the cursor.
select_rows :
    (stream : String) (after : ℕ) (log : Log)
    → filter (λ row. (row.stream_id == stream) && ltb after row.sequence) (map row_of log)
      ≡ map row_of (filter (λ e. ltb after e.sequence) (of_stream stream log))
unfolding encode_event
select_rows stream after [] = refl
select_rows stream after (x ∷ log) = ground (arith, select_rows stream after log)

filter_above : (n k : ℕ) (xs : Log) → k < n → Numbered n xs → filter (λ e. ltb k e.sequence) xs ≡ xs
filter_above n k [] l h = refl
filter_above n k (x ∷ xs) l h = ground (arith, h.0, filter_above (suc n) k xs (omega arith) h.1)

-- On a numbered list, the events after a sequence are those past that many places.
pub filter_after :
    (d n : ℕ) (xs : Log) → Numbered (suc n) xs → filter (λ e. ltb (d + n) e.sequence) xs ≡ drop d xs
filter_after zero n xs h = filter_above (suc n) (0 + n) xs (omega arith) h
filter_after (suc d) n [] h = refl
filter_after (suc d) n (x ∷ xs) h =
    let rest : filter (λ e. ltb (suc d + n) e.sequence) xs ≡ drop d xs =
      subst (λ k. filter (λ e. ltb k e.sequence) xs ≡ drop d xs) {x = d + suc n} {y = suc d + n}
        (omega arith) (filter_after d (suc n) xs h.1) in
    ground (arith, h.0, rest)

Numbered-above :
    (n k : ℕ) (xs : Log) → k < n → Numbered n xs → All (λ r. k < r.sequence) (map row_of xs)
unfolding encode_event
Numbered-above n k [] l h = tt
Numbered-above n k (x ∷ xs) l h =
    (omega (arith, h.0), Numbered-above (suc n) k xs (omega arith) h.1)

pub Numbered-IsRising :
    (n : ℕ) (xs : Log) → Numbered n xs → IsRising (λ row. row.sequence) (map row_of xs)
unfolding encode_event
Numbered-IsRising n [] h = tt
Numbered-IsRising n (x ∷ xs) h = (
  subst (λ k. All (λ r. k < r.sequence) (map row_of xs)) (sym h.0)
      (Numbered-above (suc n) n xs (omega arith) h.1),
  Numbered-IsRising (suc n) xs h.1,
)

Numbered-drop : (k n : ℕ) (xs : Log) → Numbered n xs → Numbered (k + n) (drop k xs)
Numbered-drop zero n xs h = subst (λ j. Numbered j xs) {x = n} {y = 0 + n} (omega arith) h
Numbered-drop (suc k) n [] h = tt
Numbered-drop (suc k) n (x ∷ xs) h =
    subst (λ j. Numbered j (drop k xs)) {x = k + suc n} {y = suc k + n} (omega arith)
      (Numbered-drop k (suc n) xs h.1)

pub take-map : (k : ℕ) (xs : Log) → take k (map row_of xs) ≡ map row_of (take k xs)
take-map zero xs = refl
take-map (suc k) [] = refl
take-map (suc k) (x ∷ xs) = ap (λ rows. row_of x ∷ rows) (take-map k xs)

pub All-filter :
    (P : CommittedEvent → Type 0) (p : CommittedEvent → Bool) (xs : Log)
    → All P xs
    → All P (filter p xs)
All-filter P p [] h = tt
All-filter P p (x ∷ xs) h = elim (Bool-cases (p x)) [
  | inl hit ↦ rw hit (h.0, All-filter P p xs h.1)
  | inr miss ↦ rw miss (All-filter P p xs h.1)
]

pub All-take : (P : CommittedEvent → Type 0) (k : ℕ) (xs : Log) → All P xs → All P (take k xs)
All-take P zero xs h = tt
All-take P (suc k) [] h = tt
All-take P (suc k) (x ∷ xs) h = (h.0, All-take P k xs h.1)

All-drop : (P : CommittedEvent → Type 0) (k : ℕ) (xs : Log) → All P xs → All P (drop k xs)
All-drop P zero xs h = h
All-drop P (suc k) [] h = tt
All-drop P (suc k) (x ∷ xs) h = All-drop P k xs h.1

pub decode_all-map : (xs : Log) → All IsStored xs → decode_all (map row_of xs) ≡ ok xs
unfolding decode_all
decode_all-map [] h = refl
decode_all-map (x ∷ xs) h = rw (decode_row_of x h.0, decode_all-map xs h.1) refl

take_nil : (k : ℕ) → take {A = CommittedEvent} k [] ≡ []
take_nil zero = refl
take_nil (suc k) = refl

-- On tables that hold a log, with at most 2^63 - 1 events on the stream: a read answers the
-- events of the stream past the cursor, in the order of their commits, as many as the limit, cut
-- to 2^63 - 1, allows.
pub read_lem :
    (db : Database) (log : Log) (stream : String) (after limit : ℕ)
    → Represents db log
    → length (of_stream stream log) ≤ i64_max
    → read db stream after limit ≡ ok (take (min limit i64_max) (drop after (of_stream stream log)))
unfolding read
read_lem db log stream after limit r small =
    let own = of_stream stream log in
    let numbered = r.gapless stream in
    let past : filter (λ e. ltb after e.sequence) own ≡ drop after own =
      subst (λ k. filter (λ e. ltb k e.sequence) own ≡ drop after own) {x = after + 0} {y = after}
        (omega arith) (filter_after after 0 own numbered) in
    let count = min limit i64_max in
    elim (Bool-cases (ltb i64_max after)) [
      | inl high ↦ rw (high, drop_all after own (ground arith), take_nil (min limit i64_max)) refl
      | inr low ↦ rw low (
          ap
            (λ rows. decode_all (
              take count (
                sort_on (λ row. row.sequence)
                  (filter (λ row. (row.stream_id == stream) && ltb after row.sequence) rows))))
            r.rows
          ∙ ap (λ rows. decode_all (take count (sort_on (λ row. row.sequence) rows)))
              (select_rows stream after log ∙ ap (map row_of) past)
          ∙ ap (λ rows. decode_all (take count rows))
              (sort_on-rising (λ row. row.sequence) (map row_of (drop after own))
                (Numbered-IsRising (after + 1) (drop after own)
                  (Numbered-drop after 1 own numbered)))
          ∙ ap decode_all (take-map count (drop after own))
          ∙ decode_all-map (take count (drop after own)) (
              All-take IsStored count (drop after own) (
                All-drop IsStored after own (All-filter IsStored (on_stream stream) log r.stored))))
    ]

find_row :
    (db : Database) (log : Log) (event_id : String)
    → Represents db log
    → find (λ row. row.event_id == event_id) db.events
      ≡ Option.map row_of (find (λ e. e.event_id == event_id) log)
unfolding encode_event
find_row db log event_id r =
    ap (find (λ row. row.event_id == event_id)) r.rows
    ∙ find-map (λ row. row.event_id == event_id) (λ e. e.event_id == event_id) row_of log
        (λ e. refl)

-- On tables that hold a log, the first event of the log with an identifier is found under it
-- exactly as it was committed, and nothing is found under any other identifier.
pub get_lem :
    (db : Database) (log : Log) (event_id : String)
    → Represents db log
    → get db event_id ≡ ok (find (λ e. e.event_id == event_id) log)
unfolding get
get_lem db log event_id r = elim (Option-cases (find (λ e. e.event_id == event_id) log)) [
  | inl e ↦ ground (arith, find_row db log event_id r)
  | inr (event, e) ↦ ground (
    arith,
    find_row db log event_id r,
    decode_row_of event (All-find IsStored (λ e. e.event_id == event_id) log event r.stored e).0,
  )
]
