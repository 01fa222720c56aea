-- ===== src/Cognition/EventStore/Sqlite.antt =====
-- The tables of the SQLite store as the event store of the router.
use mathlib.Core.Path.{subst}
use pluribus.Base.{
  ℕ, zero, suc, min, ◌+◌, ◌<◌, ◌≤◌, ◌≡◌, refl, sym, ap, ◌∙◌, inl, inr, String, true, false, none,
  some, [], ◌∷◌, Result, ok, err, arith, map_err, filter, take, drop, length, All, Holds, IsRising,
  ltb, Bool-cases, Option-cases, i64_max, string_eq,
}
use pluribus.Core.Event.{AppendError, AppendRequest, CommittedEvent, EventQuery, matches}
use pluribus.Store.Rows.Roundtrip.{FitsWords}
use pluribus.Store.Tables.{Database, Metadata, TextIndex}
use pluribus.Store.Events as Events
use pluribus.Store.Events.Query as Query
use pluribus.Store.Events.Query.{ordered}
use pluribus.Store.Events.Log.{Log, of_stream, Numbered}
use pluribus.Store.Events.Reading.{read_lem, get_lem, filter_after}
use pluribus.Store.Events.Query.Matching.{query_lem, query_beyond}
use pluribus.Store.Events.Refinement.{Represents}
use pluribus.Store.Events.Refinement.Commit.{append_refines, drawn_id, drawn_time}
use pluribus.Store.Events.Refinement.Bounds.{IsBounded, append-IsBounded}
use pluribus.Cognition.EventStore.{EventStore, IsEventLog}

above : (k n : ℕ) (xs : Log) → k < n → Numbered n xs → All (λ e. k < e.sequence) xs
above k n [] l h = tt
above k n (x ∷ xs) l h = (omega (arith, h.0), above k (suc n) xs (omega arith) h.1)

Numbered-Rises : (n : ℕ) (xs : Log) → Numbered n xs → IsRising (λ e. e.sequence) xs
Numbered-Rises n [] h = tt
Numbered-Rises n (x ∷ xs) h =
    (above x.sequence (suc n) xs (omega (arith, h.0)) h.1, Numbered-Rises (suc n) xs h.1)

at_most :
    (n k : ℕ) (xs : Log) → Numbered n xs → n + length xs ≤ suc k → All (λ e. e.sequence ≤ k) xs
at_most n k [] h l = tt
at_most n k (x ∷ xs) h l = (omega (arith, h.0), at_most (suc n) k xs h.1 (omega arith))

none_match :
    (q : EventQuery) (a k : ℕ) (xs : Log)
    → q.after_sequence ≡ some a
    → k < a
    → All (λ e. e.sequence ≤ k) xs
    → filter (matches q) xs ≡ []
unfolding matches
none_match q a k [] e l h = refl
none_match q a k (x ∷ xs) e l h = ground (arith, h.0, none_match q a k xs e l h.1)

take_nil : (n : ℕ) → take {A = CommittedEvent} n [] ≡ []
take_nil zero = refl
take_nil (suc n) = refl

map_err_ok :
    (f : AppendError → String) (r : Result AppendError CommittedEvent) (event : CommittedEvent)
    → map_err f r ≡ ok event
    → r ≡ ok event
map_err_ok f (ok e) event h = ground arith
map_err_ok f (err e) event h = absurd (ground arith)

triple_path :
    {A B C : Type 0} (r : A × B × C) {a : A} {b : B} {c : C}
    → r.0 ≡ a
    → r.1 ≡ b
    → r.2 ≡ c
    → r ≡ (a, b, c)
triple_path r p q t = λ i. (p i, q i, t i)

past_drop :
    (after : ℕ) (xs : Log) → Numbered 1 xs → filter (λ e. ltb after e.sequence) xs ≡ drop after xs
past_drop after xs h =
    subst (λ k. filter (λ e. ltb k e.sequence) xs ≡ drop after xs) {x = after + 0} {y = after}
      (omega arith) (filter_after after 0 xs h)

lt_of : {a b : ℕ} → ltb a b ≡ true → a < b
lt_of h = ground arith

le_of : {a b : ℕ} → ltb a b ≡ false → b ≤ a
le_of h = ground arith

cut : (n : ℕ) → n ≤ i64_max → min n i64_max ≡ n
cut n h = omega arith

module _ {M : Type 0} (index : TextIndex) (metadata : Metadata M)
    (text : AppendError → String) where
  abbrev pub sqlite : EventStore (Database × M)
  sqlite = record {
    append = λ s request. (
      map_err text (Events.append index metadata s.1 s.0 request).0,
      (
        (Events.append index metadata s.1 s.0 request).1,
        (Events.append index metadata s.1 s.0 request).2,
      ),
    );
    get = λ s id. map_err text (Events.get s.0 id);
    read = λ s stream after limit. map_err text (Events.read s.0 stream after limit);
    query = λ s stream q limit. map_err text (Query.query index s.0 stream q limit);
  }

  refused-append :
      (m : M) (db : Database) (request : AppendRequest) (e : String)
      → map_err text (Events.append index metadata m db request).0 ≡ err e
      → (Events.append index metadata m db request).1 ≡ db
  unfolding Events.append
  refused-append m db request e h = ground arith

  -- The tables hold the log, and its sequences have room.
  abbrev pub Holding : Database × M → Log → Type 0
  Holding s log = Represents s.0 log × IsBounded log

  query-Holding :
      (s : Database × M) (log : Log) (stream : String) (q : EventQuery) (limit : ℕ)
      → Holding s log
      → q.text_query ≡ none
      → q.descending ≡ false
      → q.before_sequence ≡ none
      → limit ≤ i64_max
      → sqlite.query s stream q limit ≡ ok (take limit (filter (matches q) (of_stream stream log)))
  query-Holding s log stream q limit (r, bounded) plain up before small =
      let own = of_stream stream log in
      let unbounded : Holds (λ b. b ≤ i64_max) q.before_sequence = rw before tt in
      let answer : Holds (λ a. a ≤ i64_max) q.after_sequence
          → sqlite.query s stream q limit ≡ ok (take limit (filter (matches q) own)) =
        λ h.
          ap (map_err text) (query_lem index s.0 log stream q limit r plain h unbounded)
          ∙ ap (λ n. ok (take n (ordered q.descending (filter (matches q) own)))) (cut limit small)
          ∙ ap (λ d. ok (take limit (ordered d (filter (matches q) own)))) up in
      elim (Option-cases q.after_sequence) [
        | inl e ↦ answer (rw e tt)
        | inr (a, e) ↦ elim (Bool-cases (ltb i64_max a)) [
          | inr low ↦ answer (rw e (le_of low))
          | inl high ↦
              let nothing =
                none_match q a i64_max own e (lt_of high)
                  (at_most 1 i64_max own (r.gapless stream) (omega (arith, bounded stream))) in
              ap (map_err text) (query_beyond index s.0 stream q limit a e (lt_of high))
              ∙ ap ok (sym (take_nil limit) ∙ ap (take limit) (sym nothing))
        ]
      ]

  -- The tables of the SQLite store, holding a log whose sequences have room, are an event log as
  -- the router relies on.
  pub sqlite-IsEventLog : IsEventLog sqlite Holding
  sqlite-IsEventLog = record {
    rising = λ s log stream (r, b). Numbered-Rises 1 (of_stream stream log) (r.gapless stream);
    positive =
        λ s log stream (r, b). above 0 1 (of_stream stream log) (omega arith) (r.gapless stream);
    get_law = λ s log id (r, b). ap (map_err text) (get_lem s.0 log id r);
    read_law = λ s log stream after limit (r, b) small.
        ap (map_err text) (read_lem s.0 log stream after limit r (omega (arith, b stream)))
        ∙ ap (λ n. ok (take n (drop after (of_stream stream log)))) (cut limit small)
        ∙ ap (λ xs. ok (take limit xs))
            (sym (past_drop after (of_stream stream log) (r.gapless stream)));
    query_law = query-Holding;
    append_law = λ s after log request bytes event (r, b) p h.
        let done =
          triple_path (Events.append index metadata s.1 s.0 request)
            (map_err_ok text (Events.append index metadata s.1 s.0 request).0 event
              (ap (λ x. x.0) h))
            (ap (λ x. x.1.0) h) (ap (λ x. x.1.1) h) in
        let (same, held) =
          append_refines index metadata s.1 after.1 s.0 after.0 log request event r
            (subst FitsWords (sym p) tt) done in
        (
          drawn_id index metadata s.1,
          drawn_time index metadata s.1,
          same,
          (
            held,
            append-IsBounded index metadata s.1 after.1 s.0 after.0 log request event r b done,
          ),
        );
    refused_law = λ s after log request e (r, b) h.
        let kept = refused-append s.1 s.0 request e (ap (λ x. x.0) h) in
        (subst (λ db. Represents db log) (sym kept ∙ ap (λ x. x.1.0) h) r, b);
  }
