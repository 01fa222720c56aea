-- ===== src/Store/Events/Refinement/Bounds.antt =====
-- The sequences stay in the range of the column.
use pluribus.Base.{
  suc, ◌≤◌, ◌≡◌, ◌≢◌, refl, sym, ap, ◌∙◌, inl, inr, String, [], ◌∷◌, ◌++◌, ok, arith, ◌==◌,
  string_eq, filter, filter-append, length, length-append, ℤ, Bool-cases, i64_max, ==_iff,
  append-nil,
}
use pluribus.Core.Event.{AppendRequest, CommittedEvent}
use pluribus.Store.Tables.{Database, Metadata, TextIndex}
use pluribus.Store.Events.{append}
use pluribus.Store.Events.Log.{
  Log, of_stream, on_stream, log_append, log_append_new, log_append_stable, following,
}
use pluribus.Store.Events.Refinement.{Represents}
use pluribus.Store.Events.Refinement.Steps.{
  ensure_stream-Represents, prepare-existing, prepare-next, counter_next, prepare-room,
}
use pluribus.Store.Events.Refinement.Commit.{append_in_ok, drawn_id, drawn_time}
use mathlib.Core.Path.{subst}

-- The next sequence of every stream fits the column.
abbrev pub IsBounded : Log → Type 0
IsBounded log = (stream : String) → suc (length (of_stream stream log)) ≤ i64_max

IsBounded-step :
    (log : Log) (request : AppendRequest) (id : String) (t : ℤ)
    → suc (length (of_stream request.stream_id log)) ≢ i64_max
    → IsBounded log
    → IsBounded (log ++ (following log request id t ∷ []))
IsBounded-step log request id t room h stream =
    let event = following log request id t in
    let split =
      ap length (filter-append (on_stream stream) log (event ∷ []))
      ∙ length-append (of_stream stream log) (filter (on_stream stream) (event ∷ [])) in
    elim (Bool-cases (request.stream_id == stream)) [
      | inl same ↦
          let last : length (filter (on_stream stream) (event ∷ [])) ≡ 1 = rw same refl in
          let open_end : suc (length (of_stream stream log)) ≢ i64_max = λ q. room (
            ap (λ x. suc (length (of_stream x log))) ((==_iff request.stream_id stream).0 same)
            ∙ q) in
          omega (arith, split, last, h stream, open_end)
      | inr other ↦
          let last : length (filter (on_stream stream) (event ∷ [])) ≡ 0 = rw other refl in
          omega (arith, split, last, h stream)
    ]

module _ {M : Type 0} (index : TextIndex) (metadata : Metadata M) where
  -- On tables that hold a log whose streams have room in the range of the sequences, a commit that
  -- succeeds leaves a log whose streams have room: no sequence that is given out leaves the range.
  pub append-IsBounded :
      (m m' : M) (db after : Database) (log : Log) (request : AppendRequest)
      (event : CommittedEvent)
      → Represents db log
      → IsBounded log
      → append index metadata m db request ≡ (ok event, after, m')
      → IsBounded
          (log_append log request (drawn_id index metadata m) (drawn_time index metadata m)).1
  unfolding append
  append-IsBounded m m' db after log request event r h a =
      elim (append_in_ok index metadata m m' db after request event (ground arith)) [
        | inl (e, same) ↦
            let hit =
              log_append_stable log [] request event (drawn_id index metadata m)
                (drawn_time index metadata m) (prepare-existing db log request event r e) in
            subst IsBounded
              (sym (
                ap (λ x. x.1)
                  (subst
                    (λ l.
                      log_append l request (drawn_id index metadata m) (drawn_time index metadata m)
                      ≡ (event, l))
                    (append-nil log) hit)))
              h
        | inr (created, sequence, e, done) ↦
            let (fresh, valid, placed, counter) =
              prepare-next db created log request sequence r e in
            let r' : Represents created log =
              subst (λ d. Represents d log) (sym placed)
                (ensure_stream-Represents request db log r) in
            let full = sym (counter_next created log request sequence r' counter) in
            subst IsBounded
              (sym (
                ap (λ x. x.1)
                  (log_append_new log request (drawn_id index metadata m)
                    (drawn_time index metadata m) fresh)))
              (IsBounded-step log request (drawn_id index metadata m) (drawn_time index metadata m)
                (λ q. prepare-room db created request sequence e (sym full ∙ q)) h)
      ]
