-- ===== src/Store/Delivery/Refinement.antt =====
-- A delivery that commits against the log: its events are steps of the log.
use mathlib.Core.Path.{subst}
use pluribus.Base.{
  ℕ, ◌≡◌, refl, sym, ap, ◌∙◌, inl, inr, String, Option, none, some, List, [], ◌∷◌, ok, arith, All,
  ℤ, Result-cases, string_eq, lookup,
}
use pluribus.Core.Event.{AppendRequest, CommittedEvent}
use pluribus.Core.Delivery.{CursorKey, DeliveryCommit, DeliveryReceipt}
use pluribus.Store.Rows.Roundtrip.{FitsWords}
use pluribus.Store.Tables.{SameEvents, Database, Metadata, TextIndex, cursor_eq}
use pluribus.Store.State.Updates.{ensure_namespace-SameEvents, mutate-SameEvents}
use pluribus.Store.Delivery.Commits.{commit-Committed}
use pluribus.Store.Events.{append_in}
use pluribus.Store.Events.Log.{Log, log_append}
use pluribus.Store.Events.Refinement.{Represents, next_of}
use pluribus.Store.Events.Refinement.Commit.{append_in_refines, drawn_id, drawn_time}
use pluribus.Store.State.{state_revision, ensure_namespace}
use pluribus.Store.Delivery.{move_cursor, append_all, commit}

-- Requests commit one after the other, each as one step of the log.
pub data Appends : Log → List AppendRequest → List CommittedEvent → Log → Type 0 where
  done : (log : Log) → Appends log [] [] log
  step :
      (log : Log) (request : AppendRequest) (event_id : String) (t : ℤ)
      (requests : List AppendRequest) (events : List CommittedEvent) (final : Log)
      → Appends (log_append log request event_id t).1 requests events final
      → Appends log (request ∷ requests) ((log_append log request event_id t).0 ∷ events) final

-- Tables with the same events and counters represent the same log.
same-Represents :
    (db after : Database) (log : Log)
    → SameEvents db after
    → Represents db log
    → Represents after log
same-Represents db after log (e, s) r = record {
  rows = e ∙ r.rows;
  stored = r.stored;
  counters = λ stream. ap (λ streams. next_of (lookup stream streams)) s ∙ r.counters stream;
  gapless = r.gapless;
  keyed = r.keyed;
}

move_cursor-SameEvents :
    (cursor : CursorKey) (to : Option ℕ) (db : Database) → SameEvents db (move_cursor cursor to db)
unfolding move_cursor
move_cursor-SameEvents cursor none db = (refl, refl)
move_cursor-SameEvents cursor (some checkpoint) db = (refl, refl)

module _ {M : Type 0} (index : TextIndex) (metadata : Metadata M) where
  append_all_refines :
      (m m' : M) (db after : Database) (log : Log) (requests : List AppendRequest)
      (events : List CommittedEvent)
      → Represents db log
      → All (λ r. FitsWords r.payload) requests
      → append_all index metadata m db requests ≡ (ok (events, after), m')
      → (final : Log) × Appends log requests events final × Represents after final
  unfolding append_all
  append_all_refines m m' db after log [] events r fits h = (
    log,
    subst (λ es. Appends log [] es log) (ground arith) (done log),
    subst (λ d. Represents d log) (ground arith) r,
  )
  append_all_refines m m' db after log (request ∷ requests) events r fits h =
      elim (Result-cases (append_in index metadata m db request).0) [
        | inr (e, a) ↦ absurd (ground arith)
        | inl ((event, between), a) ↦
            let next_m = (append_in index metadata m db request).1 in
            let (answered, r') =
              append_in_refines index metadata m next_m db between log request event r fits.0
                (ground arith) in
            elim (Result-cases (append_all index metadata next_m between requests).0) [
              | inr (e, b) ↦ absurd (ground arith)
              | inl ((rest, final_db), b) ↦
                  let next_log =
                    (log_append log request (drawn_id index metadata m)
                      (drawn_time index metadata m)).1 in
                  let (final, appends, represents) =
                    append_all_refines next_m (append_all index metadata next_m between requests).1
                      between final_db next_log requests rest r' fits.1 (ground arith) in
                  (
                    final,
                    subst (λ es. Appends log (request ∷ requests) es final)
                        (ground (arith, answered))
                        (step log request (drawn_id index metadata m) (drawn_time index metadata m)
                          requests rest final appends),
                    subst (λ d. Represents d final) (ground arith) represents,
                  )
            ]
      ]

  -- On tables that hold a log, for events whose blobs have sizes of 64 bits: a delivery that
  -- commits appends its events to the log, one step after the other, its receipt has the events
  -- of those steps, and the tables hold the log that results.
  pub commit_refines :
      (m m' : M) (db after : Database) (log : Log) (delivery : DeliveryCommit)
      (receipt : DeliveryReceipt)
      → Represents db log
      → All (λ r. FitsWords r.payload) delivery.events
      → commit index metadata m db delivery ≡ (ok receipt, after, m')
      → (final : Log) × Appends log delivery.events receipt.events final × Represents after final
  commit_refines m m' db after log delivery receipt r fits h =
      let c = commit-Committed index metadata m m' db after delivery receipt h in
      let namespace = delivery.cursor.namespace in
      let created = ensure_namespace namespace db in
      let created_r = same-Represents db created log (ensure_namespace-SameEvents namespace db) r in
      let mutated_r =
        same-Represents created c.mutated log
          (mutate-SameEvents namespace (state_revision created namespace) delivery.mutations created
            receipt.revision c.mutated c.mutation)
          created_r in
      let (final, appends, represents) =
        append_all_refines m m' c.mutated c.appended log delivery.events receipt.events mutated_r
          fits c.appends in
      (
        final,
        appends,
        subst (λ d. Represents d final) (sym c.moved)
            (same-Represents c.appended (move_cursor delivery.cursor delivery.checkpoint c.appended)
              final (move_cursor-SameEvents delivery.cursor delivery.checkpoint c.appended)
              represents),
      )
