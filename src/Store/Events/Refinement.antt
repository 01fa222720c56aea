-- ===== src/Store/Events/Refinement.antt =====
-- The tables implement the log: what `append` answers and leaves is what the log promises.
pub mod Steps
pub mod Commit
pub mod Bounds
use mathlib.Core.Option as Option
use mathlib.Core.Path.{subst}
use pluribus.Base.{
  ℕ, zero, suc, ◌+◌, ◌≤◌, ◌<◌, ◌≡◌, ◌≢◌, refl, sym, ap, ◌∙◌, ◌⊎◌, inl, inr, ◌↔◌, String, Bool, true,
  false, not, ◌||◌, Option, none, some, List, [], ◌∷◌, ◌++◌, Result, ok, err, arith, ◌==◌,
  string_eq, option_eq, filter, find, any, map, length, length-append, filter-append, lookup,
  insert, lookup-insert, All, All-append, All-map, ℤ, ==_iff, ==_refl, if◌then◌else◌, ◌&&◌,
  Bool-cases, Option-cases, Result-cases, eqb, i64_max, Among, Distinct, map_err, append-nil,
}
use pluribus.Core.Event.{
  EventPayload, AppendRequest, AppendError, CommittedEvent, event_schema, validate, invalid_event,
  storage,
}
use pluribus.Store.Rows.{EventRow, encode_event, decode_event, encode_stream_kind}
use pluribus.Store.Rows.Roundtrip.{committed, FitsWords, decode-encode_event}
use pluribus.Store.Tables.{StreamRow, Database, Metadata, TextIndex}
use pluribus.Store.Events.{
  Prepared, existing, next, duplicate_of, prepare, ensure_stream, check_stream, violates_unique,
  insert_event, set_next_sequence, assign, append_in, append,
}
use pluribus.Store.Events.Log.{
  Log, on_stream, of_stream, repeats, log_append, IsGapless, IsKeyed, log_append-IsGapless,
  log_append-IsKeyed, Numbered,
}

-- The row of a committed event.
abbrev pub row_of : CommittedEvent → EventRow
row_of e = encode_event e.request e.event_id e.sequence e.recorded_at_ms

pub record IsStored (e : CommittedEvent) : Type 0 where
  pub schema : e.schema ≡ event_schema
  pub valid : validate e.request ≡ ok tt
  pub fits : FitsWords e.request.payload

abbrev pub next_of : Option StreamRow → ℕ
next_of none = 1
next_of (some row) = row.next_sequence

-- The tables hold the rows of the log, and each stream's counter is one past its events.
pub record Represents (db : Database) (log : Log) : Type 0 where
  pub rows : db.events ≡ map row_of log
  pub stored : All IsStored log
  pub counters :
      (stream : String) → next_of (lookup stream db.streams) ≡ suc (length (of_stream stream log))
  pub gapless : IsGapless log
  pub keyed : IsKeyed log

pub decode_row_of : (e : CommittedEvent) → IsStored e → decode_event (row_of e) ≡ ok e
decode_row_of e s =
    decode-encode_event e.request e.event_id e.sequence e.recorded_at_ms s.valid s.fits
    ∙ ap (λ schema. ok (record e { schema = schema })) (sym s.schema)

duplicate_row :
    (request : AppendRequest) (e : CommittedEvent)
    → duplicate_of request (row_of e) ≡ repeats request e
unfolding duplicate_of encode_event
duplicate_row request e = refl

pub find-map {ℓ} :
    {A B : Type ℓ} (p : B → Bool) (q : A → Bool) (f : A → B) (xs : List A)
    → ((a : A) → p (f a) ≡ q a)
    → find p (map f xs) ≡ Option.map f (find q xs)
find-map p q f [] h = refl
find-map p q f (x ∷ xs) h = ground (arith, h x, find-map p q f xs h)

pub All-find :
    {A : Type 0} (P : A → Type 0) (p : A → Bool) (xs : List A) (a : A)
    → All P xs
    → find p xs ≡ some a
    → P a × (p a ≡ true)
All-find P p [] a h e = ground arith
All-find P p (x ∷ xs) a h e = elim (Bool-cases (p x)) [
  | inl hit ↦ let q : x ≡ a = ground arith in (subst P q h.0, subst (λ b. p b ≡ true) q hit)
  | inr miss ↦ All-find P p xs a h.1 (ground arith)
]

-- The lookup under the key of the request.
pub find_duplicate :
    (db : Database) (log : Log) (request : AppendRequest)
    → Represents db log
    → find (duplicate_of request) db.events ≡ Option.map row_of (find (repeats request) log)
find_duplicate db log request r =
    ap (find (duplicate_of request)) r.rows
    ∙ find-map (duplicate_of request) (repeats request) row_of log (duplicate_row request)

pub Numbered-below : (n : ℕ) (xs : Log) → Numbered n xs → All (λ e. e.sequence < n + length xs) xs
Numbered-below n [] h = tt
Numbered-below n (x ∷ xs) h = (
  omega arith,
  All-map (λ e. e.sequence < suc n + length xs) (λ e. e.sequence < n + suc (length xs)) xs
      (λ e k. omega arith) (Numbered-below (suc n) xs h.1),
)

pub below_of_filter :
    (stream : String) (k : ℕ) (xs : Log)
    → All (λ e. e.sequence < k) (of_stream stream xs)
    → All (λ e. on_stream stream e ≡ true → e.sequence < k) xs
below_of_filter stream k [] h = tt
below_of_filter stream k (x ∷ xs) h = elim (Bool-cases (on_stream stream x)) [
  | inl hit ↦
      let g : All (λ e. e.sequence < k) (x ∷ of_stream stream xs) = rw hit at h in
      (λ _. g.0, below_of_filter stream k xs g.1)
  | inr miss ↦ (λ hit. ground arith, below_of_filter stream k xs (rw miss at h))
]

-- The new row breaks no unique column.
pub no_violation :
    (request : AppendRequest) (event_id : String) (sequence : ℕ) (t : ℤ) (log : Log)
    → any (λ row. row.event_id == event_id) (map row_of log) ≡ false
    → All (λ e. on_stream request.stream_id e ≡ true → e.sequence < sequence) log
    → find (repeats request) log ≡ none
    → any (violates_unique (encode_event request event_id sequence t)) (map row_of log) ≡ false
unfolding violates_unique encode_event
no_violation request event_id sequence t [] a b c = refl
no_violation request event_id sequence t (x ∷ log) a b c =
    elim (Option-cases request.deduplication_key) [
      | inl n ↦ ground (arith, no_violation request event_id sequence t log)
      | inr (key, k) ↦ ground (arith, no_violation request event_id sequence t log)
    ]
