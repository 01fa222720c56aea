-- ===== src/Store/Events/Log.antt =====
-- What the event store promises: one log of committed events, in which every stream is numbered
-- from 1 without gaps and a deduplication key stands once on its stream.
use pluribus.Base.{
  ℕ, suc, ◌+◌, ◌≡◌, refl, ap, ◌∙◌, inl, inr, String, Bool, false, none, some, List, [], ◌∷◌, ◌++◌,
  arith, ◌==◌, string_eq, option_eq, filter, find, length, filter-append, find-append_some,
  find-append_none, All, All-map, All-append, append-nil, ℤ, ==_iff, ==_refl, ◌&&◌, Bool-cases,
  Option-cases,
}
use pluribus.Core.Event.{AppendRequest, CommittedEvent}
use pluribus.Store.Rows.Roundtrip.{committed}

abbrev pub Log : Type 0
Log = List CommittedEvent

abbrev pub on_stream : String → CommittedEvent → Bool
on_stream stream event = event.request.stream_id == stream

-- The events of one stream, in the order of their commits.
abbrev pub of_stream : String → Log → Log
of_stream stream = filter (on_stream stream)

-- The event carries the deduplication key of the request, on the same stream.
abbrev pub repeats : AppendRequest → CommittedEvent → Bool
repeats request event = elim request.deduplication_key [
  | none ↦ false
  | some key ↦
      (event.request.stream_id == request.stream_id)
      && (event.request.deduplication_key == some key)
]

unfoldable pub log_append : Log → AppendRequest → String → ℤ → CommittedEvent × Log
log_append log request event_id recorded_at_ms =
    let event =
      committed request event_id (suc (length (of_stream request.stream_id log))) recorded_at_ms in
    elim (find (repeats request) log) [
      | some original ↦ (original, log)
      | none ↦ (event, log ++ (event ∷ []))
    ]

-- The sequences count up from `n`.
abbrev pub Numbered : ℕ → Log → Type 0
Numbered n [] = Unit {0}
Numbered n (e ∷ log) = (e.sequence ≡ n) × Numbered (suc n) log

-- Every stream counts its events from 1.
abbrev pub IsGapless : Log → Type 0
IsGapless log = (stream : String) → Numbered 1 (of_stream stream log)

Numbered-append :
    (n : ℕ) (xs : Log) (e : CommittedEvent)
    → Numbered n xs
    → e.sequence ≡ n + length xs
    → Numbered n (xs ++ (e ∷ []))
Numbered-append n [] e h k = (omega arith, tt)
Numbered-append n (x ∷ xs) e h k = (h.0, Numbered-append (suc n) xs e h.1 (omega arith))

-- A commit keeps every stream numbered from 1 without gaps.
pub log_append-IsGapless :
    (log : Log) (request : AppendRequest) (event_id : String) (recorded_at_ms : ℤ)
    → IsGapless log
    → IsGapless (log_append log request event_id recorded_at_ms).1
unfolding log_append
log_append-IsGapless log request event_id t h stream =
    elim (Option-cases (find (repeats request) log)) [
      | inr (original, e) ↦ rw (e, log_append) (h stream)
      | inl e ↦
          let event =
            committed request event_id (suc (length (of_stream request.stream_id log))) t in
          rw (e, log_append, filter-append (on_stream stream) log (event ∷ []))
            (elim (Bool-cases (request.stream_id == stream)) [
              | inl same ↦
                  let p = (==_iff request.stream_id stream).0 same in
                  rw same (
                    Numbered-append 1 (of_stream stream log) event (h stream)
                      (omega (arith, ap (λ s. length (of_stream s log)) p)))
              | inr other ↦ rw (other, append-nil) (h stream)
            ])
    ]

-- A committed request finds itself.
found :
    (event : CommittedEvent) (request : AppendRequest) (key : String)
    → request.deduplication_key ≡ some key
    → event.request ≡ request
    → find (repeats request) (event ∷ []) ≡ some event
found event request key k e = rw (e, k) (ground (arith, ==_refl request.stream_id, ==_refl key))

-- An event with a key is the first that its own request finds, so no other event of its stream
-- carries the key.
abbrev pub IsFirstOfKey : Log → CommittedEvent → Type 0
IsFirstOfKey log e =
    (key : String) → e.request.deduplication_key ≡ some key → find (repeats e.request) log ≡ some e

abbrev pub IsKeyed : Log → Type 0
IsKeyed log = All (IsFirstOfKey log) log

-- A commit keeps every key unique on its stream.
pub log_append-IsKeyed :
    (log : Log) (request : AppendRequest) (event_id : String) (recorded_at_ms : ℤ)
    → IsKeyed log
    → IsKeyed (log_append log request event_id recorded_at_ms).1
unfolding log_append
log_append-IsKeyed log request event_id t h = elim (Option-cases (find (repeats request) log)) [
  | inr (original, e) ↦ rw (e, log_append) h
  | inl e ↦
      let event = committed request event_id (suc (length (of_stream request.stream_id log))) t in
      rw (e, log_append)
        (All-append (IsFirstOfKey (log ++ (event ∷ []))) log (event ∷ [])
          (All-map (IsFirstOfKey log) (IsFirstOfKey (log ++ (event ∷ []))) log
            (λ x first key k. find-append_some (repeats x.request) log (event ∷ []) x (first key k))
            h)
          (
            λ key k.
                find-append_none (repeats request) log (event ∷ []) e
                ∙ found event request key k refl,
            tt,
          ))
]

-- A request with the key of an earlier event is answered by that event, whatever was committed
-- between the two, and commits nothing.
pub log_append_stable :
    (log later : Log) (request : AppendRequest) (original : CommittedEvent) (event_id : String)
    (recorded_at_ms : ℤ)
    → find (repeats request) log ≡ some original
    → log_append (log ++ later) request event_id recorded_at_ms ≡ (original, log ++ later)
unfolding log_append
log_append_stable log later request original event_id t h =
    rw (find-append_some (repeats request) log later original h, log_append)

-- The event that the log commits next.
abbrev pub following : Log → AppendRequest → String → ℤ → CommittedEvent
following log request event_id t =
    committed request event_id (suc (length (of_stream request.stream_id log))) t

pub log_append_new :
    (log : Log) (request : AppendRequest) (event_id : String) (t : ℤ)
    → find (repeats request) log ≡ none
    → log_append log request event_id t
      ≡ (following log request event_id t, log ++ (following log request event_id t ∷ []))
unfolding log_append
log_append_new log request event_id t e = rw (e, log_append)
