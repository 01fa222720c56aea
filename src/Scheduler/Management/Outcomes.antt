-- ===== src/Scheduler/Management/Outcomes.antt =====
-- What a request for the schedules can do: the cases of `manage` that succeed.
use pluribus.Base.{
  ◌+◌, ◌≤◌, ◌≡◌, refl, ap, ◌∙◌, inl, inr, String, false, none, some, Result, ok, arith, ℤ, u64_max,
  Option-cases, Bool-cases, bind_ok, ok_or_ok, ok_or, fail_if, leb, fail_if_ok, insert, remove,
  string_eq, ◌==◌, ◌>>=◌,
}
use pluribus.Json.{Value, Members, get, at}
use pluribus.Scheduler.Schedule.{Schedule, Calendar, first}
use pluribus.Scheduler.Management.{
  Schedules, Change, Codec, key_of, text, given, named, prompted, retimed, update, resume, edit,
  revise, find_owned, change, list, create, manage, store, existing,
}

-- The same schedule, by its id, at the same revision.
abbrev IsSame : Schedule → Schedule → Type 0
IsSame s t = (t.id ≡ s.id) × (t.revision ≡ s.revision)

-- The same schedule at its next revision, which a `u64` holds, in the name of the request.
abbrev pub IsRevision : Schedule → Schedule → String → String → Members → Type 0
IsRevision s t request_id origin_id origin =
    (t.id ≡ s.id)
    × (t.revision ≡ s.revision + 1)
    × (t.revision ≤ u64_max)
    × (t.cause ≡ request_id)
    × (t.origin_event_id ≡ origin_id)
    × (t.origin ≡ origin)

-- The ways in which a request that succeeds leaves the schedules, and the change it reports.
pub data Outcome (schedules : Schedules) (request_id origin_id : String) (origin : Members)
    (change : Change) (after : Schedules) : Type 0 where
  unchanged :
      change ≡ none → after ≡ schedules → Outcome schedules request_id origin_id origin change after
  created :
      (s : Schedule)
      → s.id ≡ request_id
      → s.revision ≡ 1
      → s.origin ≡ origin
      → change ≡ some (request_id, some s)
      → after ≡ insert (key_of request_id) s schedules
      → Outcome schedules request_id origin_id origin change after
  deleted :
      (id : String) (s : Schedule)
      → find_owned schedules id origin ≡ some s
      → change ≡ some (id, none)
      → after ≡ remove (key_of id) schedules
      → Outcome schedules request_id origin_id origin change after
  revised :
      (id : String) (s t : Schedule)
      → find_owned schedules id origin ≡ some s
      → IsRevision s t request_id origin_id origin
      → change ≡ some (id, some t)
      → after ≡ insert (key_of id) t schedules
      → Outcome schedules request_id origin_id origin change after

IsSame-trans : (s t u : Schedule) → IsSame s t → IsSame t u → IsSame s u
IsSame-trans s t u h k = (k.0 ∙ h.0, k.1 ∙ h.1)

given-IsSame :
    (args : Value) (field : String) (s t : Schedule) (f : Value → Result String Schedule)
    → ((v : Value) → f v ≡ ok t → IsSame s t)
    → given args field s f ≡ ok t
    → IsSame s t
given-IsSame args field s t f each h = elim (Option-cases (get args field)) [
  | inl e ↦ ground arith
  | inr (v, e) ↦ each v (ground arith)
]

named-IsSame : (args : Value) (s t : Schedule) (v : Value) → named args s v ≡ ok t → IsSame s t
named-IsSame args s t v h = let (name, p, k) = bind_ok (text args "name" 200) _ t h in ground arith

prompted-IsSame :
    (args : Value) (s t : Schedule) (v : Value) → prompted args s v ≡ ok t → IsSame s t
prompted-IsSame args s t v h =
    let (prompt, p, k) = bind_ok (text args "prompt" 8192) _ t h in ground arith

resume-IsSame : (s t : Schedule) → resume s ≡ ok t → IsSame s t
resume-IsSame s t h = elim (Option-cases s.next_at_ms) [
  | inl e ↦ ground arith
  | inr (v, e) ↦ ground arith
]

revise-IsRevision :
    (request_id origin_id : String) (origin : Members) (s t : Schedule)
    → revise request_id origin_id origin s ≡ ok t
    → IsRevision s t request_id origin_id origin
unfolding revise
revise-IsRevision request_id origin_id origin s t h =
    let (u, p, k) = bind_ok (fail_if (leb u64_max s.revision) "revision exhausted") _ t h in
    let small = fail_if_ok (leb u64_max s.revision) "revision exhausted" u p in ground arith

module _ {Zone Pattern : Type 0} (calendar : Calendar Zone Pattern) (codec : Codec) where
  retimed-IsSame :
      (now : ℤ) (s t : Schedule) (v : Value) → retimed calendar codec now s v ≡ ok t → IsSame s t
  retimed-IsSame now s t v h =
      let (timing, p, k) = bind_ok (codec.timing_of v) _ t h in
      let (next_at, q, l) = bind_ok (first calendar timing now) _ t k in ground arith

  update-IsSame :
      (args : Value) (now : ℤ) (s t : Schedule)
      → update calendar codec args now s ≡ ok t
      → IsSame s t
  unfolding update
  update-IsSame args now s t h =
      let (v, p, k) =
        bind_ok
          (given args "name" s (named args s) >>= (λ s. given args "prompt" s (prompted args s)))
          (λ s. given args "timing" s (retimed calendar codec now s)) t h in
      let (u, q, l) = bind_ok (given args "name" s (named args s)) _ v p in
      IsSame-trans s u t (given-IsSame args "name" s u (named args s) (named-IsSame args s u) q) (
        IsSame-trans u v t
          (given-IsSame args "prompt" u v (prompted args u) (prompted-IsSame args u v) l)
          (given-IsSame args "timing" v t (retimed calendar codec now v) (retimed-IsSame now v t)
            k))

  edit-IsSame :
      (capability : String) (args : Value) (now : ℤ) (s t : Schedule)
      → edit calendar codec capability args now s ≡ ok t
      → IsSame s t
  unfolding edit
  edit-IsSame capability args now s t h =
      ground (arith, resume-IsSame s t, update-IsSame args now s t)

  module _ (schedules : Schedules) (request_id origin_id : String) (origin : Members)
      (now : ℤ) where
    list-Outcome :
        (args v : Value) (c : Change) (after : Schedules)
        → list calendar codec schedules args origin ≡ ok ((v, c), after)
        → Outcome schedules request_id origin_id origin c after
    unfolding list
    list-Outcome args v c after h = unchanged (ground arith) (ground arith)

    create-Outcome :
        (args v : Value) (c : Change) (after : Schedules)
        → create calendar codec schedules args request_id origin_id origin now ≡ ok ((v, c), after)
        → Outcome schedules request_id origin_id origin c after
    unfolding create
    create-Outcome args v c after h =
        let (name, p, h1) = bind_ok (text args "name" 200) _ ((v, c), after) h in
        let (prompt, q, h2) = bind_ok (text args "prompt" 8192) _ ((v, c), after) h1 in
        let (timing, r, h3) = bind_ok (codec.timing_of (at args "timing")) _ ((v, c), after) h2 in
        let (due, u, h4) = bind_ok (first calendar timing now) _ ((v, c), after) h3 in
        created
          (record {
            id = request_id;
            revision = 1;
            name = name;
            prompt = prompt;
            timing = timing;
            next_at_ms = some due;
            last_at_ms = none;
            paused = false;
            error = none;
            origin_event_id = origin_id;
            origin = origin;
            cause = request_id;
          })
          refl refl refl (ground arith) (ground arith)

    store-Outcome :
        (capability : String) (args : Value) (id : String) (s : Schedule) (v : Value) (c : Change)
        (after : Schedules)
        → find_owned schedules id origin ≡ some s
        → store calendar codec schedules capability args request_id origin_id origin now id s
          ≡ ok ((v, c), after)
        → Outcome schedules request_id origin_id origin c after
    unfolding store
    store-Outcome capability args id s v c after found h =
        let (edited, p, h1) =
          bind_ok (edit calendar codec capability args now s) _ ((v, c), after) h in
        let (t, q, h2) = bind_ok (revise request_id origin_id origin edited) _ ((v, c), after) h1 in
        let same = edit-IsSame capability args now s edited p in
        let (by_id, by_one, bound, cause, event, from_origin) =
          revise-IsRevision request_id origin_id origin edited t q in
        revised id s t found
          (by_id ∙ same.0, by_one ∙ ap (λ n. n + 1) same.1, bound, cause, event, from_origin)
          (ground arith) (ground arith)

    change-Outcome :
        (capability : String) (args : Value) (id : String) (s : Schedule) (v : Value) (c : Change)
        (after : Schedules)
        → find_owned schedules id origin ≡ some s
        → change calendar codec schedules capability args request_id origin_id origin now id s
          ≡ ok ((v, c), after)
        → Outcome schedules request_id origin_id origin c after
    unfolding change
    change-Outcome capability args id s v c after found h =
        elim (Bool-cases (capability == "schedule.get")) [
          | inl is_get ↦ unchanged (ground arith) (ground arith)
          | inr other ↦ elim (Bool-cases (capability == "schedule.delete")) [
            | inl is_delete ↦ deleted id s found (ground arith) (ground arith)
            | inr rest ↦ store-Outcome capability args id s v c after found (ground arith)
          ]
        ]

    existing-Outcome :
        (capability : String) (args v : Value) (c : Change) (after : Schedules)
        → existing calendar codec schedules capability args request_id origin_id origin now
          ≡ ok ((v, c), after)
        → Outcome schedules request_id origin_id origin c after
    unfolding existing
    existing-Outcome capability args v c after h =
        let (id, p, h1) = bind_ok (text args "id" 256) _ ((v, c), after) h in
        let (s, q, h2) =
          bind_ok (ok_or (find_owned schedules id origin) "schedule not found in this conversation")
            _ ((v, c), after) h1 in
        change-Outcome capability args id s v c after
          (ok_or_ok (find_owned schedules id origin) "schedule not found in this conversation" s q)
          h2

    pub manage-Outcome :
        (capability : String) (args v : Value) (c : Change) (after : Schedules)
        → manage calendar codec schedules capability args request_id origin_id origin now
          ≡ ok ((v, c), after)
        → Outcome schedules request_id origin_id origin c after
    unfolding manage
    manage-Outcome capability args v c after h = elim (Bool-cases (capability == "schedule.list")) [
      | inl is_list ↦ list-Outcome args v c after (ground arith)
      | inr other ↦ elim (Bool-cases (capability == "schedule.create")) [
        | inl is_create ↦ create-Outcome args v c after (ground arith)
        | inr rest ↦ existing-Outcome capability args v c after (ground arith)
      ]
    ]
