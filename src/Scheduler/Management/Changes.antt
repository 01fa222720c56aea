-- ===== src/Scheduler/Management/Changes.antt =====
-- What the requests keep of the schedules: whose they are, their keys and their revisions.
use pluribus.Base.{
  ◌+◌, ◌≤◌, ◌≡◌, ◌≢◌, refl, sym, ap, ◌∙◌, inl, inr, String, true, false, none, some, ok, arith, ℤ,
  u64_max, leb, Option-cases, Bool-cases, lookup, insert, string_eq, ◌==◌, ==_iff, lookup-insert,
  lookup-remove, Everywhere, Everywhere-insert, Everywhere-remove,
}
use pluribus.Json.{Value, Members}
use pluribus.Scheduler.Schedule.{Schedule, Calendar, owned_by, occurrence, due_at}
use pluribus.Scheduler.Management.{
  Schedules, Change, Codec, key_of, find_owned, manage, schedule_mutation, existing, change, store,
  edit, revise, text,
}
use pluribus.Scheduler.Schedule.Occurrences.{none_due}
use pluribus.Scheduler.Management.Outcomes.{
  Outcome, unchanged, created, deleted, revised, manage-Outcome,
}

find_owned-lookup :
    (schedules : Schedules) (id : String) (origin : Members) (s : Schedule)
    → find_owned schedules id origin ≡ some s
    → (lookup (key_of id) schedules ≡ some s) × (owned_by s origin ≡ true)
unfolding find_owned
find_owned-lookup schedules id origin s h = elim (Option-cases (lookup (key_of id) schedules)) [
  | inl e ↦ absurd (ground arith)
  | inr (t, e) ↦ elim (Bool-cases (owned_by t origin)) [
    | inl mine ↦ (e ∙ ap some (ground arith), ground arith)
    | inr strange ↦ absurd (ground arith)
  ]
]

apart_keys : (key k : String) → key ≢ k → (k == key) ≡ false
apart_keys key k h = elim (Bool-cases (k == key)) [
  | inl same ↦ absurd (h (sym ((==_iff k key).0 same)))
  | inr other ↦ other
]

apart :
    (schedules : Schedules) (key k : String) (origin : Members) (s t : Schedule)
    → lookup key schedules ≡ some s
    → owned_by s origin ≡ false
    → lookup k schedules ≡ some t
    → owned_by t origin ≡ true
    → (k == key) ≡ false
apart schedules key k origin s t found other own mine =
    apart_keys key k
      (λ same. let path = sym found ∙ ap (λ j. lookup j schedules) same ∙ own in ground arith)

-- Each schedule stands under the key of its own id, at a revision that a `u64` holds.
abbrev pub IsFiled : Schedules → Type 0
IsFiled schedules = Everywhere (λ key s. (key ≡ key_of s.id) × (s.revision ≤ u64_max)) schedules

Outcome-strangers :
    (schedules : Schedules) (request_id origin_id : String) (origin : Members) (change : Change)
    (after : Schedules) (key : String) (s : Schedule)
    → Outcome schedules request_id origin_id origin change after
    → lookup key schedules ≡ some s
    → owned_by s origin ≡ false
    → key ≢ key_of request_id
    → lookup key after ≡ some s
Outcome-strangers schedules request_id origin_id origin change after key s (unchanged c e) found
      other fresh =
    ap (lookup key) e ∙ found
Outcome-strangers schedules request_id origin_id origin change after key s (created t a b o c e)
      found other fresh =
    ap (lookup key) e
    ∙ lookup-insert (key_of request_id) key t schedules
    ∙ rw (apart_keys key (key_of request_id) fresh) found
Outcome-strangers schedules request_id origin_id origin change after key s (deleted id t a c e)
      found other fresh =
    let (own, mine) = find_owned-lookup schedules id origin t a in
    ap (lookup key) e
    ∙ lookup-remove (key_of id) key schedules
    ∙ rw (apart schedules key (key_of id) origin s t found other own mine) found
Outcome-strangers schedules request_id origin_id origin change after key s (revised id t u a b c e)
      found other fresh =
    let (own, mine) = find_owned-lookup schedules id origin t a in
    ap (lookup key) e
    ∙ lookup-insert (key_of id) key u schedules
    ∙ rw (apart schedules key (key_of id) origin s t found other own mine) found

Outcome-applied :
    (schedules : Schedules) (request_id origin_id : String) (origin : Members) (change : Change)
    (after : Schedules)
    → Outcome schedules request_id origin_id origin change after
    → after ≡ schedule_mutation change schedules
Outcome-applied schedules request_id origin_id origin change after (unchanged c e) = rw (c, e) refl
Outcome-applied schedules request_id origin_id origin change after (created t a b o c e) =
    rw (c, e) refl
Outcome-applied schedules request_id origin_id origin change after (deleted id t a c e) =
    rw (c, e) refl
Outcome-applied schedules request_id origin_id origin change after (revised id t u a b c e) =
    rw (c, e) refl

Outcome-IsFiled :
    (schedules : Schedules) (request_id origin_id : String) (origin : Members) (change : Change)
    (after : Schedules)
    → Outcome schedules request_id origin_id origin change after
    → IsFiled schedules
    → IsFiled after
Outcome-IsFiled schedules request_id origin_id origin change after (unchanged c e) filed =
    rw e filed
Outcome-IsFiled schedules request_id origin_id origin change after (created t a b o c e) filed =
    rw e (Everywhere-insert _ (key_of request_id) t schedules (rw a refl, ground arith) filed)
Outcome-IsFiled schedules request_id origin_id origin change after (deleted id t a c e) filed =
    rw e (Everywhere-remove _ (key_of id) schedules filed)
Outcome-IsFiled schedules request_id origin_id origin change after (revised id t u a b c e) filed =
    let (own, mine) = find_owned-lookup schedules id origin t a in
    let key = (filed (key_of id) t own).0 in
    rw e (Everywhere-insert _ (key_of id) u schedules (key ∙ ap key_of (sym b.0), b.2) filed)

paused-due_at : (s : Schedule) (now : ℤ) → s.paused ≡ true → due_at s now ≡ none
unfolding due_at
paused-due_at s now h = elim (Option-cases s.next_at_ms) [
  | inl e ↦ rw e refl
  | inr (due, e) ↦ rw e (ground arith)
]

module _ {Zone Pattern : Type 0} (calendar : Calendar Zone Pattern) (codec : Codec) where
  -- A request that succeeds leaves every schedule of another conversation as it is, unless the
  -- schedule stands under the key that the request's own id makes.
  pub manage-strangers :
      (schedules : Schedules) (capability : String) (args : Value) (request_id origin_id : String)
      (origin : Members) (now : ℤ) (v : Value) (c : Change) (after : Schedules) (key : String)
      (s : Schedule)
      → manage calendar codec schedules capability args request_id origin_id origin now
        ≡ ok ((v, c), after)
      → lookup key schedules ≡ some s
      → owned_by s origin ≡ false
      → key ≢ key_of request_id
      → lookup key after ≡ some s
  manage-strangers schedules capability args request_id origin_id origin now v c after key s h =
      Outcome-strangers schedules request_id origin_id origin c after key s (
        manage-Outcome calendar codec schedules request_id origin_id origin now capability args v c
          after h)

  -- A request that succeeds leaves the schedules as the change that it reports makes the stored
  -- ones, and keeps each of them under the key of its id at a revision that a `u64` holds.
  pub manage-applied :
      (schedules : Schedules) (capability : String) (args : Value) (request_id origin_id : String)
      (origin : Members) (now : ℤ) (v : Value) (c : Change) (after : Schedules)
      → IsFiled schedules
      → manage calendar codec schedules capability args request_id origin_id origin now
        ≡ ok ((v, c), after)
      → (after ≡ schedule_mutation c schedules) × IsFiled after
  manage-applied schedules capability args request_id origin_id origin now v c after filed h =
      let outcome =
        manage-Outcome calendar codec schedules request_id origin_id origin now capability args v c
          after h in
      (
        Outcome-applied schedules request_id origin_id origin c after outcome,
        Outcome-IsFiled schedules request_id origin_id origin c after outcome filed,
      )

  -- A request that names a schedule of its conversation and pauses it, at a revision below the
  -- largest `u64`, succeeds: the schedule is at the next revision, and has no occurrence at any
  -- time.
  pub manage_pause :
      (schedules : Schedules) (args : Value) (request_id origin_id : String) (origin : Members)
      (now : ℤ) (id : String) (s : Schedule)
      → text args "id" 256 ≡ ok id
      → find_owned schedules id origin ≡ some s
      → s.revision + 1 ≤ u64_max
      → (t : Schedule) × (manage calendar codec schedules "schedule.pause" args request_id origin_id
            origin now
          ≡ ok ((codec.schedule_value t, some (id, some t)), insert (key_of id) t schedules))
        × (t.revision ≡ s.revision + 1)
        × ((later : ℤ) → (occurrence calendar t later).0 ≡ none)
  unfolding manage existing change store edit revise occurrence due_at
  manage_pause schedules args request_id origin_id origin now id s named owned small =
      let room : leb u64_max s.revision ≡ false = ground arith in
      let t : Schedule = record s {
        paused = true;
        revision = s.revision + 1;
        cause = request_id;
        origin_event_id = origin_id;
        origin = origin;
      } in
      (
        t,
        rw (named, owned, room) refl,
        refl,
        λ later. none_due calendar t later (paused-due_at t later refl),
      )
