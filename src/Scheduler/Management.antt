-- ===== src/Scheduler/Management.antt =====
-- plugins/scheduler/src/management.rs: the requests that list, create, read, change and delete the
-- schedules of a conversation. serde's codecs of a schedule and of a timing are parameters.
pub mod Changes
pub mod Outcomes
use Prim.Native.String.{◌++◌ as joined}
use pluribus.Base.{
  ℕ, zero, suc, ◌+◌, min, max, String, Bool, true, false, not, ◌&&◌, ◌||◌, Option, none, some, List,
  [], ◌∷◌, Result, ok, err, ◌>>=◌, ◌>>◌, fail_if, ok_or, ◌==◌, string_eq, all, ltb, leb, eqb,
  if◌then◌else◌, ℤ, pos, u64_max, Assoc, lookup, insert, remove, codes, text_le, string_ord, sort,
  map, filter, take, drop, decimal_text,
}
use pluribus.Json.{
  Value, null, bool, string, array, Members, Values, nil, cons, object, obj, at, get, as_str,
  as_u64, opt_string,
}
use pluribus.Scheduler.Schedule.{Timing, Schedule, Calendar, first, owned_by}

abbrev pub Schedules : Type 0
Schedules = Assoc String Schedule

-- The id of the schedule that changed, and what it is now.
abbrev pub Change : Type 0
Change = Option (String × Option Schedule)

-- `serde_json::to_value` of a schedule, and `serde_json::from_value` of a timing.
pub record Codec : Type 0 where
  pub schedule_value : Schedule → Value
  pub timing_of : Value → Result String Timing

abbrev pub key_of : String → String
key_of id = joined "schedule:" id

-- `schedule_mutation`, on the stored schedules: set what there is, and delete what there is not.
abbrev pub schedule_mutation : Change → Schedules → Schedules
schedule_mutation none stored = stored
schedule_mutation (some (id, none)) stored = remove (key_of id) stored
schedule_mutation (some (id, some s)) stored = insert (key_of id) s stored

-- The bytes of a code point in UTF-8, for `str::len`.
abbrev pub utf8_width : ℕ → ℕ
utf8_width c = if ltb c 128 then 1 else if ltb c 2048 then 2 else if ltb c 65536 then 3 else 4

-- The code points that `str::trim` removes.
abbrev pub is_whitespace : ℕ → Bool
is_whitespace c =
    (leb 9 c && leb c 13)
    || eqb c 32
    || eqb c 133
    || eqb c 160
    || eqb c 5760
    || (leb 8192 c && leb c 8202)
    || eqb c 8232
    || eqb c 8233
    || eqb c 8239
    || eqb c 8287
    || eqb c 12288

abbrev pub byte_length : List ℕ → ℕ
byte_length [] = 0
byte_length (c ∷ s) = utf8_width c + byte_length s

abbrev pub fits : String → ℕ → Bool
fits s limit = not (all is_whitespace (codes s)) && leb (byte_length (codes s)) limit

unfoldable pub text : Value → String → ℕ → Result String String
text value field limit =
    let refusal =
      joined field (joined " must contain 1.." (joined (decimal_text limit) " bytes")) in
    ok_or (as_str (at value field)) refusal >>= λ s. fail_if (not (fits s limit)) refusal >> ok s

abbrev pub values_list : List Value → Values
values_list [] = nil
values_list (v ∷ vs) = cons v (values_list vs)

-- `BTreeMap::values`: in the order of the keys.
abbrev pub found_in : Schedules → List String → List Schedule
found_in schedules [] = []
found_in schedules (key ∷ keys) = elim (lookup key schedules) [
  | none ↦ found_in schedules keys
  | some schedule ↦ schedule ∷ found_in schedules keys
]

unfoldable pub in_order : Schedules → List Schedule
in_order schedules = found_in schedules (sort (map (λ e. e.0) schedules))

abbrev pub last_id : List Schedule → Option String
last_id [] = none
last_id (s ∷ []) = some s.id
last_id (s ∷ t ∷ rest) = last_id (t ∷ rest)

abbrev pub next_after : List Schedule → List Schedule → Option String
next_after page [] = none
next_after page (s ∷ rest) = last_id page

-- What a request answers and what has changed, and the schedules it leaves. The source changes
-- the map in no request that fails.
abbrev pub Answer : Type 0
Answer = (Value × Change) × Schedules

abbrev pub limit_of : Value → ℕ
limit_of args = elim (as_u64 (at args "limit")) [ none ↦ 50 | some n ↦ min 100 (max 1 n) ]

abbrev pub after_of : Value → String
after_of args = elim (as_str (at args "after")) [ none ↦ "" | some s ↦ s ]

abbrev pub rows_of : Schedules → Value → Members → List Schedule
rows_of schedules args origin =
    filter (λ s. not (text_le s.id (after_of args)) && owned_by s origin) (in_order schedules)

-- A field of an update: the schedule as it is where the request does not give the field.
abbrev pub given :
    Value → String → Schedule → (Value → Result String Schedule) → Result String Schedule
given args field schedule change = elim (get args field) [
  | none ↦ ok schedule
  | some value ↦ change value
]

abbrev pub named : Value → Schedule → Value → Result String Schedule
named args s value = text args "name" 200 >>= λ name. ok (record s { name = name })

abbrev pub prompted : Value → Schedule → Value → Result String Schedule
prompted args s value = text args "prompt" 8192 >>= λ prompt. ok (record s { prompt = prompt })

abbrev pub resume : Schedule → Result String Schedule
resume s = elim s.next_at_ms [
  | none ↦ err "completed or failed schedule requires a new timing rule"
  | some due ↦ ok (record s { paused = false })
]

-- `revision.checked_add(1)` and the fields that every change sets.
unfoldable pub revise : String → String → Members → Schedule → Result String Schedule
revise request_id origin_id origin s =
    fail_if (leb u64_max s.revision) "revision exhausted"
    >> ok (record s {
      revision = s.revision + 1;
      cause = request_id;
      origin_event_id = origin_id;
      origin = origin;
    })

unfoldable pub find_owned : Schedules → String → Members → Option Schedule
find_owned schedules id origin = elim (lookup (key_of id) schedules) [
  | none ↦ none
  | some s ↦ if owned_by s origin then some s else none
]

module _ {Zone Pattern : Type 0} (calendar : Calendar Zone Pattern) (codec : Codec) where
  unfoldable pub list : Schedules → Value → Members → Result String Answer
  list schedules args origin =
      let rows = rows_of schedules args origin in
      let page = take (limit_of args) rows in
      let next = next_after page (drop (limit_of args) rows) in
      ok (
        (
          obj (
              ("schedules", array (values_list (map codec.schedule_value page)))
              ∷ ("nextAfter", opt_string next)
              ∷ []),
          none,
        ),
        schedules,
      )

  unfoldable pub create : Schedules → Value → String → String → Members → ℤ → Result String Answer
  create schedules args request_id origin_id origin now = do
    name ← text args "name" 200
    prompt ← text args "prompt" 8192
    timing ← codec.timing_of (at args "timing")
    next_at ← first calendar timing now
    let schedule : Schedule = record {
      id = request_id;
      revision = 1;
      name = name;
      prompt = prompt;
      timing = timing;
      next_at_ms = some next_at;
      last_at_ms = none;
      paused = false;
      error = none;
      origin_event_id = origin_id;
      origin = origin;
      cause = request_id;
    }
    ok (
      (codec.schedule_value schedule, some (request_id, some schedule)),
      insert (key_of request_id) schedule schedules,
    )

  abbrev pub retimed : ℤ → Schedule → Value → Result String Schedule
  retimed now s value = do
    timing ← codec.timing_of value
    next_at ← first calendar timing now
    ok (record s { next_at_ms = some next_at; timing = timing; error = none })

  unfoldable pub update : Value → ℤ → Schedule → Result String Schedule
  update args now s =
      given args "name" s (named args s)
      >>= (λ s. given args "prompt" s (prompted args s))
      >>= (λ s. given args "timing" s (retimed now s))

  -- The `match capability` where it goes on to the new revision.
  unfoldable pub edit : String → Value → ℤ → Schedule → Result String Schedule
  edit capability args now s =
      if capability == "schedule.pause"
      then ok (record s { paused = true })
      else if capability == "schedule.resume"
      then resume s
      else if capability == "schedule.update"
      then update args now s
      else err "unknown schedule capability"

  unfoldable pub store :
      Schedules
      → String
      → Value
      → String
      → String
      → Members
      → ℤ
      → String
      → Schedule
      → Result String Answer
  store schedules capability args request_id origin_id origin now id s = do
    edited ← edit capability args now s
    revised ← revise request_id origin_id origin edited
    ok (
      (codec.schedule_value revised, some (id, some revised)),
      insert (key_of id) revised schedules,
    )

  unfoldable pub change :
      Schedules
      → String
      → Value
      → String
      → String
      → Members
      → ℤ
      → String
      → Schedule
      → Result String Answer
  change schedules capability args request_id origin_id origin now id s =
      if capability == "schedule.get"
      then ok ((codec.schedule_value s, none), schedules)
      else if capability == "schedule.delete"
      then ok (
        (obj (("id", string id) ∷ ("deleted", bool true) ∷ []), some (id, none)),
        remove (key_of id) schedules,
      )
      else store schedules capability args request_id origin_id origin now id s

  unfoldable pub existing :
      Schedules → String → Value → String → String → Members → ℤ → Result String Answer
  existing schedules capability args request_id origin_id origin now = do
    id ← text args "id" 256
    s ← ok_or (find_owned schedules id origin) "schedule not found in this conversation"
    change schedules capability args request_id origin_id origin now id s

  unfoldable pub manage :
      Schedules → String → Value → String → String → Members → ℤ → Result String Answer
  manage schedules capability args request_id origin_id origin now =
      if capability == "schedule.list"
      then list schedules args origin
      else if capability == "schedule.create"
      then create schedules args request_id origin_id origin now
      else existing schedules capability args request_id origin_id origin now
