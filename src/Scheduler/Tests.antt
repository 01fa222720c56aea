-- ===== src/Scheduler/Tests.antt =====
-- Runs of the scheduler with a calendar whose patterns are numbers of milliseconds.
use pluribus.Base.{
  ℕ, suc, ◌≡◌, ◌≤◌, refl, String, true, false, none, some, [], ◌∷◌, Result, ok, err, arith, ℤ, pos,
  negsuc, ◌≤ℤ◌, u64_max, insert, lookup, string_eq, ==_iff, Everywhere-insert,
}
use pluribus.Json.{Value, Members, string, members, obj, null}
use pluribus.Scheduler.Schedule.{
  Timing, once_at, after, cron, Schedule, Calendar, plus, owned_by, occurrence, occurrence_key,
  occurrence_content,
}
use pluribus.Scheduler.Schedule.Occurrences.{IsForward, occurrence_once}
use pluribus.Scheduler.Management.{
  Schedules, Codec, Change, manage, key_of, text, find_owned, schedule_mutation,
}
use pluribus.Scheduler.Management.Changes.{IsFiled, manage-strangers, manage-applied, manage_pause}

abbrev calendar : Calendar ℕ ℕ
calendar = record {
  parse_rfc3339 = λ s. ok (pos 5000);
  words = λ s. 5;
  zone = λ s. ok 0;
  cron_pattern = λ s. ok 59;
  in_range = λ now. true;
  next_occurrence = λ p zone now. ok (plus now (suc p));
}

plus_later : (now : ℤ) (n : ℕ) → ¬ (plus now (suc n) ≤ℤ now)
plus_later (pos m) n = ground arith
plus_later (negsuc m) n = ground arith

due_is :
    (now : ℤ) (p : ℕ) (due : ℤ)
    → ◌≡◌ {A = Result String ℤ} (ok (plus now (suc p))) (ok due)
    → plus now (suc p) ≡ due
due_is now p due h = ground arith

calendar-IsForward : IsForward calendar
calendar-IsForward p zone now due h = λ early. plus_later now p (rw (due_is now p due h) early)

abbrev timing_of : Value → Result String Timing
timing_of (string s) = ok (cron s "UTC")
timing_of _ = err "timing"

abbrev codec : Codec
codec = record { schedule_value = λ s. string s.id; timing_of = timing_of }

abbrev origin_of : String → Members
origin_of sender = members (
    ("provider", string "cli")
    ∷ ("externalSenderId", string sender)
    ∷ ("conversationId", string "c")
    ∷ [])

abbrev daily : Schedule
daily = record {
  id = "r1";
  revision = 1;
  name = "daily";
  prompt = "report";
  timing = cron "0 9 * * *" "UTC";
  next_at_ms = some (pos 60);
  last_at_ms = none;
  paused = false;
  error = none;
  origin_event_id = "o1";
  origin = origin_of "alice";
  cause = "r1";
}

abbrev kept : Schedules
kept = (key_of "r1", daily) ∷ []

abbrev create_args : Value
create_args =
    obj
      (("name", string "daily") ∷ ("prompt", string "report") ∷ ("timing", string "0 9 * * *") ∷ [])

abbrev named_args : Value
named_args = obj (("id", string "r1") ∷ [])

created_first :
    manage calendar codec [] "schedule.create" create_args "r1" "o1" (origin_of "alice") (pos 0)
    ≡ ok ((string "r1", some ("r1", some daily)), kept)
unfolding manage pluribus.Scheduler.Management.create text pluribus.Scheduler.Schedule.first
    pluribus.Scheduler.Schedule.next insert
created_first = refl

abbrev second : Schedule
second = record daily { id = "r2"; origin_event_id = "o2"; origin = origin_of "bob"; cause = "r2" }

abbrev both : Schedules
both = (key_of "r1", daily) ∷ (key_of "r2", second) ∷ []

created_second :
    manage calendar codec kept "schedule.create" create_args "r2" "o2" (origin_of "bob") (pos 0)
    ≡ ok ((string "r2", some ("r2", some second)), both)
unfolding manage pluribus.Scheduler.Management.create text pluribus.Scheduler.Schedule.first
    pluribus.Scheduler.Schedule.next insert
created_second = refl

nothing-IsFiled : IsFiled []
unfolding lookup
nothing-IsFiled key s h = absurd (ground arith)

kept-IsFiled : IsFiled kept
unfolding insert
kept-IsFiled =
    Everywhere-insert (λ key s. (key ≡ key_of s.id) × (s.revision ≤ u64_max)) (key_of "r1") daily []
      (refl, omega arith) nothing-IsFiled

found_first : lookup "schedule:r1" kept ≡ some daily
unfolding lookup
found_first = refl

strange_first : owned_by daily (origin_of "bob") ≡ false
unfolding owned_by pluribus.Json.Equality.value_beq
strange_first = refl

manage-strangers_example : lookup "schedule:r1" both ≡ some daily
manage-strangers_example =
    manage-strangers calendar codec kept "schedule.create" create_args "r2" "o2" (origin_of "bob")
      (pos 0) (string "r2") (some ("r2", some second)) both "schedule:r1" daily created_second
      found_first strange_first
      (λ same.
        let equal : false ≡ true = (==_iff "schedule:r1" "schedule:r2").1 same in ground arith)

manage-applied_example : (both ≡ schedule_mutation (some ("r2", some second)) kept) × IsFiled both
manage-applied_example =
    manage-applied calendar codec kept "schedule.create" create_args "r2" "o2" (origin_of "bob")
      (pos 0) (string "r2") (some ("r2", some second)) both kept-IsFiled created_second

named_first : text named_args "id" 256 ≡ ok "r1"
unfolding text
named_first = refl

owned_first : find_owned kept "r1" (origin_of "alice") ≡ some daily
unfolding find_owned lookup owned_by pluribus.Json.Equality.value_beq
owned_first = refl

manage_pause_example :
    (t : Schedule) × (manage calendar codec kept "schedule.pause" named_args "r3" "o3"
        (origin_of "alice")
        (pos 10)
      ≡ ok ((codec.schedule_value t, some ("r1", some t)), insert (key_of "r1") t kept))
    × (t.revision ≡ 2)
    × ((later : ℤ) → (occurrence calendar t later).0 ≡ none)
manage_pause_example =
    manage_pause calendar codec kept named_args "r3" "o3" (origin_of "alice") (pos 10) "r1" daily
      named_first owned_first (omega arith)

abbrev observation : String × Value
observation = (occurrence_key daily (pos 60), occurrence_content daily (pos 60) (pos 75))

fires_first : (occurrence calendar daily (pos 75)).0 ≡ some observation
unfolding occurrence pluribus.Scheduler.Schedule.due_at
fires_first = refl

occurrence_once_example :
    (occurrence calendar (occurrence calendar daily (pos 75)).1 (pos 75)).0 ≡ none
occurrence_once_example =
    occurrence_once calendar calendar-IsForward daily (pos 75) observation fires_first
