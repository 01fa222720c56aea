-- ===== src/Scheduler/Schedule.antt =====
-- plugins/scheduler/src/schedule.rs: when a schedule is due, and what it does when it is. The
-- calendar (RFC 3339, cron patterns and time zones) is a parameter.
pub mod Occurrences
use Prim.Native.String.{◌++◌ as joined}
use pluribus.Base.{
  ℕ, suc, ◌+◌, ◌-◌, String, Bool, true, false, not, ◌&&◌, Option, none, some, List, [], ◌∷◌, Result,
  ok, err, ◌>>=◌, ◌>>◌, fail_if, ok_or, ◌==◌, string_eq, all, ltb, leb, eqb, if◌then◌else◌, ℤ, pos,
  negsuc, leb_ℤ, i64_max, decimal_text,
}
use pluribus.Json.{Value, string, number, Members, end, member, object, obj, at}
use pluribus.Json.Equality.{value_eq}

pub data Timing : Type 0 where
  once_at : String → Timing
  after : ℤ → Timing
  cron : String → String → Timing

-- The origin is an object, as the component makes it.
pub record Schedule : Type 0 where
  pub id : String
  pub revision : ℕ
  pub name : String
  pub prompt : String
  pub timing : Timing
  pub next_at_ms : Option ℤ
  pub last_at_ms : Option ℤ
  pub paused : Bool
  pub error : Option String
  pub origin_event_id : String
  pub origin : Members
  pub cause : String

-- `parse_from_rfc3339`, `split_whitespace().count()`, `Tz::from_str`, `Cron::from_str`, the range
-- of `from_timestamp_millis`, and `find_next_occurrence`; times in milliseconds, errors as texts.
pub record Calendar (Zone Pattern : Type 0) : Type 0 where
  pub parse_rfc3339 : String → Result String ℤ
  pub words : String → ℕ
  pub zone : String → Result String Zone
  pub cron_pattern : String → Result String Pattern
  pub in_range : ℤ → Bool
  pub next_occurrence : Pattern → Zone → ℤ → Result String ℤ

-- The sum with a positive number.
abbrev pub plus : ℤ → ℕ → ℤ
plus (pos n) m = pos (n + m)
plus (negsuc n) m = if ltb n m then pos (m - n - 1) else negsuc (n - m)

-- `checked_add` of a positive number.
abbrev pub checked_plus : ℤ → ℕ → Option ℤ
checked_plus now m = let sum = plus now m in if leb_ℤ sum (pos i64_max) then some sum else none

abbrev pub in_future : ℤ → ℤ → Result String ℤ
in_future due now = fail_if (leb_ℤ due now) "scheduled time must be in the future" >> ok due

-- `observation[key] = value`
unfoldable pub set_member : String → Value → Members → Members
set_member key value end = member key value end
set_member key value (member name old rest) =
    if name == key then member key value rest else member name old (set_member key value rest)

abbrev integer_text : ℤ → String
integer_text (pos n) = decimal_text n
integer_text (negsuc n) = joined "-" (decimal_text (suc n))

unfoldable pub occurrence_key : Schedule → ℤ → String
occurrence_key self due = joined "schedule:" (
    joined self.id
      (joined ":" (joined (decimal_text self.revision) (joined ":" (integer_text due)))))

unfoldable pub occurrence_content : Schedule → ℤ → ℤ → Value
occurrence_content self due now = object (
    set_member "schedule"
      (obj (
        ("id", string self.id)
        ∷ ("name", string self.name)
        ∷ ("revision", number (pos self.revision))
        ∷ ("scheduledAtMs", number due)
        ∷ ("emittedAtMs", number now)
        ∷ []))
      (set_member "message" (obj (("text", string self.prompt) ∷ []))
        (set_member "originEventId" (string self.origin_event_id) self.origin)))

abbrev pub advanced : Schedule → ℤ → Result String (Option ℤ) → Schedule
advanced self due (ok next_due) = record self { last_at_ms = some due; next_at_ms = next_due }
advanced self due (err error) = record self {
  last_at_ms = some due;
  next_at_ms = none;
  error = some error;
}

unfoldable pub due_at : Schedule → ℤ → Option ℤ
due_at self now = elim self.next_at_ms [
  | none ↦ none
  | some due ↦ if leb_ℤ due now && not self.paused then some due else none
]

module _ {Zone Pattern : Type 0} (calendar : Calendar Zone Pattern) where
  unfoldable pub next : Timing → ℤ → Result String (Option ℤ)
  next (cron expression timezone) now = do
    fail_if (not (eqb (calendar.words expression) 5))
        "cron requires five fields: minute hour day month weekday"
    zone ← calendar.zone timezone
    cron_pattern ← calendar.cron_pattern expression
    fail_if (not (calendar.in_range now)) "timestamp out of range"
    due ← calendar.next_occurrence cron_pattern zone now
    ok (some due)
  next (once_at at_text) now = ok none
  next (after milliseconds) now = ok none

  unfoldable pub first : Timing → ℤ → Result String ℤ
  first (once_at at_text) now = calendar.parse_rfc3339 at_text >>= λ due. in_future due now
  first (after (pos (suc m))) now =
      ok_or (checked_plus now (suc m)) "delay exceeds timestamp range" >>= λ due. in_future due now
  first (after milliseconds) now = err "milliseconds must be positive"
  first (cron expression timezone) now =
      next (cron expression timezone) now >>= λ due. ok_or due "cron has no next occurrence"

  -- The occurrence, if there is one, and the schedule that it leaves.
  unfoldable pub occurrence : Schedule → ℤ → Option (String × Value) × Schedule
  occurrence self now = elim (due_at self now) [
    | none ↦ (none, self)
    | some due ↦ (
      some (occurrence_key self due, occurrence_content self due now),
      advanced self due (next self.timing now),
    )
  ]

abbrev pub owner_fields : List String
owner_fields = "provider" ∷ "externalSenderId" ∷ "conversationId" ∷ []

unfoldable pub owned_by : Schedule → Members → Bool
owned_by self origin =
    all (λ field. at (object self.origin) field == at (object origin) field) owner_fields
