-- ===== src/Scheduler/Schedule/Occurrences.antt =====
-- Which occurrences a schedule has.
use pluribus.Base.{
  zero, suc, ◌≡◌, ◌≢◌, refl, ap, ◌∙◌, inl, inr, String, not, eqb, Option, none, some, Result, ok,
  err, arith, ℤ, pos, negsuc, ◌≤ℤ◌, Option-cases, bind_ok, ok_or_ok, ok_or, fail_if,
}
use pluribus.Json.{Value}
use pluribus.Scheduler.Schedule.{
  Timing, once_at, after, cron, Schedule, Calendar, next, first, due_at, advanced, occurrence,
  checked_plus, in_future,
}

same_due :
    {a b : ℤ}
    → ◌≡◌ {A = Result String (Option ℤ)} (ok (some a)) (ok (some b))
    → ◌≡◌ {A = Result String ℤ} (ok a) (ok b)
same_due h = ground arith

in_future_lem : (due now time : ℤ) → in_future due now ≡ ok time → ¬ (time ≤ℤ now)
in_future_lem due now time h = ground arith

module _ {Zone Pattern : Type 0} (calendar : Calendar Zone Pattern) where
  -- The documented behaviour of the calendar: the next occurrence is in the future.
  abbrev pub IsForward : Type 0
  IsForward =
      (p : Pattern) (zone : Zone) (now due : ℤ)
      → calendar.next_occurrence p zone now ≡ ok due
      → ¬ (due ≤ℤ now)

  next-future :
      IsForward
      → (timing : Timing) (now due : ℤ) → next calendar timing now ≡ ok (some due)
      → ¬ (due ≤ℤ now)
  unfolding next
  next-future forward (once_at t) now due h = absurd (ground arith)
  next-future forward (after t) now due h = absurd (ground arith)
  next-future forward (cron expression timezone) now due h =
      let (u, w, h1) =
        bind_ok (fail_if (not (eqb (calendar.words expression) 5)) _) _ (some due) h in
      let (zone, z, h2) = bind_ok (calendar.zone timezone) _ (some due) h1 in
      let (p, c, h3) = bind_ok (calendar.cron_pattern expression) _ (some due) h2 in
      let (v, r, h4) = bind_ok (fail_if (not (calendar.in_range now)) _) _ (some due) h3 in
      let (found, o, h5) = bind_ok (calendar.next_occurrence p zone now) _ (some due) h4 in
      forward p zone now due (o ∙ same_due h5)

  -- The first time that a timing gives is later than now.
  pub first-future :
      IsForward
      → (timing : Timing) (now due : ℤ) → first calendar timing now ≡ ok due
      → ¬ (due ≤ℤ now)
  unfolding first
  first-future forward (once_at t) now due h =
      let (found, p, h1) = bind_ok (calendar.parse_rfc3339 t) (λ due. in_future due now) due h in
      in_future_lem found now due h1
  first-future forward (after (pos (suc m))) now due h =
      let (found, p, h1) =
        bind_ok (ok_or (checked_plus now (suc m)) _) (λ due. in_future due now) due h in
      in_future_lem found now due h1
  first-future forward (after (pos zero)) now due h = absurd (ground arith)
  first-future forward (after (negsuc m)) now due h = absurd (ground arith)
  first-future forward (cron expression timezone) now due h =
      let (found, p, h1) = bind_ok (next calendar (cron expression timezone) now) _ due h in
      next-future forward (cron expression timezone) now due (p ∙ ap ok (ok_or_ok found _ due h1))

  fired :
      (self : Schedule) (now : ℤ) (event : String × Value)
      → (occurrence calendar self now).0 ≡ some event
      → (due : ℤ) × (due_at self now ≡ some due)
  unfolding occurrence
  fired self now event h = elim (Option-cases (due_at self now)) [
    | inl empty ↦ absurd (ground arith)
    | inr (due, found) ↦ (due, found)
  ]

  occurrence-advanced :
      (self : Schedule) (now due : ℤ)
      → due_at self now ≡ some due
      → (occurrence calendar self now).1 ≡ advanced self due (next calendar self.timing now)
  unfolding occurrence
  occurrence-advanced self now due h = rw (h, occurrence) refl

  pub none_due :
      (self : Schedule) (now : ℤ) → due_at self now ≡ none → (occurrence calendar self now).0 ≡ none
  unfolding occurrence
  none_due self now h = rw (h, occurrence) refl

  advanced-due_at :
      (self : Schedule) (due now : ℤ) (result : Result String (Option ℤ))
      → ((found : ℤ) → result ≡ ok (some found) → ¬ (found ≤ℤ now))
      → due_at (advanced self due result) now ≡ none
  unfolding due_at
  advanced-due_at self due now (err error) later = refl
  advanced-due_at self due now (ok none) later = refl
  advanced-due_at self due now (ok (some found)) later =
      let not_due = later found refl in ground arith

  -- A schedule that has just had an occurrence has no second one at the same time, when the
  -- calendar's next time is always in the future.
  pub occurrence_once :
      IsForward
      → (self : Schedule) (now : ℤ) (event : String × Value)
      → (occurrence calendar self now).0 ≡ some event
      → (occurrence calendar (occurrence calendar self now).1 now).0 ≡ none
  occurrence_once forward self now event h =
      let (due, found) = fired self now event h in
      none_due (occurrence calendar self now).1 now (
        ap (λ s. due_at s now) (occurrence-advanced self now due found)
        ∙ advanced-due_at self due now (next calendar self.timing now)
            (λ found. next-future forward self.timing now found))

  one_shot :
      (timing : Timing) (now : ℤ)
      → ((expression timezone : String) → timing ≢ cron expression timezone)
      → next calendar timing now ≡ ok none
  unfolding next
  one_shot (once_at t) now h = refl
  one_shot (after t) now h = refl
  one_shot (cron expression timezone) now h = absurd (h expression timezone refl)

  -- A schedule without a cron pattern that has had its occurrence has no other at any time.
  pub occurrence_last :
      (self : Schedule) (now later : ℤ) (event : String × Value)
      → ((expression timezone : String) → self.timing ≢ cron expression timezone)
      → (occurrence calendar self now).0 ≡ some event
      → (occurrence calendar (occurrence calendar self now).1 later).0 ≡ none
  unfolding due_at
  occurrence_last self now later event h fires =
      let (due, found) = fired self now event fires in
      none_due (occurrence calendar self now).1 later (
        ap (λ s. due_at s later)
          (occurrence-advanced self now due found
            ∙ ap (advanced self due) (one_shot self.timing now h)))
