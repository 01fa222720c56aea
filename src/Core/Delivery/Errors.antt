-- ===== src/Core/Delivery/Errors.antt =====
-- How the validation of a delivery fails.
use pluribus.Base.{
  ℕ, ◌≢◌, String, Bool, not, List, [], ◌∷◌, Option, none, some, Result, ok, err, ◌>>=◌, fail_if,
  map_err, arith, is_empty, string_eq, ◌==◌,
}
use pluribus.Core.Event as Event
use pluribus.Core.Event.{AppendRequest, AppendError}
use pluribus.Core.Delivery.{
  DeliveryCommit, DeliveryError, validate, validate_events, check_progress, keys_of,
}

-- What fails, fails otherwise than by a conflict of checkpoints.
abbrev pub NoConflict : {A : Type 0} → Result DeliveryError A → Type 0
NoConflict {A} r =
    (expected actual : ℕ)
    → ◌≢◌ {A = Result DeliveryError A} r (err (DeliveryError.conflict expected actual))

then_NoConflict :
    {A B : Type 0} (m : Result DeliveryError A) (k : A → Result DeliveryError B)
    → NoConflict m
    → ((a : A) → NoConflict (k a))
    → NoConflict (m >>= k)
then_NoConflict (ok a) k h g expected actual same = g a expected actual same
then_NoConflict (err e) k h g expected actual same = h expected actual (ground arith)

invalid_NoConflict :
    (b : Bool) (text : String) → NoConflict (fail_if b (DeliveryError.invalid text))
invalid_NoConflict b text expected actual same = ground arith

progress_NoConflict : (expected : ℕ) (to : Option ℕ) → NoConflict (check_progress expected to)
unfolding check_progress
progress_NoConflict expected none e a same = ground arith
progress_NoConflict expected (some to) e a same = ground arith

event_NoConflict : (r : Result AppendError (Unit {0})) → NoConflict (map_err DeliveryError.append r)
event_NoConflict (ok u) expected actual same = ground arith
event_NoConflict (err e) expected actual same = ground arith

events_NoConflict :
    (stream_id : String) (events : List AppendRequest)
    → NoConflict (validate_events stream_id events)
unfolding validate_events
events_NoConflict stream_id [] expected actual same = ground arith
events_NoConflict stream_id (event ∷ events) expected actual same =
    then_NoConflict _ _ (invalid_NoConflict (not (event.stream_id == stream_id)) _)
      (λ u.
        then_NoConflict _ _ (event_NoConflict (Event.validate event))
          (λ v. events_NoConflict stream_id events))
      expected actual same

pub validate-NoConflict : (commit : DeliveryCommit) → NoConflict (validate commit)
unfolding validate keys_of
validate-NoConflict commit =
    then_NoConflict _ _ (invalid_NoConflict (is_empty commit.cursor.stream_id) _) (λ a.
      then_NoConflict _ _ (invalid_NoConflict (is_empty commit.cursor.namespace) _) (λ b.
        then_NoConflict _ _ (progress_NoConflict commit.expected_checkpoint commit.checkpoint) (λ c.
          then_NoConflict _ _ (events_NoConflict commit.cursor.stream_id commit.events)
            (λ d. invalid_NoConflict _ _))))
