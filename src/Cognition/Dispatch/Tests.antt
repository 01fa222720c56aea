-- ===== src/Cognition/Dispatch/Tests.antt =====
-- Runs of the router over the tables of the store.
use pluribus.Base.{
  ℕ, ◌≡◌, ◌≢◌, ◌≤◌, refl, String, Bool, true, false, Option, none, some, List, [], ◌∷◌, Result, ok,
  err, arith, take, filter, find, length, pos, ◌==◌, string_eq, i64_max, u64_max, ◌++◌,
}
use pluribus.Core.Event.{AppendError, AppendRequest, CommittedEvent, matches, canonical_json}
use pluribus.Core.Authority.{Authority}
use pluribus.Store.Tables.{Database, empty}
use pluribus.Store.Examples.{counting, plain_index}
use pluribus.Store.Events as Events
use pluribus.Store.Events.Log.{Log, log_append}
use pluribus.Store.Events.Refinement.Commit.{empty-Represents, append_refines}
use pluribus.Store.Events.Refinement.Bounds.{IsBounded, append-IsBounded}
use pluribus.Cognition.EventStore.{EventStore, IsEventLog, events_after}
use pluribus.Cognition.EventStore.Growth.{Later, here, next}
use pluribus.Cognition.EventStore.Sqlite.{sqlite, Holding, sqlite-IsEventLog}
use pluribus.Cognition.Examples.{
  json, deciding, admitting, router, shell_registration, first_call, called, permitted,
  first_denial, denial,
}
use pluribus.Cognition.Dispatch.{RouterError, Routed, deliver, payload_field}
use pluribus.Cognition.Dispatch.Polling.{poll, receives}
use pluribus.Cognition.Dispatch.Polls.{poll_lem}
use pluribus.Cognition.Dispatch.Decisions.{route_request}
use pluribus.Cognition.Dispatch.Attempts.{admit, admit_attempt, authorized_for, caused_by}
use pluribus.Cognition.Dispatch.Audit.{of_type, search_type, decided_for, authorized_for_lem}
use pluribus.Cognition.Dispatch.Admissions.{is_for, routed_authorized}
use pluribus.Cognition.Dispatch.SingleAttempt.{admit_once}
use pluribus.Cognition.Dispatch.Projection.{
  DispatchProjection, default_projection, projection_query, project_all, refresh, result_for,
}
use pluribus.Cognition.Dispatch.Results.{first_result}
use pluribus.Cognition.Dispatch.Refreshes.{
  IsProjection, IsComplete, tracked, under, default-IsProjection, result_for_lem, result_for_total,
}

abbrev text : AppendError → String
text e = "store error"

abbrev store : EventStore (Database × ℕ)
store = sqlite plain_index counting text

abbrev HoldsLog : Database × ℕ → Log → Type 0
HoldsLog = Holding plain_index counting text

abbrev law : IsEventLog store HoldsLog
law = sqlite-IsEventLog plain_index counting text

abbrev started : Database × ℕ
started = (store.append (empty, 0) first_call).1

called_first : Events.append plain_index counting 0 empty first_call ≡ (ok called, started.0, 1)
unfolding Events.append Events.append_in Events.prepare pluribus.Core.Event.validate
    Events.check_stream pluribus.Base.lookup Events.ensure_stream pluribus.Base.insert Events.assign
    Events.insert_event
called_first = refl

none_yet : IsBounded []
none_yet stream = omega arith

held : HoldsLog started (called ∷ [])
unfolding log_append
held = (
  (append_refines plain_index counting 0 1 empty started.0 [] first_call called empty-Represents tt
      called_first).1,
  append-IsBounded plain_index counting 0 1 empty started.0 [] first_call called empty-Represents
      none_yet called_first,
)

poll_lem_example :
    poll json store router 5 started "shell" 0 10
    ≡ some (
        ok (
          take 10 (
            filter
              (receives json store router started shell_registration)
              (events_after (called ∷ []) "agent:1" 0))))
poll_lem_example =
    poll_lem json store router HoldsLog law started (called ∷ []) held 5 0 10 "shell"
      shell_registration refl (omega arith) (omega arith)

sqlite-IsEventLog_example : IsEventLog store HoldsLog
sqlite-IsEventLog_example = sqlite-IsEventLog plain_index counting text

abbrev decided : Database × ℕ
decided = (route_request deciding store router started called permitted (pos 5)).1

delivered :
    route_request deciding store router started called permitted (pos 5)
    ≡ (ok (deliver "shell"), decided)
unfolding route_request pluribus.Cognition.Dispatch.Decisions.append_decision
    pluribus.Cognition.Dispatch.Decisions.append_valid pluribus.Core.Registry.validate
    pluribus.Base.lookup pluribus.Cognition.Dispatch.Decisions.host_request
    pluribus.Cognition.Dispatch.Decisions.append_request Events.append Events.append_in
    Events.prepare pluribus.Core.Event.validate Events.check_stream Events.ensure_stream
    pluribus.Base.insert Events.assign Events.insert_event Events.duplicate_of
    Events.set_next_sequence Events.violates_unique pluribus.Store.Rows.encode_event payload_field
    pluribus.Cognition.Dispatch.Decisions.decision_payload
    pluribus.Cognition.Dispatch.Decisions.provider_of pluribus.Cognition.Dispatch.Decisions.provides
    pluribus.Cognition.Dispatch.Decisions.routed_to pluribus.Cognition.Dispatch.projected
    pluribus.Cognition.Dispatch.selectors_of pluribus.Core.Authority.decide
    pluribus.Core.Authority.is_expired_at
delivered = refl

routed_authorized_example :
    authorized_for deciding store router 9 decided "e-0" "shell"
    ≡ some (ok (is_for (deliver "shell") "shell"))
unfolding pluribus.Cognition.Dispatch.Decisions.decision_payload payload_field
    pluribus.Cognition.Dispatch.Decisions.host_request
routed_authorized_example =
    routed_authorized deciding store router HoldsLog law started decided (called ∷ []) called
      permitted (pos 5) "shell.run" "shell" (deliver "shell") 9 held refl refl refl refl
      (omega arith) delivered

authorized_for_lem_example :
    authorized_for json store router 9 started "e-0" "shell"
    ≡ some (
        ok (
          decided_for json store router HoldsLog law
            (find (caused_by "e-0") (of_type "policy.decision" "agent:1" (called ∷ [])))
            "shell"))
authorized_for_lem_example =
    authorized_for_lem json store router HoldsLog law started (called ∷ []) 9 "e-0" "shell" held
      (omega arith)

abbrev attempted : Database × ℕ
attempted = (admit admitting store router started called "shell" "claim-1").1

admitted : admit admitting store router started called "shell" "claim-1" ≡ (ok true, attempted)
unfolding admit pluribus.Cognition.Dispatch.Attempts.attempt_event
    pluribus.Cognition.Dispatch.Decisions.append_valid pluribus.Core.Registry.validate
    pluribus.Base.lookup pluribus.Cognition.Dispatch.Decisions.host_request
    pluribus.Cognition.Dispatch.Decisions.append_request Events.append Events.append_in
    Events.prepare pluribus.Core.Event.validate Events.check_stream Events.ensure_stream
    pluribus.Base.insert Events.assign Events.insert_event Events.duplicate_of
    Events.set_next_sequence Events.violates_unique pluribus.Store.Rows.encode_event payload_field
    pluribus.Base.strip_prefix
admitted = refl

none_attempted :
    find (caused_by "e-0") (of_type "activity.attempted" "agent:1" (called ∷ [])) ≡ none
none_attempted = refl

admitted_first :
    admit_attempt admitting store router 9 started called "shell" "claim-1"
    ≡ some (ok true, attempted)
unfolding admit_attempt
admitted_first =
    rw
      (
        admit_attempt,
        search_type admitting store router HoldsLog law started (called ∷ []) "activity.attempted"
            (caused_by "e-0") 100 99 9 held refl (omega arith) (omega arith),
        admitted,
      )
      refl

-- The store after one more append, of another event.
abbrev other_denial : AppendRequest
other_denial = record first_denial { deduplication_key = none }

abbrev grown : Database × ℕ
grown = (store.append attempted other_denial).1

reached : Later store attempted 1 grown
reached = next other_denial (6 ∷ []) (store.append attempted other_denial).0 here refl refl

admit_once_example :
    (answer : Result RouterError Bool × (Database × ℕ)) × (admit_attempt admitting store router 9
        grown called "shell" "claim-2"
      ≡ some answer)
    × (answer.0 ≢ ok true)
unfolding pluribus.Cognition.Dispatch.Decisions.host_request
    pluribus.Cognition.Dispatch.Attempts.classification payload_field pluribus.Base.lookup
admit_once_example =
    admit_once admitting store router HoldsLog law started attempted grown (called ∷ []) called
      "shell" "shell" "claim-1" "claim-2" 9 9 1 held (omega arith) (omega arith) none_attempted refl
      refl admitted_first reached

abbrev ended : Database × ℕ
ended = (store.append (empty, 0) first_denial).1

denied_first : Events.append plain_index counting 0 empty first_denial ≡ (ok denial, ended.0, 1)
unfolding Events.append Events.append_in Events.prepare pluribus.Core.Event.validate
    Events.check_stream pluribus.Base.lookup Events.ensure_stream pluribus.Base.insert Events.assign
    Events.insert_event
denied_first = refl

ended_held : HoldsLog ended (denial ∷ [])
unfolding log_append
ended_held = (
  (append_refines plain_index counting 0 1 empty ended.0 [] first_denial denial empty-Represents tt
      denied_first).1,
  append-IsBounded plain_index counting 0 1 empty ended.0 [] first_denial denial empty-Represents
      none_yet denied_first,
)

known :
    IsProjection json store "agent:1" HoldsLog law ended (denial ∷ []) ended_held default_projection
known = default-IsProjection json store "agent:1" HoldsLog law ended (denial ∷ []) ended_held

result_for_total_example : result_for json store "agent:1" 9 ended default_projection "r-0" ≢ none
result_for_total_example =
    result_for_total json store "agent:1" HoldsLog law ended (denial ∷ []) ended_held 9
      default_projection "r-0" known (omega arith)

abbrev now_known : DispatchProjection
now_known = record default_projection { through = 1; results = ("r-0", "e-0") ∷ [] }

page :
    (after : ℕ)
    → store.query ended "agent:1" (projection_query json store "agent:1" after) 1000
      ≡ ok
          (take 1000 (filter (matches (projection_query json store "agent:1" after)) (denial ∷ [])))
page after =
    law.query_law ended (denial ∷ []) "agent:1" (projection_query json store "agent:1" after) 1000
      ended_held refl refl refl (omega arith)

first_page :
    store.query ended "agent:1" (projection_query json store "agent:1" 0) 1000 ≡ ok (denial ∷ [])
unfolding matches
first_page = page 0

last_page : store.query ended "agent:1" (projection_query json store "agent:1" 1) 1000 ≡ ok []
unfolding matches
last_page = page 1

refreshes : refresh json store "agent:1" 9 ended 1000 default_projection ≡ some (ok tt, now_known)
unfolding refresh project_all pluribus.Cognition.Dispatch.Projection.project
    pluribus.Cognition.Dispatch.Projection.add_result
    pluribus.Cognition.Dispatch.Projection.or_insert payload_field pluribus.Base.lookup
    pluribus.Base.insert
refreshes = rw (refresh, first_page, last_page) refl

found_denial : store.get ended "e-0" ≡ ok (some denial)
found_denial = law.get_law ended (denial ∷ []) "e-0" ended_held

answers_denial :
    result_for json store "agent:1" 9 ended default_projection "r-0"
    ≡ some (ok (some denial), now_known)
unfolding result_for pluribus.Base.lookup
answers_denial = rw (result_for, refreshes, found_denial) refl

result_for_lem_example :
    (some denial
      ≡ under json store "agent:1" HoldsLog law ended
          (denial ∷ [])
          ended_held
          (first_result json "r-0" (tracked "agent:1" (denial ∷ []))))
    × IsComplete json store "agent:1" HoldsLog law ended (denial ∷ []) ended_held now_known
result_for_lem_example =
    result_for_lem json store "agent:1" HoldsLog law ended (denial ∷ []) ended_held 9
      default_projection now_known "r-0" (some denial) known answers_denial
