-- ===== src/Cognition/Dispatch/Revisions.antt =====
-- `revision_current`: whether a request still has the revision of its job.
use pluribus.Base.{
  ℕ, String, Bool, true, false, not, ◌&&◌, Option, none, some, List, [], ◌∷◌, Result, ok, err, ◌==◌,
  string_eq, int_eq, lookup, filter, any, ℤ,
}
use pluribus.Core.Event.{CommittedEvent}
use pluribus.Store.Tables.{pair_eq}
use pluribus.Json.{JsonText}
use pluribus.Cognition.EventStore.{EventStore}
use pluribus.Cognition.Dispatch.{Registration, Router, RouterError, payload_field, json_number}
use pluribus.Cognition.Dispatch.Projection.{DispatchProjection, refresh, unwrap_or}

abbrev pub halted : List String
halted = "cancelled" ∷ "waiting-input" ∷ []

abbrev pub no_pending : List String → Bool
no_pending [] = true
no_pending (id ∷ rest) = false

-- The loop over the registrations that read the whole stream.
unfoldable pub is_current : DispatchProjection → String → ℤ → List Registration → Bool
is_current projection job_id revision [] = true
is_current projection job_id revision (r ∷ rest) =
    elim (no_pending (unwrap_or (lookup r.instance_id projection.observations) [])) [
      | false ↦ false
      | true ↦ elim (lookup (record { first = r.instance_id; second = job_id }) projection.jobs) [
        | some job ↦ (job.0 == revision) && not (any (λ status. status == job.1) halted)
        | none ↦ is_current projection job_id revision rest
      ]
    ]

module _ {S : Type 0} (json : JsonText) (store : EventStore S) (router : Router) where
  unfoldable pub revision_current :
      ℕ
      → S
      → DispatchProjection
      → CommittedEvent
      → Option (Result RouterError Bool × DispatchProjection)
  revision_current rounds s projection request = elim (payload_field json request "jobId") [
    | none ↦ some (ok true, projection)
    | some job_id ↦ elim (json_number json request "revision") [
      | none ↦ some (ok false, projection)
      | some revision ↦ elim (refresh json store router.stream_id rounds s 1000 projection) [
        | none ↦ none
        | some refreshed ↦ elim refreshed.0 [
          | err e ↦ some (err e, refreshed.1)
          | ok u ↦ some (
            ok (
                is_current refreshed.1 job_id revision
                  (filter (λ r. r.subscriptions.whole_stream) router.registrations)),
            refreshed.1,
          )
        ]
      ]
    ]
  ]
