-- ===== src/Cognition/Dispatch/Projection.antt =====
-- `DispatchProjection`: what the router keeps of the log between calls, and what it answers from it.
use pluribus.Base.{
  ℕ, zero, suc, max, String, Bool, true, false, not, Option, none, some, List, [], ◌∷◌, ◌++◌,
  Result, ok, err, map_err, ◌==◌, string_eq, int_eq, Assoc, lookup, insert, filter, any,
  if◌then◌else◌, ℤ, negsuc,
}
use pluribus.Core.Identity.{component, kind_eq}
use pluribus.Core.Event.{CommittedEvent, EventQuery, default_query, canonical_json, blob}
use pluribus.Store.Tables.{PairKey, pair_eq}
use pluribus.Json.{Value, string, at, as_str, as_i64, JsonText}
use pluribus.Json.Equality.{value_eq}
use pluribus.Cognition.EventStore.{EventStore}
use pluribus.Cognition.Dispatch.{RouterError, storage, payload_field}

-- A job is under the component and the identifier; the pending observations of a component are the
-- identifiers in its list, each once.
pub record DispatchProjection : Type 0 where
  pub through : ℕ
  pub results : Assoc String String
  pub jobs : Assoc PairKey (ℤ × String)
  pub observations : Assoc String (List String)

abbrev pub default_projection : DispatchProjection
default_projection = record { through = 0; results = []; jobs = []; observations = [] }

-- `unwrap_or`
abbrev pub unwrap_or {ℓ} : {A : Type ℓ} → Option A → A → A
unwrap_or none default = default
unwrap_or (some a) default = a

abbrev pub cognition_types : List String
cognition_types =
    "cognition.checkpoint" ∷ "cognition.job-updated" ∷ "cognition.observation-associated" ∷ []

abbrev pub result_types : List String
result_types =
    "code.completed" ∷ "code.failed" ∷ "code.yielded" ∷ "model.completed" ∷ "model.failed"
    ∷ "capability.completed" ∷ "capability.failed" ∷ "capability.denied" ∷ "capability.timed-out"
    ∷ "capability.cancelled" ∷ []

abbrev pub is_one_of : List String → CommittedEvent → Bool
is_one_of types event = any (λ event_type. event_type == event.request.event_type) types

unfoldable pub update_job : String → String → Value → DispatchProjection → DispatchProjection
update_job actor id job self = record self {
  jobs =
      insert (record { first = actor; second = id })
        (unwrap_or (as_i64 (at job "revision")) (negsuc 0), unwrap_or (as_str (at job "status")) "")
        self.jobs;
}

unfoldable pub update_observation :
    String → String → Value → DispatchProjection → DispatchProjection
update_observation actor id observation self =
    let pending =
      filter (λ other. not (other == id)) (unwrap_or (lookup actor self.observations) []) in
    record self {
      observations =
          insert actor
            (if at observation "status" == string "pending" then id ∷ pending else pending)
            self.observations;
    }

abbrev pub with_id :
    Option String → (String → DispatchProjection) → DispatchProjection → DispatchProjection
with_id none f self = self
with_id (some id) f self = f id

-- `entry(request).or_insert(event_id)`
unfoldable pub or_insert : Option String → String → Assoc String String → Assoc String String
or_insert none event_id results = results
or_insert (some request) event_id results = elim (lookup request results) [
  | some first ↦ results
  | none ↦ insert request event_id results
]

-- The `match` on the type of an event whose content is `value`.
unfoldable pub apply_update : CommittedEvent → Value → DispatchProjection → DispatchProjection
apply_update event value self =
    let actor = event.request.actor.id in
    if not (event.request.actor.kind == component)
    then self
    else if event.request.event_type == "cognition.job-updated"
    then with_id (as_str (at (at value "job") "id"))
        (λ id. update_job actor id (at value "job") self) self
    else if event.request.event_type == "cognition.observation-associated"
    then with_id (as_str (at (at value "observation") "id"))
        (λ id. update_observation actor id (at value "observation") self) self
    else self

module _ (json : JsonText) where
  -- An error leaves the projection as it was.
  unfoldable pub update_cognition :
      CommittedEvent → DispatchProjection → Result RouterError DispatchProjection
  update_cognition event self = elim event.request.payload [
    | blob b ↦ ok self
    | canonical_json bytes ↦ elim (json.from_slice bytes) [
      | err e ↦ err (storage e)
      | ok value ↦ ok (apply_update event value self)
    ]
  ]

  unfoldable pub add_result : CommittedEvent → Assoc String String → Assoc String String
  add_result event results =
      or_insert (payload_field json event "requestEventId") event.event_id
        (or_insert event.request.causation_id event.event_id results)

  -- One event of a page: `through` moves past it first.
  unfoldable pub project :
      CommittedEvent → DispatchProjection → Result RouterError (Unit {0}) × DispatchProjection
  project event self =
      let moved : DispatchProjection = record self { through = event.sequence } in
      elim (is_one_of cognition_types event) [
        | true ↦ elim (update_cognition event moved) [
          | err e ↦ (err e, moved)
          | ok updated ↦ (ok tt, updated)
        ]
        | false ↦ (ok tt, record moved { results = add_result event self.results })
      ]

  unfoldable pub project_all :
      List CommittedEvent → DispatchProjection → Result RouterError (Unit {0}) × DispatchProjection
  project_all [] self = (ok tt, self)
  project_all (event ∷ page) self =
      let (answer, next) = project event self in
      elim answer [ err e ↦ (err e, next) | ok u ↦ project_all page next ]

module _ {S : Type 0} (json : JsonText) (store : EventStore S) (stream : String) where
  abbrev pub projection_query : ℕ → EventQuery
  projection_query after = record default_query {
    after_sequence = some after;
    event_types = cognition_types ++ result_types;
  }

  -- The `loop`, in at most as many rounds as the fuel; `none` means that the fuel ran out.
  unfoldable pub refresh :
      ℕ → S → ℕ → DispatchProjection → Option (Result RouterError (Unit {0}) × DispatchProjection)
  refresh zero s page_size self = none
  refresh (suc rounds) s page_size self =
      elim (store.query s stream (projection_query self.through) (max page_size 1)) [
        | err e ↦ some (err (storage e), self)
        | ok page ↦ elim page [
          | [] ↦ some (ok tt, self)
          | event ∷ rest ↦ elim (project_all json (event ∷ rest) self).0 [
            | err e ↦ some (err e, (project_all json (event ∷ rest) self).1)
            | ok u ↦ refresh rounds s page_size (project_all json (event ∷ rest) self).1
          ]
        ]
      ]

  abbrev pub found_result : S → Option String → Result RouterError (Option CommittedEvent)
  found_result s none = ok none
  found_result s (some id) = map_err storage (store.get s id)

  unfoldable pub result_for :
      ℕ
      → S
      → DispatchProjection
      → String
      → Option (Result RouterError (Option CommittedEvent) × DispatchProjection)
  result_for rounds s self request = elim (refresh rounds s 1000 self) [
    | none ↦ none
    | some refreshed ↦ elim refreshed.0 [
      | err e ↦ some (err e, refreshed.1)
      | ok u ↦ some (found_result s (lookup request refreshed.1.results), refreshed.1)
    ]
  ]
