-- ===== src/Core/Registry/Authorization.antt =====
-- What a plugin may propose.
use pluribus.Base.{
  ◌≡◌, ◌≢◌, ◌↔◌, ◌⊎◌, inl, inr, true, some, List, [], ◌∷◌, arith, ==_iff, string_eq, Option-cases,
  String, lookup, any, any_eq_iff, Among, Holds, codes, ok,
}
use pluribus.Core.Event.{AppendRequest}
use pluribus.Core.Registry.{
  plugin, EventTypeRegistry, EventTypeDeclaration, core_registry, reserved_event_types, validate,
  check_schema, authorize, matches_pattern,
}
use pluribus.Core.Registry.Patterns.{Covers, matches_pattern_iff}
use pluribus.Core.Registry.CoreTypes.{core_registry_owners}

-- One of the granted patterns covers the type.
abbrev pub IsGranted : String → List String → Type 0
IsGranted event_type [] = ⊥
IsGranted event_type (p ∷ granted) =
    Covers (codes p) (codes event_type) ⊎ IsGranted event_type granted

-- A connector's grant of observations names them exactly.
abbrev pub IsConnectorObservation : String → List String → Type 0
IsConnectorObservation event_type granted =
    (event_type ≡ "observation.received") × Among "observation.received" granted

pub record IsAuthorized (registry : EventTypeRegistry) (request : AppendRequest)
    (granted : List String) : Type 0 where
  pub declaration : EventTypeDeclaration
  pub known : lookup request.event_type registry.types ≡ some declaration
  pub schema : Holds (λ s. s ≡ request.payload_schema) declaration.payload_schema
  pub owned : (declaration.ownership ≡ plugin) ⊎ IsConnectorObservation request.event_type granted
  pub covered : IsGranted request.event_type granted

IsGranted-iff :
    (t : String) (granted : List String)
    → (any (λ p. matches_pattern (codes p) (codes t)) granted ≡ true) ↔ IsGranted t granted
IsGranted-iff t [] = ground arith
IsGranted-iff t (p ∷ granted) =
    ground (arith, matches_pattern_iff (codes p) (codes t), IsGranted-iff t granted)

schema_iff :
    (d : EventTypeDeclaration) (request : AppendRequest)
    → (check_schema d request ≡ ok tt) ↔ Holds (λ s. s ≡ request.payload_schema) d.payload_schema
unfolding check_schema
schema_iff d request = elim (Option-cases d.payload_schema) [
  | inl e ↦ ground arith
  | inr (s, e) ↦ ground (arith, ==_iff s request.payload_schema)
]

module _ (registry : EventTypeRegistry) (request : AppendRequest) (granted : List String) where
  authorize-IsAuthorized :
      authorize registry request granted ≡ ok tt → IsAuthorized registry request granted
  unfolding authorize validate
  authorize-IsAuthorized h = elim (Option-cases (lookup request.event_type registry.types)) [
    | inl e ↦ ground arith
    | inr (d, e) ↦ record {
      declaration = d;
      known = e;
      schema = ground (arith, schema_iff d request);
      owned = ground (
        arith,
        ==_iff request.event_type "observation.received",
        any_eq_iff "observation.received" granted,
      );
      covered = ground (arith, IsGranted-iff request.event_type granted);
    }
  ]

  IsAuthorized-authorize :
      IsAuthorized registry request granted → authorize registry request granted ≡ ok tt
  unfolding authorize validate
  IsAuthorized-authorize a = ground (
    arith,
    a.known,
    schema_iff a.declaration request,
    ==_iff request.event_type "observation.received",
    any_eq_iff "observation.received" granted,
    IsGranted-iff request.event_type granted,
  )

  -- A proposal is authorized exactly when its type is known, its payload schema is the one declared
  -- for the type, if any is, the type is owned by plugins or is an observation that the instance
  -- was granted by its exact name, and a granted pattern covers the type.
  pub authorize_iff :
      (authorize registry request granted ≡ ok tt) ↔ IsAuthorized registry request granted
  authorize_iff = (authorize-IsAuthorized, IsAuthorized-authorize)

-- In the core registry a plugin may not propose a reserved type, whatever was granted, unless it is
-- an observation and the grant names it exactly.
pub reserved_refused :
    (request : AppendRequest) (granted : List String)
    → Among request.event_type reserved_event_types
    → ¬ IsConnectorObservation request.event_type granted
    → authorize core_registry request granted ≢ ok tt
reserved_refused request granted m n h =
    let a = (authorize_iff core_registry request granted).0 h in
    let o = (core_registry_owners request.event_type).0.1 m in
    elim a.owned [ inl p ↦ ground (arith, a.known, o, p) | inr c ↦ n c ]
