-- ===== src/Core/Registry/Tests.antt =====
-- Runs of the patterns and of the authorization.
use pluribus.Base.{
  ok, refl, ◌≡◌, ◌≢◌, ◌↔◌, ◌⊎◌, inl, inr, String, List, [], ◌∷◌, Among, Bool, true, some, codes,
  arith, ==_iff, string_eq, ◌==◌,
}
use mathlib.Core.Bool.{false≢true}
use pluribus.Core.Event.{AppendRequest}
use pluribus.Core.Registry.{
  Ownership, core, plugin, core_registry, reserved_event_types, plugin_event_types, matches_pattern,
  authorize,
}
use pluribus.Core.Registry.Authorization.{IsAuthorized, IsConnectorObservation, authorize_iff}
use pluribus.Core.Examples.{first_request}

abbrev granted : List String
granted = "model.*" ∷ "policy.*" ∷ []

abbrev reserved_request : AppendRequest
reserved_request = record first_request { event_type = "component.failed" }

authorizes_request : authorize core_registry first_request granted ≡ ok tt
unfolding authorize pluribus.Core.Registry.validate pluribus.Base.lookup core_registry
    pluribus.Core.Registry.pin_all pluribus.Core.Registry.pin pluribus.Core.Registry.insert_all
    pluribus.Base.insert matches_pattern pluribus.Core.Registry.strip_suffix
    pluribus.Base.strip_prefix pluribus.Core.Registry.starts_with_dot
authorizes_request = refl

authorize_iff_example :
    (authorize core_registry first_request granted ≡ ok tt)
    ↔ IsAuthorized core_registry first_request granted
authorize_iff_example = authorize_iff core_registry first_request granted

not_observation : ¬ IsConnectorObservation "component.failed" granted
not_observation h =
    false≢true ((==_iff {A = String} "component.failed" "observation.received").1 h.0)
