-- ===== src/Cognition/Dispatch/Manifest.antt =====
-- `Subscriptions::from_manifest`, over the parts that it reads of the manifest of
-- crates/pluribus-plugin-package/src/manifest.rs.
use pluribus.Base.{
  String, Bool, not, List, [], ◌∷◌, insert, ◌==◌, string_eq, Assoc, map, filter, any,
}
use pluribus.Cognition.Dispatch.{ConstraintBinding, Subscriptions}

pub data Idempotency : Type 0 where
  inherent keyed non_idempotent : Idempotency

pub record ProvidedCapability : Type 0 where
  pub capability : String
  pub idempotency : Idempotency
  pub constraint_bindings : Assoc String ConstraintBinding

pub record ComponentManifest : Type 0 where
  pub subscribes : List String
  pub provides : List ProvidedCapability

abbrev pub idempotency_text : Idempotency → String
idempotency_text inherent = "inherent"
idempotency_text keyed = "keyed"
idempotency_text non_idempotent = "non-idempotent"

abbrev is_wildcard : String → Bool
is_wildcard pattern_text = pattern_text == "*"

unfoldable pub subscribes_to_stream : ComponentManifest → Bool
subscribes_to_stream manifest = any is_wildcard manifest.subscribes

-- `collect` into a map: the last entry of a key is kept.
abbrev collect : {V : Type 0} → Assoc String V → Assoc String V → Assoc String V
collect [] collected = collected
collect ((key, value) ∷ entries) collected = collect entries (insert key value collected)

unfoldable pub from_manifest : ComponentManifest → List String → Subscriptions
from_manifest manifest models = record {
  idempotency =
      collect (map (λ p. (p.capability, idempotency_text p.idempotency)) manifest.provides) [];
  whole_stream = subscribes_to_stream manifest;
  event_types = filter (λ pattern_text. not (is_wildcard pattern_text)) manifest.subscribes;
  capabilities = map (λ provided. provided.capability) manifest.provides;
  models = models;
  constraint_bindings =
      collect
        (map (λ provided. (provided.capability, provided.constraint_bindings)) manifest.provides)
        [];
}
