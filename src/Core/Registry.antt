-- ===== src/Core/Registry.antt =====
-- crates/pluribus-core/src/registry.rs: the closed vocabulary of event types and what a plugin may
-- propose.
mod Vocabulary
pub mod Patterns
pub mod Authorization
pub mod CoreTypes
mod Tests
use mathlib.Core.List.{reverse}
use mathlib.Core.Option as Option
use pluribus.Base.{
  ℕ, String, Bool, true, false, not, ◌&&◌, Option, none, some, List, [], ◌∷◌, Result, ok, err,
  ◌>>=◌, ◌>>◌, fail_if, ok_or, ◌==◌, string_eq, list_eq, nat_eq, Assoc, lookup, insert, any, codes,
  strip_prefix, if◌then◌else◌,
}
use pluribus.Core.Event.{AppendRequest}
pub use Vocabulary.{reserved_event_types, plugin_event_types, pinned_schemas}

pub data Ownership : Type 0 where
  core plugin : Ownership

pub record EventTypeDeclaration : Type 0 where
  pub ownership : Ownership
  pub payload_schema : Option String

pub record EventTypeRegistry : Type 0 where
  pub types : Assoc String EventTypeDeclaration

pub data RegistryError : Type 0 where
  unknown : String → RegistryError
  reserved : String → RegistryError
  not_granted : String → RegistryError
  schema_mismatch : String → String → String → RegistryError

abbrev pub undeclared_schema : Ownership → EventTypeDeclaration
undeclared_schema ownership = record { ownership = ownership; payload_schema = none }

-- `for event_type in …_EVENT_TYPES { types.insert(…) }`
insert_all :
    Ownership → List String → Assoc String EventTypeDeclaration → Assoc String EventTypeDeclaration
insert_all ownership [] types = types
insert_all ownership (event_type ∷ rest) types =
    insert_all ownership rest (insert event_type (undeclared_schema ownership) types)

-- `if let Some(declaration) = types.get_mut(kind) { … }`
pin : String → String → Assoc String EventTypeDeclaration → Assoc String EventTypeDeclaration
pin kind schema types = elim (lookup kind types) [
  | none ↦ types
  | some declaration ↦ insert kind (record declaration { payload_schema = some schema }) types
]

pin_all :
    List (String × String) → Assoc String EventTypeDeclaration → Assoc String EventTypeDeclaration
pin_all [] types = types
pin_all ((kind, schema) ∷ rest) types = pin_all rest (pin kind schema types)

-- `EventTypeRegistry::core`
pub core_registry : EventTypeRegistry
core_registry = record {
  types =
      pin_all pinned_schemas
        (insert_all plugin plugin_event_types (insert_all core reserved_event_types []));
}

check_schema : EventTypeDeclaration → AppendRequest → Result RegistryError (Unit {0})
check_schema declaration request = elim declaration.payload_schema [
  | none ↦ ok tt
  | some schema ↦
      fail_if (not (schema == request.payload_schema))
        (schema_mismatch request.event_type schema request.payload_schema)
]

unfoldable pub validate : EventTypeRegistry → AppendRequest → Result RegistryError (Unit {0})
unfolding check_schema
validate registry request = do
  declaration ← ok_or (lookup request.event_type registry.types) (unknown request.event_type)
  check_schema declaration request

-- `str::strip_suffix`
strip_suffix : List ℕ → List ℕ → Option (List ℕ)
strip_suffix suffix s = Option.map reverse (strip_prefix (reverse suffix) (reverse s))

starts_with_dot : List ℕ → Bool
starts_with_dot [] = false
starts_with_dot (c ∷ s) = c == b'.'

pub matches_pattern : List ℕ → List ℕ → Bool
matches_pattern pattern_text event_type =
    if pattern_text == codes "*" then true else elim (strip_suffix (codes ".*") pattern_text) [
      | some prefix ↦ elim (strip_prefix prefix event_type) [
        | none ↦ false
        | some rest ↦ starts_with_dot rest
      ]
      | none ↦ pattern_text == event_type
    ]

abbrev is_core : Ownership → Bool
is_core core = true
is_core plugin = false

pub authorize : EventTypeRegistry → AppendRequest → List String → Result RegistryError (Unit {0})
authorize registry request granted = do
  validate registry request
  declaration ← ok_or (lookup request.event_type registry.types) (unknown request.event_type)
  let connector_observation =
      (request.event_type == "observation.received")
      && any (λ event_type. event_type == "observation.received") granted
  fail_if (is_core declaration.ownership && not connector_observation) (reserved request.event_type)
  fail_if
      (not (
        any (λ granted_pattern. matches_pattern (codes granted_pattern) (codes request.event_type))
          granted))
      (not_granted request.event_type)
