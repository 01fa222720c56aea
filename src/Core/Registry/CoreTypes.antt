-- ===== src/Core/Registry/CoreTypes.antt =====
-- Who owns which type in the registry that `EventTypeRegistry::core` builds.
use mathlib.Core.Option as Option
use pluribus.Base.{
  ◌≡◌, refl, ap, ◌∙◌, ◌↔◌, inl, inr, Bool, true, Option, none, some, List, [], ◌∷◌, arith, ==_iff,
  string_eq, Option-cases, ◌==◌, String, Assoc, lookup, insert, lookup-insert, any, all, any_eq_iff,
  Among, if◌then◌else◌, not,
}
use pluribus.Core.Registry.{
  Ownership, core, plugin, EventTypeDeclaration, insert_all, pin, pin_all, core_registry,
  undeclared_schema, reserved_event_types, plugin_event_types, pinned_schemas,
}

-- The owner of a type, if the vocabulary has the type.
abbrev pub owner : String → Assoc String EventTypeDeclaration → Option Ownership
owner event_type types =
    Option.map (λ (d : EventTypeDeclaration). d.ownership) (lookup event_type types)

owner-insert_all :
    (t : String) (o : Ownership) (ts : List String) (types : Assoc String EventTypeDeclaration)
    → owner t (insert_all o ts types) ≡ (if any (λ x. x == t) ts then some o else owner t types)
unfolding insert_all
owner-insert_all t o [] types = refl
owner-insert_all t o (x ∷ ts) types = ground (
  arith,
  owner-insert_all t o ts (insert x (undeclared_schema o) types),
  lookup-insert x t (undeclared_schema o) types,
)

owner-pin :
    (t kind schema : String) (types : Assoc String EventTypeDeclaration)
    → owner t (pin kind schema types) ≡ owner t types
unfolding pin
owner-pin t kind schema types = elim (Option-cases (lookup kind types)) [
  | inl e ↦ rw (e, pin)
  | inr (d, e) ↦
      rw (e, pin)
        (ground (
          arith,
          lookup-insert kind t (record d { payload_schema = some schema }) types,
          ==_iff kind t,
        ))
]

owner-pin_all :
    (t : String) (pins : List (String × String)) (types : Assoc String EventTypeDeclaration)
    → owner t (pin_all pins types) ≡ owner t types
unfolding pin_all
owner-pin_all t [] types = refl
owner-pin_all t ((kind, schema) ∷ pins) types =
    owner-pin_all t pins (pin kind schema types) ∙ owner-pin t kind schema types

-- The two lists have no type in common.
lists_disjoint : all (λ t. not (any (λ x. x == t) plugin_event_types)) reserved_event_types ≡ true
lists_disjoint = refl

all_at :
    (p : String → Bool) (t : String) (ts : List String) → all p ts ≡ true → Among t ts → p t ≡ true
all_at p t [] h m = absurd m
all_at p t (x ∷ ts) h (inl e) = rw (← e) (ground arith)
all_at p t (x ∷ ts) h (inr m) = all_at p t ts (ground arith) m

pub owner_core :
    (t : String)
    → owner t core_registry.types ≡ (
        if any (λ x. x == t) plugin_event_types
        then some plugin
        else if any (λ x. x == t) reserved_event_types
        then some core
        else none)
unfolding core_registry lookup
owner_core t =
    owner-pin_all t pinned_schemas _
    ∙ owner-insert_all t plugin plugin_event_types _
    ∙ ap (λ o. if any (λ x. x == t) plugin_event_types then some plugin else o)
        (owner-insert_all t core reserved_event_types [])

-- By the order of the inserts, a list decides the owner of its types where the lists are disjoint.
owner_by_lists :
    (t : String) (reserved plugins : List String)
    → (Among t reserved → not (any (λ x. x == t) plugins) ≡ true)
    → (o : Option Ownership)
    → o ≡ (
        if any (λ x. x == t) plugins
        then some plugin
        else if any (λ x. x == t) reserved
        then some core
        else none)
    → ((o ≡ some core) ↔ Among t reserved) × ((o ≡ some plugin) ↔ Among t plugins)
owner_by_lists t reserved plugins apart o e =
    ground (arith, any_eq_iff t reserved, any_eq_iff t plugins)

-- In the core registry a type belongs to the core exactly when it is listed as reserved, and to
-- plugins exactly when it is listed as a plugin type.
pub core_registry_owners :
    (t : String)
    → ((owner t core_registry.types ≡ some core) ↔ Among t reserved_event_types)
      × ((owner t core_registry.types ≡ some plugin) ↔ Among t plugin_event_types)
core_registry_owners t =
    owner_by_lists t reserved_event_types plugin_event_types
      (all_at (λ x. not (any (λ y. y == x) plugin_event_types)) t reserved_event_types
        lists_disjoint)
      (owner t core_registry.types) (owner_core t)
