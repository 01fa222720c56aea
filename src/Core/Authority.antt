-- ===== src/Core/Authority.antt =====
-- crates/pluribus-core/src/authority.rs: the authority of an activity, and the decision on one
-- capability request. The constraint policy is the capability provider's.
pub mod Decisions
mod Tests
use pluribus.Base.{
  ℕ, String, Bool, true, false, not, ◌||◌, Option, none, some, List, [], ◌∷◌, Result, ok, err, ◌==◌,
  string_eq, Assoc, lookup, filter, ltb, if◌then◌else◌, ℤ, leb_ℤ,
}
use pluribus.Core.Identity.{PrincipalRef, principal_eq}
use pluribus.Core.Event.{is_some_and, is_some}

-- A constraint set is its canonical JSON bytes.
pub record Grant : Type 0 where
  pub capability : String
  pub provider : Option PrincipalRef
  pub constraints : List ℕ

pub record Audience : Type 0 where
  pub connector : PrincipalRef
  pub conversation_id : String
  pub recipients : List PrincipalRef

pub data OriginKind : Type 0 where
  autonomous connector : OriginKind

pub record Origin : Type 0 where
  pub kind : OriginKind
  pub principal : Option PrincipalRef
  pub connector : Option PrincipalRef
  pub conversation_id : Option String
  pub source_event_id : String
  pub trusted : Bool

pub record Delegation : Type 0 where
  pub from : PrincipalRef
  pub to : PrincipalRef
  pub on_behalf_of : Option PrincipalRef
  pub purpose : String
  pub source_event_id : String

pub record Authority : Type 0 where
  pub schema : String
  pub authority_id : String
  pub agent : PrincipalRef
  pub origin : Origin
  pub delegation_chain : List Delegation
  pub grants : Assoc String (List Grant)
  pub audiences : List Audience
  pub parent_authority : Option String
  pub issued_at_ms : ℤ
  pub expires_at_ms : Option ℤ
  pub max_depth : ℕ
  pub current_depth : ℕ

pub data DenialReason : Type 0 where
  missing_grant constraint_mismatch expired depth_exceeded : DenialReason
  policy_error : String → DenialReason

pub data Decision : Type 0 where
  allow : Grant → Decision
  deny : DenialReason → Decision

-- `ConstraintPolicy::allows`
abbrev pub Policy : Type 0
Policy = Grant → List ℕ → Result String Bool

unfoldable pub permits : Authority → String → Bool
permits a capability = is_some (lookup capability a.grants)

unfoldable pub is_expired_at : Authority → ℤ → Bool
is_expired_at a now_ms = is_some_and a.expires_at_ms (λ expiry. leb_ℤ expiry now_ms)

unfoldable pub can_descend : Authority → Bool
can_descend a = ltb a.current_depth a.max_depth

-- `grant.provider.as_ref().is_none_or(|value| value == provider)`
abbrev pub names_provider : PrincipalRef → Grant → Bool
names_provider provider grant = elim grant.provider [ none ↦ true | some value ↦ value == provider ]

denial : Bool → Option String → DenialReason
denial saw_provider (some error) = policy_error error
denial true none = constraint_mismatch
denial false none = missing_grant

-- The loop over the matching grants, with its two variables.
try_grants : Policy → List ℕ → List Grant → Bool → Option String → Decision
try_grants policy request [] saw_provider error = deny (denial saw_provider error)
try_grants policy request (grant ∷ grants) saw_provider error = elim (policy grant request) [
  | ok allowed ↦ elim allowed [
    | true ↦ allow grant
    | false ↦ try_grants policy request grants true error
  ]
  | err e ↦ try_grants policy request grants true (some e)
]

unfoldable pub decide : Authority → String → PrincipalRef → List ℕ → Policy → ℤ → Decision
unfolding is_expired_at denial try_grants
decide a capability provider request policy now_ms =
    if is_expired_at a now_ms
    then deny expired
    else if ltb a.max_depth a.current_depth
    then deny depth_exceeded
    else elim (lookup capability a.grants) [
      | none ↦ deny missing_grant
      | some grants ↦ try_grants policy request (filter (names_provider provider) grants) false none
    ]
