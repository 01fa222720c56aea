-- ===== src/Core/Authority/Decisions.antt =====
-- Which requests an authority allows, by which grant, and why it denies the others.
use pluribus.Base.{
  ℕ, ◌≤◌, ◌≡◌, ◌↔◌, ◌⊎◌, inl, inr, String, Bool, true, false, Option, none, some, List, [], ◌∷◌, ok,
  arith, ltb, lookup, filter, ℤ, ◌≤ℤ◌, Holds, Found, Option-cases, string_eq, Bool-cases,
  Result-cases, ==_iff,
}
use pluribus.Core.Identity.{PrincipalRef, principal_eq}
use pluribus.Core.Authority.{
  Authority, Grant, Policy, allow, deny, missing_grant, constraint_mismatch, is_expired_at,
  names_provider, denial, try_grants, decide,
}

-- A grant that names no provider is for all.
abbrev pub IsFor : PrincipalRef → Grant → Type 0
IsFor provider grant = Holds (λ p. p ≡ provider) grant.provider

-- The grant is for the provider, and the provider's policy accepts the request under it.
abbrev pub Accepts : Policy → PrincipalRef → List ℕ → Grant → Type 0
Accepts policy provider request grant = IsFor provider grant × (policy grant request ≡ ok true)

-- `grant` is the first in the list that accepts.
abbrev pub IsFirst : Policy → PrincipalRef → List ℕ → Grant → List Grant → Type 0
IsFirst policy provider request grant [] = ⊥
IsFirst policy provider request grant (g ∷ grants) =
    ((g ≡ grant) × Accepts policy provider request g)
    ⊎ ((¬ Accepts policy provider request g) × IsFirst policy provider request grant grants)

names_provider_iff : (p : PrincipalRef) (g : Grant) → (names_provider p g ≡ true) ↔ IsFor p g
names_provider_iff p g = elim (Option-cases g.provider) [
  | inl e ↦ ground arith
  | inr (q, e) ↦ ground (arith, ==_iff q p)
]

abbrev pub SomeFor : PrincipalRef → List Grant → Type 0
SomeFor provider [] = ⊥
SomeFor provider (g ∷ grants) = IsFor provider g ⊎ SomeFor provider grants

-- Every grant for the provider is refused by its policy without an error.
abbrev pub AllRefuse : Policy → PrincipalRef → List ℕ → List Grant → Type 0
AllRefuse policy provider request [] = Unit {0}
AllRefuse policy provider request (g ∷ grants) =
    (IsFor provider g → policy g request ≡ ok false) × AllRefuse policy provider request grants

module _ (policy : Policy) (provider : PrincipalRef) (request : List ℕ) where
  try_grants_allow :
      (grant : Grant) (grants : List Grant) (saw : Bool) (error : Option String)
      → (try_grants policy request (filter (names_provider provider) grants) saw error
          ≡ allow grant)
        ↔ IsFirst policy provider request grant grants
  unfolding try_grants
  try_grants_allow grant [] saw error = ground arith
  try_grants_allow grant (g ∷ grants) saw error = elim (Bool-cases (names_provider provider g)) [
    | inl named ↦ elim (Result-cases (policy g request)) [
      | inl (b, e) ↦
          rw (named, e, try_grants)
            (ground
              (arith, names_provider_iff provider g, try_grants_allow grant grants true error))
      | inr (x, e) ↦
          rw (named, e, try_grants)
            (ground
              (arith, names_provider_iff provider g, try_grants_allow grant grants true (some x)))
    ]
    | inr other ↦
        rw other
          (ground (arith, names_provider_iff provider g, try_grants_allow grant grants saw error))
  ]

  try_grants_missing :
      (grants : List Grant) (saw : Bool) (error : Option String)
      → (try_grants policy request (filter (names_provider provider) grants) saw error
          ≡ deny missing_grant)
        ↔ ((saw ≡ false) × (error ≡ none) × (¬ SomeFor provider grants))
  unfolding try_grants denial
  try_grants_missing [] saw error = ground arith
  try_grants_missing (g ∷ grants) saw error = elim (Bool-cases (names_provider provider g)) [
    | inl named ↦ elim (Result-cases (policy g request)) [
      | inl (b, e) ↦
          rw (named, e, try_grants)
            (ground (arith, names_provider_iff provider g, try_grants_missing grants true error))
      | inr (x, e) ↦
          rw (named, e, try_grants)
            (ground (arith, names_provider_iff provider g, try_grants_missing grants true (some x)))
    ]
    | inr other ↦
        rw other
          (ground (arith, names_provider_iff provider g, try_grants_missing grants saw error))
  ]

  try_grants_mismatch :
      (grants : List Grant) (saw : Bool) (error : Option String)
      → (try_grants policy request (filter (names_provider provider) grants) saw error
          ≡ deny constraint_mismatch)
        ↔ (((saw ≡ true) ⊎ SomeFor provider grants)
            × (error ≡ none)
            × AllRefuse policy provider request grants)
  unfolding try_grants denial
  try_grants_mismatch [] saw error = ground arith
  try_grants_mismatch (g ∷ grants) saw error = elim (Bool-cases (names_provider provider g)) [
    | inl named ↦ elim (Result-cases (policy g request)) [
      | inl (b, e) ↦
          rw (named, e, try_grants)
            (ground (arith, names_provider_iff provider g, try_grants_mismatch grants true error))
      | inr (x, e) ↦
          rw (named, e, try_grants)
            (ground
              (arith, names_provider_iff provider g, try_grants_mismatch grants true (some x)))
    ]
    | inr other ↦
        rw other
          (ground (arith, names_provider_iff provider g, try_grants_mismatch grants saw error))
  ]

module _ (a : Authority) (capability : String) (provider : PrincipalRef) (request : List ℕ)
    (policy : Policy) (now_ms : ℤ) where
  -- The authority has not expired, and its depth is in bounds.
  abbrev pub IsLive : Type 0
  IsLive = Holds (λ expiry. ¬ (expiry ≤ℤ now_ms)) a.expires_at_ms × (a.current_depth ≤ a.max_depth)

  live_iff : ((is_expired_at a now_ms ≡ false) × (ltb a.max_depth a.current_depth ≡ false)) ↔ IsLive
  unfolding is_expired_at
  live_iff = elim (Option-cases a.expires_at_ms) [
    | inl e ↦ ground arith
    | inr (t, e) ↦ ground arith
  ]

  -- A request is allowed by a grant exactly when the authority is live and the grant is the first
  -- of the capability's grants that is for the provider and whose constraints its policy accepts.
  -- A policy that gives an error for an earlier grant does not stop it, and no audience is matched.
  pub decide_allow_iff :
      (grant : Grant)
      → (decide a capability provider request policy now_ms ≡ allow grant)
        ↔ (IsLive × Found (IsFirst policy provider request grant) (lookup capability a.grants))
  unfolding decide
  decide_allow_iff grant = elim (Option-cases (lookup capability a.grants)) [
    | inl e ↦ rw e (ground (arith, live_iff))
    | inr (grants, e) ↦
        rw e (
          ground
            (arith, live_iff, try_grants_allow policy provider request grant grants false none))
  ]

  -- A live authority denies for a missing grant exactly when no grant of the capability is for the
  -- provider, and for the constraints exactly when some grant is for the provider and the policy
  -- refuses each such grant without an error.
  pub decide_deny_iff :
      IsLive
      → ((decide a capability provider request policy now_ms ≡ deny missing_grant)
          ↔ Holds (λ grants. ¬ SomeFor provider grants) (lookup capability a.grants))
        × ((decide a capability provider request policy now_ms ≡ deny constraint_mismatch)
            ↔ Found
                (λ grants. SomeFor provider grants × AllRefuse policy provider request grants)
                (lookup capability a.grants))
  unfolding decide
  decide_deny_iff live = elim (Option-cases (lookup capability a.grants)) [
    | inl e ↦ rw e (ground (arith, live_iff))
    | inr (grants, e) ↦ rw e (
        ground (
          arith,
          live_iff,
          try_grants_missing policy provider request grants false none,
          try_grants_mismatch policy provider request grants false none,
        ))
  ]

-- Time only takes permissions away: what is allowed at one time was allowed, by the same grant, at
-- every earlier time.
pub decide_earlier :
    (a : Authority) (capability : String) (provider : PrincipalRef) (request : List ℕ)
    (policy : Policy) (now_ms earlier_ms : ℤ) (grant : Grant)
    → earlier_ms ≤ℤ now_ms
    → decide a capability provider request policy now_ms ≡ allow grant
    → decide a capability provider request policy earlier_ms ≡ allow grant
unfolding decide is_expired_at
decide_earlier a capability provider request policy now_ms earlier_ms grant h d =
    elim (Option-cases a.expires_at_ms) [ inl e ↦ ground arith | inr (t, e) ↦ ground arith ]
