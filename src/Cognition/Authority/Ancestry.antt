-- ===== src/Cognition/Authority/Ancestry.antt =====
-- The causal chain that `resolve` walks, and the observation that it stops at.
use pluribus.Base.{
  ℕ, zero, suc, ◌<◌, ◌≤◌, ◌≡◌, refl, ap, ◌∙◌, inl, inr, String, false, Option, none, some, Result,
  ok, arith, find, Found, Option-cases, Result-cases, string_eq,
}
use pluribus.Core.Event.{CommittedEvent}
use pluribus.Core.Authority.{Authority}
use pluribus.Json.{Value, JsonText}
use pluribus.Cognition.Authority.Visits.{visit_lem}
use pluribus.Cognition.Authority.{
  OriginAuthority, GetEvent, issues, climbs, answers_for, issue, visit, parent_of, walk, max_rounds,
  resolve,
}

-- `origin` is the event itself, or is above its cause, each cause being committed earlier.
pub data Ancestor (get_event : GetEvent) (origin : CommittedEvent) : CommittedEvent → Type 0 where
  here : Ancestor get_event origin origin
  above :
      {event parent : CommittedEvent} {cause : String}
      → event.request.causation_id ≡ some cause
      → get_event cause ≡ ok (some parent)
      → parent.sequence < event.sequence
      → Ancestor get_event origin parent
      → Ancestor get_event origin event

parent_of_lem :
    (get_event : GetEvent) (event parent : CommittedEvent)
    → parent_of get_event event ≡ ok parent
    → (cause : String) × (event.request.causation_id ≡ some cause)
      × (get_event cause ≡ ok (some parent))
      × (parent.sequence < event.sequence)
unfolding parent_of
parent_of_lem get_event event parent h = elim (Option-cases event.request.causation_id) [
  | inl e ↦ absurd (ground arith)
  | inr (cause, e) ↦ elim (Result-cases (get_event cause)) [
    | inr (x, f) ↦ absurd (ground arith)
    | inl (none, f) ↦ absurd (ground arith)
    | inl (some up, f) ↦ (cause, e, ground arith, ground arith)
  ]
]

below : {p e r : ℕ} → p < e → e < suc r → p < r
below h k = omega arith

module _ (json : JsonText) (self : OriginAuthority) where
  -- The observation that the authority comes from.
  abbrev pub IsOrigin : CommittedEvent → Authority → Type 0
  IsOrigin origin a =
      (origin.request.stream_id ≡ self.agent.id)
      × (origin.request.event_type ≡ "observation.received")
      × Found (λ c. c.inherits_origin ≡ false)
          (find (answers_for origin.request.actor) self.connectors)
      × (issue json self origin ≡ ok a)

  ok_authority : {a b : Authority} → ◌≡◌ {A = Result String Authority} (ok a) (ok b) → a ≡ b
  ok_authority h = ground arith

  visit-IsOrigin :
      (origin : CommittedEvent) (inherited : Option (String × Value)) (a : Authority)
      → visit json self origin inherited ≡ ok (issues a)
      → IsOrigin origin a
  visit-IsOrigin origin inherited a h =
      let (s, r) = visit_lem json self origin inherited (issues a) h in
      elim r [
        | inr (n, p) ↦ absurd (ground arith)
        | inl (t, (c, value, f, o, k, out)) ↦ (s, t, rw f out.0, out.1)
      ]

  walk-IsOrigin :
      (get_event : GetEvent) (rounds : ℕ) (event : CommittedEvent)
      (inherited : Option (String × Value)) (a : Authority)
      → walk json self get_event rounds event inherited ≡ ok a
      → (origin : CommittedEvent) × Ancestor get_event origin event × IsOrigin origin a
  unfolding walk
  walk-IsOrigin get_event zero event inherited a h = absurd (ground arith)
  walk-IsOrigin get_event (suc rounds) event inherited a h =
      elim (Result-cases (visit json self event inherited)) [
        | inr (x, e) ↦ absurd (ground arith)
        | inl (issues b, e) ↦ (
          event,
          here,
          visit-IsOrigin event inherited a
              (e ∙ ap (λ b. ok (issues b)) (ok_authority (ground arith))),
        )
        | inl (climbs next, e) ↦ elim (Result-cases (parent_of get_event event)) [
          | inr (x, f) ↦ absurd (ground arith)
          | inl (parent, f) ↦
              let (origin, up, is) = walk-IsOrigin get_event rounds parent next a (ground arith) in
              let (cause, c, g, l) = parent_of_lem get_event event parent f in
              (origin, above c g l up, is)
        ]
      ]

  -- An authority is resolved for an event only from an observation that is the event itself or is
  -- above it on its chain of causes: an observation on the agent's stream, by the ingress component
  -- of a connector that does not inherit its origin, for which that authority is issued.
  pub resolve-IsOrigin :
      (get_event : GetEvent) (event : CommittedEvent) (a : Authority)
      → resolve json self get_event event ≡ ok a
      → (origin : CommittedEvent) × Ancestor get_event origin event × IsOrigin origin a
  unfolding resolve
  resolve-IsOrigin get_event event a h = walk-IsOrigin get_event max_rounds event none a h

  walk_enough :
      (get_event : GetEvent) (rounds total : ℕ) (event : CommittedEvent)
      (inherited : Option (String × Value))
      → event.sequence < rounds
      → rounds ≤ total
      → walk json self get_event total event inherited
        ≡ walk json self get_event rounds event inherited
  unfolding walk
  walk_enough get_event zero total event inherited h l = absurd (omega arith)
  walk_enough get_event (suc rounds) zero event inherited h l = absurd (omega arith)
  walk_enough get_event (suc rounds) (suc total) event inherited h l =
      elim (Result-cases (visit json self event inherited)) [
        | inr (x, e) ↦ rw (walk, e) refl
        | inl (issues b, e) ↦ rw (walk, e) refl
        | inl (climbs next, e) ↦ elim (Result-cases (parent_of get_event event)) [
          | inr (x, f) ↦ rw (walk, e, f) refl
          | inl (parent, f) ↦
              rw (walk, e, f)
                (walk_enough get_event rounds total parent next
                  (below (parent_of_lem get_event event parent f).3 h) (omega arith))
        ]
      ]

  -- For an event of a sequence below the bound, the bound on the rounds does not show: the walk
  -- with any greater number of rounds answers as `resolve` does.
  pub resolve_unbounded :
      (get_event : GetEvent) (event : CommittedEvent) (total : ℕ)
      → event.sequence < max_rounds
      → max_rounds ≤ total
      → walk json self get_event total event none ≡ resolve json self get_event event
  unfolding resolve
  resolve_unbounded get_event event total h l =
      walk_enough get_event max_rounds total event none h l
