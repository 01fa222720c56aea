-- ===== src/Cognition/Authority/Visits.antt =====
-- What one round of `resolve` finds at an event.
use mathlib.Core.Path.{subst}
use pluribus.Base.{
  ◌≡◌, refl, ◌⊎◌, inl, inr, String, Bool, true, false, Option, none, some, Result, ok, arith, find,
  Bool-cases, ◌>>=◌, bind_ok, ok_or_ok, fail_if_ok, ok_or, fail_if, string_eq, ==_iff, ne_of_==,
  ◌==◌,
}
use pluribus.Core.Event.{CommittedEvent}
use pluribus.Json.{Value, JsonText, at, as_str}
use pluribus.Cognition.Authority.{
  Connector, OriginAuthority, Visit, issues, climbs, answers_for, observation, changes_origin,
  issue, visit_observation, visit,
}

abbrev pub observed_type : String
observed_type = "observation.received"

module _ (json : JsonText) (self : OriginAuthority) where
  ok_visit : {v w : Visit} → ◌≡◌ {A = Result String Visit} (ok v) (ok w) → v ≡ w
  ok_visit h = ground arith

  -- What a visit of an observation of connector `c` with the content `value` comes to.
  abbrev pub Outcome : CommittedEvent → Connector → Value → Visit → Type 0
  Outcome origin c value (issues a) = (c.inherits_origin ≡ false) × (issue json self origin ≡ ok a)
  Outcome origin c value (climbs none) = ⊥
  Outcome origin c value (climbs (some (id, expected))) =
      (c.inherits_origin ≡ true)
      × (as_str (at value "originEventId") ≡ some id)
      × (expected ≡ value)

  abbrev pub Observes : CommittedEvent → Option (String × Value) → Visit → Type 0
  Observes origin inherited v =
      (c : Connector) × (value : Value) × (find (answers_for origin.request.actor) self.connectors
        ≡ some c)
      × (observation json origin ≡ ok value)
      × (changes_origin origin value inherited ≡ false)
      × Outcome origin c value v

  outcome_lem :
      (origin : CommittedEvent) (c : Connector) (value : Value) (v : Visit) (b : Bool)
      → c.inherits_origin ≡ b
      → (elim b [
        | false ↦ issue json self origin >>= λ authority. ok (issues authority)
        | true ↦
            ok_or (as_str (at value "originEventId")) "derived observation requires originEventId"
            >>= λ id. ok (climbs (some (id, value)))
      ])
        ≡ ok v
      → Outcome origin c value v
  outcome_lem origin c value v false e h =
      let (a, i, p) = bind_ok (issue json self origin) _ v h in
      subst (Outcome origin c value) (ok_visit p) (e, i)
  outcome_lem origin c value v true e h =
      let (id, i, p) = bind_ok (ok_or (as_str (at value "originEventId")) _) _ v h in
      subst (Outcome origin c value) (ok_visit p) (e, ok_or_ok _ _ id i, refl)

  visit_observation_lem :
      (origin : CommittedEvent) (inherited : Option (String × Value)) (v : Visit)
      → visit_observation json self origin inherited ≡ ok v
      → Observes origin inherited v
  unfolding visit_observation
  visit_observation_lem origin inherited v h =
      let (c, f, h1) =
        bind_ok (ok_or (find (answers_for origin.request.actor) self.connectors) _) _ v h in
      let (value, o, h2) = bind_ok (observation json origin) _ v h1 in
      let (u, p, h3) = bind_ok (fail_if (changes_origin origin value inherited) _) _ v h2 in
      (
        c,
        value,
        ok_or_ok _ _ c f,
        o,
        fail_if_ok _ _ u p,
        outcome_lem origin c value v c.inherits_origin refl h3,
      )

  pub visit_lem :
      (origin : CommittedEvent) (inherited : Option (String × Value)) (v : Visit)
      → visit json self origin inherited ≡ ok v
      → (origin.request.stream_id ≡ self.agent.id)
        × (((origin.request.event_type ≡ "observation.received") × Observes origin inherited v)
            ⊎ ((¬ (origin.request.event_type ≡ "observation.received")) × (v ≡ climbs inherited)))
  unfolding visit
  visit_lem origin inherited v h = elim (Bool-cases (origin.request.stream_id == self.agent.id)) [
    | inr e ↦ absurd (ground arith)
    | inl e ↦ (
      (==_iff origin.request.stream_id self.agent.id).0 e,
      elim (Bool-cases (origin.request.event_type == observed_type)) [
        | inl f ↦ inl (
          (==_iff origin.request.event_type observed_type).0 f,
          visit_observation_lem origin inherited v (ground arith),
        )
        | inr f ↦ inr (ne_of_== f, ground arith)
      ],
    )
  ]
