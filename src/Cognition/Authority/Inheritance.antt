-- ===== src/Cognition/Authority/Inheritance.antt =====
-- An authority resolved from an observation, derived or not, is of that observation's own sender.
use mathlib.Core.Path.{subst}
use pluribus.Base.{
  ℕ, zero, suc, ◌≡◌, refl, sym, ap, ◌∙◌, inl, inr, String, Bool, true, false, not, ◌||◌, Option,
  none, some, Result, ok, arith, Result-cases, string_eq, ==_iff, ◌==◌,
}
use pluribus.Core.Identity.{PrincipalRef}
use pluribus.Core.Event.{CommittedEvent}
use pluribus.Core.Authority.{Authority}
use pluribus.Json.{Value, JsonText, at, as_str}
use pluribus.Json.Equality.{value_eq, bool_eq}
use pluribus.Cognition.Authority.{
  Connector, OriginAuthority, GetEvent, Visit, issues, climbs, sender_ref, is_trusted, observation,
  changes_origin, issued, issue, visit, parent_of, walk, max_rounds, resolve,
}
use pluribus.Cognition.Authority.Visits.{visit_lem, Outcome}
use pluribus.Cognition.Authority.Grants.{issue_lem}

abbrev named : Option String → Option String → Option PrincipalRef
named (some provider) (some sender) = some (sender_ref provider sender)
named _ _ = none

-- The authority's origin is the conversation, the sender and the trust that the content states.
abbrev pub Agrees : Value → Authority → Type 0
Agrees value a =
    (as_str (at value "conversationId") ≡ a.origin.conversation_id)
    × (is_trusted value ≡ a.origin.trusted)
    × (named (as_str (at value "provider")) (as_str (at value "externalSenderId"))
        ≡ a.origin.principal)

-- Two contents describe one origin.
abbrev SameOrigin : Value → Value → Type 0
SameOrigin v w =
    (at v "provider" ≡ at w "provider")
    × (at v "externalSenderId" ≡ at w "externalSenderId")
    × (at v "conversationId" ≡ at w "conversationId")
    × (is_trusted v ≡ is_trusted w)

Agrees-SameOrigin : (v w : Value) (a : Authority) → SameOrigin v w → Agrees v a → Agrees w a
Agrees-SameOrigin v w a (p, s, c, t) (h, k, l) = (ap as_str (sym c) ∙ h, sym t ∙ k, rw (← p, ← s) l)

none_differ :
    (e p s c t : Bool)
    → (not e || (not p || (not s || (not c || false))) || not t) ≡ false
    → (p ≡ true) × (s ≡ true) × (c ≡ true) × (t ≡ true)
none_differ e p s c t h = ground arith

changes_origin_lem :
    (origin : CommittedEvent) (value expected : Value) (expected_id : String)
    → changes_origin origin value (some (expected_id, expected)) ≡ false
    → SameOrigin value expected
unfolding changes_origin
changes_origin_lem origin value expected expected_id h =
    let same : String → Bool = λ field. at value field == at expected field in
    let (p, s, c, t) =
      none_differ (origin.event_id == expected_id) (same "provider") (same "externalSenderId")
        (same "conversationId") (is_trusted value == is_trusted expected) h in
    (
      (==_iff (at value "provider") (at expected "provider")).0 p,
      (==_iff (at value "externalSenderId") (at expected "externalSenderId")).0 s,
      (==_iff (at value "conversationId") (at expected "conversationId")).0 c,
      (==_iff (is_trusted value) (is_trusted expected)).0 t,
    )

ok_value : {v w : Value} → ◌≡◌ {A = Result String Value} (ok v) (ok w) → v ≡ w
ok_value h = ground arith

ok_authority : {a b : Authority} → ◌≡◌ {A = Result String Authority} (ok a) (ok b) → a ≡ b
ok_authority h = ground arith

module _ (json : JsonText) (self : OriginAuthority) where
  issue-Agrees :
      (event : CommittedEvent) (value : Value) (a : Authority)
      → observation json event ≡ ok value
      → issue json self event ≡ ok a
      → Agrees value a
  unfolding issued
  issue-Agrees event value a o h =
      let (c, v, conversation, sender, (f, p, provider, conv, s, is)) =
        issue_lem json self event a h in
      rw (ok_value (sym o ∙ p), is, provider, conv, s) (refl, refl, refl)

  abbrev AgreesWith : Option (String × Value) → Authority → Type 0
  AgreesWith none a = Unit {0}
  AgreesWith (some (expected_id, expected)) a = Agrees expected a

  -- What the observation agrees with, so does what it was derived from.
  inherited-Agrees :
      (origin : CommittedEvent) (value : Value) (inherited : Option (String × Value))
      (a : Authority)
      → changes_origin origin value inherited ≡ false
      → Agrees value a
      → AgreesWith inherited a
  inherited-Agrees origin value none a h k = tt
  inherited-Agrees origin value (some (expected_id, expected)) a h k =
      Agrees-SameOrigin value expected a (changes_origin_lem origin value expected expected_id h) k

  -- The event, where it is an observation, and what it inherits agree with the authority.
  abbrev AllAgree : CommittedEvent → Option (String × Value) → Authority → Type 0
  AllAgree event inherited a =
      AgreesWith inherited a
      × (event.request.event_type ≡ "observation.received"
          → (value : Value) → observation json event ≡ ok value
          → Agrees value a)

  abbrev Settles : Visit → Authority → Type 0
  Settles (issues b) a = b ≡ a
  Settles (climbs next) a = AgreesWith next a

  Outcome-Agrees :
      (event : CommittedEvent) (c : Connector) (value : Value) (v : Visit) (a : Authority)
      → observation json event ≡ ok value
      → Outcome json self event c value v
      → Settles v a
      → Agrees value a
  Outcome-Agrees event c value (issues b) a o (i, h) s = issue-Agrees event value a o (h ∙ ap ok s)
  Outcome-Agrees event c value (climbs (some (id, expected))) a o (i, h, e) s =
      subst (λ w. Agrees w a) e s
  Outcome-Agrees event c value (climbs none) a o out s = absurd out

  visit-AllAgree :
      (event : CommittedEvent) (inherited : Option (String × Value)) (v : Visit) (a : Authority)
      → visit json self event inherited ≡ ok v
      → Settles v a
      → AllAgree event inherited a
  visit-AllAgree event inherited v a h s = elim (visit_lem json self event inherited v h).1 [
    | inr (n, e) ↦ (subst (λ w. Settles w a) e s, λ t. absurd (n t))
    | inl (t, (c, value, f, o, k, out)) ↦
        let agrees = Outcome-Agrees event c value v a o out s in
        (
          inherited-Agrees event value inherited a k agrees,
          λ t' w q. subst (λ w. Agrees w a) (ok_value (sym o ∙ q)) agrees,
        )
  ]

  walk-AllAgree :
      (get_event : GetEvent) (rounds : ℕ) (event : CommittedEvent)
      (inherited : Option (String × Value)) (a : Authority)
      → walk json self get_event rounds event inherited ≡ ok a
      → AllAgree event inherited a
  unfolding walk
  walk-AllAgree get_event zero event inherited a h = absurd (ground arith)
  walk-AllAgree get_event (suc rounds) event inherited a h =
      elim (Result-cases (visit json self event inherited)) [
        | inr (x, e) ↦ absurd (ground arith)
        | inl (issues b, e) ↦
            visit-AllAgree event inherited (issues b) a e (ok_authority (ground arith))
        | inl (climbs next, e) ↦ elim (Result-cases (parent_of get_event event)) [
          | inr (x, f) ↦ absurd (ground arith)
          | inl (parent, f) ↦
              visit-AllAgree event inherited (climbs next) a e
                (walk-AllAgree get_event rounds parent next a (ground arith)).0
        ]
      ]

  -- The authority resolved for an observation, whether it is issued for it or inherited from the
  -- observation that it was derived from, is for the conversation, the sender and the trust that
  -- the observation's own content states.
  pub resolve-Agrees :
      (get_event : GetEvent) (event : CommittedEvent) (value : Value) (a : Authority)
      → event.request.event_type ≡ "observation.received"
      → observation json event ≡ ok value
      → resolve json self get_event event ≡ ok a
      → Agrees value a
  unfolding resolve
  resolve-Agrees get_event event value a t o h =
      (walk-AllAgree get_event max_rounds event none a h).1 t value o
