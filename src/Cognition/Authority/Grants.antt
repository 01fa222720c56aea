-- ===== src/Cognition/Authority/Grants.antt =====
-- What an issued authority grants, and which requests the constraints of a grant allow.
use pluribus.Base.{
  ℕ, ◌≡◌, ◌↔◌, inl, inr, String, true, not, some, List, [], ◌∷◌, Result, ok, arith, lookup, find,
  All, all_iff, any_eq_iff, Among, Holds, ◌⊎◌, Found, Option-cases, bind_ok, ok_or_ok, fail_if_ok,
  ok_or, fail_if, string_eq, ==_iff, ◌==◌,
}
use pluribus.Core.Identity.{principal_eq, component}
use pluribus.Core.Event.{CommittedEvent}
use pluribus.Core.Authority.{Authority, Grant}
use pluribus.Json.{
  Value, string, bool, array, cons, nil, obj, JsonText, get, at, as_str, as_array, as_object,
}
use pluribus.Json.Equality.{value_eq}
use pluribus.Cognition.Authority.{
  Connector, OriginAuthority, answers_for, is_trusted, observation, issued, issue, selects, allows,
}

checked : (v w : Value) (e : String) (u : Unit {0}) → fail_if (not (v == w)) e ≡ ok u → v ≡ w
checked v w e u h = ground (arith, fail_if_ok (not (v == w)) e u h, ==_iff v w)

ok_injective : (a b : Authority) → ◌≡◌ {A = Result String Authority} (ok b) (ok a) → a ≡ b
ok_injective a b h = ground arith

module _ (json : JsonText) (self : OriginAuthority) (event : CommittedEvent) (a : Authority) where
  -- What `issue` reads before it makes the authority.
  abbrev pub IsIssued : Connector → Value → String → String → Type 0
  IsIssued connector value conversation sender =
      (find (answers_for event.request.actor) self.connectors ≡ some connector)
      × (observation json event ≡ ok value)
      × (at value "provider" ≡ string connector.provider)
      × (as_str (at value "conversationId") ≡ some conversation)
      × (as_str (at value "externalSenderId") ≡ some sender)
      × (a ≡ issued json self connector event conversation sender (is_trusted value))

  pub issue_lem :
      issue json self event ≡ ok a
      → (connector : Connector) × (value : Value) × (conversation : String) × (sender : String)
        × IsIssued connector value conversation sender
  unfolding issue
  issue_lem h =
      let (connector, f, h1) =
        bind_ok (ok_or (find (answers_for event.request.actor) self.connectors) _) _ a h in
      let (value, o, h2) = bind_ok (observation json event) _ a h1 in
      let (u, p, h3) =
        bind_ok (fail_if (not (at value "provider" == string connector.provider)) _) _ a h2 in
      let (conversation, c, h4) = bind_ok (ok_or (as_str (at value "conversationId")) _) _ a h3 in
      let (sender, s, h5) = bind_ok (ok_or (as_str (at value "externalSenderId")) _) _ a h4 in
      (
        connector,
        value,
        conversation,
        sender,
        (
          ok_or_ok _ _ connector f,
          o,
          checked _ _ _ u p,
          ok_or_ok _ _ conversation c,
          ok_or_ok _ _ sender s,
          ok_injective a _ h5,
        ),
      )

-- The constraint lists, in an array, the value that the selectors have at its key.
abbrev pub Permits : Value → String × Value → Type 0
Permits selectors field =
    Found (λ values. Found (λ value. Among value values) (get selectors field.0)) (as_array field.1)

selects_iff :
    (selectors : Value) (field : String × Value)
    → (selects selectors field ≡ true) ↔ Permits selectors field
unfolding selects
selects_iff selectors (key, allowed) = elim (Option-cases (as_array allowed)) [
  | inl e ↦ rw e (ground arith)
  | inr (values, e) ↦ rw e (elim (Option-cases (get selectors key)) [
    | inl f ↦ rw f (ground arith)
    | inr (value, f) ↦ rw f (any_eq_iff value values)
  ])
]

-- Constraints that are readable allow a request exactly when they are an object each member of
-- which permits the request's selectors.
pub allows_iff :
    (json : JsonText) (grant : Grant) (selectors_bytes : List ℕ) (constraints selectors : Value)
    → json.from_slice grant.constraints ≡ ok constraints
    → json.from_slice selectors_bytes ≡ ok selectors
    → (allows json grant selectors_bytes ≡ ok true)
      ↔ Found (All (Permits selectors)) (as_object constraints)
unfolding allows
allows_iff json grant selectors_bytes constraints selectors h k =
    rw (h, k)
      (elim (Option-cases (as_object constraints)) [
        | inl e ↦ rw e (ground arith)
        | inr (fields, e) ↦
            rw e (ground (arith, all_iff (selects selectors) (selects_iff selectors) fields))
      ])

-- Constraints to the one conversation.
abbrev pub only : String → Value
only conversation = obj (("conversation_ids", array (cons (string conversation) nil)) ∷ [])

-- The observation's `trusted` member, if it has one, is true.
abbrev pub SaysTrusted : Value → Type 0
SaysTrusted value = Holds (λ t. t ≡ bool true) (get value "trusted")

abbrev pub IsGrantedNothing : Authority → Type 0
IsGrantedNothing a = (a.grants ≡ []) × (a.audiences ≡ [])

module _ (json : JsonText) (self : OriginAuthority) (a : Authority) (connector : Connector)
    (conversation capability : String) (selectors_bytes : List ℕ) (selectors : Value) where
  -- The one grant of a reply capability: to the connector's reply component, and it allows the
  -- requests whose selectors name the conversation.
  abbrev pub IsReplyGrant : Grant → Type 0
  IsReplyGrant g =
      (lookup capability a.grants ≡ some (g ∷ []))
      × (g.capability ≡ capability)
      × (g.provider ≡ some (record { kind = component; id = connector.reply }))
      × ((allows json g selectors_bytes ≡ ok true)
          ↔ (get selectors "conversation_ids" ≡ some (string conversation)))

  abbrev pub IsGranted : Type 0
  IsGranted =
      (Among capability connector.reply_capabilities × ((g : Grant) × IsReplyGrant g))
      ⊎ ((¬ Among capability connector.reply_capabilities)
          × (lookup capability a.grants ≡ lookup capability self.grants))
