-- ===== src/Cognition/Authority/Tests.antt =====
-- Runs of the resolution over one conversation.
use pluribus.Base.{◌≡◌, ◌↔◌, refl, true, none, [], ◌∷◌, ok, arith, All, Found, string_eq}
use pluribus.Core.Event.{CommittedEvent}
use pluribus.Core.Authority.{Authority, Grant}
use pluribus.Json.{obj, string, array, cons, nil, as_object, Value}
use pluribus.Cognition.Examples.{
  json, operator, observed, notice, call, history, telegram, derived_content,
}
use pluribus.Cognition.Authority.{
  Connector, issued, issue, walk, resolve, answers_for, observation, reply_grant, allows,
}
use pluribus.Cognition.Authority.Ancestry.{Ancestor, IsOrigin, resolve-IsOrigin, resolve_unbounded}
use pluribus.Cognition.Authority.Grants.{Permits, allows_iff}
use pluribus.Cognition.Authority.Inheritance.{Agrees, resolve-Agrees}

abbrev granted : Authority
granted = issued json operator telegram observed "room" "7" true

call_resolves : resolve json operator history call ≡ ok granted
unfolding resolve walk pluribus.Cognition.Authority.visit pluribus.Cognition.Authority.parent_of
    observation pluribus.Cognition.Authority.changes_origin pluribus.Json.Equality.value_beq
    pluribus.Cognition.Authority.is_trusted issue
call_resolves = refl

notice_resolves : resolve json operator history notice ≡ ok granted
unfolding resolve walk pluribus.Cognition.Authority.visit observation
    pluribus.Cognition.Authority.changes_origin pluribus.Cognition.Authority.parent_of
    pluribus.Json.Equality.value_beq pluribus.Cognition.Authority.is_trusted issue
notice_resolves = refl

resolve-IsOrigin_example :
    (origin : CommittedEvent) × Ancestor history origin call × IsOrigin json operator origin granted
resolve-IsOrigin_example = resolve-IsOrigin json operator history call granted call_resolves

resolve_unbounded_example :
    walk json operator history 5000 call none ≡ resolve json operator history call
resolve_unbounded_example =
    resolve_unbounded json operator history call 5000 (omega arith) (omega arith)

resolve-Agrees_example : Agrees derived_content granted
unfolding observation
resolve-Agrees_example =
    resolve-Agrees json operator history notice derived_content granted refl refl notice_resolves

abbrev in_room : Value
in_room = obj (("conversation_ids", array (cons (string "room") nil)) ∷ [])

abbrev asks_room : Value
asks_room = obj (("conversation_ids", string "room") ∷ [])

abbrev room_grant : Grant
room_grant = record { capability = "message.send"; provider = none; constraints = 4 ∷ [] }

allows_iff_example :
    (allows json room_grant (5 ∷ []) ≡ ok true)
    ↔ Found (All (Permits asks_room)) (as_object in_room)
allows_iff_example = allows_iff json room_grant (5 ∷ []) in_room asks_room refl refl
