-- ===== src/Core/Authority/Tests.antt =====
-- Runs of the decision.
use pluribus.Base.{
  ok, refl, ◌≡◌, ◌↔◌, [], ◌∷◌, none, some, true, pos, lookup, string_eq, Found, Holds, arith,
  nat_eq, list_eq, ◌==◌,
}
use pluribus.Core.Identity.{agent}
use pluribus.Core.Authority.{
  Grant, Authority, OriginKind, Policy, missing_grant, constraint_mismatch, allow, deny, decide,
}
use pluribus.Core.Authority.Decisions.{
  IsLive, IsFirst, SomeFor, AllRefuse, decide_allow_iff, decide_deny_iff,
}
use pluribus.Core.Examples.{shell_ref}

-- The policy accepts the request that is the constraint set itself.
abbrev exact_policy : Policy
exact_policy grant request = ok (grant.constraints == request)

abbrev strict : Grant
strict = record { capability = "shell.run"; provider = some shell_ref; constraints = 1 ∷ [] }

abbrev loose : Grant
loose = record { capability = "shell.run"; provider = none; constraints = 2 ∷ [] }

abbrev authority : Authority
authority = record {
  schema = "pluribus.authority/1";
  authority_id = "a-1";
  agent = record { kind = agent; id = "agent" };
  origin = record {
    kind = OriginKind.autonomous;
    principal = none;
    connector = none;
    conversation_id = none;
    source_event_id = "e-0";
    trusted = true;
  };
  delegation_chain = [];
  grants = ("shell.run", strict ∷ loose ∷ []) ∷ [];
  audiences = [];
  parent_authority = none;
  issued_at_ms = pos 0;
  expires_at_ms = some (pos 100);
  max_depth = 2;
  current_depth = 1;
}

allowed : decide authority "shell.run" shell_ref (2 ∷ []) exact_policy (pos 99) ≡ allow loose
unfolding decide lookup
allowed = refl

decide_allow_iff_example :
    (decide authority "shell.run" shell_ref (2 ∷ []) exact_policy (pos 99) ≡ allow loose) ↔ (
      IsLive authority "shell.run" shell_ref (2 ∷ []) exact_policy (pos 99)
      × Found (IsFirst exact_policy shell_ref (2 ∷ []) loose) (lookup "shell.run" authority.grants))
decide_allow_iff_example =
    decide_allow_iff authority "shell.run" shell_ref (2 ∷ []) exact_policy (pos 99) loose

is_live : IsLive authority "shell.run" shell_ref (3 ∷ []) exact_policy (pos 99)
is_live = ground arith

decide_deny_iff_example :
    ((decide authority "shell.run" shell_ref (3 ∷ []) exact_policy (pos 99) ≡ deny missing_grant)
      ↔ Holds (λ grants. ¬ SomeFor shell_ref grants) (lookup "shell.run" authority.grants))
    × ((decide authority "shell.run" shell_ref (3 ∷ []) exact_policy (pos 99)
          ≡ deny constraint_mismatch)
        ↔ Found
            (λ grants. SomeFor shell_ref grants × AllRefuse exact_policy shell_ref (3 ∷ []) grants)
            (lookup "shell.run" authority.grants))
decide_deny_iff_example =
    decide_deny_iff authority "shell.run" shell_ref (3 ∷ []) exact_policy (pos 99) is_live
