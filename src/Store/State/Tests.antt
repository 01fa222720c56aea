-- ===== src/Store/State/Tests.antt =====
-- Runs of state updates.
use pluribus.Base.{
  none, ℕ, ok, err, refl, ◌≡◌, ◌⊎◌, true, eqb, not, ltb, length, u64_max, ◌+◌, if◌then◌else◌,
  String, List, [], ◌∷◌, none, ◌==◌, string_eq, is_ok, arith,
}
use pluribus.Core.Delivery.{StateMutation, set, delete, StateError}
use pluribus.Store.Tables.{Database, empty}
use pluribus.Store.State.{apply, get, state_revision}
use pluribus.Store.State.Updates.{replay, get-apply, apply-apply_conflict}

abbrev own : String
own = "shell"

abbrev mutations : List StateMutation
mutations = set "a" (1 ∷ []) ∷ set "b" (2 ∷ []) ∷ delete "a" ∷ []

abbrev applied : Database
applied = (apply empty "shell" 0 mutations).1

applies : apply empty "shell" 0 mutations ≡ (ok 1, applied)
unfolding apply pluribus.Store.State.apply_in state_revision pluribus.Base.lookup
    pluribus.Store.State.ensure_namespace pluribus.Base.insert pluribus.Store.State.mutate
    pluribus.Store.State.next_revision
applies = refl

get-apply_example : get applied "shell" "a" ≡ (
    if own == own
    then record { revision = 1; value = replay mutations "a" (get empty "shell" "a").value }
    else get empty "shell" "a")
get-apply_example = get-apply empty applied "shell" "shell" "a" 0 1 mutations applies

apply-apply_conflict_example : apply applied "shell" 0 [] ≡ (err (StateError.conflict 0 1), applied)
apply-apply_conflict_example =
    apply-apply_conflict empty applied "shell" 0 1 mutations [] applies (omega arith)
