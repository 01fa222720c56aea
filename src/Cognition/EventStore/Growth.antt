-- ===== src/Cognition/EventStore/Growth.antt =====
-- The states that an event store comes to by appends.
use mathlib.Core.Path.{subst}
use pluribus.Base.{
  ℕ, suc, ◌≤◌, ◌≡◌, refl, sym, ap, ◌∙◌, ℤ, inl, inr, String, some, List, [], ◌∷◌, ◌++◌, Result, ok,
  err, arith, find, length, length-append, append-nil, append_assoc, Option-cases,
}
use pluribus.Core.Event.{AppendRequest, CommittedEvent, canonical_json}
use pluribus.Store.Events.Log.{Log, log_append, log_append_new, following, repeats}
use pluribus.Cognition.EventStore.{EventStore, IsEventLog}

-- What a store is after a number of appends of JSON events, by whatever callers and of whatever
-- types, each committed, answered by an earlier event or refused.
pub data Later {S : Type 0} (store : EventStore S) (s : S) : ℕ → S → Type 0 where
  here : Later store s 0 s
  next :
      {n : ℕ} {t u : S} (request : AppendRequest) (bytes : List ℕ)
      (answer : Result String CommittedEvent)
      → Later store s n t
      → request.payload ≡ canonical_json bytes
      → store.append t request ≡ (answer, u)
      → Later store s (suc n) u

-- A log grown by at most `n` events.
abbrev pub Grown : {S : Type 0} → (S → Log → Type 0) → Log → ℕ → S → Type 0
Grown Shows log n t = (added : Log) × (length added ≤ n) × Shows t (log ++ added)

log_append_known :
    (log : Log) (request : AppendRequest) (original : CommittedEvent) (id : String) (time : ℤ)
    → find (repeats request) log ≡ some original
    → (log_append log request id time).1 ≡ log
unfolding log_append
log_append_known log request original id time e = rw (e, log_append) refl

module _ {S : Type 0} (store : EventStore S) (Shows : S → Log → Type 0)
    (law : IsEventLog store Shows) where
  step-Grown :
      (t u : S) (log : Log) (n : ℕ) (request : AppendRequest) (bytes : List ℕ)
      (answer : Result String CommittedEvent)
      → request.payload ≡ canonical_json bytes
      → store.append t request ≡ (answer, u)
      → Grown Shows log n t
      → Grown Shows log (suc n) u
  step-Grown t u log n request bytes (err e) p h (added, small, shows) =
      (added, omega arith, law.refused_law t u (log ++ added) request e shows h)
  step-Grown t u log n request bytes (ok event) p h (added, small, shows) =
      let (id, time, same, shown) =
        law.append_law t u (log ++ added) request bytes event shows p h in
      elim (Option-cases (find (repeats request) (log ++ added))) [
        | inr (original, e) ↦ (
          added,
          omega arith,
          subst (Shows u) (log_append_known (log ++ added) request original id time e) shown,
        )
        | inl e ↦
            let new = following (log ++ added) request id time in
            (
              added ++ (new ∷ []),
              omega (arith, length-append added (new ∷ [])),
              subst (Shows u)
                  (ap (λ r. r.1) (log_append_new (log ++ added) request id time e)
                    ∙ append_assoc log added (new ∷ []))
                  shown,
            )
      ]

  -- A store that shows a log shows it, with events added, after any appends.
  pub Later-Grown :
      {s t : S} {n : ℕ} (log : Log) → Shows s log → Later store s n t → Grown Shows log n t
  Later-Grown {s} log shows here = ([], omega arith, subst (Shows s) (sym (append-nil log)) shows)
  Later-Grown log shows (next {n} {t} {u} request bytes answer before p h) =
      step-Grown t u log n request bytes answer p h (Later-Grown log shows before)
