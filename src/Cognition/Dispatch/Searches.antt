-- ===== src/Cognition/Dispatch/Searches.antt =====
-- A search through the pages finds the first event that satisfies the test.
use mathlib.Core.Path.{subst}
use pluribus.Base.{
  ℕ, zero, suc, ◌<◌, ◌≡◌, refl, sym, ap, ◌∙◌, inl, inr, String, Bool, some, ◌∷◌, ◌++◌, Result, ok,
  arith, find, take, length, find-append_some, find-append_none, Option-cases,
}
use pluribus.Core.Event.{CommittedEvent}
use pluribus.Store.Events.Log.{Log}
use pluribus.Cognition.Dispatch.Polling.{last_sequence}
use pluribus.Cognition.Dispatch.Attempts.{search_pages}
use pluribus.Cognition.Dispatch.Paging.{IsPaged, List-cases, next_shorter}

module _ (k : ℕ) (page_after : ℕ → Result String Log) (rest : ℕ → Log)
    (paged : IsPaged (suc k) page_after rest) (p : CommittedEvent → Bool) where
  pub search_pages_lem :
      (rounds after : ℕ)
      → length (rest after) < rounds
      → search_pages rounds page_after p after ≡ some (ok (find p (rest after)))
  unfolding search_pages
  search_pages_lem zero after h = absurd (omega arith)
  search_pages_lem (suc rounds) after h = elim (List-cases (rest after)) [
    | inl e ↦ rw (search_pages, paged.page after, e) refl
    | inr (x, xs, e) ↦
        let next = last_sequence after (x ∷ take k xs) in
        let split : (x ∷ take k xs) ++ rest next ≡ x ∷ xs =
          subst (λ r. take (suc k) r ++ rest (last_sequence after (take (suc k) r)) ≡ r) e
            (paged.onwards after) in
        rw (search_pages, paged.page after, e)
          (elim (Option-cases (find p (x ∷ take k xs))) [
            | inr (found, f) ↦ rw f (
                ap (λ o. some (ok o))
                  (sym (
                    ap (find p) (sym split)
                    ∙ find-append_some p (x ∷ take k xs) (rest next) found f)))
            | inl f ↦ rw f (
                search_pages_lem rounds next (
                  next_shorter k rounds (rest after) (rest next) x xs e
                    (subst (λ r. take (suc k) r ++ rest next ≡ r) (sym e) split) h)
                ∙ ap (λ o. some (ok o))
                    (sym
                      (ap (find p) (sym split) ∙ find-append_none p (x ∷ take k xs) (rest next) f)))
          ])
  ]
