-- ===== src/Cognition/Dispatch/Deliveries.antt =====
-- What a poll delivers: the events of the stream past the checkpoint that the instance receives.
use mathlib.Core.Path.{subst}
use pluribus.Base.{
  ℕ, zero, suc, ◌-◌, ◌<◌, ◌≤◌, ◌≡◌, ◌≢◌, refl, sym, ap, ◌∙◌, inl, inr, String, Bool, true, false,
  some, [], ◌∷◌, ◌++◌, Result, ok, arith, filter, take, length, length-append, filter-append,
  append-nil, append_assoc, Bool-cases, ltb, eqb,
}
use pluribus.Core.Event.{CommittedEvent}
use pluribus.Store.Events.Log.{Log}
use pluribus.Cognition.Dispatch.Polling.{last_sequence, collect, poll_from}
use pluribus.Cognition.Dispatch.Paging.{IsPaged, List-cases, next_shorter}

take_nil : (n : ℕ) → take {A = CommittedEvent} n [] ≡ []
take_nil zero = refl
take_nil (suc n) = refl

take-cons : (n m : ℕ) (x : CommittedEvent) (xs : Log) → n ≡ suc m → take n (x ∷ xs) ≡ x ∷ take m xs
take-cons n m x xs e = ap (λ j. take j (x ∷ xs)) e

reached : {a b : ℕ} → eqb a b ≡ true → b ≤ a
reached h = ground arith

unequal : {a b : ℕ} → eqb a b ≡ false → a ≢ b
unequal h = ground arith

module _ (limit : ℕ) where
  -- As many of the events as there is room for.
  abbrev pub fill : Log → Log → Log
  fill matched xs = matched ++ take (limit - length matched) xs

  fill_nil : (matched : Log) → fill matched [] ≡ matched
  fill_nil matched =
      ap (λ xs. matched ++ xs) (take_nil (limit - length matched)) ∙ append-nil matched

  fill_full : (matched xs : Log) → limit ≤ length matched → fill matched xs ≡ matched
  fill_full matched xs h =
      ap (λ n. matched ++ take n xs) {x = limit - length matched} {y = 0} (omega arith)
      ∙ append-nil matched

  fill-cons :
      (matched : Log) (x : CommittedEvent) (xs : Log)
      → length matched < limit
      → fill matched (x ∷ xs) ≡ fill (matched ++ (x ∷ [])) xs
  fill-cons matched x xs h =
      let room = limit - length (matched ++ (x ∷ [])) in
      ap (λ ys. matched ++ ys)
        (take-cons (limit - length matched) room x xs
          (omega (arith, length-append matched (x ∷ []))))
      ∙ sym (append_assoc matched (x ∷ []) (take room xs))

  -- Filling with one list and then with another is filling with both.
  fill-append : (matched xs ys : Log) → fill matched (xs ++ ys) ≡ fill (fill matched xs) ys
  fill-append matched [] ys = ap (λ m. fill m ys) (sym (fill_nil matched))
  fill-append matched (x ∷ xs) ys = elim (Bool-cases (ltb (length matched) limit)) [
    | inl room ↦
        fill-cons matched x (xs ++ ys) (ground arith)
        ∙ fill-append (matched ++ (x ∷ [])) xs ys
        ∙ ap (λ m. fill m ys) (sym (fill-cons matched x xs (ground arith)))
    | inr full ↦
        fill_full matched (x ∷ xs ++ ys) (ground arith)
        ∙ sym (fill_full matched ys (ground arith))
        ∙ ap (λ m. fill m ys) (sym (fill_full matched (x ∷ xs) (ground arith)))
  ]

  module _ (wants : CommittedEvent → Bool) where
    -- A page adds what there is room for.
    collect_lem :
        (page matched : Log)
        → length matched < limit
        → collect limit wants page matched ≡ fill matched (filter wants page)
    unfolding collect
    collect_lem [] matched h = sym (fill_nil matched)
    collect_lem (event ∷ page) matched h = elim (Bool-cases (wants event)) [
      | inr miss ↦ rw (collect, miss) (collect_lem page matched h)
      | inl hit ↦
          let grown = matched ++ (event ∷ []) in
          let filled = fill-cons matched event (filter wants page) h in
          elim (Bool-cases (eqb (length grown) limit)) [
            | inl full ↦
                rw (collect, hit, full)
                  (sym (filled ∙ fill_full grown (filter wants page) (reached full)))
            | inr room ↦
                rw (collect, hit, room)
                  (collect_lem page grown
                      (omega (arith, unequal room, length-append matched (event ∷ [])))
                    ∙ sym filled)
          ]
    ]

    module _ (k : ℕ) (l : limit ≡ suc k) (page_after : ℕ → Result String Log) (rest : ℕ → Log)
        (paged : IsPaged (suc k) page_after rest) where
      pub poll_from_lem :
          (rounds after : ℕ) (matched : Log)
          → length (rest after) < rounds
          → poll_from rounds page_after wants limit after matched
            ≡ some (ok (fill matched (filter wants (rest after))))
      unfolding poll_from
      poll_from_lem zero after matched h = absurd (omega arith)
      poll_from_lem (suc rounds) after matched h = elim (Bool-cases (ltb (length matched) limit)) [
        | inr full ↦
            rw (poll_from, full)
              (ap (λ m. some (ok m))
                (sym (fill_full matched (filter wants (rest after)) (ground arith))))
        | inl room ↦
            rw (poll_from, room)
              (elim (List-cases (rest after)) [
                | inl e ↦ rw (paged.page after, e) (ap (λ m. some (ok m)) (sym (fill_nil matched)))
                | inr (x, xs, e) ↦
                    let page = x ∷ take k xs in
                    let next = last_sequence after page in
                    let split : page ++ rest next ≡ x ∷ xs =
                      subst (λ r. take (suc k) r ++ rest (last_sequence after (take (suc k) r)) ≡ r)
                        e (paged.onwards after) in
                    let shorter =
                      next_shorter k rounds (rest after) (rest next) x xs e
                        (subst (λ r. take (suc k) r ++ rest next ≡ r) (sym e) split) h in
                    rw (paged.page after, e, collect_lem page matched (ground arith))
                      (poll_from_lem rounds next (fill matched (filter wants page)) shorter
                        ∙ ap (λ m. some (ok m))
                            (sym
                                (fill-append matched (filter wants page) (filter wants (rest next)))
                              ∙ ap (fill matched) (
                                  sym (filter-append wants page (rest next))
                                  ∙ ap (filter wants) split)))
              ])
      ]
