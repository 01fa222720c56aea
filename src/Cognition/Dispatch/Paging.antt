-- ===== src/Cognition/Dispatch/Paging.antt =====
-- A stream read page by page, each page after the last event of the one before, is read whole.
use mathlib.Core.Path.{subst}
use pluribus.Base.{
  ℕ, zero, suc, ◌≤◌, ◌<◌, ◌≡◌, refl, sym, ap, ◌∙◌, ◌⊎◌, inl, inr, String, true, false, List, [],
  ◌∷◌, ◌++◌, Result, ok, arith, ltb, filter, take, length, length-append, All, All-map, IsRising,
  Bool-cases,
}
use pluribus.Core.Event.{CommittedEvent}
use pluribus.Store.Events.Log.{Log}
use pluribus.Cognition.Dispatch.Polling.{last_sequence}

abbrev pub past : ℕ → Log → Log
past after = filter (λ e. ltb after e.sequence)

abbrev pub Rises : Log → Type 0
Rises = IsRising (λ e. e.sequence)

-- The pages of `page_after` run through `rest`, as many events as `limit` at a time.
pub record IsPaged (limit : ℕ) (page_after : ℕ → Result String Log) (rest : ℕ → Log) : Type 0 where
  pub page : (after : ℕ) → page_after after ≡ ok (take limit (rest after))
  pub onwards :
      (after : ℕ)
      → take limit (rest after) ++ rest (last_sequence after (take limit (rest after))) ≡ rest after

lt_of : {a b : ℕ} → ltb a b ≡ true → a < b
lt_of h = ground arith

le_of : {a b : ℕ} → ltb a b ≡ false → b ≤ a
le_of h = ground arith

trans_lt : {a b c : ℕ} → ltb a b ≡ true → b < c → a < c
trans_lt h k = ground arith

skipped : {a b c : ℕ} → ltb a b ≡ false → a ≤ c → b ≤ c
skipped h k = ground arith

pub past-All : (after : ℕ) (xs : Log) → All (λ e. after < e.sequence) xs → past after xs ≡ xs
past-All after [] h = refl
past-All after (x ∷ xs) h = ground (arith, h.0, past-All after xs h.1)

past_skip : (n : ℕ) (x : CommittedEvent) (xs : Log) → x.sequence ≤ n → past n (x ∷ xs) ≡ past n xs
past_skip n x xs h = ground arith

le-last_sequence :
    (k n : ℕ) (xs : Log) → All (λ e. n < e.sequence) xs → Rises xs → n ≤ last_sequence n (take k xs)
unfolding last_sequence
le-last_sequence zero n xs h r = omega arith
le-last_sequence (suc k) n [] h r = omega arith
le-last_sequence (suc k) n (x ∷ xs) h r =
    omega (arith, h.0, le-last_sequence k x.sequence xs r.0 r.1)

-- Past the last event of a page of a rising list comes what the page left.
take-past :
    (k after : ℕ) (x : CommittedEvent) (xs : Log)
    → Rises (x ∷ xs)
    → take (suc k) (x ∷ xs) ++ past (last_sequence after (take (suc k) (x ∷ xs))) (x ∷ xs) ≡ x ∷ xs
unfolding last_sequence
take-past zero after x xs (h, r) = ground (arith, past-All x.sequence xs h)
take-past (suc k) after x [] (h, r) = ground arith
take-past (suc k) after x (y ∷ ys) (h, r) =
    let last = last_sequence y.sequence (take k ys) in
    ap (λ rest. x ∷ take (suc k) (y ∷ ys) ++ rest)
      (past_skip last x (y ∷ ys) (omega (arith, h.0, le-last_sequence k y.sequence ys r.0 r.1)))
    ∙ ap (λ rest. x ∷ rest) (take-past k x.sequence y ys r)

All-past :
    (k n : ℕ) (xs : Log) → All (λ e. k < e.sequence) xs → All (λ e. k < e.sequence) (past n xs)
All-past k n [] h = tt
All-past k n (x ∷ xs) h = elim (Bool-cases (ltb n x.sequence)) [
  | inl hit ↦ rw hit (h.0, All-past k n xs h.1)
  | inr miss ↦ rw miss (All-past k n xs h.1)
]

past_above : (n : ℕ) (xs : Log) → All (λ e. n < e.sequence) (past n xs)
past_above n [] = tt
past_above n (x ∷ xs) = elim (Bool-cases (ltb n x.sequence)) [
  | inl hit ↦ rw hit (ground arith, past_above n xs)
  | inr miss ↦ rw miss (past_above n xs)
]

past-Rises : (n : ℕ) (xs : Log) → Rises xs → Rises (past n xs)
past-Rises n [] r = tt
past-Rises n (x ∷ xs) (h, r) = elim (Bool-cases (ltb n x.sequence)) [
  | inl hit ↦ rw hit (All-past x.sequence n xs h, past-Rises n xs r)
  | inr miss ↦ rw miss (past-Rises n xs r)
]

-- The page of `rest`, and what is past its last event in `xs`, are `rest`.
abbrev Onwards : ℕ → ℕ → Log → Log → Type 0
Onwards k after xs rest =
    take (suc k) rest ++ past (last_sequence after (take (suc k) rest)) xs ≡ rest

-- What is past an event of a rising list does not depend on where the reading began.
past-Onwards : (k after : ℕ) (xs : Log) → Rises xs → Onwards k after xs (past after xs)
past-Onwards k after [] r = unfold last_sequence in ground arith
past-Onwards k after (x ∷ xs) (h, r) = elim (Bool-cases (ltb after x.sequence)) [
  | inl hit ↦
      let all : past after (x ∷ xs) ≡ x ∷ xs = past-All after (x ∷ xs) (
        lt_of hit,
        All-map (λ e. x.sequence < e.sequence) (λ e. after < e.sequence) xs (λ e l. trans_lt hit l)
            h,
      ) in
      subst (Onwards k after (x ∷ xs)) (sym all) (take-past k after x xs (h, r))
  | inr miss ↦
      let rest = past after xs in
      let low = le-last_sequence (suc k) after rest (past_above after xs) (past-Rises after xs r) in
      subst (Onwards k after (x ∷ xs)) (sym (past_skip after x xs (le_of miss))) (
        ap (λ more. take (suc k) rest ++ more)
          (past_skip (last_sequence after (take (suc k) rest)) x xs (skipped miss low))
        ∙ past-Onwards k after xs r)
]

-- A query or a read of a rising stream is paged.
pub past-IsPaged :
    (k : ℕ) (page_after : ℕ → Result String Log) (xs : Log)
    → Rises xs
    → ((after : ℕ) → page_after after ≡ ok (take (suc k) (past after xs)))
    → IsPaged (suc k) page_after (λ after. past after xs)
past-IsPaged k page_after xs r h = record { page = h; onwards = λ after. past-Onwards k after xs r }

pub List-cases {ℓ} :
    {A : Type ℓ} (xs : List A) → (xs ≡ []) ⊎ ((x : A) × (rest : List A) × (xs ≡ x ∷ rest))
List-cases [] = inl refl
List-cases (x ∷ rest) = inr (x, rest, refl)

-- A page that is not empty leaves fewer events.
pub next_shorter :
    (k n : ℕ) (rest next : Log) (x : CommittedEvent) (xs : Log)
    → rest ≡ x ∷ xs
    → take (suc k) rest ++ next ≡ rest
    → length rest < suc n
    → length next < n
next_shorter k n rest next x xs e h l =
    let split : (x ∷ take k xs) ++ next ≡ x ∷ xs = subst (λ r. take (suc k) r ++ next ≡ r) e h in
    omega (arith, ap length split, length-append (x ∷ take k xs) next, ap length e)
