-- ===== src/Cognition/Dispatch/Selections.antt =====
-- The types that a poll asks for cover what the instance accepts.
use pluribus.Base.{
  ℕ, zero, suc, ◌<◌, ◌≤◌, ◌≡◌, ◌≢◌, refl, sym, ap, ◌∙◌, ◌⊎◌, if◌then◌else◌, inl, inr, String, Bool,
  true, false, ◌&&◌, ◌||◌, Option, none, some, List, [], ◌∷◌, ◌++◌, arith, filter, take, length,
  any, All, Bool-cases, ltb, eqb, codes, codes_injective, ◌==◌, string_eq, ==_iff,
}
use pluribus.Core.Event.{CommittedEvent, default_query, matches, no_types, is_some_and}
use pluribus.Core.Registry.{matches_pattern}
use pluribus.Core.Registry.Patterns.{matches_pattern_iff}
use pluribus.Json.{JsonText}
use pluribus.Store.Events.Log.{Log}
use pluribus.Cognition.Dispatch.{Registration, payload_field, accepts}
use pluribus.Cognition.Dispatch.Polling.{has_star, polled_types, reads_all, when_any}
use pluribus.Cognition.Dispatch.Paging.{Rises, past}

abbrev capability_requested : String
capability_requested = "capability.requested"

abbrev model_requested : String
model_requested = "model.requested"

-- The event is of one of the types.
abbrev pub typed : List String → CommittedEvent → Bool
typed types e = any (λ t. t == e.request.event_type) types

any-append : {A : Type 0} (p : A → Bool) (xs ys : List A) → any p (xs ++ ys) ≡ any p xs || any p ys
any-append p [] ys = refl
any-append p (x ∷ xs) ys = ground (arith, any-append p xs ys)

query_matches :
    (after : ℕ) (types : List String) (e : CommittedEvent)
    → no_types types ≡ false
    → matches (record default_query { after_sequence = some after; event_types = types }) e
      ≡ ltb after e.sequence && typed types e
unfolding matches
query_matches after types e h = ground arith

star_free : (prefix : List ℕ) → any (λ c. eqb c b'*') (prefix ++ codes ".*") ≢ false
star_free prefix h = ground (arith, any-append (λ c. eqb c b'*') prefix (codes ".*"))

star_alone : any (λ c. eqb c b'*') (codes "*") ≢ false
star_alone h = ground arith

-- A pattern without a wildcard matches its own name only.
exact : (p t : List ℕ) → any (λ c. eqb c b'*') p ≡ false → matches_pattern p t ≡ true → p ≡ t
exact p t h m = elim ((matches_pattern_iff p t).0 m) [
  | inl e ↦ absurd (star_alone (sym (ap (any (λ c. eqb c b'*')) e) ∙ h))
  | inr (inl e) ↦ e
  | inr (inr (prefix, rest, e, f)) ↦
      absurd (star_free prefix (sym (ap (any (λ c. eqb c b'*')) e) ∙ h))
]

exact_type :
    (types : List String) (e : CommittedEvent)
    → any has_star types ≡ false
    → any (λ p. matches_pattern (codes p) (codes e.request.event_type)) types ≡ true
    → typed types e ≡ true
exact_type [] e h m = ground arith
exact_type (t ∷ types) e h m =
    elim (Bool-cases (matches_pattern (codes t) (codes e.request.event_type))) [
      | inr miss ↦ ground (arith, exact_type types e)
      | inl hit ↦ ground (
        arith,
        (==_iff t e.request.event_type).1 (
            codes_injective t e.request.event_type
              (exact (codes t) (codes e.request.event_type) (ground arith) hit)),
      )
    ]

owned_typed :
    (names : List String) (name : Option String) (kind : String) (e : CommittedEvent)
    → (e.request.event_type == kind) ≡ true
    → is_some_and name (λ n. any (λ owned. owned == n) names) ≡ true
    → typed (when_any names kind) e ≡ true
owned_typed [] (some n) kind e h k = ground arith
owned_typed [] none kind e h k = ground arith
owned_typed (n ∷ names) name kind e h k =
    ground (arith, ==_iff e.request.event_type kind, ==_iff kind e.request.event_type)

split3 :
    (p : String → Bool) (xs ys zs : List String)
    → any p ((xs ++ ys) ++ zs) ≡ (any p xs || any p ys) || any p zs
split3 p xs ys zs = ground (arith, any-append p (xs ++ ys) zs, any-append p xs ys)

or_false : (a b : Bool) → (a || b) ≡ false → (a ≡ false) × (b ≡ false)
or_false a b h = ground arith

or_true : (a b c : Bool) → (a ≡ true) ⊎ ((b ≡ true) ⊎ (c ≡ true)) → ((a || b) || c) ≡ true
or_true a b c h = ground arith

accepted_for :
    (whole p c m x y : Bool)
    → whole ≡ false
    → (if whole then true else if p then true else if c then x else if m then y else false) ≡ true
    → (p ≡ true) ⊎ (((c ≡ true) × (x ≡ true)) ⊎ ((m ≡ true) × (y ≡ true)))
accepted_for whole p c m x y w h = ground arith

module _ (json : JsonText) (r : Registration) (e : CommittedEvent) where
  -- A registration that is not read whole accepts only the types that it asks for.
  pub accepts-typed :
      reads_all r ≡ false → accepts json r.subscriptions e ≡ true → typed (polled_types r) e ≡ true
  unfolding polled_types accepts
  accepts-typed h a =
      let subs = r.subscriptions in
      let asked = when_any subs.capabilities capability_requested in
      let models = when_any subs.models model_requested in
      let (narrow, stars) = or_false subs.whole_stream (any has_star (polled_types r)) h in
      let stars_split = sym (split3 has_star subs.event_types asked models) ∙ stars in
      let plain =
        (or_false (any has_star subs.event_types) (any has_star asked)
          (or_false (any has_star subs.event_types || any has_star asked) (any has_star models)
            stars_split).0).0 in
      split3 (λ t. t == e.request.event_type) subs.event_types asked models
      ∙ or_true (typed subs.event_types e) (typed asked e) (typed models e)
          (elim (accepted_for subs.whole_stream
            (any (λ p. matches_pattern (codes p) (codes e.request.event_type)) subs.event_types)
            (e.request.event_type == capability_requested) (e.request.event_type == model_requested)
            (is_some_and (payload_field json e "capability")
              (λ name. any (λ owned. owned == name) subs.capabilities))
            (is_some_and (payload_field json e "model")
              (λ name. any (λ owned. owned == name) subs.models))
            narrow a) [
              | inl p ↦ inl (exact_type subs.event_types e plain p)
              | inr (inl (c, x)) ↦ inr (
                  inl (
                    owned_typed subs.capabilities (payload_field json e "capability")
                      capability_requested e c x))
              | inr (inr (m, y)) ↦ inr (
                  inr
                    (owned_typed subs.models (payload_field json e "model") model_requested e m y))
            ])

both :
    (after : ℕ) (types : List String) (own : Log)
    → filter (λ e. ltb after e.sequence && typed types e) own
      ≡ past after (filter (typed types) own)
both after types [] = refl
both after types (x ∷ own) = ground (arith, both after types own)

pub select :
    (after : ℕ) (types : List String) (own : Log)
    → no_types types ≡ false
    → filter
        (matches (record default_query { after_sequence = some after; event_types = types }))
        own
      ≡ past after (filter (typed types) own)
select after types [] h = refl
select after types (x ∷ own) h =
    ground (arith, query_matches after types x h, select after types own h)

pub All-typed :
    (types : List String) (n : ℕ) (xs : Log)
    → All (λ e. n < e.sequence) xs
    → All (λ e. n < e.sequence) (filter (typed types) xs)
All-typed types n [] h = tt
All-typed types n (x ∷ xs) h = elim (Bool-cases (typed types x)) [
  | inl hit ↦ rw hit (h.0, All-typed types n xs h.1)
  | inr miss ↦ rw miss (All-typed types n xs h.1)
]

pub typed-Rises : (types : List String) (xs : Log) → Rises xs → Rises (filter (typed types) xs)
typed-Rises types [] r = tt
typed-Rises types (x ∷ xs) (h, r) = elim (Bool-cases (typed types x)) [
  | inl hit ↦ rw hit (All-typed types x.sequence xs h, typed-Rises types xs r)
  | inr miss ↦ rw miss (typed-Rises types xs r)
]

-- Nothing that is wanted is lost to the narrower query.
pub none_lost :
    (after : ℕ) (types : List String) (wants : CommittedEvent → Bool) (own : Log)
    → ((e : CommittedEvent) → wants e ≡ true → typed types e ≡ true)
    → filter wants (past after (filter (typed types) own)) ≡ filter wants (past after own)
none_lost after types wants [] h = refl
none_lost after types wants (x ∷ own) h = elim (Bool-cases (wants x)) [
  | inl hit ↦ ground (arith, h x hit, none_lost after types wants own h)
  | inr miss ↦ ground (arith, none_lost after types wants own h)
]

pub length-filter : (p : CommittedEvent → Bool) (xs : Log) → length (filter p xs) ≤ length xs
length-filter p [] = omega arith
length-filter p (x ∷ xs) = elim (Bool-cases (p x)) [
  | inl hit ↦ rw hit (omega (arith, length-filter p xs))
  | inr miss ↦ rw miss (omega (arith, length-filter p xs))
]

pub not_typed :
    (types : List String) (e : CommittedEvent) → no_types types ≡ true → typed types e ≢ true
not_typed [] e h k = ground arith
not_typed (t ∷ types) e h k = ground arith

pub refused :
    (wants : CommittedEvent → Bool) (xs : Log)
    → ((e : CommittedEvent) → wants e ≡ false)
    → filter wants xs ≡ []
refused wants [] h = refl
refused wants (x ∷ xs) h = ground (arith, h x, refused wants xs h)

pub take_nil : (n : ℕ) → take {A = CommittedEvent} n [] ≡ []
take_nil zero = refl
take_nil (suc n) = refl

pub and_left : (a b : Bool) → (a && b) ≡ true → a ≡ true
and_left a b h = ground arith
