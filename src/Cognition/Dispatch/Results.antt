-- ===== src/Cognition/Dispatch/Results.antt =====
-- What the projection knows of the results in the log, and what `result_for` answers from it.
use mathlib.Core.Path.{subst}
use mathlib.Core.Option as Option
use pluribus.Base.{
  ℕ, ◌≡◌, ◌≢◌, refl, sym, ap, ◌∙◌, ◌⊎◌, inl, inr, String, Bool, true, false, not, ◌&&◌, ◌||◌,
  Option, none, some, List, [], ◌∷◌, ◌++◌, Result, ok, err, arith, find, append_assoc, append-nil,
  Assoc, lookup, lookup-insert, Bool-cases, Option-cases, Result-cases, ◌==◌, string_eq, option_eq,
  ==_iff, if◌then◌else◌,
}
use pluribus.Core.Identity.{component, kind_eq}
use pluribus.Core.BlobRef.{BlobRef}
use pluribus.Core.Event.{CommittedEvent, EventPayload, canonical_json, blob}
use pluribus.Json.{JsonText, Value, at, as_str}
use pluribus.Store.Events.Log.{Log}
use pluribus.Cognition.Dispatch.{RouterError, payload_field}
use pluribus.Cognition.Dispatch.Polling.{last_sequence}
use pluribus.Cognition.Dispatch.Projection.{
  DispatchProjection, is_one_of, cognition_types, or_insert, add_result, project, project_all,
  update_cognition, with_id, update_job, update_observation, apply_update,
}

or_else : {A : Type 0} → Option A → Option A → Option A
or_else (some a) o = some a
or_else none o = o

lookup-or_insert :
    (k : String) (request : Option String) (id : String) (results : Assoc String String)
    → lookup k (or_insert request id results)
      ≡ or_else (lookup k results) (if request == some k then some id else none)
unfolding or_insert or_else
lookup-or_insert k none id results = elim (Option-cases (lookup k results)) [
  | inl e ↦ ground arith
  | inr (v, e) ↦ ground arith
]
lookup-or_insert k (some request) id results = elim (Option-cases (lookup request results)) [
  | inl e ↦
      rw (or_insert, e)
        (ground (
          arith,
          ==_iff request k,
          lookup-insert request k id results,
          ap (λ j. lookup j results) {x = request} {y = k},
        ))
  | inr (v, e) ↦
      rw (or_insert, e)
        (ground (arith, ==_iff request k, ap (λ j. lookup j results) {x = request} {y = k}))
]

find-append_one :
    (q : CommittedEvent → Bool) (f : CommittedEvent → String) (xs : Log) (e : CommittedEvent)
    → Option.map f (find q (xs ++ (e ∷ [])))
      ≡ or_else (Option.map f (find q xs)) (if q e then some (f e) else none)
unfolding or_else
find-append_one q f [] e = ground arith
find-append_one q f (x ∷ xs) e = ground (arith, find-append_one q f xs e)

result_test :
    (c a : Bool) (id : String)
    → c ≡ false
    → (if a then some id else none) ≡ (if not c && a then some id else none)
result_test c a id h = ground arith

no_result :
    (c a : Bool) (id : String) (known : Option String)
    → c ≡ true
    → or_else known (if not c && a then some id else none) ≡ known
unfolding or_else
no_result c a id none h = ground arith
no_result c a id (some k) h = ground arith

abbrev observation_associated : String
observation_associated = "cognition.observation-associated"

abbrev job_updated : String
job_updated = "cognition.job-updated"

-- The results and the position stay as they are.
abbrev Keeps : DispatchProjection → DispatchProjection → Type 0
Keeps p next = (next.results ≡ p.results) × (next.through ≡ p.through)

with_id-Keeps :
    (o : Option String) (f : String → DispatchProjection) (p : DispatchProjection)
    → ((id : String) → Keeps p (f id))
    → Keeps p (with_id o f p)
with_id-Keeps none f p h = (refl, refl)
with_id-Keeps (some id) f p h = h id

if-Keeps :
    (b : Bool) (p x y : DispatchProjection) → Keeps p x → Keeps p y → Keeps p (if b then x else y)
if-Keeps true p x y h k = h
if-Keeps false p x y h k = k

apply_update-Keeps :
    (e : CommittedEvent) (value : Value) (p : DispatchProjection) → Keeps p (apply_update e value p)
unfolding apply_update update_job update_observation
apply_update-Keeps e value p =
    let actor = e.request.actor.id in
    let job =
      with_id (as_str (at (at value "job") "id")) (λ id. update_job actor id (at value "job") p)
        p in
    let observation =
      with_id (as_str (at (at value "observation") "id"))
        (λ id. update_observation actor id (at value "observation") p) p in
    let seen = if e.request.event_type == observation_associated then observation else p in
    let noted = if e.request.event_type == job_updated then job else seen in
    if-Keeps (not (e.request.actor.kind == component)) p p noted (refl, refl)
      (if-Keeps (e.request.event_type == job_updated) p job seen
        (with_id-Keeps (as_str (at (at value "job") "id"))
          (λ id. update_job actor id (at value "job") p) p (λ id. (refl, refl)))
        (if-Keeps (e.request.event_type == observation_associated) p observation p
          (with_id-Keeps (as_str (at (at value "observation") "id"))
            (λ id. update_observation actor id (at value "observation") p) p (λ id. (refl, refl)))
          (refl, refl)))

ok_projection :
    {p q : DispatchProjection}
    → ◌≡◌ {A = Result RouterError DispatchProjection} (ok p) (ok q)
    → p ≡ q
ok_projection h = ground arith

not_ok :
    {e : RouterError} {q : DispatchProjection}
    → ◌≢◌ {A = Result RouterError DispatchProjection} (err e) (ok q)
not_ok h = ground arith

pub not_done :
    {e : RouterError} {p q : DispatchProjection}
    → ◌≢◌ {A = Result RouterError (Unit {0}) × DispatchProjection} (err e, p) (ok tt, q)
not_done h = ground arith

payload-cases :
    (p : EventPayload)
    → ((b : BlobRef) × (p ≡ blob b)) ⊎ ((bytes : List ℕ) × (p ≡ canonical_json bytes))
payload-cases (blob b) = inl (b, refl)
payload-cases (canonical_json bytes) = inr (bytes, refl)

module _ (json : JsonText) where
  -- The event is a result of the request.
  abbrev pub answers : String → CommittedEvent → Bool
  answers request event =
      (event.request.causation_id == some request)
      || (payload_field json event "requestEventId" == some request)

  abbrev pub is_result_of : String → CommittedEvent → Bool
  is_result_of request event = not (is_one_of cognition_types event) && answers request event

  abbrev pub first_result : String → Log → Option String
  first_result request log = Option.map (λ e. e.event_id) (find (is_result_of request) log)

  -- The projection has, under each request, its first result in `done`.
  abbrev pub Knows : DispatchProjection → Log → Type 0
  Knows p done = (request : String) → lookup request p.results ≡ first_result request done

  lookup-add_result :
      (request : String) (e : CommittedEvent) (results : Assoc String String)
      → lookup request (add_result json e results)
        ≡ or_else (lookup request results) (if answers request e then some e.event_id else none)
  unfolding add_result or_else
  lookup-add_result request e results = ground (
    arith,
    lookup-or_insert request (payload_field json e "requestEventId") e.event_id
        (or_insert e.request.causation_id e.event_id results),
    lookup-or_insert request e.request.causation_id e.event_id results,
  )

  -- One more event in the list.
  first_result-append :
      (request : String) (done : Log) (e : CommittedEvent)
      → first_result request (done ++ (e ∷ []))
        ≡ or_else
            (first_result request done)
            (if is_result_of request e then some e.event_id else none)
  first_result-append request done e =
      find-append_one (is_result_of request) (λ x. x.event_id) done e

  update_cognition-Keeps :
      (e : CommittedEvent) (p next : DispatchProjection)
      → update_cognition json e p ≡ ok next
      → Keeps p next
  unfolding update_cognition
  update_cognition-Keeps e p next h = elim (payload-cases e.request.payload) [
    | inl (b, f) ↦ subst (Keeps p) (ok_projection (rw (update_cognition, f) at h)) (refl, refl)
    | inr (bytes, f) ↦ elim (Result-cases (json.from_slice bytes)) [
      | inr (x, g) ↦ absurd (not_ok (rw (update_cognition, f, g) at h))
      | inl (value, g) ↦
          subst (Keeps p) (ok_projection (rw (update_cognition, f, g) at h))
            (apply_update-Keeps e value p)
    ]
  ]

  project-Knows :
      (e : CommittedEvent) (p next : DispatchProjection) (done : Log)
      → project json e p ≡ (ok tt, next)
      → Knows p done
      → Knows next (done ++ (e ∷ [])) × (next.through ≡ e.sequence)
  unfolding project
  project-Knows e p next done h k = elim (Bool-cases (is_one_of cognition_types e)) [
    | inr result ↦
        let step = rw (project, result) at h in
        (
          λ request.
              ap (λ n. lookup request n.1.results) (sym step)
              ∙ lookup-add_result request e p.results
              ∙ ap (λ known. or_else known (if answers request e then some e.event_id else none))
                  (k request)
              ∙ ap (or_else (first_result request done))
                  (result_test (is_one_of cognition_types e) (answers request e) e.event_id result)
              ∙ sym (first_result-append request done e),
          ap (λ n. n.1.through) (sym step),
        )
    | inl cognition ↦
        let moved : DispatchProjection = record p { through = e.sequence } in
        elim (Result-cases (update_cognition json e moved)) [
          | inr (x, f) ↦ absurd (not_done (rw (project, cognition, f) at h))
          | inl (updated, f) ↦
              let step = rw (project, cognition, f) at h in
              let (kept, through) = update_cognition-Keeps e moved updated f in
              (
                λ request.
                    ap (λ n. lookup request n.1.results) (sym step)
                    ∙ ap (lookup request) kept
                    ∙ k request
                    ∙ sym (
                        no_result (is_one_of cognition_types e) (answers request e) e.event_id
                          (first_result request done) cognition)
                    ∙ sym (first_result-append request done e),
                ap (λ n. n.1.through) (sym step) ∙ through,
              )
        ]
  ]

  pub project_all-Knows :
      (page : Log) (p next : DispatchProjection) (done : Log)
      → project_all json page p ≡ (ok tt, next)
      → Knows p done
      → Knows next (done ++ page) × (next.through ≡ last_sequence p.through page)
  unfolding project_all last_sequence
  project_all-Knows [] p next done h k = (
    λ request.
        ap (λ n. lookup request n.1.results) (sym h)
        ∙ k request
        ∙ ap (first_result request) (sym (append-nil done)),
    ap (λ n. n.1.through) (sym h),
  )
  project_all-Knows (e ∷ page) p next done h k = elim (Result-cases (project json e p).0) [
    | inr (x, f) ↦ absurd (not_done (rw (project_all, f) at h))
    | inl (u, f) ↦
        let p' = (project json e p).1 in
        let (k', t') = project-Knows e p p' done (ap (λ r. (r, p')) f) k in
        let (k'', t'') =
          project_all-Knows page p' next (done ++ (e ∷ [])) (rw (project_all, f) at h) k' in
        (
          λ request. k'' request ∙ ap (first_result request) (append_assoc done (e ∷ []) page),
          t'' ∙ ap (λ n. last_sequence n page) t',
        )
  ]
