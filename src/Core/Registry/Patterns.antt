-- ===== src/Core/Registry/Patterns.antt =====
-- What the patterns of a manifest cover.
use mathlib.Core.List.{reverse, reverse-append, reverse-reverse}
use pluribus.Base.{
  ℕ, ◌≡◌, refl, sym, ap, ◌∙◌, ◌↔◌, ◌⊎◌, inl, inr, true, some, List, [], ◌∷◌, ◌++◌, arith, codes,
  strip_prefix, ==_iff, list_eq, nat_eq, Option-cases, Bool-cases, ◌==◌,
}
use pluribus.Core.Registry.{matches_pattern, strip_suffix, starts_with_dot}

strip_prefix_iff : (p s r : List ℕ) → (strip_prefix p s ≡ some r) ↔ (s ≡ p ++ r)
unfolding strip_prefix
strip_prefix_iff [] s r = ground arith
strip_prefix_iff (c ∷ p) [] r = ground arith
strip_prefix_iff (c ∷ p) (d ∷ s) r = ground (arith, strip_prefix_iff p s r)

strip_suffix_iff : (p s r : List ℕ) → (strip_suffix p s ≡ some r) ↔ (s ≡ r ++ p)
unfolding strip_suffix
strip_suffix_iff p s r = (
  λ h. elim (Option-cases (strip_prefix (reverse p) (reverse s))) [
    | inl e ↦ ground arith
    | inr (t, e) ↦ ground (
      arith,
      strip_prefix_iff (reverse p) (reverse s) t,
      reverse-reverse s,
      reverse-append (reverse p) t,
      reverse-reverse p,
      ap {B = List ℕ} reverse {x = reverse s} {y = reverse p ++ t},
    )
  ],
  λ h. rw (
    (strip_prefix_iff (reverse p) (reverse s) (reverse r)).1 (ap reverse h ∙ reverse-append r p),
    reverse-reverse,
  ),
)

starts_with_dot_iff :
    (s : List ℕ) → (starts_with_dot s ≡ true) ↔ ((rest : List ℕ) × (s ≡ b'.' ∷ rest))
unfolding starts_with_dot
starts_with_dot_iff [] = (λ h. cc, λ (rest, e). cc)
starts_with_dot_iff (c ∷ s) = (λ h. (s, ground arith), λ (rest, e). ground arith)

-- A pattern is the wildcard, the type itself, or a prefix of whole segments.
abbrev pub Covers : List ℕ → List ℕ → Type 0
Covers p t =
    (p ≡ codes "*")
    ⊎ (p ≡ t)
    ⊎ ((prefix : List ℕ) × (rest : List ℕ) × (p ≡ prefix ++ codes ".*")
        × (t ≡ prefix ++ b'.' ∷ rest))

matches-Covers : (p t : List ℕ) → matches_pattern p t ≡ true → Covers p t
unfolding matches_pattern
matches-Covers p t h = elim (Option-cases (strip_suffix (codes ".*") p)) [
  | inl e ↦ ground (arith, ==_iff p (codes "*"), ==_iff p t)
  | inr (prefix, e) ↦ elim (Option-cases (strip_prefix prefix t)) [
    | inl f ↦ ground (arith, ==_iff p (codes "*"))
    | inr (rest, f) ↦ elim (Bool-cases (p == codes "*")) [
      | inl star ↦ inl ((==_iff p (codes "*")).0 star)
      | inr other ↦
          let (tail, dot) = (starts_with_dot_iff rest).0 (ground arith) in
          inr (
            inr (
              prefix,
              tail,
              (strip_suffix_iff (codes ".*") p prefix).0 e,
              (strip_prefix_iff prefix t rest).0 f ∙ ap (λ r. prefix ++ r) dot,
            ))
    ]
  ]
]

family-matches :
    (p t prefix rest : List ℕ)
    → p ≡ prefix ++ codes ".*"
    → t ≡ prefix ++ b'.' ∷ rest
    → matches_pattern p t ≡ true
unfolding matches_pattern
family-matches p t prefix rest e f = ground (
  arith,
  (strip_suffix_iff (codes ".*") p prefix).1 e,
  (strip_prefix_iff prefix t (b'.' ∷ rest)).1 f,
  (starts_with_dot_iff (b'.' ∷ rest)).1 (rest, refl),
)

exact-matches : (p t : List ℕ) → p ≡ t → matches_pattern p t ≡ true
unfolding matches_pattern
exact-matches p t e = elim (Option-cases (strip_suffix (codes ".*") p)) [
  | inl none_left ↦ ground (arith, ==_iff p t)
  | inr (prefix, left) ↦
      let split = (strip_suffix_iff (codes ".*") p prefix).0 left in
      family-matches p t prefix (codes "*") split (sym e ∙ split)
]

Covers-matches : (p t : List ℕ) → Covers p t → matches_pattern p t ≡ true
Covers-matches p t (inl e) = unfold matches_pattern in ground (arith, ==_iff p (codes "*"))
Covers-matches p t (inr (inl e)) = exact-matches p t e
Covers-matches p t (inr (inr (prefix, rest, e, f))) = family-matches p t prefix rest e f

-- A pattern matches exactly the types that it covers: every type for the wildcard, the type of its
-- own name, and for `prefix.*` the types with more segments behind `prefix`.
pub matches_pattern_iff : (p t : List ℕ) → (matches_pattern p t ≡ true) ↔ Covers p t
matches_pattern_iff p t = (matches-Covers p t, Covers-matches p t)
