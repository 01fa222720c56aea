-- ===== src/Store/Events/Query/Literal.antt =====
-- The full-text query that `literal_search_query` makes of an input: quoted words and nothing else.
use pluribus.Base.{
  ℕ, ◌≡◌, refl, ap, ◌∙◌, String, true, false, Option, none, some, List, [], ◌∷◌, ◌++◌, arith, All,
  all, filter, concat, codes, Bool-cases, inl, inr, append_assoc, ◌≢◌,
}
use pluribus.Store.Tables.{TextIndex}
use pluribus.Store.Events.Query.{
  is_word, tokens, double_quotes, quoted, joined_and, literal_search_query,
}

module _ (index : TextIndex) where
  -- The tokens hold the word characters of the input, each once and in their order.
  concat-tokens :
      (token cs : List ℕ) → concat (tokens index token cs) ≡ token ++ filter (is_word index) cs
  unfolding tokens
  concat-tokens [] [] = refl
  concat-tokens (t ∷ ts) [] = refl
  concat-tokens [] (c ∷ cs) = elim (Bool-cases (is_word index c)) [
    | inl e ↦ rw (e, tokens) (concat-tokens (c ∷ []) cs)
    | inr e ↦ rw (e, tokens) (concat-tokens [] cs)
  ]
  concat-tokens (t ∷ ts) (c ∷ cs) = elim (Bool-cases (is_word index c)) [
    | inl e ↦
        rw (e, tokens)
          (concat-tokens (t ∷ ts ++ (c ∷ [])) cs
            ∙ append_assoc (t ∷ ts) (c ∷ []) (filter (is_word index) cs))
    | inr e ↦ rw (e, tokens) (ap (λ rest. t ∷ ts ++ rest) (concat-tokens [] cs))
  ]

  abbrev pub IsWord : List ℕ → Type 0
  IsWord token = (all (is_word index) token ≡ true) × (token ≢ [])

  all-snoc :
      (token : List ℕ) (c : ℕ)
      → all (is_word index) token ≡ true
      → is_word index c ≡ true
      → all (is_word index) (token ++ (c ∷ [])) ≡ true
  all-snoc [] c h k = ground arith
  all-snoc (t ∷ ts) c h k = ground (arith, all-snoc ts c)

  tokens-IsWord :
      (token cs : List ℕ) → all (is_word index) token ≡ true → All IsWord (tokens index token cs)
  unfolding tokens
  tokens-IsWord [] [] h = tt
  tokens-IsWord (t ∷ ts) [] h = ((h, λ e. ground arith), tt)
  tokens-IsWord [] (c ∷ cs) h = elim (Bool-cases (is_word index c)) [
    | inl e ↦ rw (e, tokens) (tokens-IsWord (c ∷ []) cs (ground arith))
    | inr e ↦ rw (e, tokens) (tokens-IsWord [] cs refl)
  ]
  tokens-IsWord (t ∷ ts) (c ∷ cs) h = elim (Bool-cases (is_word index c)) [
    | inl e ↦ rw (e, tokens) (tokens-IsWord (t ∷ ts ++ (c ∷ [])) cs (all-snoc (t ∷ ts) c h e))
    | inr e ↦ rw (e, tokens) ((h, λ e. ground arith), tokens-IsWord [] cs refl)
  ]

  -- A word needs no escape, since a quotation mark is not part of it.
  double_quotes_word :
      index.is_alphanumeric b'"' ≡ false
      → (token : List ℕ) → all (is_word index) token ≡ true
      → double_quotes index token ≡ token
  unfolding double_quotes
  double_quotes_word q [] h = refl
  double_quotes_word q (c ∷ cs) h = ground (arith, double_quotes_word q cs)

  -- Words between quotation marks, joined by `AND`.
  abbrev pub all_words : List (List ℕ) → List ℕ
  all_words [] = []
  all_words (w ∷ []) = b'"' ∷ (w ++ (b'"' ∷ []))
  all_words (w ∷ v ∷ ws) = (b'"' ∷ (w ++ (b'"' ∷ []))) ++ (codes " AND " ++ all_words (v ∷ ws))

  joined_words :
      index.is_alphanumeric b'"' ≡ false
      → (words : List (List ℕ)) → All IsWord words
      → joined_and index words ≡ all_words words
  unfolding joined_and quoted
  joined_words q [] h = refl
  joined_words q (w ∷ []) h = ap (λ t. b'"' ∷ (t ++ (b'"' ∷ []))) (double_quotes_word q w h.0.0)
  joined_words q (w ∷ v ∷ ws) h =
      ap (λ t. (b'"' ∷ (t ++ (b'"' ∷ []))) ++ (codes " AND " ++ joined_and index (v ∷ ws)))
        (double_quotes_word q w h.0.0)
      ∙ ap (λ rest. (b'"' ∷ (w ++ (b'"' ∷ []))) ++ (codes " AND " ++ rest))
          (joined_words q (v ∷ ws) h.1)

  -- The expression for the index, when there is a word to look for.
  abbrev pub expression : List (List ℕ) → Option (List ℕ)
  expression [] = none
  expression (w ∷ ws) = some (all_words (w ∷ ws))

  -- Where a quotation mark is not alphanumeric: the query is a conjunction of quoted words, none of
  -- them empty, which hold the word characters of the input and no other, so no operator of the
  -- query language passes through; there is no query exactly when there is no word.
  pub literal_search_query_lem :
      (input : String)
      → index.is_alphanumeric b'"' ≡ false
      → (words : List (List ℕ)) × All IsWord words
        × (concat words ≡ filter (is_word index) (codes input))
        × (literal_search_query index input ≡ expression words)
  unfolding literal_search_query
  literal_search_query_lem input q =
      let words = tokens index [] (codes input) in
      let proper = tokens-IsWord [] (codes input) refl in
      (words, proper, concat-tokens [] (codes input), as_expression words proper)
    where
      as_expression :
          (words : List (List ℕ))
          → All IsWord words
          → (elim words [ [] ↦ none | token ∷ rest ↦ some (joined_and index (token ∷ rest)) ])
            ≡ expression words
      as_expression [] h = refl
      as_expression (w ∷ ws) h = ap some (joined_words q (w ∷ ws) h)
