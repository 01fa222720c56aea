-- ===== src/Store/Events/Query.antt =====
-- `query` and `literal_search_query` of crates/pluribus-store-sqlite/src/lib.rs: the indexed search
-- of one stream.
pub mod Matching
pub mod Literal
use mathlib.Core.List.{reverse}
use pluribus.Base.{
  ℕ, min, String, Bool, true, false, not, ◌&&◌, ◌||◌, Option, none, some, List, [], ◌∷◌, ◌++◌,
  Result, ok, err, ◌==◌, string_eq, option_eq, filter, any, take, sort_on, ltb, eqb, leb_ℤ,
  if◌then◌else◌, i64_max, codes,
}
use pluribus.Core.Event.{CommittedEvent, AppendError, EventQuery, is_some_and, no_types}
use pluribus.Store.Rows.{EventRow}
use pluribus.Store.Tables.{Database, TextIndex, SearchRow}
use pluribus.Store.Events.{decode_all}

module _ (index : TextIndex) where
  abbrev pub is_word : ℕ → Bool
  is_word c = index.is_alphanumeric c || eqb c b'_'

  -- The tokens of the input: the longest runs of word characters.
  pub tokens : List ℕ → List ℕ → List (List ℕ)
  tokens [] [] = []
  tokens (t ∷ ts) [] = (t ∷ ts) ∷ []
  tokens token (c ∷ cs) = elim (is_word c) [
    | true ↦ tokens (token ++ (c ∷ [])) cs
    | false ↦ elim token [ [] ↦ tokens [] cs | t ∷ ts ↦ (t ∷ ts) ∷ tokens [] cs ]
  ]

  -- `token.replace('"', "\"\"")`
  double_quotes : List ℕ → List ℕ
  double_quotes [] = []
  double_quotes (c ∷ cs) =
      let rest = double_quotes cs in if eqb c b'"' then c ∷ c ∷ rest else c ∷ rest

  pub quoted : List ℕ → List ℕ
  quoted token = b'"' ∷ (double_quotes token ++ (b'"' ∷ []))

  -- `join(" AND ")`
  pub joined_and : List (List ℕ) → List ℕ
  joined_and [] = []
  joined_and (token ∷ []) = quoted token
  joined_and (token ∷ next ∷ rest) = quoted token ++ (codes " AND " ++ joined_and (next ∷ rest))

  pub literal_search_query : String → Option (List ℕ)
  literal_search_query input = elim (tokens [] (codes input)) [
    | [] ↦ none
    | token ∷ rest ↦ some (joined_and (token ∷ rest))
  ]

-- A condition that is left out when the query does not set it.
abbrev pub unless_unset : {A : Type 0} → Option A → (A → Bool) → Bool
unless_unset none p = true
unless_unset (some a) p = p a

-- The conditions of the statement on the columns of a row.
pub selects_row : String → EventQuery → EventRow → Bool
selects_row stream query row =
    (row.stream_id == stream)
    && unless_unset query.after_sequence (λ after. ltb after row.sequence)
    && unless_unset query.before_sequence (λ before. ltb row.sequence before)
    && (no_types query.event_types
        || any (λ event_type. event_type == row.event_type) query.event_types)
    && unless_unset query.correlation_id (λ id. row.correlation_id == some id)
    && unless_unset query.activity_id (λ id. row.activity_id == some id)
    && unless_unset query.recorded_from_ms (λ from. leb_ℤ from row.recorded_at_ms)
    && unless_unset query.recorded_to_ms (λ to. leb_ℤ row.recorded_at_ms to)

-- `event_id IN (SELECT event_id FROM event_search WHERE event_search MATCH ?)`
found_in_index : TextIndex → List SearchRow → List ℕ → EventRow → Bool
found_in_index index search text row =
    any (λ s. (s.event_id == row.event_id) && index.selects text s) search

-- The rows in their order, up to the limit.
abbrev pub ordered : {A : Type 0} → Bool → List A → List A
ordered true rows = reverse rows
ordered false rows = rows

run_query :
    Database
    → String
    → EventQuery
    → (EventRow → Bool)
    → ℕ
    → Result AppendError (List CommittedEvent)
run_query db stream query in_text limit = decode_all (
    take (min limit i64_max) (
      ordered query.descending (
        sort_on (λ row. row.sequence)
          (filter (λ row. selects_row stream query row && in_text row) db.events))))

-- A bound that no column can hold, or a text without a token, answers nothing.
pub query :
    TextIndex → Database → String → EventQuery → ℕ → Result AppendError (List CommittedEvent)
query index db stream q limit =
    if is_some_and q.after_sequence (λ after. ltb i64_max after)
      || is_some_and q.before_sequence (λ before. ltb i64_max before)
    then ok []
    else elim q.text_query [
      | none ↦ run_query db stream q (λ row. true) limit
      | some text ↦ elim (literal_search_query index text) [
        | none ↦ ok []
        | some search ↦ run_query db stream q (found_in_index index db.event_search search) limit
      ]
    ]
