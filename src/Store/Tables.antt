-- ===== src/Store/Tables.antt =====
-- The tables (`EVENT_SCHEMA`, `STATE_SCHEMA`, `DELIVERY_SCHEMA`, `EVENT_SEARCH_SCHEMA` and
-- `plugin_credentials`) as lists of rows and maps by primary key. A revision or checkpoint is a
-- `u64` kept as its decimal text, which reads back as the number, so the column is the number.
use pluribus.Base.{
  ℕ, String, List, [], Bool, ◌&&◌, ◌≡◌, ◌↔◌, true, arith, Eq, ==_iff, ◌==◌, string_eq, Assoc, ℤ,
}
use pluribus.Core.Delivery.{CursorKey}
use pluribus.Store.Rows.{EventRow}

-- `streams`: the kind and the next sequence of a stream.
pub record StreamRow : Type 0 where
  pub stream_kind : ℕ
  pub next_sequence : ℕ

-- `event_search`
pub record SearchRow : Type 0 where
  pub event_id : String
  pub stream_id : String
  pub event_type : String
  pub payload_text : List ℕ

-- The primary key of `component_state`, and of `plugin_credentials`.
pub record PairKey : Type 0 where
  pub first : String
  pub second : String

pub record Database : Type 0 where
  pub streams : Assoc String StreamRow
  pub events : List EventRow
  pub event_search : List SearchRow
  pub namespaces : Assoc String ℕ
  pub component_state : Assoc PairKey (List ℕ)
  pub delivery_cursors : Assoc CursorKey ℕ
  pub plugin_credentials : Assoc PairKey (List ℕ)

abbrev pub empty : Database
empty = record {
  streams = [];
  events = [];
  event_search = [];
  namespaces = [];
  component_state = [];
  delivery_cursors = [];
  plugin_credentials = [];
}

-- The same events and stream counters.
abbrev pub SameEvents : Database → Database → Type 0
SameEvents db after = (after.events ≡ db.events) × (after.streams ≡ db.streams)

abbrev pub pair_beq : PairKey → PairKey → Bool
pair_beq a b = (a.first == b.first) && (a.second == b.second)

pub pair_beq_iff : (a b : PairKey) → (pair_beq a b ≡ true) ↔ (a ≡ b)
pair_beq_iff a b = ground (arith, ==_iff a.first b.first, ==_iff a.second b.second)

instance abbrev pub pair_eq : Eq PairKey
pair_eq = record { beq = pair_beq; beq_iff = pair_beq_iff }

abbrev pub cursor_beq : CursorKey → CursorKey → Bool
cursor_beq a b = (a.stream_id == b.stream_id) && (a.namespace == b.namespace)

pub cursor_beq_iff : (a b : CursorKey) → (cursor_beq a b ≡ true) ↔ (a ≡ b)
cursor_beq_iff a b = ground (arith, ==_iff a.stream_id b.stream_id, ==_iff a.namespace b.namespace)

instance abbrev pub cursor_eq : Eq CursorKey
cursor_eq = record { beq = cursor_beq; beq_iff = cursor_beq_iff }

-- `EventMetadataSource`: the identifiers and times of commits, from outside. A drawn identifier
-- stays drawn when the transaction rolls back.
pub record Metadata (M : Type 0) : Type 0 where
  pub next_event_id : M → String × M
  pub now_ms : M → ℤ × M

-- What the store uses of Unicode and of the full-text index: `String::from_utf8_lossy`,
-- `char::is_alphanumeric` and the rows that a `MATCH` query selects.
pub record TextIndex : Type 0 where
  pub from_utf8_lossy : List ℕ → List ℕ
  pub is_alphanumeric : ℕ → Bool
  pub selects : List ℕ → SearchRow → Bool
