-- ===== src/Store/Examples.antt =====
-- Identifiers, times and an index for the tests of the store.
use pluribus.Base.{ℕ, zero, suc, String, true, pos, is_ascii_lowercase}
use pluribus.Core.Event.{CommittedEvent}
use pluribus.Core.Examples.{first_request}
use pluribus.Store.Tables.{Metadata, TextIndex}
use pluribus.Store.Rows.Roundtrip.{committed}

abbrev pub id_of : ℕ → String
id_of zero = "e-0"
id_of (suc zero) = "e-1"
id_of (suc (suc n)) = "e-2"

-- The clock and the identifiers count the draws.
abbrev pub counting : Metadata ℕ
counting = record { next_event_id = λ n. (id_of n, suc n); now_ms = λ n. (pos n, n) }

-- Only lowercase letters make words, and every row is selected.
abbrev pub plain_index : TextIndex
plain_index = record {
  from_utf8_lossy = λ bytes. bytes;
  is_alphanumeric = is_ascii_lowercase;
  selects = λ text row. true;
}

abbrev pub first_event : CommittedEvent
first_event = committed first_request "e-0" 1 (pos 1)
