-- ===== src/Base.antt =====
-- The names that the other modules share: the libraries', passed on, and those of the children.
mod Tests
mod Lists
mod Equality
mod Fallible
mod Order
mod Ranking
mod Maps
mod Text
mod TextOrder
mod Decimal
mod DecimalText
mod Signed
pub use Tests.*
pub use Lists.*
pub use Equality.*
unfoldable pub use Ranking.{sort_on}
pub use Ranking.{IsRising, sort_on-rising}
unfoldable pub use Order.{sort, dedup}
pub use Order.{
  Ord, Distinct, sort-IsSorted, Among-sort, length-sort, Distinct-sort, length-dedup-sort_iff,
}
unfoldable pub use TextOrder.{text_le}
pub use TextOrder.{codes_injective, string_ord, text_le_antisymm, text_le_total, text_le_trans}
pub use Fallible.*
unfoldable pub use Maps.{lookup, insert, remove}
pub use Maps.{
  Assoc, lookup-insert, lookup-remove, insert_self, insert-insert, Everywhere, Everywhere-insert,
  Everywhere-remove,
}
unfoldable pub use Text.{strip_prefix}
pub use Text.{
  codes, is_empty, is_ascii, is_ascii_control, is_ascii_digit, is_ascii_lowercase,
  is_ascii_uppercase, is_lower_hex,
}
unfoldable pub use Decimal.{decimal, parse_u64}
unfoldable pub use DecimalText.{decimal_text}
pub use Decimal.{decimal_injective, parse_u64-decimal}
pub use Signed.*
pub use Prim.Native.Nat.{ℕ, zero, suc, ◌+◌, ◌-◌, ◌*◌, ◌/◌, ◌%◌, ◌^◌, ◌≤◌, ◌<◌, min, max}
pub use Prim.Native.String.{String}
pub use mathlib.Core.Path.{◌≡◌, refl, sym, ap, ◌∙◌}
pub use mathlib.Core.Logic.{◌≢◌, ◌↔◌, ◌⊎◌, inl, inr}
pub use mathlib.Core.Bool.{Bool, true, false, not, ◌&&◌, ◌||◌}
pub use mathlib.Core.Option.{Option, none, some}
pub use mathlib.Core.List.{List, [], ◌∷◌, ◌++◌, map, append-nil, append_assoc}
pub use native.Mathlib.Omega.{arith}
