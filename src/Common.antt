-- ===== src/Common.antt =====
-- The names that the other modules share: the libraries', passed on, and those of the children.
mod Tests
mod Keys
mod Maps
mod Int
mod Decimal
mod Keyed
pub use Tests.*
pub use Keys.*
pub use Int.*
pub use Keyed.{
  length, length-append, keep_if, HasUniqueKeys, insert-HasUniqueKeys, erase-HasUniqueKeys,
  lookup-retain, retain-HasUniqueKeys, length-retain,
}
unfoldable pub use Keyed.{retain, rejected}
pub use Decimal.{int64_max, scan-emit, from_chars-to_string, to_string-injective}
unfoldable pub use Decimal.{is_digit, emit, scan, to_string, nat_to_string, from_chars}
pub use Prim.Native.Nat.{ℕ, zero, suc, ◌+◌, ◌-◌, ◌*◌, ◌/◌, ◌%◌, ◌^◌, ◌≤◌, ◌<◌}
pub use Prim.Native.String.{String}
pub use mathlib.Core.Path.{◌≡◌, refl, sym, ap, ◌∙◌}
pub use mathlib.Core.Logic.{◌≢◌, ◌↔◌, ◌⊎◌, inl, inr}
pub use mathlib.Core.Bool.{Bool, true, false, not, ◌&&◌, ◌||◌}
pub use mathlib.Core.Option.{Option, none, some}
pub use mathlib.Core.List.{List, [], ◌∷◌, ◌++◌, map, append_assoc, append-nil}
pub use native.Mathlib.Omega.{arith}
pub use Maps.{lookup-insert, lookup-erase, contains-add, contains-remove}
unfoldable pub use Maps.{Assoc, lookup, insert, erase, contains, add, remove}
