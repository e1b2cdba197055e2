-- ===== src/Prelude.antt =====
-- The names that every module shares: the libraries', passed on, and those of the children.
mod Tests
mod Lists
mod Int
mod Predicates
mod Sorting
mod Numbers
pub use Tests.*
pub use Lists.*
pub use Sorting.{lt_pair, eq_pair, IsAscending, IsStrict, sort_set-IsStrict, sort-id}
unfoldable pub use Sorting.{sort, sort_set}
pub use Numbers.{contains-In, In-contains, IsIncreasing}
unfoldable pub use Numbers.{contains, sort_numbers}
pub use Sorting.{
  All-sort, Any-sort, sort-Any, sort-IsAscending, All-sort_set, Any-sort_set, sort_set-Any,
  sort_set-IsAscending,
}
pub use Numbers.{All-sort_numbers, sort_numbers-In, In-sort_numbers, sort_numbers-IsIncreasing}
pub use Int.{ℤ, pos, negsuc, sub_ℕ}
pub use Predicates.*
pub use Prim.Native.Nat.{ℕ, zero, suc, ◌+◌, ◌-◌, ◌*◌, ◌/◌, ◌%◌, ◌^◌, ◌≤◌, ◌<◌, max}
pub use mathlib.Core.Path.{◌≡◌, refl, sym, ap, ◌∙◌}
pub use mathlib.Core.Logic.{◌≢◌, ◌↔◌, ◌⊎◌, inl, inr}
pub use mathlib.Core.Bool.{Bool, true, false, not, ◌&&◌, ◌||◌}
pub use mathlib.Core.Option.{Option, none, some}
pub use mathlib.Core.List.{List, [], ◌∷◌, ◌++◌, map, reverse}
pub use native.Mathlib.Omega.{arith}
