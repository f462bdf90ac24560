-- ===== src/Shared.antt =====
-- The names that every module shares: the libraries', passed on, Boolean tests on the native
-- numbers, and the operations on tables that stand for the queries of the Prisma client.
mod Tests
mod Tables
mod Counts
mod Lookups
mod Words
pub use Tests.*
pub use Tables.*
pub use Counts.*
pub use Lookups.*
unfoldable pub use Words.*
pub use Prim.Native.Nat.{ℕ, zero, suc, ◌+◌, ◌-◌, ◌*◌, ◌/◌, ◌%◌, ◌≤◌, ◌<◌}
pub use Prim.Native.String.{String}
pub use mathlib.Core.Path.{◌≡◌, refl, sym, ap, ◌∙◌, subst}
pub use mathlib.Core.Logic.{◌≢◌, ◌↔◌, ◌⊎◌, inl, inr}
pub use mathlib.Core.Bool.{Bool, true, false, not, ◌&&◌, ◌||◌}
pub use mathlib.Core.Option.{Option, none, some}
pub use mathlib.Core.List.{List, [], ◌∷◌, ◌++◌, map}
pub use native.Mathlib.Omega.{arith}
