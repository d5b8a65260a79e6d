-- ===== src/Prelude.antt =====
-- The names that the modules of this development share: the libraries', passed on, and those of
-- the children. Numbers are the native ones; identifiers (task, object and actor ids) are among
-- them, as the source counts them up from 0.
mod Tests
mod Lists
mod Predicates
pub mod Dict
pub mod Bags
pub mod Maybe
pub mod Int
pub use Tests.*
unfoldable pub use Lists.*
pub use Predicates.*
pub use Prim.Native.Nat.{ℕ, zero, suc, ◌+◌, ◌-◌, ◌*◌, ◌/◌, ◌%◌, ◌^◌, ◌≤◌, ◌<◌, min, max}
pub use mathlib.Core.Path.{◌≡◌, refl, sym, ap, ◌∙◌, subst}
pub use mathlib.Core.Logic.{◌≢◌, ◌↔◌, ◌⊎◌, inl, inr}
pub use mathlib.Core.Bool.{Bool, true, false, ◌&&◌, ◌||◌, not}
pub use mathlib.Core.Option.{Option, none, some}
pub use mathlib.Core.List.{List, [], ◌∷◌, ◌++◌, map, append-nil, append_assoc}
pub use native.Mathlib.Omega.{arith}
