-- ===== src/Prelude.antt =====
-- The names that the components share: the libraries' names passed on, Boolean tests, list
-- functions over the native numbers and the outcomes of code that may panic or loop.
mod Tests
mod Lists
mod Outcomes
mod Loops
mod Numbers
pub use Numbers.{ℤ, pos, negsuc}
pub use Tests.*
pub use Lists.*
pub use Outcomes.*
pub use Loops.{Flow, stop, continue, Round, loop-Returns, loop_endless, loop_stuck}
unfoldable pub use Loops.{loop}
pub use Prim.Native.Nat.{ℕ, zero, suc, ◌+◌, ◌-◌, ◌*◌, ◌/◌, ◌%◌, ◌^◌, ◌≤◌, ◌<◌, min, max}
pub use mathlib.Core.Path.{◌≡◌, refl, sym, ap, ◌∙◌}
pub use mathlib.Core.Logic.{◌≢◌, ◌↔◌, ◌⊎◌, inl, inr}
pub use mathlib.Core.Bool.{Bool, true, false, not, ◌&&◌, ◌||◌}
pub use mathlib.Core.Option.{Option, none, some}
pub use mathlib.Core.List.{List, [], ◌∷◌, ◌++◌, map, map-append, append-nil, append_assoc}
pub use native.Mathlib.Omega.{arith}
