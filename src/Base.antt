-- ===== src/Base.antt =====
-- The names that the other modules share: the libraries', passed on, Boolean tests and the
-- conditional; lists as arrays and the strings of C are children.
mod Tests
pub mod Lists
pub mod Slices
pub mod Scan
pub mod Ensures
pub mod Text
pub use Tests.*
pub use Prim.Native.Nat.{ℕ, zero, suc, ◌+◌, ◌-◌, ◌*◌, ◌/◌, ◌%◌, ◌^◌, ◌≤◌, ◌<◌, Ordering, compare}
pub use mathlib.Core.Path.{◌≡◌, refl, sym, ap, ◌∙◌}
pub use mathlib.Core.Logic.{◌≢◌, ◌↔◌, ◌⊎◌, inl, inr}
pub use mathlib.Core.Bool.{Bool, true, false, ◌&&◌, ◌||◌}
pub use mathlib.Core.Option.{Option, none, some}
pub use mathlib.Core.List.{List, [], ◌∷◌, ◌++◌, Perm}
pub use native.Mathlib.Omega.{arith}

-- The address of an object.
abbrev pub Ptr : Type 0
Ptr = ℕ
