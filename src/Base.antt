-- ===== src/Base.antt =====
-- Shared by every module: the libraries' names passed on, and those of the children.
mod Tests
mod Lists
mod Table
mod Keys
mod Sums
mod Results
mod Upsert
mod Cuts
pub mod Int
pub mod Json
pub mod Text
pub mod Utf8
pub mod Decimal
pub use Tests.*
pub use Lists.*
pub use Table.*
pub use Keys.*
pub use Sums.*
pub use Results.*
pub use Upsert.*
pub use Cuts.*
pub use Prim.Native.Nat.{ℕ, zero, suc, ◌+◌, ◌-◌, ◌*◌, ◌/◌, ◌%◌, ◌^◌, ◌≤◌, ◌<◌}
pub use Prim.Native.String.{String}
pub use mathlib.Core.Path.{◌≡◌, refl, sym, ap, ◌∙◌}
pub use mathlib.Core.Logic.{◌≢◌, ◌↔◌, ◌⊎◌, inl, inr}
pub use mathlib.Core.Bool.{Bool, true, false, not, ◌&&◌, ◌||◌}
pub use mathlib.Core.Option.{Option, none, some}
pub use mathlib.Core.List.{List, [], ◌∷◌, ◌++◌, map}
pub use native.Mathlib.Omega.{arith}
pub use text.Mathlib.Text.{◌==◌}
pub use text.Mathlib.TextEquality.{eq_iff}
pub use text.Mathlib.TextPositions.{eq_refl}
