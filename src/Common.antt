-- ===== src/Common.antt =====
-- The names that every module shares: the libraries', passed on, and those of the children.
mod Logic
mod Int
mod Text
mod Prefix
mod Replace
mod Effect
mod History
mod Keeping
mod Outcome
unfoldable pub use Logic.*
pub use Int.*
unfoldable pub use Text.*
unfoldable pub use Effect.*
pub use History.*
pub use Keeping.*
pub use Outcome.*
unfoldable pub use Replace.*
pub use Prefix.*
pub use Prim.Native.Nat.{ℕ, ◌<◌, ◌≤◌, ◌^◌, ◌%◌, ◌/◌, ◌*◌, ◌-◌, ◌+◌, suc, zero}
pub use Prim.Native.String.{String}
pub use mathlib.Core.Path.{◌≡◌, refl, sym, ap, ◌∙◌}
pub use mathlib.Core.Logic.{◌≢◌, ◌↔◌, ◌⊎◌, inl, inr}
pub use mathlib.Core.Bool.{Bool, true, false, not, ◌&&◌, ◌||◌}
pub use mathlib.Core.Option.{Option, none, some}
pub use mathlib.Core.List.{List, [], ◌∷◌}
pub use native.Mathlib.Omega.{arith}
pub use text.Mathlib.Text.{◌==◌}
pub use text.Mathlib.TextEquality.{eq_iff}
pub use text.Mathlib.TextPositions.{eq_refl}
