-- ===== src/Prelude.antt =====
-- The names that the other modules share: the libraries', passed on, and those of the children.
mod Tests
mod Arrays
mod Search
mod Int
mod Outcomes
mod Bits
pub use Tests.*
unfoldable pub use Arrays.{for_each}
pub use Arrays.*
unfoldable pub use Search.{first_pos, last_pos, count_pos}
pub use Search.{
  Hit, Miss, LastHit, first_pos_cases, last_pos_cases, count_pos-le, count_pos_congr,
  count_pos_gain,
}
pub use Int.*
pub use Outcomes.*
pub use Bits.{bit_or_halves}
pub use Prim.Native.Nat.{ℕ, zero, suc, ◌+◌, ◌-◌, ◌*◌, ◌/◌, ◌%◌, ◌^◌, ◌≤◌, ◌<◌, bit_or}
pub use mathlib.Core.Path.{◌≡◌, refl, sym, ap, ◌∙◌, fun_ext}
pub use mathlib.Core.Logic.{◌≢◌, ◌⊎◌, inl, inr}
pub use mathlib.Core.Bool.{Bool, true, false, ◌&&◌, ◌||◌, not}
pub use mathlib.Core.Option.{Option, none, some}
pub use mathlib.Core.List.{List, [], ◌∷◌, ◌++◌}
pub use native.Mathlib.Omega.{arith}
