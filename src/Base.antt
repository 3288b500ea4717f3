-- ===== src/Base.antt =====
-- The names that all modules share: the libraries' names, passed on, the Boolean tests of C, words
-- of a fixed width and their bits.
mod Tests
mod Word
mod Step
mod Bits
mod Array
mod Loops
pub mod Int
mod Mask
pub use Tests.*
unfoldable pub use Word.*
pub use Bits.*
pub use Array.*
unfoldable pub use Loops.*
unfoldable pub use Mask.*
pub use Prim.Native.Nat.{ℕ, zero, suc, ◌+◌, ◌-◌, ◌*◌, ◌/◌, ◌%◌, ◌^◌, ◌≤◌, ◌<◌, bit_and, bit_or}
pub use Prim.Native.Nat.{bit_xor}
pub use mathlib.Core.Path.{◌≡◌, refl, sym, ap, ◌∙◌}
pub use mathlib.Core.Logic.{◌≢◌, ◌↔◌, ◌⊎◌, inl, inr}
pub use mathlib.Core.Bool.{Bool, true, false, not, ◌&&◌, ◌||◌, false≢true}
unfoldable pub use mathlib.Core.Bool.{xor}
pub use mathlib.Core.Option.{Option, none, some}
pub use mathlib.Core.List.{List, [], ◌∷◌, ◌++◌}
pub use native.Mathlib.Omega.{arith}
