-- ===== src/Base.antt =====
-- What the components share: the library's names, passed on, Boolean tests, arrays, integers,
-- error numbers, C strings and the bits of a byte.
mod Tests
mod Lists
mod Int
mod Errno
mod Text
mod Bits
pub use Tests.*
pub use Lists.*
pub use Int.*
pub use Errno.*
unfoldable pub use Text.{strcmp_eq, strncmp_eq, strlen}
pub use Text.*
pub use Bits.*
pub use Prim.Native.Nat.{ℕ, zero, suc, ◌+◌, ◌-◌, ◌*◌, ◌/◌, ◌%◌, ◌≤◌, ◌<◌, min}
pub use Prim.Native.Nat.{bit_and, bit_or}
pub use mathlib.Core.Path.{◌≡◌, refl, sym, ap, ◌∙◌, fun_ext}
pub use mathlib.Core.Logic.{◌≢◌, ◌↔◌, ◌⊎◌, inl, inr}
pub use mathlib.Core.Bool.{Bool, true, false, not, ◌&&◌, ◌||◌}
pub use mathlib.Core.Option.{Option, none, some}
pub use mathlib.Core.List.{List, [], ◌∷◌, ◌++◌, map, reverse}
pub use native.Mathlib.Omega.{arith}
