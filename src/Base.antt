-- ===== src/Base.antt =====
-- The names that the other modules share: the libraries' own, passed on, and those of the
-- children (tests, lists, machine words, bits, byte strings and results).
mod Tests
mod Lists
mod Words
pub mod Bits
mod ByteStrings
mod Results
pub use ByteStrings.*
pub use Results.*
unfoldable pub use ByteStrings.{slice, slice_from, copy_at, bytes_eq}
pub use Tests.*
pub use Lists.*
pub use Words.*
pub use Prim.Native.Nat.{ℕ, zero, suc, ◌+◌, ◌-◌, ◌*◌, ◌/◌, ◌%◌, ◌^◌, ◌≤◌, ◌<◌, min, bit_and, bit_or}
pub use mathlib.Core.Path.{◌≡◌, refl, sym, ap, ap₂, ◌∙◌}
pub use mathlib.Core.Logic.{◌≢◌, ◌↔◌, ◌⊎◌, inl, inr}
pub use mathlib.Core.Bool.{Bool, true, false, not, ◌&&◌, ◌||◌}
pub use mathlib.Core.Option.{Option, none, some}
pub use mathlib.Core.List.{List, [], ◌∷◌, ◌++◌, map, append-nil, append_assoc}
pub use native.Mathlib.Omega.{arith}
