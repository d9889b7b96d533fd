-- ===== src/Base.antt =====
-- What the modules share: the libraries' names, passed on, and the helpers of the children.
mod Tests
mod Lists
mod Words
mod Bits
mod Memory
mod Results
pub use Tests.*
pub use Lists.*
pub use Words.*
pub use Bits.*
pub use Results.*
pub use Memory.{◌>>=◌, ◌>>◌, check, byte_at}
pub use Memory.{Copied, memcpy-Copied, Cleared, memset_zero-Cleared, memcpy_front}
unfoldable pub use Memory.{memcpy, memset_zero}
pub use Prim.Native.Nat.{
  ℕ, zero, suc, ◌+◌, ◌-◌, ◌*◌, ◌/◌, ◌%◌, ◌^◌, ◌≤◌, ◌<◌, min, max, bit_and, bit_or,
}
pub use mathlib.Core.Path.{◌≡◌, refl, sym, ap, ap₂, ◌∙◌}
pub use mathlib.Core.Logic.{◌≢◌, ◌↔◌, ◌⊎◌, inl, inr}
pub use mathlib.Core.Bool.{Bool, true, false, not, ◌&&◌, ◌||◌}
pub use mathlib.Core.Option.{Option, none, some}
pub use mathlib.Core.List.{List, [], ◌∷◌, ◌++◌, map}
pub use native.Mathlib.Omega.{arith}
