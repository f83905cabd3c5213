-- ===== src/Common.antt =====
-- Names that every module of the development shares: those of the libraries, passed on, and the
-- tests, lists, integers and texts of its children. Text is a list of code points.
mod Tests
mod Lists
mod Int
mod Texts
mod Numbers
mod Sorting
pub mod Ascending
pub mod Bytes
pub use Tests.*
unfoldable pub use Lists.*
pub use Int.*
unfoldable pub use Texts.*
unfoldable pub use Numbers.*
unfoldable pub use Sorting.*
pub use Prim.Native.Nat.{ℕ, zero, suc, ◌+◌, ◌-◌, ◌*◌, ◌/◌, ◌%◌, ◌^◌, ◌≤◌, ◌<◌, min, max}
pub use Prim.Native.String.{String}
pub use mathlib.Core.Path.{◌≡◌, refl, sym, ap, ap₂, subst, ◌∙◌}
pub use mathlib.Core.Logic.{◌≢◌, ◌↔◌, ◌⊎◌, inl, inr}
pub use mathlib.Core.Bool.{Bool, true, false, not, ◌&&◌, ◌||◌}
pub use mathlib.Core.Option.{Option, none, some}
pub use mathlib.Core.List.{List, [], ◌∷◌, ◌++◌, map, append_assoc, append-nil, Memᴰ}
pub use native.Mathlib.Omega.{arith}
unfoldable pub use native.Mathlib.Decide.{dec_lt}
