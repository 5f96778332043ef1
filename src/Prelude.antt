-- ===== src/Prelude.antt =====
-- The names that every other module shares: those of the libraries, passed on, and those of the
-- children, which hold the tests on numbers, lists, texts, keys and the standard library's maps.
mod Tests
mod Lists
mod Keys
mod Texts
mod Trim
mod Decimal
mod Maps
mod Rebuild
mod Retain
mod Sorting
mod Int
mod Parse
mod Results
pub use Tests.*
pub use Lists.*
pub use Keys.*
pub use Texts.*
unfoldable pub use Trim.*
unfoldable pub use Decimal.*
unfoldable pub use Maps.*
pub use Rebuild.*
pub use Retain.*
unfoldable pub use Sorting.*
pub use Int.*
unfoldable pub use Parse.*
pub use Results.*
pub use Prim.Native.Nat.{
  ℕ, zero, suc, ◌+◌, ◌-◌, ◌*◌, ◌/◌, ◌%◌, ◌^◌, ◌≤◌, ◌<◌, min, max, compare, Ordering,
}
pub use mathlib.Core.Path.{◌≡◌, refl, sym, ap, ◌∙◌, fun_ext}
pub use mathlib.Core.Logic.{◌≢◌, ◌↔◌, ◌⊎◌, inl, inr}
pub use mathlib.Core.Bool.{Bool, true, false, not, ◌&&◌, ◌||◌}
pub use mathlib.Core.Option.{Option, none, some}
pub use mathlib.Core.List.{
  List, [], ◌∷◌, ◌++◌, map, reverse, append-nil, append_assoc, reverse-reverse,
}
pub use native.Mathlib.Omega.{arith}
unfoldable pub use native.Mathlib.Decide.{dec_lt, dec_le, ℕ_discrete}
