-- ===== src/Base.antt =====
-- The vocabulary that every module shares: the libraries' names passed on, Boolean tests and lists
-- over the native numbers, results, texts as bytes, maps with text keys and machine words.
mod Tests
mod Lists
mod Outcome
mod Bytes
mod Maps
mod Word
mod Bits
mod Utf8
mod Decimal
mod Hex
mod Trim
pub use Tests.*
unfoldable pub use Lists.*
pub use Outcome.{Result, ok, err, ◌>>=◌, ◌>>◌, guard, or_err, >>=-eq-ok, Result-cases}
unfoldable pub use Bytes.*
unfoldable pub use Maps.*
unfoldable pub use Word.*
unfoldable pub use Bits.*
unfoldable pub use Utf8.*
unfoldable pub use Decimal.*
unfoldable pub use Hex.*
pub use Trim.{All-append, All-map, NoSpace, trim_space-NoSpace}
pub use Prim.Native.Nat.{ℕ, zero, suc, ◌+◌, ◌-◌, ◌*◌, ◌/◌, ◌%◌, ◌^◌, ◌≤◌, ◌<◌, min, max}
pub use mathlib.Core.Path.{◌≡◌, refl, sym, ap, ◌∙◌, subst}
pub use mathlib.Core.Logic.{◌≢◌, ◌↔◌, ◌⊎◌, inl, inr}
pub use mathlib.Core.Bool.{Bool, true, false, not, ◌&&◌, ◌||◌}
pub use mathlib.Core.Option.{Option, none, some}
pub use mathlib.Core.List.{List, [], ◌∷◌, ◌++◌, map, reverse, append-nil, append_assoc}
pub use native.Mathlib.Omega.{arith}
