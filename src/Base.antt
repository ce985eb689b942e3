-- ===== src/Base.antt =====
-- Names that every module shares: the libraries' passed on, and those of the children.
mod Tests
mod Lists
mod Dict
mod Int
mod Sort
mod Lru
mod Texts
mod Keys
unfoldable pub use Tests.*
unfoldable pub use Lists.*
unfoldable pub use Dict.*
unfoldable pub use Int.*
unfoldable pub use Sort.*
unfoldable pub use Lru.*
unfoldable pub use Texts.*
unfoldable pub use Keys.*
pub use Prim.Native.Nat.{ℕ, zero, suc, ◌+◌, ◌-◌, ◌*◌, ◌/◌, ◌%◌, ◌^◌, ◌≤◌, ◌<◌, min, max}
pub use Prim.Native.String.{String}
pub use mathlib.Core.Path.{◌≡◌, refl, sym, ap, ◌∙◌, subst}
pub use mathlib.Core.Logic.{◌≢◌, ◌↔◌, ◌⊎◌, inl, inr, if_pos, if_neg}
unfoldable pub use mathlib.Core.Logic.{ite, dite}
pub use mathlib.Core.Bool.{Bool, true, false, not, ◌&&◌, ◌||◌}
pub use mathlib.Core.Option.{Option, none, some, some-injective}
pub use mathlib.Core.List.{List, [], ◌∷◌, ◌++◌, map, append-nil, append_assoc}
pub use native.Mathlib.Omega.{arith}
unfoldable pub use native.Mathlib.Decide.{dec_lt, dec_le, ℕ_discrete}
