-- ===== src/Base.antt =====
-- The names that the other modules share: the libraries', passed on, and those of the children.
mod Tests
mod Lists
mod Texts
mod Sorts
pub mod Dicts
pub use Tests.*
pub use Lists.*
unfoldable pub use Sorts.*
unfoldable pub use Texts.*
unfoldable pub use Dicts.{get, put, remove}
pub use Dicts.{
  Dict, empty, any_key, get-absent, get-present, any_key-get, IsKeyed, IsKeyed-empty, IsKeyed-put,
  get-empty, get-put, get-put_self, get-remove, dict_laws,
}
pub use Prim.Native.Nat.{ℕ, zero, suc, ◌+◌, ◌-◌, ◌*◌, ◌/◌, ◌%◌, ◌^◌, ◌≤◌, ◌<◌, min, max}
pub use mathlib.Core.Path.{◌≡◌, refl, sym, ap, ◌∙◌, fun_ext}
pub use mathlib.Core.Logic.{◌≢◌, ◌↔◌, ◌⊎◌, inl, inr}
pub use mathlib.Core.Bool.{Bool, true, false, not, ◌&&◌, ◌||◌}
pub use mathlib.Core.Option.{Option, none, some}
pub use mathlib.Core.List.{List, [], ◌∷◌, ◌++◌, map}
pub use native.Mathlib.Omega.{arith}
