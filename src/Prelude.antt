-- ===== src/Prelude.antt =====
-- The names that the modules share: the libraries', passed on, and those of the children.
mod Tests
mod Lists
mod Texts
mod Dicts
pub mod Int
pub use Tests.*
pub use Lists.*
unfoldable pub use Texts.{codes, text_eq, strip_prefix, member}
pub use Texts.{
  Text, text_eq_sound, text_eq_refl, text_eq_complete, text_eq_iff, strip_prefix-append,
  strip_prefix_sound,
}
pub use Dicts.{Dict, is_some, get-put, get-remove, keys, values, dict_laws}
unfoldable pub use Dicts.{get, put, remove}
pub use Prim.Native.Nat.{ℕ, zero, suc, ◌+◌, ◌-◌, ◌*◌, ◌/◌, ◌%◌, ◌≤◌, ◌<◌, min}
pub use mathlib.Core.Path.{◌≡◌, refl, sym, ap, ◌∙◌}
pub use mathlib.Core.Logic.{◌≢◌, ◌↔◌, ◌⊎◌, inl, inr}
pub use mathlib.Core.Bool.{Bool, true, false, not, ◌&&◌, ◌||◌}
pub use mathlib.Core.Option.{Option, none, some}
pub use mathlib.Core.List.{List, [], ◌∷◌, ◌++◌, map, append-nil, append_assoc}
unfoldable pub use mathlib.Core.List.{flatten}
pub use native.Mathlib.Omega.{arith}
