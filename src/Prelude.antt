-- ===== src/Prelude.antt =====
-- The names that the other modules share: the libraries', passed on, and those of the children.
mod Tests
mod Lists
mod Texts
pub mod Url
pub mod Words
pub use Tests.*
pub use Lists.*
unfoldable pub use Texts.{
  text, text_eq, contains, is_space, lstrip, rstrip, strip, after_prefix, starts_with, lower,
  full_match, is_alnum, is_url_safe, is_name_char, is_profile_id, decimal,
}
pub use Texts.{
  Text, drop_last, text_eq_sound, text_eq_refl, text_eq_complete, text_eq_iff, is_empty, is_some,
  after_prefix_sound, after_prefix-append,
}
pub use Prim.Native.Nat.{ℕ, zero, suc, ◌+◌, ◌-◌, ◌*◌, ◌/◌, ◌%◌, ◌≤◌, ◌<◌}
pub use Prim.Native.String.{String}
pub use mathlib.Core.Path.{◌≡◌, refl, sym, ap, ◌∙◌}
pub use mathlib.Core.Logic.{◌≢◌, ◌↔◌, ◌⊎◌, inl, inr}
pub use mathlib.Core.Bool.{Bool, true, false, not, ◌&&◌, ◌||◌}
pub use mathlib.Core.Option.{Option, none, some}
pub use mathlib.Core.List.{List, [], ◌∷◌, ◌++◌, map}
pub use native.Mathlib.Omega.{arith}
