-- ===== src/Common.antt =====
-- The names that the other modules share: the libraries', passed on, and those of the children.
mod Tests
mod Lists
mod Results
mod Text
mod First
pub use Tests.*
pub use Lists.{
  length, take, drop, any, all, find, keep, length-append, All, All-append, Str, Bytes, codes,
  equal_iff, equal_refl,
}
unfoldable pub use Lists.{equal}
pub use Results.*
pub use First.{IsFirst, FindsFirst-skip}
unfoldable pub use First.{FindsFirst}
unfoldable pub use Text.{
  cons_first, split_on, trim_start_matches, is_whitespace, trim_start, trim, strip_prefix,
  starts_with, ends_with, is_empty, split_once, rsplit_once, utf8_len,
}
pub use Text.{
  Lacks, split_on-ne-nil, split_on-append, split_on-Lacks, split_on_of_Lacks, ends_with-append,
}
pub use Prim.Native.Nat.{ℕ, zero, suc, ◌+◌, ◌-◌, ◌*◌, ◌/◌, ◌%◌, ◌^◌, ◌≤◌, ◌<◌, min, max}
pub use Prim.Native.String.{String}
pub use mathlib.Core.Path.{◌≡◌, refl, sym, ap, ◌∙◌}
pub use mathlib.Core.Logic.{◌≢◌, ◌↔◌, ◌⊎◌, inl, inr}
pub use mathlib.Core.Bool.{Bool, true, false, not, ◌&&◌, ◌||◌}
pub use mathlib.Core.Option.{Option, none, some, get_or}
pub use mathlib.Core.List.{List, [], ◌∷◌, ◌++◌, map, filter_map, head?, append_assoc, append-nil}
unfoldable pub use text.Mathlib.Text.{◌==◌ as name_eq}
pub use native.Mathlib.Omega.{arith}
