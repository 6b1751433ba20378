-- ===== src/Base.antt =====
-- The names that the other modules share: the libraries', passed on, and those of the children.
mod Tests
mod Lists
mod Texts
mod Int
pub use Tests.*
unfoldable pub use Lists.{any, keep}
pub use Lists.{
  length, get_elem?, take, drop, is_empty, length-append, length-keep-le, keep-append, All,
  All-append, All-keep, keep-All,
}
unfoldable pub use Texts.{eq_bytes, lt_bytes}
pub use Texts.{
  Bytes, codes, eq_bytes_self, eq_bytes→eq, eq_bytes_iff, lt_bytes_irrefl, lt_bytes_trans,
  lt_bytes_tri, lt_bytes_flip, le_lt_bytes_trans, ge_bytes_trans, lt_bytes_asymm,
}
unfoldable pub use Int.{◌+ℤ◌, quot}
pub use Int.{
  IsInt64, ℤ, pos, negsuc, pos_part, neg_part, sub_ℕ, ◌≤ℤ◌, ltb_ℤ, eqb_ℤ, +ℤ_parts, eq_of_parts,
}
pub use Prim.Native.Nat.{ℕ, zero, suc, ◌+◌, ◌-◌, ◌*◌, ◌/◌, ◌%◌, ◌^◌, ◌≤◌, ◌<◌, min, max, bit_xor}
pub use mathlib.Core.Path.{◌≡◌, refl, sym, ap, ap₂, ◌∙◌, subst}
pub use mathlib.Core.Logic.{◌≢◌, ◌↔◌, ◌⊎◌, inl, inr}
pub use mathlib.Core.Bool.{Bool, true, false, ◌&&◌, ◌||◌}
pub use mathlib.Core.Option.{Option, none, some}
pub use mathlib.Core.List.{List, [], ◌∷◌, ◌++◌, map, append_assoc, append-nil}
pub use native.Mathlib.Omega.{arith}
unfoldable pub use native.Mathlib.Decide.{dec_lt, ℕ_discrete}
