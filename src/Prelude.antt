-- ===== src/Prelude.antt =====
-- The names that the other modules share: the libraries', passed on, and those of the children.
mod Tests
mod Lists
mod Words
mod Maps
mod Print
mod Search
mod Digits
pub use Tests.*
pub use Lists.{length, get_or, take, drop, All, length-append, take-length-append}
pub use Lists.{drop-length-append, All-append}
unfoldable pub use Lists.{elem}
pub use Maps.{lookup, lookup-assign, text_eq→eq, text_eq_refl}
unfoldable pub use Print.{to_dec, to_hex, digits_loop, to_int_dec}
pub use Print.{dec_digit, hex_digit}
unfoldable pub use Maps.{assign, emplace, text_eq}
pub use Digits.{IsStop, IsPlain, strtoull-to_dec, to_dec-IsPlain}
pub use Words.{add64, sub64, mul64, to_u32, IsU32, IsU64, IsByte, Text, codes, ℤ, pos, negsuc}
unfoldable pub use Words.{le_number, bit_or}
pub use Search.{contains, is_some, is_space, is_space_or_tab, digit_value, saturate}
unfoldable pub use Search.{
  starts, after, before_text, split_last, until, from_first_not, trim_start,
}
unfoldable pub use Search.{
  skip_space, read_digits, read_unsigned, read_signed, strtoull, read_long, atoi,
}
pub use Prim.Native.Nat.{ℕ, zero, suc, ◌+◌, ◌-◌, ◌*◌, ◌/◌, ◌%◌, ◌^◌, ◌≤◌, ◌<◌, min}
pub use Prim.Native.String.{String}
pub use mathlib.Core.Path.{◌≡◌, refl, sym, ap, ◌∙◌}
pub use mathlib.Core.Logic.{◌≢◌, ◌↔◌, ◌⊎◌, inl, inr}
pub use mathlib.Core.Bool.{Bool, true, false, not, ◌&&◌, ◌||◌}
pub use mathlib.Core.Option.{Option, none, some}
pub use mathlib.Core.List.{List, [], ◌∷◌, ◌++◌, map}
pub use native.Mathlib.Omega.{arith}
