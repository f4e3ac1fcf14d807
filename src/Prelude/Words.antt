-- ===== src/Prelude/Words.antt =====
-- Machine words as natural numbers with their wrap-around written out, and texts as bytes.
use Prim.Native.Nat.{ℕ, zero, suc, ◌/◌, ◌+◌, ◌-◌, ◌*◌, ◌%◌, ◌^◌, ◌<◌}
use Prim.Native.Char.{code}
use Prim.Native.String.{String}
use mathlib.Core.Bool.{◌&&◌}
use mathlib.Core.List.{List, [], ◌∷◌}
use hsa_snoop.Prelude.Tests.{◌==◌, if◌then◌else◌}

-- `uint64_t` addition, subtraction and product.
abbrev pub add64 : ℕ → ℕ → ℕ
add64 a b = (a + b) % 2 ^ 64

abbrev pub sub64 : ℕ → ℕ → ℕ
sub64 a b = (a + 2 ^ 64 - b) % 2 ^ 64

abbrev pub mul64 : ℕ → ℕ → ℕ
mul64 a b = a * b % 2 ^ 64

-- A conversion to `uint32_t`.
abbrev pub to_u32 : ℕ → ℕ
to_u32 a = a % 2 ^ 32

abbrev pub IsU32 : ℕ → Type 0
IsU32 a = a < 2 ^ 32

abbrev pub IsU64 : ℕ → Type 0
IsU64 a = a < 2 ^ 64

abbrev pub IsByte : ℕ → Type 0
IsByte a = a < 256

-- A little-endian number of any width, as `memcpy` into an unsigned integer reads it.
unfoldable pub le_number : List ℕ → ℕ
le_number [] = 0
le_number (b ∷ bs) = b + 256 * le_number bs

-- A `std::string` or a NUL-terminated C string, as its bytes.
abbrev pub Text : Type 0
Text = List ℕ

-- The bytes of a literal, all of which are ASCII here.
abbrev pub codes : String → Text
codes String.[] = []
codes (String.◌∷◌ c s) = code c ∷ codes s

-- Integers on the native numbers: `pos n` is n and `negsuc n` is -(n + 1).
pub data ℤ : Type 0 where
  pos negsuc : ℕ → ℤ

-- `a | b` of numbers of at most `n` bits.
unfoldable pub bit_or : ℕ → ℕ → ℕ → ℕ
bit_or zero a b = 0
bit_or (suc n) a b =
    let more = bit_or n (a / 2) (b / 2) in (if (a % 2 == 0) && b % 2 == 0 then 0 else 1) + 2 * more
