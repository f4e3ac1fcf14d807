-- ===== src/Prelude/Print.antt =====
-- Numbers as text: `std::to_string` and the "%lx" of printf on unsigned numbers.
use Prim.Native.Nat.{ℕ, zero, suc, ◌+◌, ◌/◌, ◌%◌}
use mathlib.Core.List.{List, [], ◌∷◌}
use hsa_snoop.Prelude.Words.{ℤ, pos, negsuc}
use hsa_snoop.Prelude.Tests.{◌==◌, ltb, if◌then◌else◌}

-- The digits of `n` to a base, most significant first, in front of `acc`; at most `fuel` digits.
unfoldable pub digits_loop : (ℕ → ℕ) → ℕ → ℕ → ℕ → List ℕ → List ℕ
digits_loop digit base zero n acc = acc
digits_loop digit base (suc fuel) n acc =
    let acc' = digit (n % base) ∷ acc in
    let rest = digits_loop digit base fuel (n / base) acc' in if n / base == 0 then acc' else rest

abbrev pub dec_digit : ℕ → ℕ
dec_digit d = 48 + d

abbrev pub hex_digit : ℕ → ℕ
hex_digit d = if ltb d 10 then 48 + d else 87 + d

-- A 64-bit number has at most 20 decimal and 16 hexadecimal digits.
unfoldable pub to_dec : ℕ → List ℕ
unfolding digits_loop
to_dec n = digits_loop dec_digit 10 20 n []

unfoldable pub to_hex : ℕ → List ℕ
unfolding digits_loop
to_hex n = digits_loop hex_digit 16 16 n []

-- "%d".
unfoldable pub to_int_dec : ℤ → List ℕ
unfolding to_dec
to_int_dec (pos n) = to_dec n
to_int_dec (negsuc n) = 45 ∷ to_dec (suc n)
