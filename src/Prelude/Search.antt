-- ===== src/Prelude/Search.antt =====
-- Search in texts, for the members of `std::string` that look for a character or a text, and the
-- numbers that the C library reads from a text.
use Prim.Native.Nat.{ℕ, ◌+◌, ◌-◌, ◌*◌, ◌^◌, ◌%◌}
use mathlib.Core.Bool.{Bool, true, false, ◌&&◌, ◌||◌}
use mathlib.Core.Option.{Option, none, some}
use mathlib.Core.List.{List, [], ◌∷◌}
use hsa_snoop.Prelude.Tests.{◌==◌, ltb, leb, if◌then◌else◌}

-- What stands behind the prefix `w` of a text that has it.
unfoldable pub starts : List ℕ → List ℕ → Option (List ℕ)
starts [] s = some s
starts (w ∷ ws) [] = none
starts (w ∷ ws) (c ∷ s) = let rest = starts ws s in if w == c then rest else none

abbrev pub is_some {ℓ} : {A : Type ℓ} → Option A → Bool
is_some none = false
is_some (some a) = true

-- What stands behind the first occurrence of `w`: `find` and `substr`.
unfoldable pub after : List ℕ → List ℕ → Option (List ℕ)
unfolding starts
after w [] = starts w []
after w (c ∷ s) =
    let later = after w s in elim (starts w (c ∷ s)) [ none ↦ later | some r ↦ some r ]

-- `find(w) != npos`.
abbrev pub contains : List ℕ → List ℕ → Bool
contains w s = is_some (after w s)

-- What stands in front of the first occurrence of `w`.
unfoldable pub before_text : List ℕ → List ℕ → Option (List ℕ)
unfolding starts
before_text w [] = elim (starts w []) [ none ↦ none | some r ↦ some [] ]
before_text w (c ∷ s) =
    let later = before_text w s in
    elim (starts w (c ∷ s)) [
      | none ↦ elim later [ none ↦ none | some p ↦ some (c ∷ p) ]
      | some r ↦ some []
    ]

-- What stands in front of and behind the last occurrence of a character: `rfind`.
unfoldable pub split_last : ℕ → List ℕ → Option (List ℕ × List ℕ)
split_last k [] = none
split_last k (c ∷ s) = elim (split_last k s) [
  | none ↦ if c == k then some ([], s) else none
  | some (p, r) ↦ some (c ∷ p, r)
]

-- The text up to the first occurrence of a character, or all of it.
unfoldable pub until : ℕ → List ℕ → List ℕ
until k [] = []
until k (c ∷ s) = let rest = until k s in if c == k then [] else c ∷ rest

-- From the first character that is not a blank: `find_first_not_of`, `none` for npos.
unfoldable pub from_first_not : (ℕ → Bool) → List ℕ → Option (List ℕ)
from_first_not blank [] = none
from_first_not blank (c ∷ s) =
    let rest = from_first_not blank s in if blank c then rest else some (c ∷ s)

-- Blanks in front are dropped; a text of blanks alone stays.
unfoldable pub trim_start : (ℕ → Bool) → List ℕ → List ℕ
unfolding from_first_not
trim_start blank s = elim (from_first_not blank s) [ none ↦ s | some r ↦ r ]

-- `isspace`.
abbrev pub is_space : ℕ → Bool
is_space c = (c == 32) || (leb 9 c && leb c 13)

abbrev pub is_space_or_tab : ℕ → Bool
is_space_or_tab c = (c == 32) || c == 9

unfoldable pub skip_space : List ℕ → List ℕ
skip_space [] = []
skip_space (c ∷ s) = let rest = skip_space s in if is_space c then rest else c ∷ s

-- The value of a digit; 36 for what is none.
abbrev pub digit_value : ℕ → ℕ
digit_value c =
    if leb 48 c && leb c 57
    then c - 48
    else if leb 97 c && leb c 122
    then c - 87
    else if leb 65 c && leb c 90
    then c - 55
    else 36

-- The number that the digits in front of a text make behind `acc`.
unfoldable pub read_digits : ℕ → ℕ → List ℕ → ℕ
read_digits base acc [] = acc
read_digits base acc (c ∷ s) =
    let more = read_digits base (acc * base + digit_value c) s in
    if ltb (digit_value c) base then more else acc

-- The clamp of `strtoull` to ULLONG_MAX.
abbrev pub saturate : ℕ → ℕ
saturate v = if ltb v (2 ^ 64) then v else 2 ^ 64 - 1

-- The clamp of `strtol` to LONG_MAX.
abbrev pub clamp_long : ℕ → ℕ
clamp_long v = if ltb v (2 ^ 63) then v else 2 ^ 63 - 1

-- The number without its sign; base 0 takes "0x" for base 16 and a leading "0" for base 8.
unfoldable pub read_unsigned : ℕ → List ℕ → ℕ
unfolding read_digits
read_unsigned base [] = 0
read_unsigned base (c ∷ []) = read_digits 10 0 (c ∷ [])
read_unsigned base (c ∷ d ∷ s) =
    if base == 0 && c == 48
    then (if (d == 120) || d == 88 then read_digits 16 0 s else read_digits 8 0 (d ∷ s))
    else read_digits 10 0 (c ∷ d ∷ s)

unfoldable pub read_signed : ℕ → List ℕ → ℕ
unfolding read_unsigned
read_signed base [] = 0
read_signed base (c ∷ s) =
    if c == 45
    then (let v = read_unsigned base s in
        if ltb v (2 ^ 64) then (2 ^ 64 - v) % 2 ^ 64 else 2 ^ 64 - 1)
    else if c == 43
    then saturate (read_unsigned base s)
    else saturate (read_unsigned base (c ∷ s))

-- `strtoull(s, nullptr, base)` for the bases 10 and 0.
unfoldable pub strtoull : ℕ → List ℕ → ℕ
unfolding read_signed skip_space
strtoull base s = read_signed base (skip_space s)

-- `strtol` for base 10, a long of 64 bits in two's complement: clamped to LONG_MIN and LONG_MAX.
unfoldable pub read_long : List ℕ → ℕ
unfolding read_unsigned
read_long [] = 0
read_long (c ∷ s) =
    if c == 45
    then (let v = read_unsigned 10 s in if ltb v (2 ^ 63) then (2 ^ 64 - v) % 2 ^ 64 else 2 ^ 63)
    else if c == 43
    then clamp_long (read_unsigned 10 s)
    else clamp_long (read_unsigned 10 (c ∷ s))

-- `atoi`: the `strtol` of a text, as the 32 bits of an int.
unfoldable pub atoi : List ℕ → ℕ
unfolding read_long skip_space
atoi s = read_long (skip_space s) % 2 ^ 32
