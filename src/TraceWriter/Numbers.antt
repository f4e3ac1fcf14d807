-- ===== src/TraceWriter/Numbers.antt =====
-- How a C++ stream prints a double, for the times of the JSON format of src/trace_writer.cpp.
use hsa_snoop.Prelude.{
  to_dec, Text, codes, ℕ, zero, suc, ◌+◌, ◌-◌, ◌*◌, ◌/◌, ◌%◌, ◌^◌, ◌&&◌, ◌||◌, [], ◌∷◌, ◌++◌, ltb,
  leb, ◌==◌, if◌then◌else◌,
}

-- How many decimal digits a number has, up to `fuel`.
unfoldable pub digit_count : ℕ → ℕ → ℕ
digit_count zero n = 0
digit_count (suc fuel) n = let more = digit_count fuel (n / 10) in if n == 0 then 0 else suc more

-- The six digits that a stream prints of a number of `d` digits: rounded to the nearest, a half to
-- even.
unfoldable pub six_digits : ℕ → ℕ → ℕ
six_digits d n =
    let unit = 10 ^ (d - 6) in
    let m = n / unit in
    let twice = 2 * (n % unit) in
    if leb d 6
    then n * 10 ^ (6 - d)
    else if ltb unit twice || ((twice == unit) && (m % 2 == 1))
    then m + 1
    else m

-- The zeros at the end of `m` are dropped, of at most `fuel` digits.
unfoldable pub drop_zeros : ℕ → ℕ → ℕ
drop_zeros zero m = m
drop_zeros (suc fuel) m =
    let more = drop_zeros fuel (m / 10) in if m == 0 then 0 else if m % 10 == 0 then more else m

-- A fraction below 1 of `w` digits, with its point and without zeros at the end.
unfoldable pub fraction : ℕ → ℕ → Text
unfolding drop_zeros
fraction zero f = []
fraction (suc w) f =
    let later = fraction w (f % 10 ^ w) in if f == 0 then [] else (48 + f / 10 ^ w) ∷ later

abbrev pub with_point : Text → Text
with_point [] = []
with_point (c ∷ s) = 46 ∷ c ∷ s

-- `m * 10 ^ (e - 5)` with m of six digits, where e is counted from 3 below 0: in full up to 10^5,
-- with an exponent from 10^6 on.
unfoldable pub print_scaled : ℕ → ℕ → Text
unfolding fraction
print_scaled m e =
    if ltb e 3
    then codes "0" ++ with_point (fraction (8 - e) m)
    else if ltb e 9
    then to_dec (m / 10 ^ (8 - e)) ++ with_point (fraction (8 - e) (m % 10 ^ (8 - e)))
    else (48 + m / 10 ^ 5)
      ∷ (with_point (fraction 5 (m % 10 ^ 5))
          ++ (codes "e+" ++ ((if ltb (e - 3) 10 then codes "0" else []) ++ to_dec (e - 3))))

-- What a stream prints for a number of microseconds as a double: six significant digits. The
-- argument is in nanoseconds.
unfoldable pub stream_us : ℕ → Text
unfolding digit_count six_digits print_scaled
stream_us ns =
    let d = digit_count 25 ns in
    let m = six_digits d ns in
    if ns == 0
    then codes "0"
    else if m == 10 ^ 6
    then print_scaled (10 ^ 5) d
    else print_scaled m (d - 1)
