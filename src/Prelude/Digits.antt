-- ===== src/Prelude/Digits.antt =====
-- Decimal numbers are read back: `strtoull` on what `to_dec` prints.
use Prim.Native.Nat.{ℕ, zero, suc, ◌+◌, ◌*◌, ◌/◌, ◌%◌, ◌^◌, ◌≤◌, ◌<◌}
use mathlib.Core.Path.{◌≡◌, refl, ap, sym, ◌∙◌}
use mathlib.Core.Logic.{◌≢◌, inl, inr}
use mathlib.Core.Bool.{true, false}
use mathlib.Core.List.{List, [], ◌∷◌, ◌++◌}
use native.Mathlib.Omega.{arith}
use hsa_snoop.Prelude.Tests.{◌==◌, ltb, Bool-cases}
use hsa_snoop.Prelude.Lists.{All}
use hsa_snoop.Prelude.Print.{dec_digit, digits_loop, to_dec}
use hsa_snoop.Prelude.Search.{
  digit_value, saturate, read_digits, read_unsigned, read_signed, skip_space, strtoull, is_space,
}

-- A text that ends or goes on with a blank.
abbrev pub IsStop : List ℕ → Type 0
IsStop [] = Unit {0}
IsStop (c ∷ s) = c ≡ 32

digit_value-dec_digit : (d : ℕ) → d < 10 → digit_value (dec_digit d) ≡ d
digit_value-dec_digit d h = ground arith

read_digits-dec_digit :
    (v d : ℕ) (s : List ℕ)
    → d < 10
    → read_digits 10 v (dec_digit d ∷ s) ≡ read_digits 10 (v * 10 + d) s
unfolding read_digits
read_digits-dec_digit v d s h =
    let e = digit_value-dec_digit d h in
    let small : ltb d 10 ≡ true = ground arith in rw (e, small) refl

read_digits-stop : (v : ℕ) (s : List ℕ) → IsStop s → read_digits 10 v s ≡ v
unfolding read_digits
read_digits-stop v [] h = refl
read_digits-stop v (c ∷ s) h = rw h refl

-- The powers of 10.
abbrev tens : ℕ → ℕ
tens zero = 1
tens (suc n) = 10 * tens n

last_digit : (n : ℕ) → (n / 10 == 0) ≡ true → 0 * 10 + n % 10 ≡ n
last_digit n h = let e : n / 10 ≡ 0 = ground arith in grind arith

read_digits-digits_loop :
    (fuel n : ℕ) (acc s : List ℕ)
    → n < tens (suc fuel)
    → read_digits 10 0 (digits_loop dec_digit 10 (suc fuel) n acc ++ s)
      ≡ read_digits 10 n (acc ++ s)
unfolding digits_loop
read_digits-digits_loop zero n acc s h =
    let small : (n / 10 == 0) ≡ true = (let e : n / 10 ≡ 0 = grind arith in ground arith) in
    rw small (
      read_digits-dec_digit 0 (n % 10) (acc ++ s) (grind arith)
      ∙ ap (λ m. read_digits 10 m (acc ++ s)) (last_digit n small))
read_digits-digits_loop (suc fuel) n acc s h = elim (Bool-cases (n / 10 == 0)) [
  | inl small ↦ rw small (
      read_digits-dec_digit 0 (n % 10) (acc ++ s) (grind arith)
      ∙ ap (λ m. read_digits 10 m (acc ++ s)) (last_digit n small))
  | inr big ↦ rw big (
      read_digits-digits_loop fuel (n / 10) (dec_digit (n % 10) ∷ acc) s (grind arith)
      ∙ read_digits-dec_digit (n / 10) (n % 10) (acc ++ s) (grind arith)
      ∙ ap (λ m. read_digits 10 m (acc ++ s)) (grind arith))
]

-- A text that begins with a digit.
record StartsWithDigit (t : List ℕ) : Type 0 where
  first : ℕ
  rest : List ℕ
  splits : t ≡ first ∷ rest
  low : 48 ≤ first
  high : first ≤ 57

digits_loop-StartsWithDigit :
    (fuel n : ℕ) (acc : List ℕ)
    → StartsWithDigit acc
    → StartsWithDigit (digits_loop dec_digit 10 fuel n acc)
unfolding digits_loop
digits_loop-StartsWithDigit zero n acc h = h
digits_loop-StartsWithDigit (suc fuel) n acc h =
    let acc' = dec_digit (n % 10) ∷ acc in
    let here : StartsWithDigit acc' = record {
      first = dec_digit (n % 10);
      rest = acc;
      splits = refl;
      low = omega arith;
      high = grind arith;
    } in
    elim (Bool-cases (n / 10 == 0)) [
      | inl small ↦ rw small here
      | inr big ↦ rw big (digits_loop-StartsWithDigit fuel (n / 10) acc' here)
    ]

to_dec-StartsWithDigit : (n : ℕ) → StartsWithDigit (to_dec n)
unfolding to_dec digits_loop
to_dec-StartsWithDigit n =
    let acc = dec_digit (n % 10) ∷ [] in
    let here : StartsWithDigit acc = record {
      first = dec_digit (n % 10);
      rest = [];
      splits = refl;
      low = omega arith;
      high = grind arith;
    } in
    elim (Bool-cases (n / 10 == 0)) [
      | inl small ↦ rw small here
      | inr big ↦ rw big (digits_loop-StartsWithDigit 19 (n / 10) acc here)
    ]

read_unsigned-digits : (c : ℕ) (s : List ℕ) → read_unsigned 10 (c ∷ s) ≡ read_digits 10 0 (c ∷ s)
unfolding read_unsigned
read_unsigned-digits c [] = refl
read_unsigned-digits c (d ∷ s) = refl

skip_space-digit : (c : ℕ) (s : List ℕ) → 48 ≤ c → c ≤ 57 → skip_space (c ∷ s) ≡ c ∷ s
unfolding skip_space
skip_space-digit c s low high = let e : is_space c ≡ false = ground arith in rw e refl

read_signed-digit :
    (c : ℕ) (s : List ℕ)
    → 48 ≤ c
    → c ≤ 57
    → read_signed 10 (c ∷ s) ≡ saturate (read_unsigned 10 (c ∷ s))
unfolding read_signed
read_signed-digit c s low high =
    let minus : (c == 45) ≡ false = ground arith in
    let plus : (c == 43) ≡ false = ground arith in rw (minus, plus) refl

strtoull-read_signed : (s : List ℕ) → strtoull 10 s ≡ read_signed 10 (skip_space s)
unfolding strtoull
strtoull-read_signed s = refl

strtoull-digits :
    (t s : List ℕ) → StartsWithDigit t → strtoull 10 (t ++ s) ≡ saturate (read_digits 10 0 (t ++ s))
strtoull-digits t s h =
    let e : t ++ s ≡ h.first ∷ (h.rest ++ s) = ap (λ x. x ++ s) h.splits in
    let c = h.first in
    let r = h.rest ++ s in
    ap (strtoull 10) e
    ∙ strtoull-read_signed (c ∷ r)
    ∙ ap (read_signed 10) (skip_space-digit c r h.low h.high)
    ∙ read_signed-digit c r h.low h.high
    ∙ ap saturate (read_unsigned-digits c r)
    ∙ ap (λ x. saturate (read_digits 10 0 x)) (sym e)

-- A number of 64 bits is read back from its decimal digits, whatever stands behind a blank.
pub strtoull-to_dec : (n : ℕ) (s : List ℕ) → n < 2 ^ 64 → IsStop s → strtoull 10 (to_dec n ++ s) ≡ n
unfolding to_dec
strtoull-to_dec n s h stop =
    strtoull-digits (to_dec n) s (to_dec-StartsWithDigit n)
    ∙ ap saturate (read_digits-digits_loop 19 n [] s (omega arith) ∙ read_digits-stop n s stop)
    ∙ ground arith

-- The digits of a number are no blanks and no equality signs.
abbrev pub IsPlain : List ℕ → Type 0
IsPlain t = All (λ c. (c ≢ 32) × (c ≢ 61)) t

digits_loop-IsPlain :
    (fuel n : ℕ) (acc : List ℕ) → IsPlain acc → IsPlain (digits_loop dec_digit 10 fuel n acc)
unfolding digits_loop
digits_loop-IsPlain zero n acc h = h
digits_loop-IsPlain (suc fuel) n acc h =
    let acc' = dec_digit (n % 10) ∷ acc in
    let here : IsPlain acc' = (((λ e. omega arith), (λ e. grind arith)), h) in
    elim (Bool-cases (n / 10 == 0)) [
      | inl small ↦ rw small here
      | inr big ↦ rw big (digits_loop-IsPlain fuel (n / 10) acc' here)
    ]

pub to_dec-IsPlain : (n : ℕ) → IsPlain (to_dec n)
unfolding to_dec
to_dec-IsPlain n = digits_loop-IsPlain 20 n [] tt
