-- ===== src/DispatchLog/Escape.antt =====
-- The string escaping of src/dispatch_log.cpp beside a reader of JSON strings.
use hsa_snoop.Prelude.{
  All, hex_digit, Text, ℕ, ◌+◌, ◌-◌, ◌*◌, ◌/◌, ◌%◌, ◌<◌, ◌≡◌, refl, ap, ◌∙◌, ◌≢◌, inl, inr, true,
  false, ◌&&◌, ◌||◌, Option, none, some, [], ◌∷◌, ◌++◌, arith, ltb, leb, ◌==◌, if◌then◌else◌,
  ltb→lt, Bool-cases,
}

-- The "%04x" of printf on a byte.
abbrev pub hex4 : ℕ → Text
hex4 c =
    hex_digit (c / 4096 % 16)
    ∷ hex_digit (c / 256 % 16)
    ∷ hex_digit (c / 16 % 16)
    ∷ hex_digit (c % 16)
    ∷ []

unfoldable pub escape_char : ℕ → Text
escape_char c =
    if c == 34
    then 92 ∷ 34 ∷ []
    else if c == 92
    then 92 ∷ 92 ∷ []
    else if c == 10
    then 92 ∷ 110 ∷ []
    else if c == 13
    then 92 ∷ 114 ∷ []
    else if c == 9
    then 92 ∷ 116 ∷ []
    else if ltb c 32
    then 92 ∷ 117 ∷ hex4 c
    else c ∷ []

-- The loop over a C string, which its first NUL ends.
unfoldable pub escape_chars : Text → Text
unfolding escape_char
escape_chars [] = []
escape_chars (c ∷ s) = let rest = escape_chars s in if c == 0 then [] else escape_char c ++ rest

unfoldable pub append_escaped : Text → Text → Text
unfolding escape_chars
append_escaped out s = out ++ (34 ∷ (escape_chars s ++ (34 ∷ [])))

append_assoc : (xs ys zs : Text) → (xs ++ ys) ++ zs ≡ xs ++ (ys ++ zs)
append_assoc [] ys zs = refl
append_assoc (x ∷ xs) ys zs = ap (λ u. x ∷ u) (append_assoc xs ys zs)

-- Where a reader of a JSON string stands: between characters, after a backslash, or before `n` more
-- hexadecimal digits of a code whose digits so far are `v`.
pub data Mode : Type 0 where
  plain : Mode
  escape : Mode
  hex : (n v : ℕ) → Mode

-- What a character means to the reader: the end, the next mode with a character that is read, if
-- one is, or an error.
pub data Step : Type 0 where
  done : Step
  next : Option ℕ → Mode → Step
  bad : Step

unfoldable pub hex_value : ℕ → Option ℕ
hex_value c =
    if leb 48 c && leb c 57
    then some (c - 48)
    else if leb 97 c && leb c 102
    then some (c - 87)
    else if leb 65 c && leb c 70
    then some (c - 55)
    else none

unfoldable pub step_of : Mode → ℕ → Step
unfolding hex_value
step_of Mode.plain c =
    if c == 34
    then Step.done
    else if c == 92
    then Step.next none Mode.escape
    else if ltb c 32
    then Step.bad
    else Step.next (some c) Mode.plain
step_of Mode.escape c =
    if (c == 34) || ((c == 92) || c == 47)
    then Step.next (some c) Mode.plain
    else if c == 98
    then Step.next (some 8) Mode.plain
    else if c == 102
    then Step.next (some 12) Mode.plain
    else if c == 110
    then Step.next (some 10) Mode.plain
    else if c == 114
    then Step.next (some 13) Mode.plain
    else if c == 116
    then Step.next (some 9) Mode.plain
    else if c == 117
    then Step.next none (Mode.hex 4 0)
    else Step.bad
step_of (Mode.hex n v) c = elim (hex_value c) [
  | none ↦ Step.bad
  | some d ↦
      if n == 1
      then Step.next (some (16 * v + d)) Mode.plain
      else Step.next none (Mode.hex (n - 1) (16 * v + d))
]

abbrev pub prepend : Option ℕ → Option (Text × Text) → Option (Text × Text)
prepend o none = none
prepend none (some r) = some r
prepend (some c) (some (s, rest)) = some (c ∷ s, rest)

-- The characters of a JSON string behind its opening quote, as RFC 8259 defines it, and what
-- follows its closing quote.
unfoldable pub read_chars : Mode → Text → Option (Text × Text)
unfolding step_of
read_chars m [] = none
read_chars m (c ∷ s) = elim (step_of m c) [
  | Step.done ↦ some ([], s)
  | Step.next o m' ↦ prepend o (read_chars m' s)
  | Step.bad ↦ none
]

hex_value-hex_digit : (d : ℕ) → d < 16 → hex_value (hex_digit d) ≡ some d
unfolding hex_value
hex_value-hex_digit d h = ground arith

prepend-none : (r : Option (Text × Text)) → prepend none r ≡ r
prepend-none none = refl
prepend-none (some r) = refl

prepend-none_five :
    (r : Option (Text × Text))
    → prepend none (prepend none (prepend none (prepend none (prepend none r)))) ≡ r
prepend-none_five none = refl
prepend-none_five (some r) = refl

-- What a backslash and a letter that stands for `d` read as.
letter_read :
    (c d : ℕ) (r : Option (Text × Text))
    → (c == d) ≡ true
    → prepend none (prepend (some d) r) ≡ prepend (some c) r
letter_read c d r h =
    let e : d ≡ c = ground arith in
    prepend-none (prepend (some d) r) ∙ ap (λ k. prepend (some k) r) e

read_chars-hex4 :
    (c : ℕ) (t : Text)
    → c < 32
    → read_chars Mode.plain (92 ∷ 117 ∷ (hex4 c ++ t)) ≡ prepend (some c) (read_chars Mode.plain t)
unfolding read_chars
read_chars-hex4 c t h =
    let e : 16 * (16 * (16 * (16 * 0 + c / 4096 % 16) + c / 256 % 16) + c / 16 % 16) + c % 16 ≡ c =
      omega arith in
    rw
      (
        hex_value-hex_digit (c / 4096 % 16) (omega arith),
        hex_value-hex_digit (c / 256 % 16) (omega arith),
        hex_value-hex_digit (c / 16 % 16) (omega arith),
        hex_value-hex_digit (c % 16) (omega arith),
        e,
      )
      (prepend-none_five (prepend (some c) (read_chars Mode.plain t)))

plain_read :
    (c : ℕ) (t : Text)
    → (c == 34) ≡ false
    → (c == 92) ≡ false
    → ltb c 32 ≡ false
    → read_chars Mode.plain (c ∷ t) ≡ prepend (some c) (read_chars Mode.plain t)
unfolding read_chars
plain_read c t a b e = ground arith

read_chars-escape_char :
    (c : ℕ) (t : Text)
    → read_chars Mode.plain (escape_char c ++ t) ≡ prepend (some c) (read_chars Mode.plain t)
unfolding escape_char read_chars
read_chars-escape_char c t = elim (Bool-cases (c == 34)) [
  | inl e ↦ rw e (letter_read c 34 (read_chars Mode.plain t) e)
  | inr a ↦ elim (Bool-cases (c == 92)) [
    | inl e ↦ rw (a, e) (letter_read c 92 (read_chars Mode.plain t) e)
    | inr b ↦ elim (Bool-cases (c == 10)) [
      | inl e ↦ rw (a, b, e) (letter_read c 10 (read_chars Mode.plain t) e)
      | inr d ↦ elim (Bool-cases (c == 13)) [
        | inl e ↦ rw (a, b, d, e) (letter_read c 13 (read_chars Mode.plain t) e)
        | inr f ↦ elim (Bool-cases (c == 9)) [
          | inl e ↦ rw (a, b, d, f, e) (letter_read c 9 (read_chars Mode.plain t) e)
          | inr g ↦ elim (Bool-cases (ltb c 32)) [
            | inl e ↦ rw (a, b, d, f, g, e) (read_chars-hex4 c t (ltb→lt c 32 e))
            | inr e ↦ rw (a, b, d, f, g, e) (plain_read c t a b e)
          ]
        ]
      ]
    ]
  ]
]

read_chars-escape_chars :
    (s rest : Text)
    → All (λ c. c ≢ 0) s
    → read_chars Mode.plain (escape_chars s ++ (34 ∷ rest)) ≡ some (s, rest)
unfolding escape_chars read_chars
read_chars-escape_chars [] rest h = refl
read_chars-escape_chars (c ∷ s) rest h =
    let n : (c == 0) ≡ false = ground (arith, h.0) in
    rw
      (
        n,
        append_assoc (escape_char c) (escape_chars s) (34 ∷ rest),
        read_chars-escape_char c (escape_chars s ++ (34 ∷ rest)),
        read_chars-escape_chars s rest h.1,
      )
      refl

-- A reader of JSON strings, standing behind the opening quote that `AppendEscaped` writes, reads any
-- text without NUL characters back unchanged, and stops where the closing quote ends: quotes,
-- backslashes and control characters in a kernel name do not end or change the string.
pub read_string-append_escaped :
    (s rest out : Text)
    → All (λ c. c ≢ 0) s
    → (text : Text) × (append_escaped out s ++ rest ≡ out ++ (34 ∷ text))
      × (read_chars Mode.plain text ≡ some (s, rest))
unfolding append_escaped
read_string-append_escaped s rest out h = (
  escape_chars s ++ (34 ∷ rest),
  append_assoc out (34 ∷ (escape_chars s ++ (34 ∷ []))) rest
      ∙ ap (λ u. out ++ (34 ∷ u)) (append_assoc (escape_chars s) (34 ∷ []) rest),
  read_chars-escape_chars s rest h,
)
