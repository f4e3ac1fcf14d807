-- ===== src/TraceWriter/Wire.antt =====
-- The protobuf wire format, as a reader of messages, and what it reads in the messages that `Pb` of
-- src/trace_writer.cpp writes.
use mathlib.Core.Path.{subst}
use hsa_snoop.Prelude.{
  length, take, drop, All, length-append, take-length-append, drop-length-append, IsU64, Text, ℕ,
  zero, suc, ◌+◌, ◌-◌, ◌*◌, ◌/◌, ◌%◌, ◌^◌, ◌<◌, ◌≡◌, refl, sym, ap, ◌∙◌, inl, inr, true, false,
  ◌&&◌, Option, none, some, List, [], ◌∷◌, ◌++◌, arith, ltb, leb, ◌==◌, if◌then◌else◌, Bool-cases,
}
use hsa_snoop.TraceWriter.Pb.{varint_loop, varint, tag, varint_field, string_field, msg_field}

-- A base-128 number at the front of a message, and what follows it.
unfoldable pub read_varint : List ℕ → Option (ℕ × List ℕ)
read_varint [] = none
read_varint (b ∷ bs) =
    if ltb b 128
    then some (b, bs)
    else elim (read_varint bs) [ none ↦ none | some (v, rest) ↦ some (b - 128 + 128 * v, rest) ]

-- The value of a field: a number, or bytes.
pub data Value : Type 0 where
  number : ℕ → Value
  bytes : List ℕ → Value

-- The value behind a tag of a wire type, of which `Pb` writes 0 and 2.
unfoldable pub read_value : ℕ → List ℕ → Option (Value × List ℕ)
unfolding read_varint
read_value wire bs = elim (read_varint bs) [
  | none ↦ none
  | some (v, rest) ↦
      if wire == 0
      then some (Value.number v, rest)
      else if (wire == 2) && leb v (length rest)
      then some (Value.bytes (take v rest), drop v rest)
      else none
]

-- The first field of a message: its number and value, and what follows.
unfoldable pub read_field : List ℕ → Option ((ℕ × Value) × List ℕ)
unfolding read_value
read_field bs = elim (read_varint bs) [
  | none ↦ none
  | some (t, rest) ↦ elim (read_value (t % 8) rest) [
    | none ↦ none
    | some (v, rest') ↦ some ((t / 8, v), rest')
  ]
]

-- The source's way to write a field.
unfoldable pub write_field : List ℕ → ℕ × Value → List ℕ
unfolding varint_field string_field
write_field buf (field, Value.number v) = varint_field buf field v
write_field buf (field, Value.bytes s) = string_field buf field s

-- A field number that protobuf allows, with a value that the writer can state.
abbrev pub Writable : ℕ × Value → Type 0
Writable (field, Value.number v) = (field < 2 ^ 29) × IsU64 v
Writable (field, Value.bytes s) = (field < 2 ^ 29) × IsU64 (length s)

-- A number that `n + 1` groups of 7 bits can hold is below this.
abbrev group_bound : ℕ → ℕ
group_bound zero = 128
group_bound (suc n) = 128 * group_bound n

read_varint_last : (b : ℕ) (bs : List ℕ) → b < 128 → read_varint (b ∷ bs) ≡ some (b, bs)
unfolding read_varint
read_varint_last b bs h = ground arith

read_varint_more :
    (v w : ℕ) (bs rest : List ℕ)
    → read_varint bs ≡ some (w, rest)
    → v / 2 ^ 7 ≡ w
    → read_varint ((v % 2 ^ 7 + 128) ∷ bs) ≡ some (v, rest)
unfolding read_varint
read_varint_more v w bs rest h e =
    let low : ltb (v % 2 ^ 7 + 128) 128 ≡ false = ground arith in
    let sum : v % 2 ^ 7 + 128 - 128 + 128 * w ≡ v = omega arith in
    rw (read_varint, low, h) (ap (λ k. some (k, rest)) sum)

read_varint-varint_loop :
    (n v : ℕ) (rest : List ℕ)
    → v < group_bound n
    → read_varint (varint_loop (suc n) v ++ rest) ≡ some (v, rest)
unfolding varint_loop
read_varint-varint_loop zero v rest h =
    let e : leb 128 v ≡ false = ground arith in rw e (read_varint_last v rest h)
read_varint-varint_loop (suc n) v rest h = elim (Bool-cases (leb 128 v)) [
  | inl e ↦ rw e (
      read_varint_more v (v / 2 ^ 7) _ rest
        (read_varint-varint_loop n (v / 2 ^ 7) rest (omega arith)) refl)
  | inr e ↦ rw e (read_varint_last v rest (ground arith))
]

pub append-nil : (xs : List ℕ) → xs ++ [] ≡ xs
append-nil [] = refl
append-nil (x ∷ xs) = ap (λ u. x ∷ u) (append-nil xs)

pub append_assoc : (xs ys zs : List ℕ) → (xs ++ ys) ++ zs ≡ xs ++ (ys ++ zs)
append_assoc [] ys zs = refl
append_assoc (x ∷ xs) ys zs = ap (λ u. x ∷ u) (append_assoc xs ys zs)

-- What `Varint` appends is read back.
read_varint-varint :
    (v : ℕ) (rest : List ℕ) → IsU64 v → read_varint (varint [] v ++ rest) ≡ some (v, rest)
unfolding varint
read_varint-varint v rest h = read_varint-varint_loop 9 v rest (omega arith)

-- The bytes that a field adds to a message.
unfoldable pub field_bytes : ℕ × Value → List ℕ
field_bytes (field, Value.number v) = varint [] (field * 2 ^ 3 + 0) ++ varint [] v
field_bytes (field, Value.bytes s) = varint [] (field * 2 ^ 3 + 2) ++ (varint [] (length s) ++ s)

write_field-field_bytes : (buf : List ℕ) (f : ℕ × Value) → write_field buf f ≡ buf ++ field_bytes f
unfolding write_field field_bytes varint tag
write_field-field_bytes buf (field, Value.number v) =
    append_assoc buf (varint [] (field * 2 ^ 3 + 0)) (varint [] v)
write_field-field_bytes buf (field, Value.bytes s) =
    append_assoc (buf ++ varint [] (field * 2 ^ 3 + 2)) (varint [] (length s)) s
    ∙ append_assoc buf (varint [] (field * 2 ^ 3 + 2)) (varint [] (length s) ++ s)

pub varint_field-field_bytes :
    (buf : List ℕ) (n v : ℕ) → varint_field buf n v ≡ buf ++ field_bytes (n, Value.number v)
unfolding write_field
varint_field-field_bytes buf n v = write_field-field_bytes buf (n, Value.number v)

pub string_field-field_bytes :
    (buf : List ℕ) (n : ℕ) (s : Text) → string_field buf n s ≡ buf ++ field_bytes (n, Value.bytes s)
unfolding write_field
string_field-field_bytes buf n s = write_field-field_bytes buf (n, Value.bytes s)

pub msg_field-field_bytes :
    (buf : List ℕ) (n : ℕ) (m : List ℕ) → msg_field buf n m ≡ buf ++ field_bytes (n, Value.bytes m)
unfolding write_field msg_field
msg_field-field_bytes buf n m = write_field-field_bytes buf (n, Value.bytes m)

read_field_parts :
    (t wire field : ℕ) (v : Value) (bs rest rest' : List ℕ)
    → read_varint bs ≡ some (t, rest)
    → wire < 8
    → t ≡ field * 2 ^ 3 + wire
    → read_value wire rest ≡ some (v, rest')
    → read_field bs ≡ some ((field, v), rest')
unfolding read_field
read_field_parts t wire field v bs rest rest' h small e k =
    let w : wire ≡ t % 8 = omega arith in
    let name : t / 8 ≡ field = omega arith in
    let k' : read_value (t % 8) rest ≡ some (v, rest') =
      subst (λ x. read_value x rest ≡ some (v, rest')) w k in
    rw (read_field, h, k') (ap (λ j. some ((j, v), rest')) name)

read_value_number :
    (v : ℕ) (rest rest' : List ℕ)
    → read_varint rest ≡ some (v, rest')
    → read_value 0 rest ≡ some (Value.number v, rest')
unfolding read_value
read_value_number v rest rest' h = rw (read_value, h) refl

read_value_bytes :
    (s rest rest' : List ℕ)
    → read_varint rest ≡ some (length s, s ++ rest')
    → read_value 2 rest ≡ some (Value.bytes s, rest')
unfolding read_value
read_value_bytes s rest rest' h =
    let fits : leb (length s) (length (s ++ rest')) ≡ true =
      ground (arith, length-append s rest') in
    rw (read_value, h, fits, take-length-append s rest', drop-length-append s rest') refl

pub read_field-field_bytes :
    (f : ℕ × Value) (rest : List ℕ)
    → Writable f
    → read_field (field_bytes f ++ rest) ≡ some (f, rest)
unfolding field_bytes
read_field-field_bytes (field, Value.number v) rest h =
    let tag_read =
      read_varint-varint (field * 2 ^ 3 + 0) (varint [] v ++ rest) (omega (arith, h.0)) in
    read_field_parts (field * 2 ^ 3 + 0) 0 field (Value.number v) _ (varint [] v ++ rest) rest
      (ap read_varint (append_assoc (varint [] (field * 2 ^ 3 + 0)) (varint [] v) rest) ∙ tag_read)
      (omega arith) refl
      (read_value_number v (varint [] v ++ rest) rest (read_varint-varint v rest h.1))
read_field-field_bytes (field, Value.bytes s) rest h =
    let t = varint [] (field * 2 ^ 3 + 2) in
    let n = varint [] (length s) in
    read_field_parts (field * 2 ^ 3 + 2) 2 field (Value.bytes s) _ (n ++ (s ++ rest)) rest
      (ap read_varint (append_assoc t (n ++ s) rest ∙ ap (λ u. t ++ u) (append_assoc n s rest))
        ∙ read_varint-varint (field * 2 ^ 3 + 2) (n ++ (s ++ rest)) (omega (arith, h.0)))
      (omega arith) refl
      (read_value_bytes s (n ++ (s ++ rest)) rest (read_varint-varint (length s) (s ++ rest) h.1))

-- A message, written field by field.
unfoldable pub write_message : List ℕ → List (ℕ × Value) → List ℕ
unfolding write_field
write_message buf [] = buf
write_message buf (f ∷ fs) = write_message (write_field buf f) fs

-- A message, read field by field, at most `n` of them; `none` if it is not read to its end.
unfoldable pub read_message : ℕ → List ℕ → Option (List (ℕ × Value))
unfolding read_field
read_message n [] = some []
read_message zero (b ∷ bs) = none
read_message (suc n) (b ∷ bs) = elim (read_field (b ∷ bs)) [
  | none ↦ none
  | some (f, rest) ↦ elim (read_message n rest) [ none ↦ none | some fs ↦ some (f ∷ fs) ]
]

-- The bytes of a list of fields.
abbrev all_bytes : List (ℕ × Value) → List ℕ
all_bytes [] = []
all_bytes (f ∷ fs) = field_bytes f ++ all_bytes fs

write_message-all_bytes :
    (buf : List ℕ) (fs : List (ℕ × Value)) → write_message buf fs ≡ buf ++ all_bytes fs
unfolding write_message
write_message-all_bytes buf [] = sym (append-nil buf)
write_message-all_bytes buf (f ∷ fs) = rw (write_field-field_bytes buf f) (
    write_message-all_bytes (buf ++ field_bytes f) fs
    ∙ append_assoc buf (field_bytes f) (all_bytes fs))

read_message_one :
    (n : ℕ) (f : ℕ × Value) (fs : List (ℕ × Value)) (bs rest : List ℕ)
    → read_field bs ≡ some (f, rest)
    → read_message n rest ≡ some fs
    → read_message (suc n) bs ≡ some (f ∷ fs)
unfolding read_message read_field
read_message_one n f fs [] rest h k = ground arith
read_message_one n f fs (b ∷ bs) rest h k = rw (read_message, h, k) refl

read_message-all_bytes :
    (fs : List (ℕ × Value)) → All Writable fs → read_message (length fs) (all_bytes fs) ≡ some fs
unfolding read_message
read_message-all_bytes [] h = refl
read_message-all_bytes (f ∷ fs) h =
    read_message_one (length fs) f fs (field_bytes f ++ all_bytes fs) (all_bytes fs)
      (read_field-field_bytes f (all_bytes fs) h.0) (read_message-all_bytes fs h.1)

-- A message that the trace writer builds by any sequence of `VarintField` and `StringField` calls,
-- with field numbers and values in the range of protobuf, is read by the wire format as the same
-- fields in the same order. So the ten rounds of `Varint` are enough for every 64-bit number.
pub read_message-write_message :
    (fs : List (ℕ × Value))
    → All Writable fs
    → read_message (length fs) (write_message [] fs) ≡ some fs
read_message-write_message fs h = rw (write_message-all_bytes [] fs) (read_message-all_bytes fs h)
