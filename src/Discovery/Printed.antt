-- ===== src/Discovery/Printed.antt =====
-- What `FindU64` of src/discovery.cpp reads of a line as the kernel prints it: words without blanks
-- and equality signs, and behind them " name=value" fields in decimal.
use native.Mathlib.Omega.{arith}
use mathlib.Core.List.{append_assoc}
use hsa_snoop.Prelude.{
  All, text_eq→eq, to_dec, text_eq, IsStop, IsPlain, strtoull-to_dec, to_dec-IsPlain, IsU64, Text,
  starts, after, strtoull, ℕ, ◌≡◌, refl, sym, ap, ◌∙◌, ◌≢◌, inl, inr, true, false, Option, none,
  some, List, [], ◌∷◌, ◌++◌, arith, ◌==◌, if◌then◌else◌, Bool-cases,
}
use hsa_snoop.Discovery.Fields.{needle, find_u64}

abbrev pub words : List Text → Text
words [] = []
words (w ∷ ws) = 32 ∷ (w ++ words ws)

abbrev pub fields : List (Text × ℕ) → Text
unfolding to_dec
fields [] = []
fields ((name, n) ∷ fs) = 32 ∷ (name ++ (61 ∷ (to_dec n ++ fields fs)))

-- The value of the first field of a name, 0 if there is none.
unfoldable pub field : Text → List (Text × ℕ) → ℕ
unfolding text_eq
field key [] = 0
field key ((name, n) ∷ fs) = if text_eq name key then n else field key fs

after-none : (w : Text) (c : ℕ) (s : Text) → starts w (c ∷ s) ≡ none → after w (c ∷ s) ≡ after w s
unfolding after
after-none w c s h = rw (after, h) refl

after-some : (w : Text) (c : ℕ) (s r : Text) → starts w (c ∷ s) ≡ some r → after w (c ∷ s) ≡ some r
unfolding after
after-some w c s r h = rw (after, h) refl

starts-apart : (x : ℕ) (w : Text) (c : ℕ) (s : Text) → c ≢ x → starts (x ∷ w) (c ∷ s) ≡ none
unfolding starts
starts-apart x w c s h = let e : (x == c) ≡ false = ground arith in rw e refl

-- A key is not found in front of the next blank of a text that holds none.
after-IsPlain : (key xs s : Text) → IsPlain xs → after (needle key) (xs ++ s) ≡ after (needle key) s
after-IsPlain key [] s h = refl
after-IsPlain key (c ∷ xs) s h =
    after-none (needle key) c (xs ++ s) (starts-apart 32 (key ++ (61 ∷ [])) c (xs ++ s) (h.0.0))
    ∙ after-IsPlain key xs s h.1

starts_stop : (key s : Text) → IsPlain key → IsStop s → starts (key ++ (61 ∷ [])) s ≡ none
unfolding starts
starts_stop [] [] p h = refl
starts_stop [] (c ∷ s) p h = starts-apart 61 [] c s (λ e. omega (arith, h))
starts_stop (k ∷ ks) [] p h = refl
starts_stop (k ∷ ks) (c ∷ s) p h = starts-apart k (ks ++ (61 ∷ [])) c s (λ e. p.0.0 (sym e ∙ h))

starts_word :
    (key w s : Text)
    → IsPlain key
    → IsPlain w
    → IsStop s
    → starts (key ++ (61 ∷ [])) (w ++ s) ≡ none
unfolding starts
starts_word key [] s p q h = starts_stop key s p h
starts_word [] (c ∷ w) s p q h = starts-apart 61 [] c (w ++ s) q.0.1
starts_word (k ∷ ks) (c ∷ w) s p q h = elim (Bool-cases (k == c)) [
  | inl same ↦ rw same (starts_word ks w s p.1 q.1 h)
  | inr other ↦ rw other refl
]

starts_name :
    (key name s : Text)
    → IsPlain key
    → IsPlain name
    → text_eq name key ≡ false
    → starts (key ++ (61 ∷ [])) (name ++ (61 ∷ s)) ≡ none
unfolding starts text_eq
starts_name [] [] s p q h = absurd cc
starts_name [] (c ∷ name) s p q h = starts-apart 61 [] c (name ++ (61 ∷ s)) q.0.1
starts_name (k ∷ ks) [] s p q h = starts-apart k (ks ++ (61 ∷ [])) 61 s (λ e. p.0.1 (sym e))
starts_name (k ∷ ks) (c ∷ name) s p q h = elim (Bool-cases (k == c)) [
  | inl same ↦ rw same (starts_name ks name s p.1 q.1 (ground arith))
  | inr other ↦ rw other refl
]

starts_key : (key s : Text) → starts (key ++ (61 ∷ [])) (key ++ (61 ∷ s)) ≡ some s
unfolding starts
starts_key [] s = refl
starts_key (k ∷ ks) s = let e : (k == k) ≡ true = ground arith in rw e (starts_key ks s)

starts-needle : (key s : Text) → starts (needle key) (32 ∷ s) ≡ starts (key ++ (61 ∷ [])) s
unfolding starts
starts-needle key s = refl

words-IsStop : (ws : List Text) (s : Text) → IsStop s → IsStop (words ws ++ s)
words-IsStop [] s h = h
words-IsStop (w ∷ ws) s h = refl

fields-IsStop : (fs : List (Text × ℕ)) → IsStop (fields fs)
unfolding fields
fields-IsStop [] = tt
fields-IsStop (f ∷ fs) = refl

after-words :
    (key : Text) (ws : List Text) (s : Text)
    → IsPlain key
    → All IsPlain ws
    → IsStop s
    → after (needle key) (words ws ++ s) ≡ after (needle key) s
after-words key [] s p h stop = refl
after-words key (w ∷ ws) s p h stop =
    let rest = words ws ++ s in
    ap (λ t. after (needle key) (32 ∷ t)) (append_assoc w (words ws) s)
    ∙ after-none (needle key) 32 (w ++ rest)
        (starts-needle key (w ++ rest) ∙ starts_word key w rest p h.0 (words-IsStop ws s stop))
    ∙ after-IsPlain key w rest h.0
    ∙ after-words key ws s p h.1 stop

-- A field of 64 bits with a plain name.
abbrev pub IsField : Text × ℕ → Type 0
IsField f = IsPlain f.0 × IsU64 f.1

abbrev find_u64_of : Option Text → ℕ
unfolding strtoull
find_u64_of o = elim o [ none ↦ 0 | some s ↦ strtoull 10 s ]

find_u64-after : (line key : Text) → find_u64 line key ≡ find_u64_of (after (needle key) line)
unfolding find_u64 find_u64_of after
find_u64-after line key = refl

field-cons :
    (key name : Text) (n : ℕ) (fs : List (Text × ℕ))
    → field key ((name, n) ∷ fs) ≡ (if text_eq name key then n else field key fs)
unfolding field
field-cons key name n fs = refl

fields-cons :
    (name : Text) (n : ℕ) (fs : List (Text × ℕ))
    → fields ((name, n) ∷ fs) ≡ 32 ∷ (name ++ (61 ∷ (to_dec n ++ fields fs)))
unfolding fields
fields-cons name n fs = refl

-- Past a field of another name.
after-other :
    (key name : Text) (n : ℕ) (fs : List (Text × ℕ))
    → IsPlain key
    → IsPlain name
    → text_eq name key ≡ false
    → after (needle key) (fields ((name, n) ∷ fs)) ≡ after (needle key) (fields fs)
after-other key name n fs p q other =
    let value = to_dec n ++ fields fs in
    let apart : 61 ≢ 32 = λ e. omega (arith, e) in
    ap (after (needle key)) (fields-cons name n fs)
    ∙ after-none (needle key) 32 (name ++ (61 ∷ value))
        (starts-needle key (name ++ (61 ∷ value)) ∙ starts_name key name value p q other)
    ∙ after-IsPlain key name (61 ∷ value) q
    ∙ after-none (needle key) 61 value (starts-apart 32 (key ++ (61 ∷ [])) 61 value apart)
    ∙ after-IsPlain key (to_dec n) (fields fs) (to_dec-IsPlain n)

-- At a field of the name.
after-here :
    (key : Text) (n : ℕ) (fs : List (Text × ℕ))
    → after (needle key) (fields ((key, n) ∷ fs)) ≡ some (to_dec n ++ fields fs)
after-here key n fs =
    let value = to_dec n ++ fields fs in
    ap (after (needle key)) (fields-cons key n fs)
    ∙ after-some (needle key) 32 (key ++ (61 ∷ value)) value
        (starts-needle key (key ++ (61 ∷ value)) ∙ starts_key key value)

after-fields :
    (key : Text) (fs : List (Text × ℕ))
    → IsPlain key
    → All IsField fs
    → find_u64_of (after (needle key) (fields fs)) ≡ field key fs
unfolding find_u64_of
after-fields key [] p h = unfold after starts fields field in refl
after-fields key ((name, n) ∷ fs) p h = elim (Bool-cases (text_eq name key)) [
  | inl same ↦
      let e = text_eq→eq name key same in
      ap (λ k. find_u64_of (after (needle key) (fields ((k, n) ∷ fs)))) e
      ∙ ap find_u64_of (after-here key n fs)
      ∙ strtoull-to_dec n (fields fs) h.0.1 (fields-IsStop fs)
      ∙ sym (field-cons key name n fs ∙ rw same refl)
  | inr other ↦
      ap find_u64_of (after-other key name n fs p h.0.0 other)
      ∙ after-fields key fs p h.1
      ∙ sym (field-cons key name n fs ∙ rw other refl)
]

pub find_u64-printed :
    (lead key : Text) (ws : List Text) (fs : List (Text × ℕ))
    → IsPlain lead
    → IsPlain key
    → All IsPlain ws
    → All IsField fs
    → find_u64 (lead ++ (words ws ++ fields fs)) key ≡ field key fs
find_u64-printed lead key ws fs l p h k =
    let rest = words ws ++ fields fs in
    find_u64-after (lead ++ rest) key
    ∙ ap find_u64_of (after-IsPlain key lead rest l)
    ∙ ap find_u64_of (after-words key ws (fields fs) p h (fields-IsStop fs))
    ∙ after-fields key fs p k
