-- ===== src/Ksym/Symbols.antt =====
-- The two name caches of src/ksym.cpp and how a symbol enters them.
use mathlib.Core.Path.{subst}
use hsa_snoop.Prelude.{
  lookup, lookup-assign, text_eq→eq, assign, text_eq, Text, after, ℕ, ◌%◌, ◌^◌, ◌≡◌, refl, sym, ap,
  ◌∙◌, ◌≢◌, inl, inr, Bool, true, false, not, ◌&&◌, Option, none, some, List, [], ◌∷◌, ◌++◌, arith,
  ◌==◌, if◌then◌else◌, ==_iff, Bool-cases,
}

-- `cache_` and `offset_cache_`.
pub record Caches : Type 0 where
  pub cache : List (ℕ × Text)
  pub offset_cache : List (ℕ × Text)

-- `x & kOffsetMask`.
abbrev pub offset_key : ℕ → ℕ
offset_key runtime = runtime % 2 ^ 20

abbrev pub is_empty : Text → Bool
is_empty [] = true
is_empty (b ∷ s) = false

-- A key that is new takes the name; an entry with another name becomes the empty text.
unfoldable pub add_offset : ℕ → Text → List (ℕ × Text) → List (ℕ × Text)
add_offset key demangled m = elim (lookup key m) [
  | none ↦ assign key demangled m
  | some old ↦ if not (text_eq old demangled) && not (is_empty old) then assign key [] m else m
]

-- A `.kd` symbol: its runtime address and its demangled name.
abbrev pub Symbol : Type 0
Symbol = ℕ × Text

unfoldable pub add_symbol : Symbol → Caches → Caches
unfolding add_offset
add_symbol (runtime, demangled) c = record {
  cache = assign runtime demangled c.cache;
  offset_cache = add_offset (offset_key runtime) demangled c.offset_cache;
}

unfoldable pub add_symbols : List Symbol → Caches → Caches
unfolding add_symbol
add_symbols [] c = c
add_symbols (s ∷ ss) c = add_symbols ss (add_symbol s c)

-- Every symbol of the list with these low bits has this name.
abbrev pub AllNamed : ℕ → Text → List Symbol → Type 0
AllNamed key name [] = Unit {0}
AllNamed key name ((runtime, demangled) ∷ ss) =
    (offset_key runtime ≡ key → demangled ≡ name) × AllNamed key name ss

-- What an entry of the offset cache says of the symbols that have been added.
abbrev pub EntryFits : ℕ → Option Text → List Symbol → Type 0
EntryFits key none ss = (name : Text) → AllNamed key name ss
EntryFits key (some name) ss = name ≢ [] → AllNamed key name ss

abbrev pub OffsetFits : List (ℕ × Text) → List Symbol → Type 0
OffsetFits m ss = (key : ℕ) → EntryFits key (lookup key m) ss

is_empty→eq : (s : Text) → is_empty s ≡ true → s ≡ []
is_empty→eq [] h = refl
is_empty→eq (b ∷ s) h = cc

-- The entry of a key after a symbol has been added.
abbrev entry_after : ℕ → Option Text → ℕ → Text → Option Text
entry_after key old runtime demangled =
    if offset_key runtime == key
    then elim old [
      | none ↦ some demangled
      | some name ↦
          if not (text_eq name demangled) && not (is_empty name) then some [] else some name
    ]
    else old

lookup-add_offset :
    (key runtime : ℕ) (demangled : Text) (m : List (ℕ × Text))
    → lookup key (add_offset (offset_key runtime) demangled m)
      ≡ entry_after key (lookup key m) runtime demangled
unfolding add_offset
lookup-add_offset key runtime demangled m = elim (Bool-cases (offset_key runtime == key)) [
  | inl same ↦
      let e = (==_iff (offset_key runtime) key).0 same in
      ground (
        arith,
        e,
        ap (λ k. lookup k m) e,
        lookup-assign (offset_key runtime) key demangled m,
        lookup-assign (offset_key runtime) key [] m,
      )
  | inr other ↦ ground (
    arith,
    lookup-assign (offset_key runtime) key demangled m,
    lookup-assign (offset_key runtime) key [] m,
  )
]

entry_after-fits :
    (key runtime : ℕ) (demangled : Text) (old : Option Text) (ss : List Symbol)
    → EntryFits key old ss
    → EntryFits key (entry_after key old runtime demangled) ((runtime, demangled) ∷ ss)
entry_after-fits key runtime demangled none ss h = elim (Bool-cases (offset_key runtime == key)) [
  | inl same ↦ rw same (λ _. (λ _. refl, h demangled))
  | inr other ↦ rw other (λ name. (λ e. absurd (ground arith), h name))
]
entry_after-fits key runtime demangled (some name) ss h =
    elim (Bool-cases (offset_key runtime == key)) [
      | inl same ↦ elim (Bool-cases (text_eq name demangled)) [
        | inl eq ↦ rw (same, eq) (λ ne. (λ _. sym (text_eq→eq name demangled eq), h ne))
        | inr ne ↦ elim (Bool-cases (is_empty name)) [
          | inl old ↦ rw (same, ne, old) (λ nz. absurd (nz (is_empty→eq name old)))
          | inr new ↦ rw (same, ne, new) (λ nz. absurd (nz refl))
        ]
      ]
      | inr other ↦ rw other (λ nz. (λ e. absurd (ground arith), h nz))
    ]

add_symbol-fits :
    (s : Symbol) (c : Caches) (ss : List Symbol)
    → OffsetFits c.offset_cache ss
    → OffsetFits (add_symbol s c).offset_cache (s ∷ ss)
unfolding add_symbol
add_symbol-fits (runtime, demangled) c ss h key =
    rw (lookup-add_offset key runtime demangled c.offset_cache)
      (entry_after-fits key runtime demangled (lookup key c.offset_cache) ss (h key))

-- The symbols that have been added, the last one first.
unfoldable pub added : List Symbol → List Symbol → List Symbol
added [] ss = ss
added (t ∷ ts) ss = added ts (t ∷ ss)

add_symbols-fits :
    (ts : List Symbol) (c : Caches) (ss : List Symbol)
    → OffsetFits c.offset_cache ss
    → OffsetFits (add_symbols ts c).offset_cache (added ts ss)
unfolding add_symbols added
add_symbols-fits [] c ss h = h
add_symbols-fits (t ∷ ts) c ss h =
    add_symbols-fits ts (add_symbol t c) (t ∷ ss) (add_symbol-fits t c ss h)

AllNamed-older :
    (key : ℕ) (name : Text) (ts ss : List Symbol)
    → AllNamed key name (added ts ss)
    → AllNamed key name ss
unfolding added
AllNamed-older key name [] ss a = a
AllNamed-older key name (t ∷ ts) ss a = (AllNamed-older key name ts (t ∷ ss) a).1

AllNamed-added :
    (before ss after : List Symbol) (runtime : ℕ) (demangled name : Text)
    → AllNamed (offset_key runtime) name (added (before ++ (runtime, demangled) ∷ after) ss)
    → offset_key runtime ≡ offset_key runtime
    → demangled ≡ name
unfolding added
AllNamed-added [] ss after runtime demangled name a =
    (AllNamed-older (offset_key runtime) name after ((runtime, demangled) ∷ ss) a).0
AllNamed-added (t ∷ before) ss after runtime demangled name a =
    AllNamed-added before (t ∷ ss) after runtime demangled name a

abbrev pub no_names : Caches
no_names = record { cache = []; offset_cache = [] }

-- After a sequence of symbols has been added to empty caches, a non-empty name that the offset cache
-- gives for the low bits of any of them is the name of that symbol: where two symbols of different
-- names share their low bits, the cache gives neither name.
pub offset_cache_sound :
    (before after : List Symbol) (runtime : ℕ) (demangled name : Text)
    → lookup
        (offset_key runtime)
        (add_symbols (before ++ (runtime, demangled) ∷ after) no_names).offset_cache
      ≡ some name
    → name ≢ []
    → demangled ≡ name
offset_cache_sound before after runtime demangled name h ne =
    let ts = before ++ (runtime, demangled) ∷ after in
    let fits : EntryFits (offset_key runtime) (some name) (added ts []) =
      subst (λ o. EntryFits (offset_key runtime) o (added ts [])) h
        (add_symbols-fits ts no_names [] (λ k name. tt) (offset_key runtime)) in
    AllNamed-added before [] after runtime demangled name (fits ne) refl

-- The name of the last symbol of the list that has this address.
unfoldable pub last_name : ℕ → List Symbol → Option Text → Option Text
last_name addr [] o = o
last_name addr ((runtime, demangled) ∷ ss) o =
    last_name addr ss (if runtime == addr then some demangled else o)

-- The primary cache gives each address the name of the last added symbol with that address, and
-- leaves the entries of all other addresses as they were.
pub lookup-add_symbols :
    (ts : List Symbol) (c : Caches) (addr : ℕ)
    → lookup addr (add_symbols ts c).cache ≡ last_name addr ts (lookup addr c.cache)
unfolding add_symbols add_symbol last_name
lookup-add_symbols [] c addr = refl
lookup-add_symbols ((runtime, demangled) ∷ ts) c addr =
    lookup-add_symbols ts (add_symbol (runtime, demangled) c) addr
    ∙ ap (last_name addr ts) (lookup-assign runtime addr demangled c.cache)
