-- ===== src/Tests/Symbols.antt =====
-- The kernel names of a process with one AMDGPU image.
use hsa_snoop.Prelude.{
  lookup, assign, text_eq, Text, codes, le_number, ℕ, ◌+◌, ◌^◌, ◌≡◌, refl, true, none, some, List,
  [], ◌∷◌, ◌++◌,
}
use hsa_snoop.Os.{Os}
use hsa_snoop.Aql.Packet.{field_at}
use hsa_snoop.Ksym.Reader.{find_elf_bases}
use hsa_snoop.Ksym.Symbols.{
  add_symbols, no_names, offset_cache_sound, last_name, lookup-add_symbols,
}
use hsa_snoop.Ksym.Resolve.{new_resolver, all_symbols, resolve, resolve_new}
use hsa_snoop.Tests.Data.{padded, process_of, os_of}

-- "vadd.kd" with a NUL before and behind it.
abbrev names : List ℕ
names = 118 ∷ 97 ∷ 100 ∷ 100 ∷ 46 ∷ 107 ∷ 100 ∷ 0 ∷ []

-- An image at 4096 with two program headers, three dynamic entries and two symbols, of which the
-- second, at offset 1024, is called "vadd.kd".
abbrev image : List (ℕ × List ℕ)
image =
    (
      4096,
      0x7f
          ∷ 69
          ∷ 76
          ∷ 70
          ∷ (padded 14 [] ++ (224 ∷ 0 ∷ (padded 12 [] ++ (64 ∷ 0 ∷ (padded 22 [] ++ 2 ∷ []))))),
    )
    ∷ (4160, 1 ∷ [])
    ∷ (4216, 2 ∷ (padded 15 [] ++ (0 ∷ 1 ∷ (padded 22 [] ++ 48 ∷ []))))
    ∷ (4352, 6 ∷ (padded 7 [] ++ (0 ∷ 2 ∷ [])))
    ∷ (4368, 5 ∷ (padded 7 [] ++ (48 ∷ 2 ∷ [])))
    ∷ (4384, [])
    ∷ (4608, [])
    ∷ (4632, 1 ∷ (padded 7 [] ++ (0 ∷ 4 ∷ [])))
    ∷ (4657, names)
    ∷ []

abbrev symbol_os : Os
symbol_os =
    os_of (
      process_of image (record { start = 4096; end = 8192; conversions = 4; readable = true } ∷ []))

abbrev vadd : Text
vadd = codes "vadd"

image_names :
    last_name 5120
      (all_symbols symbol_os
        (symbol_os.process 7)
        (find_elf_bases (symbol_os.process 7) (symbol_os.process 7).maps))
      none
    ≡ some vadd
unfolding last_name all_symbols find_elf_bases text_eq field_at le_number
image_names = refl

new_resolver_names : (resolve symbol_os (new_resolver 7) 5120).0 ≡ vadd
new_resolver_names = resolve_new symbol_os 7 5120 vadd image_names

last_of_two :
    lookup 5 (add_symbols ((5, vadd) ∷ (5, names) ∷ []) no_names).cache
    ≡ last_name 5 ((5, vadd) ∷ (5, names) ∷ []) none
last_of_two = lookup-add_symbols ((5, vadd) ∷ (5, names) ∷ []) no_names 5

low_bits :
    lookup 5 (add_symbols ((5, vadd) ∷ (2 ^ 20 + 5, vadd) ∷ []) no_names).offset_cache ≡ some vadd
unfolding add_symbols assign text_eq
low_bits = refl

offset_cache_sound_example : vadd ≡ vadd
offset_cache_sound_example =
    offset_cache_sound ((5, vadd) ∷ []) [] (2 ^ 20 + 5) vadd vadd low_bits cc
