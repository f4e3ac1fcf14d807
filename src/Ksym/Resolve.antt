-- ===== src/Ksym/Resolve.antt =====
-- `KernelSymbolResolver` of src/ksym.h and src/ksym.cpp.
use hsa_snoop.Prelude.{
  lookup, to_hex, assign, Text, codes, ℕ, ◌+◌, ◌≡◌, Option, none, some, List, [], ◌∷◌, ◌++◌, arith,
}
use hsa_snoop.Os.{Process, Os}
use hsa_snoop.Ksym.Reader.{find_elf_bases}
use hsa_snoop.Ksym.Symbols.{
  Caches, offset_key, Symbol, add_symbols, no_names, last_name, lookup-add_symbols,
}
use hsa_snoop.Ksym.Image.{image_symbols}

pub record Resolver : Type 0 where
  pub pid : ℕ
  pub caches : Caches
  pub scanned_generation : ℕ

unfoldable pub new_resolver : ℕ → Resolver
new_resolver pid = record { pid = pid; caches = no_names; scanned_generation = 0 }

-- The symbols of all images, in the order in which they are scanned.
unfoldable pub all_symbols : Os → Process → List ℕ → List Symbol
unfolding image_symbols
all_symbols os p [] = []
all_symbols os p (base ∷ bases) = image_symbols os p base ++ all_symbols os p bases

unfoldable pub scan_code_objects : Os → Resolver → Resolver
unfolding all_symbols find_elf_bases
scan_code_objects os r =
    let p = os.process r.pid in
    record r {
      caches = add_symbols (all_symbols os p (find_elf_bases p p.maps)) r.caches;
      scanned_generation = r.scanned_generation + 1;
    }

-- The fallback label "kernel_0x%lx".
unfoldable pub hex_label : ℕ → Text
unfolding to_hex
hex_label kernel_object = codes "kernel_0x" ++ to_hex kernel_object

-- The primary cache remembers the answer.
unfoldable pub remember : ℕ → Text → Resolver → Text × Resolver
remember kernel_object name r = (
  name,
  record r { caches = record r.caches { cache = assign kernel_object name r.caches.cache } },
)

-- The answer of the offset cache, unless it is missing or ambiguous, or the label.
unfoldable pub fallback_name : ℕ → Option Text → Text
fallback_name kernel_object none = hex_label kernel_object
fallback_name kernel_object (some []) = hex_label kernel_object
fallback_name kernel_object (some (c ∷ name)) = c ∷ name

-- What is done when the primary cache has no entry.
unfoldable pub resolve_miss : Os → Resolver → ℕ → Text × Resolver
unfolding remember fallback_name
resolve_miss os r kernel_object =
    let r' = scan_code_objects os r in
    elim (lookup kernel_object r'.caches.cache) [
      | some name ↦ (name, r')
      | none ↦
          remember kernel_object
            (fallback_name kernel_object (lookup (offset_key kernel_object) r'.caches.offset_cache))
            r'
    ]

unfoldable pub resolve : Os → Resolver → ℕ → Text × Resolver
unfolding resolve_miss
resolve os r kernel_object = elim (lookup kernel_object r.caches.cache) [
  | some name ↦ (name, r)
  | none ↦ resolve_miss os r kernel_object
]

-- A new resolver that finds a symbol at the kernel object answers with the name of the last such
-- symbol of the scan.
pub resolve_new :
    (os : Os) (pid kernel_object : ℕ) (name : Text)
    → last_name kernel_object
        (all_symbols os (os.process pid) (find_elf_bases (os.process pid) (os.process pid).maps))
        none
      ≡ some name
    → (resolve os (new_resolver pid) kernel_object).0 ≡ name
unfolding resolve resolve_miss scan_code_objects new_resolver
resolve_new os pid kernel_object name h =
    let p = os.process pid in
    let ss = all_symbols os p (find_elf_bases p p.maps) in
    ground (arith, h, lookup-add_symbols ss no_names kernel_object)
