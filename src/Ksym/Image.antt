-- ===== src/Ksym/Image.antt =====
-- `ScanImage` of src/ksym.cpp: the ".kd" symbols of one AMDGPU ELF image in the target's memory.
-- The offsets and tags are those of the 64-bit ELF structures of elf.h.
use hsa_snoop.Prelude.{
  length, take, drop, text_eq, add64, sub64, mul64, Text, codes, ℕ, zero, suc, ◌+◌, ◌-◌, ◌*◌, ◌/◌,
  ◌^◌, sym, not, ◌&&◌, ◌||◌, Option, none, some, List, [], ◌∷◌, ltb, leb, ◌==◌, if◌then◌else◌,
}
use hsa_snoop.Os.{Process, Os}
use hsa_snoop.Aql.Packet.{field_at}
use hsa_snoop.Ksym.Reader.{mem_read, peek_str, elf_magic}
use hsa_snoop.Ksym.Symbols.{Symbol}

-- What the program headers say.
pub record Segments : Type 0 where
  pub min_vaddr : ℕ
  pub dyn_vaddr : ℕ
  pub dyn_sz : ℕ

abbrev uint64_max : ℕ
uint64_max = 2 ^ 64 - 1

-- One `Elf64_Phdr`: PT_LOAD is 1 and PT_DYNAMIC is 2.
unfoldable pub visit_phdr : List ℕ → Segments → Segments
visit_phdr ph s =
    let p_type = field_at 0 4 ph in
    let p_vaddr = field_at 16 8 ph in
    let loaded : Segments =
      if (p_type == 1) && ltb p_vaddr s.min_vaddr then record s { min_vaddr = p_vaddr } else s in
    if p_type == 2 then record loaded { dyn_vaddr = p_vaddr; dyn_sz = field_at 40 8 ph } else loaded

-- The rounds that are left and the round's number; `none` where a header cannot be read.
unfoldable pub phdr_loop : Process → ℕ → ℕ → ℕ → Segments → Option Segments
unfolding visit_phdr mem_read
phdr_loop p phdrs zero i s = some s
phdr_loop p phdrs (suc n) i s = elim (mem_read p (add64 phdrs (i * 56)) 56) [
  | none ↦ none
  | some ph ↦ phdr_loop p phdrs n (i + 1) (visit_phdr ph s)
]

-- What the dynamic section says.
pub record Tables : Type 0 where
  pub symtab : ℕ
  pub strtab : ℕ
  pub syment : ℕ

-- One `Elf64_Dyn` with a tag that is not DT_NULL: DT_STRTAB is 5, DT_SYMTAB 6 and DT_SYMENT 11.
unfoldable pub visit_dyn : List ℕ → Tables → Tables
visit_dyn d t =
    let tag = field_at 0 8 d in
    let val = field_at 8 8 d in
    if tag == 6
    then record t { symtab = val }
    else if tag == 5
    then record t { strtab = val }
    else if tag == 11
    then record t { syment = val }
    else t

-- DT_NULL, and an entry that cannot be read, end the loop.
unfoldable pub dyn_loop : Process → ℕ → ℕ → ℕ → Tables → Tables
unfolding visit_dyn mem_read
dyn_loop p dyn zero i t = t
dyn_loop p dyn (suc n) i t = elim (mem_read p (add64 dyn (i * 16)) 16) [
  | none ↦ t
  | some d ↦
      let rest = dyn_loop p dyn n (i + 1) (visit_dyn d t) in if field_at 0 8 d == 0 then t else rest
]

unfoldable pub demangle : Os → Text → Text
demangle os mangled = elim (os.cxa_demangle mangled) [ none ↦ mangled | some d ↦ d ]

abbrev pub kd_suffix : Text
kd_suffix = codes ".kd"

-- The name before ".kd", if the name has at least four characters and ends so.
unfoldable pub kd_stem : Text → Option Text
kd_stem name =
    if ltb (length name) 4
    then none
    else if not (text_eq (drop (length name - 3) name) kd_suffix)
    then none
    else some (take (length name - 3) name)

-- One `Elf64_Sym`: the symbol that it adds, if any.
unfoldable pub symbol_of : Os → Process → ℕ → ℕ → List ℕ → Option Symbol
unfolding kd_stem demangle peek_str
symbol_of os p bias strtab sym =
    let st_name = field_at 0 4 sym in
    let st_value = field_at 8 8 sym in
    if (st_name == 0) || st_value == 0
    then none
    else elim (kd_stem (peek_str p (add64 strtab st_name))) [
      | none ↦ none
      | some stem ↦ some (add64 st_value bias, demangle os stem)
    ]

abbrev cons_some : Option Symbol → List Symbol → List Symbol
cons_some none ss = ss
cons_some (some s) ss = s ∷ ss

-- An entry that cannot be read ends the loop.
unfoldable pub symbol_loop : Os → Process → ℕ → Tables → ℕ → ℕ → List Symbol
unfolding symbol_of mem_read
symbol_loop os p bias t zero i = []
symbol_loop os p bias t (suc n) i = elim (mem_read p (add64 t.symtab (mul64 i t.syment)) 24) [
  | none ↦ []
  | some sym ↦ cons_some (symbol_of os p bias t.strtab sym) (symbol_loop os p bias t n (i + 1))
]

-- The symbols between the two tables.
unfoldable pub table_symbols : Os → Process → ℕ → Tables → List Symbol
unfolding symbol_loop
table_symbols os p bias t =
    let count = (t.strtab - t.symtab) / t.syment in
    if leb t.strtab t.symtab
    then []
    else if (count == 0) || ltb 200000 count
    then []
    else symbol_loop os p bias t count 0

unfoldable pub rebase : ℕ → ℕ → ℕ → ℕ
rebase base bias p = if ltb p base then add64 p bias else p

unfoldable pub dynamic_symbols : Os → Process → ℕ → Segments → List Symbol
unfolding dyn_loop table_symbols rebase
dynamic_symbols os p base s =
    let min_vaddr : ℕ = if s.min_vaddr == uint64_max then 0 else s.min_vaddr in
    let bias = sub64 base min_vaddr in
    let t =
      dyn_loop p (add64 bias s.dyn_vaddr) (s.dyn_sz / 16) 0
        (record { symtab = 0; strtab = 0; syment = 24 }) in
    if s.dyn_vaddr == 0
    then []
    else if (t.symtab == 0) || ((t.strtab == 0) || t.syment == 0)
    then []
    else table_symbols os p bias
        (record t { symtab = rebase base bias t.symtab; strtab = rebase base bias t.strtab })

-- The symbols of the image at `base`, which `ScanImage` adds to the caches one by one.
unfoldable pub image_symbols : Os → Process → ℕ → List Symbol
unfolding phdr_loop dynamic_symbols mem_read
image_symbols os p base = elim (mem_read p base 64) [
  | none ↦ []
  | some eh ↦
      if not (text_eq (take 4 eh) elf_magic)
      then []
      else elim (phdr_loop p (add64 base (field_at 32 8 eh)) (field_at 56 2 eh) 0
          (record { min_vaddr = uint64_max; dyn_vaddr = 0; dyn_sz = 0 })) [
            | none ↦ []
            | some s ↦ dynamic_symbols os p base s
          ]
]
