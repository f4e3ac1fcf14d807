-- ===== src/Ksym/Reader.antt =====
-- Memory reads of src/ksym.cpp, through /proc/<pid>/mem, and the search for ELF images.
use hsa_snoop.Prelude.{
  length, take, text_eq, add64, Text, ℕ, zero, suc, Bool, true, false, not, ◌&&◌, Option, none,
  some, List, [], ◌∷◌, ◌++◌, ltb, ◌==◌, if◌then◌else◌,
}
use hsa_snoop.Os.{MapsLine, Process}
use hsa_snoop.ProcMem.Reads.{full_read}
use hsa_snoop.Aql.Packet.{field_at}

unfoldable pub mem_read : Process → ℕ → ℕ → Option (List ℕ)
mem_read p va len = if p.mem_open then full_read (p.mem_pread va len) len else none

-- The bytes before the first NUL, and whether there is one.
unfoldable pub until_nul : List ℕ → Text × Bool
until_nul [] = ([], false)
until_nul (b ∷ bs) = if b == 0 then ([], true) else let (s, found) = until_nul bs in (b ∷ s, found)

-- The loop of `PeekStr`, with the rounds that are left: each adds 64 characters or returns.
unfoldable pub peek_loop : Process → ℕ → ℕ → Text → Text
unfolding mem_read until_nul
peek_loop p va zero s = s
peek_loop p va (suc n) s = elim (mem_read p (add64 va (length s)) 64) [
  | none ↦ s
  | some buf ↦
      let (t, found) = until_nul buf in
      let more = peek_loop p va n (s ++ t) in if found then s ++ t else more
]

-- `max` is 512, which is 8 rounds of 64 characters.
unfoldable pub peek_str : Process → ℕ → Text
unfolding peek_loop
peek_str p va = peek_loop p va 8 []

-- EM_AMDGPU.
abbrev pub em_amdgpu : ℕ
em_amdgpu = 224

-- ELFMAG, the four bytes at the start of an ELF file.
abbrev pub elf_magic : List ℕ
elf_magic = 0x7f ∷ 69 ∷ 76 ∷ 70 ∷ []

-- Whether the region of a maps line starts with an AMDGPU ELF header.
unfoldable pub is_elf_base : Process → MapsLine → Bool
unfolding mem_read
is_elf_base p l =
    if ltb l.conversions 4
    then false
    else if not l.readable
    then false
    else elim (mem_read p l.start 20) [
      | none ↦ false
      | some ident ↦ text_eq (take 4 ident) elf_magic && (field_at 18 2 ident == em_amdgpu)
    ]

unfoldable pub find_elf_bases : Process → List MapsLine → List ℕ
unfolding is_elf_base
find_elf_bases p [] = []
find_elf_bases p (l ∷ ls) =
    let rest = find_elf_bases p ls in if is_elf_base p l then l.start ∷ rest else rest
