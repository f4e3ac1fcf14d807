-- ===== src/ProcMem/Reads.antt =====
-- The reads of src/proc_mem.cpp: process_vm_readv, /proc/<pid>/mem, the kernel descriptor, pagemap.
use hsa_snoop.Prelude.{
  length, add64, mul64, le_number, ℕ, ◌*◌, ◌/◌, ◌%◌, ◌^◌, ◌≤◌, ◌<◌, ◌≡◌, refl, ◌≢◌, ◌⊎◌, inl, inr,
  true, false, ◌||◌, Option, none, some, List, arith, ltb, ◌==◌, if◌then◌else◌,
}
use hsa_snoop.Os.{Process, Os}

-- A read succeeds if it transfers all `len` bytes.
abbrev pub full_read : Option (List ℕ) → ℕ → Option (List ℕ)
full_read none len = none
full_read (some bs) len = if length bs == len then some bs else none

unfoldable pub read_proc_mem : Process → ℕ → ℕ → Option (List ℕ)
read_proc_mem p va len = full_read (p.vm_readv va len) len

-- The read past the descriptor cache; `FdCache` has the cache.
unfoldable pub read_proc_mem_via_mem : Process → ℕ → ℕ → Option (List ℕ)
read_proc_mem_via_mem p va len = if p.mem_open then full_read (p.mem_pread va len) len else none

-- The first of two attempts that succeeds.
abbrev pub or_else {ℓ} : {A : Type ℓ} → Option A → Option A → Option A
or_else (some a) o = some a
or_else none o = o

-- `ReadProcMem`, then `ReadProcMemViaMem`, as `ReadQueuePtr`, `ReadKernargSize` and
-- `ScanKernargFootprint` try them.
unfoldable pub read_either : Process → ℕ → ℕ → Option (List ℕ)
unfolding read_proc_mem read_proc_mem_via_mem
read_either p va len = or_else (read_proc_mem p va len) (read_proc_mem_via_mem p va len)

-- `ReadQueuePtr` of src/parser.cpp, over `ReadU64` and `ReadU64ViaMem`.
unfoldable pub read_queue_ptr : Process → ℕ → Option ℕ
unfolding read_either
read_queue_ptr p va = elim (read_either p va 8) [ none ↦ none | some bs ↦ some (le_number bs) ]

abbrev pub max_kernarg_scan_bytes : ℕ
max_kernarg_scan_bytes = 4096

abbrev pub kd_kernarg_size_offset : ℕ
kd_kernarg_size_offset = 8

-- A size of 0 or above the limit is rejected.
unfoldable pub plausible_size : ℕ → ℕ
plausible_size size = if (size == 0) || ltb max_kernarg_scan_bytes size then 0 else size

unfoldable pub read_kernarg_size : Process → ℕ → ℕ
unfolding read_either plausible_size
read_kernarg_size p kernel_object =
    if kernel_object == 0
    then 0
    else elim (read_either p (add64 kernel_object kd_kernarg_size_offset) 4) [
      | none ↦ 0
      | some bs ↦ plausible_size (le_number bs)
    ]

-- The physical address that a pagemap entry gives to `va`.
unfoldable pub entry_phys : ℕ → ℕ → ℕ → ℕ
entry_phys page entry va =
    let present = entry / 2 ^ 63 % 2 in
    let pfn = entry % 2 ^ 55 in
    if present == 0 then 0 else if pfn == 0 then 0 else add64 (mul64 pfn page) (va % page)

unfoldable pub virt_to_phys : Os → ℕ → ℕ → ℕ
unfolding entry_phys
virt_to_phys os pid va = elim ((os.process pid).pagemap (va / os.page_size * 8)) [
  | none ↦ 0
  | some entry ↦ entry_phys os.page_size entry va
]

-- A read that fails or transfers another number of bytes.
abbrev pub IsShort : Option (List ℕ) → ℕ → Type 0
IsShort none len = Unit {0}
IsShort (some bs) len = length bs ≢ len

-- What the target's memory gives for a range: by process_vm_readv, or where that fails or is short,
-- by pread of /proc/<pid>/mem.
abbrev pub IsRead : Process → ℕ → ℕ → List ℕ → Type 0
IsRead p va len bs =
    (length bs ≡ len)
    × ((p.vm_readv va len ≡ some bs)
        ⊎ (IsShort (p.vm_readv va len) len × (p.mem_open ≡ true) × (p.mem_pread va len ≡ some bs)))

full_read_short : (o : Option (List ℕ)) (len : ℕ) → IsShort o len → full_read o len ≡ none
full_read_short none len h = refl
full_read_short (some bs) len h = ground arith

full_read_whole : (bs : List ℕ) (len : ℕ) → length bs ≡ len → full_read (some bs) len ≡ some bs
full_read_whole bs len h = ground arith

pub read_either_lem :
    (p : Process) (va len : ℕ) (bs : List ℕ) → IsRead p va len bs → read_either p va len ≡ some bs
unfolding read_either read_proc_mem read_proc_mem_via_mem
read_either_lem p va len bs (n, inl e) = rw (read_either, e, full_read_whole bs len n) refl
read_either_lem p va len bs (n, inr (short, open_ok, e)) =
    rw
      (
        read_either,
        full_read_short (p.vm_readv va len) len short,
        open_ok,
        e,
        full_read_whole bs len n,
      )
      refl

-- For a kernel object that is not null, if process_vm_readv gives the four bytes at offset 8 of its
-- descriptor, or that fails or is short and pread of /proc/<pid>/mem gives them, then the kernarg
-- size is their little-endian number, if that is at most 4096, and 0 if it is more.
pub read_kernarg_size_lem :
    (p : Process) (kernel_object : ℕ) (bs : List ℕ)
    → kernel_object ≢ 0
    → IsRead p (add64 kernel_object 8) 4 bs
    → ((le_number bs ≤ 4096) × (read_kernarg_size p kernel_object ≡ le_number bs))
      ⊎ ((4096 < le_number bs) × (read_kernarg_size p kernel_object ≡ 0))
unfolding read_kernarg_size plausible_size
read_kernarg_size_lem p kernel_object bs h r =
    let e = read_either_lem p (add64 kernel_object 8) 4 bs r in
    let n : (kernel_object == 0) ≡ false = ground arith in
    rw (read_kernarg_size, n, e) (ground arith)
