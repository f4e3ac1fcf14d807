-- ===== src/ProcMem/FdCache.antt =====
-- The thread-local descriptor cache of `ReadProcMemViaMem` in src/proc_mem.cpp. An open descriptor
-- of /proc/<pid>/mem stays bound to the address space that the process had at the open, also when
-- the process executes another program or its pid is reused.
use native.Mathlib.Omega.{arith}
use hsa_snoop.Prelude.{
  ℕ, ◌≡◌, refl, sym, ap, ◌∙◌, ◌⊎◌, inl, inr, Bool, true, false, not, ◌||◌, Option, none, some, List,
  [], ◌∷◌, arith, ◌==◌, if◌then◌else◌, Bool-cases,
}
use hsa_snoop.ProcMem.Reads.{full_read}

-- What the system answers at a time. Address spaces are numbered.
pub record MemFiles : Type 0 where
  -- The address space that open() of /proc/<pid>/mem binds a descriptor to, `none` if it fails.
  pub space : ℕ → Option ℕ
  -- The bytes that pread() transfers from a descriptor of an address space.
  pub pread : ℕ → ℕ → ℕ → Option (List ℕ)

-- `cached_pid` and `cached_fd`; -1 is `none`. A descriptor is the address space it is bound to.
pub record FdCache : Type 0 where
  pub cached_pid : Option ℕ
  pub cached_fd : Option ℕ

abbrev pub is_pid : Option ℕ → ℕ → Bool
is_pid none pid = false
is_pid (some q) pid = q == pid

abbrev pub is_open : Option ℕ → Bool
is_open none = false
is_open (some fd) = true

-- The reopening part: what the cache holds afterwards.
unfoldable pub reopen : MemFiles → ℕ → FdCache → FdCache
reopen files pid c =
    if not (is_pid c.cached_pid pid) || not (is_open c.cached_fd)
    then record {
      cached_pid = if is_open (files.space pid) then some pid else none;
      cached_fd = files.space pid;
    }
    else c

-- `pread` from the cached descriptor.
abbrev pub pread_cached : MemFiles → ℕ → ℕ → Option ℕ → Option (List ℕ)
pread_cached files va len none = none
pread_cached files va len (some fd) = full_read (files.pread fd va len) len

-- One call: its result and the cache after it.
unfoldable pub read_cached : MemFiles → ℕ → ℕ → ℕ → FdCache → Option (List ℕ) × FdCache
unfolding reopen
read_cached files pid va len c =
    (pread_cached files va len (reopen files pid c).cached_fd, reopen files pid c)

-- A read that `ReadProcMemViaMem` is asked for, with the answers of the system at that time.
pub record Request : Type 0 where
  pub files : MemFiles
  pub pid : ℕ
  pub va : ℕ
  pub len : ℕ

-- The cache after a history of calls, the last one first, from the initial -1 and -1.
unfoldable pub after_reads : List Request → FdCache
unfolding read_cached
after_reads [] = record { cached_pid = none; cached_fd = none }
after_reads (r ∷ rs) = (read_cached r.files r.pid r.va r.len (after_reads rs)).1

-- The address space that a process had at the first open that succeeded in the unbroken run of
-- calls for it at the end of a history.
unfoldable pub first_space : ℕ → List Request → Option ℕ
first_space pid [] = none
first_space pid (r ∷ rs) =
    let held = first_space pid rs in
    if r.pid == pid then elim held [ none ↦ r.files.space pid | some s ↦ some s ] else none

-- The address space that a cache holds for a process.
abbrev held_for : ℕ → FdCache → Option ℕ
held_for pid c = if is_pid c.cached_pid pid then c.cached_fd else none

-- What one call makes of it.
abbrev next_held : MemFiles → ℕ → ℕ → Option ℕ → Option ℕ
next_held files j pid held =
    if j == pid then elim held [ none ↦ files.space pid | some s ↦ some s ] else none

held_for-reopen :
    (files : MemFiles) (j pid : ℕ) (c : FdCache)
    → next_held files j pid (held_for pid c) ≡ held_for pid (reopen files j c)
unfolding reopen
held_for-reopen files j pid c = elim (Bool-cases (j == pid)) [
  | inl same ↦ let e : j ≡ pid = ground arith in rw (same, e) (ground arith)
  | inr other ↦ rw other (ground arith)
]

first_space-after_reads :
    (pid : ℕ) (rs : List Request) → first_space pid rs ≡ held_for pid (after_reads rs)
unfolding after_reads first_space
first_space-after_reads pid [] = refl
first_space-after_reads pid (r ∷ rs) =
    ap (next_held r.files r.pid pid) (first_space-after_reads pid rs)
    ∙ held_for-reopen r.files r.pid pid (after_reads rs)

reopen_held :
    (files : MemFiles) (pid : ℕ) (c : FdCache)
    → (reopen files pid c).cached_fd ≡ next_held files pid pid (held_for pid c)
unfolding reopen
reopen_held files pid c = ground arith

-- After any history of reads of any processes, failed opens among them, a read of a process goes to
-- the address space that the process had at the first open that succeeded in the unbroken run of
-- calls for it that this call ends; it fails if no open of the run succeeded. No descriptor of
-- another process and no failed open shows through the cache.
pub read_cached_lem :
    (rs : List Request) (files : MemFiles) (pid va len : ℕ)
    → (read_cached files pid va len (after_reads rs)).0
      ≡ pread_cached files va len
          (first_space pid (record { files = files; pid = pid; va = va; len = len } ∷ rs))
unfolding read_cached first_space
read_cached_lem rs files pid va len = ap (pread_cached files va len) (
    reopen_held files pid (after_reads rs)
    ∙ ap (next_held files pid pid) (sym (first_space-after_reads pid rs)))

-- The process could not be opened at the time of a former call, or had this address space.
abbrev pub KeepsSpace : ℕ → ℕ → List Request → Type 0
KeepsSpace pid s [] = Unit {0}
KeepsSpace pid s (r ∷ rs) =
    ((r.files.space pid ≡ none) ⊎ (r.files.space pid ≡ some s)) × KeepsSpace pid s rs

first_space-KeepsSpace :
    (pid s : ℕ) (rs : List Request)
    → KeepsSpace pid s rs
    → (first_space pid rs ≡ none) ⊎ (first_space pid rs ≡ some s)
unfolding first_space
first_space-KeepsSpace pid s [] k = inl refl
first_space-KeepsSpace pid s (r ∷ rs) k = ground (arith, first_space-KeepsSpace pid s rs k.1, k.0)

-- If a process had one address space whenever its memory file could be opened during a history of
-- reads, and can be opened now, the cached read gives what a fresh open and read would give. So the
-- cache shows only where a process executes another program or a pid is reused.
pub read_cached_transparent :
    (rs : List Request) (files : MemFiles) (pid s va len : ℕ)
    → files.space pid ≡ some s
    → KeepsSpace pid s rs
    → (read_cached files pid va len (after_reads rs)).0 ≡ full_read (files.pread s va len) len
unfolding first_space
read_cached_transparent rs files pid s va len h k =
    let now : Request = record { files = files; pid = pid; va = va; len = len } in
    let e : first_space pid (now ∷ rs) ≡ some s =
      ground (arith, first_space-KeepsSpace pid s rs k, h) in
    read_cached_lem rs files pid va len ∙ ap (pread_cached files va len) e
