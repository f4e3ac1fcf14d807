-- ===== src/Tests/Memory.antt =====
-- Reads of a process's memory and scans of an argument block.
use native.Mathlib.Omega.{arith}
use hsa_snoop.Prelude.{
  add64, le_number, ℕ, ◌+◌, ◌/◌, ◌%◌, ◌^◌, ◌≤◌, ◌<◌, ◌≡◌, refl, ◌≢◌, ◌↔◌, ◌⊎◌, inl, inr, true,
  false, Option, none, some, List, [], ◌∷◌, arith, ◌==◌, if◌then◌else◌,
}
use hsa_snoop.Os.{MapsLine, Process}
use hsa_snoop.ProcMem.Reads.{
  full_read, read_either, read_kernarg_size, IsRead, read_kernarg_size_lem,
}
use hsa_snoop.ProcMem.FdCache.{
  MemFiles, Request, reopen, pread_cached, read_cached, after_reads, first_space, read_cached_lem,
  read_cached_transparent,
}
use hsa_snoop.ProcMem.Vma.{
  VmaRegion, read_vmas, find_vma, find_containing, Ascending, find_vma-find_containing,
}
use hsa_snoop.ProcMem.Footprint.{words_of, scan_bytes, scan_kernarg_footprint, credited, base_words}
use hsa_snoop.ProcMem.Credit.{is_scanned, scan_kernarg_footprint_lem, scan_kernarg_footprint_fails}
use hsa_snoop.Tests.Data.{padded, process_of}

abbrev line : ℕ → ℕ → MapsLine
line start end = record { start = start; end = end; conversions = 4; readable = true }

-- Two regions, and an argument block with two pointers to the base of the first.
abbrev scanned : Process
scanned =
    process_of ((64, 0 ∷ 0 ∷ 0 ∷ 0 ∷ 1 ∷ 0 ∷ 0 ∷ 0 ∷ 0 ∷ 0 ∷ 0 ∷ 0 ∷ 1 ∷ []) ∷ [])
      (line (2 ^ 32) (2 ^ 32 + 4096) ∷ line (2 ^ 33) (2 ^ 33 + 4096) ∷ [])

abbrev arguments : List ℕ
arguments = padded 16 (0 ∷ 0 ∷ 0 ∷ 0 ∷ 1 ∷ 0 ∷ 0 ∷ 0 ∷ 0 ∷ 0 ∷ 0 ∷ 0 ∷ 1 ∷ [])

arguments_read : read_either scanned 64 (scan_bytes 16) ≡ some arguments
unfolding read_either scan_bytes
arguments_read = refl

regions_nonempty : read_vmas scanned ≢ []
unfolding read_vmas
regions_nonempty = cc

regions-Ascending : Ascending 0 (read_vmas scanned)
unfolding read_vmas
regions-Ascending = (omega arith, omega arith, (omega arith, omega arith, tt))

scan_kernarg_footprint_lem_example :
    ((scan_kernarg_footprint scanned 64 16).0 ≡ true)
    × ((scan_kernarg_footprint scanned 64 16).1.mapped_vram_bytes
        ≡ credited (words_of (scan_bytes 16 / 8) arguments) (read_vmas scanned) % 2 ^ 64)
    × ((scan_kernarg_footprint scanned 64 16).1.ptr_count % 2 ^ 32
        ≡ base_words (read_vmas scanned) (words_of (scan_bytes 16 / 8) arguments) % 2 ^ 32)
scan_kernarg_footprint_lem_example =
    scan_kernarg_footprint_lem scanned 64 16 0 arguments refl arguments_read regions_nonempty
      regions-Ascending

scan_kernarg_footprint_fails_example :
    ((scan_kernarg_footprint scanned 72 16).0 ≡ false ↔ (
      (is_scanned 72 16 ≡ true)
      × ((read_either scanned 72 (scan_bytes 16) ≡ none) ⊎ (read_vmas scanned ≡ []))))
    × (((scan_kernarg_footprint scanned 72 16).0 ≡ true)
        ⊎ (((scan_kernarg_footprint scanned 72 16).1.mapped_vram_bytes ≡ 0)
            × ((scan_kernarg_footprint scanned 72 16).1.ptr_count ≡ 0)))
scan_kernarg_footprint_fails_example = scan_kernarg_footprint_fails scanned 72 16

abbrev descriptor : ℕ
descriptor = 56

descriptor-IsRead : IsRead scanned (add64 56 8) 4 (0 ∷ 0 ∷ 0 ∷ 0 ∷ [])
descriptor-IsRead = (refl, inl refl)

read_kernarg_size_lem_example :
    ((le_number (0 ∷ 0 ∷ 0 ∷ 0 ∷ []) ≤ 4096)
      × (read_kernarg_size scanned 56 ≡ le_number (0 ∷ 0 ∷ 0 ∷ 0 ∷ [])))
    ⊎ ((4096 < le_number (0 ∷ 0 ∷ 0 ∷ 0 ∷ [])) × (read_kernarg_size scanned 56 ≡ 0))
read_kernarg_size_lem_example =
    read_kernarg_size_lem scanned 56 (0 ∷ 0 ∷ 0 ∷ 0 ∷ []) (λ e. omega arith) descriptor-IsRead

-- Memory files by the address spaces that processes 7 and 8 have, with a byte of each space.
abbrev files_of : Option ℕ → Option ℕ → MemFiles
files_of seven eight = record {
  space = λ pid. if pid == 7 then seven else eight;
  pread = λ s va len. some (s ∷ []);
}

-- A read of process 8, and before it a failed open of process 7.
abbrev history : List Request
history =
    record { files = files_of (some 1) (some 2); pid = 8; va = 64; len = 1 }
    ∷ record { files = files_of none (some 2); pid = 7; va = 64; len = 1 }
    ∷ []

read_cached_lem_example :
    (read_cached (files_of (some 1) (some 2)) 7 64 1 (after_reads history)).0
    ≡ pread_cached (files_of (some 1) (some 2)) 64 1 (
        first_space 7
          (record { files = files_of (some 1) (some 2); pid = 7; va = 64; len = 1 } ∷ history))
read_cached_lem_example = read_cached_lem history (files_of (some 1) (some 2)) 7 64 1

reads_space_one :
    (read_cached (files_of (some 1) (some 2)) 7 64 1 (after_reads history)).0 ≡ some (1 ∷ [])
unfolding read_cached after_reads reopen
reads_space_one = refl

-- Process 7 is read, gets another address space, and is read again: the first space is still read.
stale :
    (read_cached
      (files_of (some 3) none)
      7
      64
      1
      (after_reads (record { files = files_of (some 1) none; pid = 7; va = 64; len = 1 } ∷ []))).0
    ≡ some (1 ∷ [])
unfolding read_cached after_reads reopen
stale = refl

read_cached_transparent_example :
    (read_cached (files_of (some 1) (some 2)) 7 64 1 (after_reads history)).0
    ≡ full_read (some (1 ∷ [])) 1
read_cached_transparent_example =
    read_cached_transparent history (files_of (some 1) (some 2)) 7 1 64 1 refl
      (inr refl, (inl refl, tt))

abbrev regions : List VmaRegion
regions = record { start = 16; end = 32 } ∷ record { start = 48; end = 64 } ∷ []

find_vma-find_containing_example : find_vma regions 40 ≡ find_containing regions 40
find_vma-find_containing_example =
    find_vma-find_containing 0 40 regions (omega arith, omega arith, (omega arith, omega arith, tt))
