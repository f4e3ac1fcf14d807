-- ===== src/ProcMem/Vma.antt =====
-- The memory map of a process: `ReadVmas` and `FindVma` of src/proc_mem.cpp.
use hsa_snoop.Prelude.{
  ℕ, ◌≤◌, ◌<◌, ◌≡◌, refl, ◌&&◌, Option, none, some, List, [], ◌∷◌, arith, ltb, leb, if◌then◌else◌,
}
use hsa_snoop.Os.{MapsLine, Process}

pub record VmaRegion : Type 0 where
  pub start : ℕ
  pub end : ℕ

-- The line's addresses, if both conversions succeed and the region is not empty.
unfoldable pub vma_of_lines : List MapsLine → List VmaRegion
vma_of_lines [] = []
vma_of_lines (l ∷ ls) =
    let rest = vma_of_lines ls in
    if leb 2 l.conversions && ltb l.start l.end
    then record { start = l.start; end = l.end } ∷ rest
    else rest

unfoldable pub read_vmas : Process → List VmaRegion
unfolding vma_of_lines
read_vmas p = vma_of_lines p.maps

-- The loop leaves at the first region that starts above the address.
unfoldable pub find_vma : List VmaRegion → ℕ → Option VmaRegion
find_vma [] addr = none
find_vma (v ∷ vs) addr =
    if leb v.start addr && ltb addr v.end
    then some v
    else if ltb addr v.start
    then none
    else find_vma vs addr

-- The same search without the early exit.
unfoldable pub find_containing : List VmaRegion → ℕ → Option VmaRegion
find_containing [] addr = none
find_containing (v ∷ vs) addr =
    if leb v.start addr && ltb addr v.end then some v else find_containing vs addr

-- Regions are not empty, do not overlap and stand in ascending order from `lo` on, as the kernel
-- prints them.
abbrev pub Ascending : ℕ → List VmaRegion → Type 0
Ascending lo [] = Unit {0}
Ascending lo (v ∷ vs) = (lo ≤ v.start) × (v.start < v.end) × Ascending v.end vs

pub find_containing_below :
    (lo addr : ℕ) (vs : List VmaRegion)
    → addr < lo
    → Ascending lo vs
    → find_containing vs addr ≡ none
unfolding find_containing
find_containing_below lo addr [] h a = refl
find_containing_below lo addr (v ∷ vs) h a =
    ground (arith, find_containing_below v.end addr vs (omega arith) a.2)

-- On an ascending map without overlaps `FindVma`, which stops at the first region above the address,
-- finds what a search of the whole map finds.
pub find_vma-find_containing :
    (lo addr : ℕ) (vs : List VmaRegion)
    → Ascending lo vs
    → find_vma vs addr ≡ find_containing vs addr
unfolding find_vma find_containing
find_vma-find_containing lo addr [] a = refl
find_vma-find_containing lo addr (v ∷ vs) a =
    ground (arith, find_vma-find_containing v.end addr vs a.2, find_containing_below v.end addr vs)
