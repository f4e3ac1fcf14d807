-- ===== src/ProcMem/Footprint.antt =====
-- `ScanKernargFootprint` of src/proc_mem.cpp.
use hsa_snoop.Prelude.{
  take, drop, elem, add64, sub64, le_number, ℕ, zero, suc, ◌+◌, ◌-◌, ◌*◌, ◌/◌, ◌%◌, ◌^◌, min, Bool,
  true, false, not, ◌&&◌, ◌||◌, Option, none, some, List, [], ◌∷◌, ltb, leb, ◌==◌, if◌then◌else◌,
}
use hsa_snoop.Os.{Process}
use hsa_snoop.ProcMem.Reads.{read_either, max_kernarg_scan_bytes}
use hsa_snoop.ProcMem.Vma.{VmaRegion, read_vmas, find_vma}

-- The first `n` 64-bit words of the argument block.
unfoldable pub words_of : ℕ → List ℕ → List ℕ
words_of zero buf = []
words_of (suc n) buf = le_number (take 8 buf) ∷ words_of n (drop 8 buf)

-- The heuristic filter on a candidate address.
unfoldable pub is_candidate : ℕ → Bool
is_candidate candidate = leb (2 ^ 32) candidate && ltb candidate (2 ^ 48)

-- The region that a word is credited to: it points at the region's base.
unfoldable pub base_vma : List VmaRegion → ℕ → Option VmaRegion
unfolding is_candidate
base_vma vmas candidate =
    if not (is_candidate candidate) then none else elim (find_vma vmas candidate) [
      | none ↦ none
      | some v ↦ if v.start == candidate then some v else none
    ]

-- `*mapped_vram_bytes`, `*ptr_count` and `seen_starts`.
pub record Footprint : Type 0 where
  pub mapped_vram_bytes : ℕ
  pub ptr_count : ℕ
  pub seen_starts : List ℕ

-- A word that points at the base of `v`.
unfoldable pub credit : Footprint → VmaRegion → Footprint
credit f v =
    let f' : Footprint = record f { ptr_count = (f.ptr_count + 1) % 2 ^ 32 } in
    if elem v.start f.seen_starts then f' else record f' {
      mapped_vram_bytes = add64 f.mapped_vram_bytes (sub64 v.end v.start);
      seen_starts = v.start ∷ f.seen_starts;
    }

-- One round of the loop.
unfoldable pub scan_word : List VmaRegion → ℕ → Footprint → Footprint
unfolding base_vma credit
scan_word vmas w f = elim (base_vma vmas w) [ none ↦ f | some v ↦ credit f v ]

unfoldable pub scan_words : List VmaRegion → List ℕ → Footprint → Footprint
unfolding scan_word
scan_words vmas [] f = f
scan_words vmas (w ∷ ws) f = scan_words vmas ws (scan_word vmas w f)

abbrev pub no_footprint : Footprint
no_footprint = record { mapped_vram_bytes = 0; ptr_count = 0; seen_starts = [] }

-- The bytes that are scanned: at most the limit, aligned down to 8.
unfoldable pub scan_bytes : ℕ → ℕ
scan_bytes kernarg_bytes = min kernarg_bytes max_kernarg_scan_bytes / 8 * 8

-- The scan once the argument block has been read.
unfoldable pub scan_buffer : List VmaRegion → ℕ → List ℕ → Bool × Footprint
unfolding scan_words words_of
scan_buffer [] bytes buf = (false, no_footprint)
scan_buffer (v ∷ vs) bytes buf = (true, scan_words (v ∷ vs) (words_of (bytes / 8) buf) no_footprint)

-- The result and the two out-parameters.
unfoldable pub scan_kernarg_footprint : Process → ℕ → ℕ → Bool × Footprint
unfolding scan_bytes scan_buffer
scan_kernarg_footprint p kernarg_va kernarg_bytes =
    if (kernarg_va == 0) || ltb kernarg_bytes 8
    then (true, no_footprint)
    else if ltb (scan_bytes kernarg_bytes) 8
    then (true, no_footprint)
    else elim (read_either p kernarg_va (scan_bytes kernarg_bytes)) [
      | none ↦ (false, no_footprint)
      | some buf ↦ scan_buffer (read_vmas p) (scan_bytes kernarg_bytes) buf
    ]

-- What the scan is to compute: over the regions of the map, the sizes of those whose base is a
-- candidate word of the block, each region once.
unfoldable pub credited : List ℕ → List VmaRegion → ℕ
credited ws [] = 0
credited ws (v ∷ vs) =
    (if is_candidate v.start && elem v.start ws then v.end - v.start else 0) + credited ws vs

-- The number of words that are candidates and the base of a region.
unfoldable pub base_words : List VmaRegion → List ℕ → ℕ
base_words vmas [] = 0
base_words vmas (w ∷ ws) = (elim (base_vma vmas w) [ none ↦ 0 | some v ↦ 1 ]) + base_words vmas ws
