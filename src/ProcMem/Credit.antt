-- ===== src/ProcMem/Credit.antt =====
-- What `ScanKernargFootprint` of src/proc_mem.cpp computes.
use hsa_snoop.Prelude.{
  elem, IsU64, ℕ, ◌+◌, ◌-◌, ◌/◌, ◌%◌, ◌^◌, ◌<◌, ◌≡◌, refl, ap, ◌∙◌, ◌≢◌, ◌↔◌, ◌⊎◌, inl, inr, Bool,
  true, false, not, ◌&&◌, Option, none, some, List, [], ◌∷◌, arith, leb, ◌==◌, if◌then◌else◌,
  ==_iff, Bool-cases, Option-cases,
}
use hsa_snoop.Os.{Process}
use hsa_snoop.ProcMem.Reads.{read_either}
use hsa_snoop.ProcMem.Vma.{VmaRegion, read_vmas, find_vma, Ascending}
use hsa_snoop.ProcMem.Footprint.{
  Footprint, words_of, is_candidate, base_vma, credit, scan_word, scan_words, no_footprint,
  scan_bytes, scan_buffer, scan_kernarg_footprint, credited, base_words,
}

-- The region whose base is the word, by a search of the whole map.
exact : List VmaRegion → ℕ → Option VmaRegion
exact [] w = none
exact (v ∷ vs) w = if is_candidate w && v.start == w then some v else exact vs w

exact_below : (lo w : ℕ) (vs : List VmaRegion) → w < lo → Ascending lo vs → exact vs w ≡ none
unfolding exact
exact_below lo w [] h a = refl
exact_below lo w (v ∷ vs) h a = ground (arith, exact_below v.end w vs (omega arith) a.2)

base_vma-exact : (lo w : ℕ) (vs : List VmaRegion) → Ascending lo vs → base_vma vs w ≡ exact vs w
unfolding base_vma exact find_vma
base_vma-exact lo w [] a = ground arith
base_vma-exact lo w (v ∷ vs) a =
    ground (arith, base_vma-exact v.end w vs a.2, exact_below v.end w vs)

-- The sizes of the regions that the words `ws` credit beside those of `seen`.
fresh : List ℕ → List ℕ → List VmaRegion → ℕ
fresh seen ws [] = 0
fresh seen ws (v ∷ vs) =
    (if is_candidate v.start && (elem v.start ws && not (elem v.start seen))
      then v.end - v.start
      else 0)
    + fresh seen ws vs

fresh_none : (ws : List ℕ) (vs : List VmaRegion) → fresh [] ws vs ≡ credited ws vs
unfolding fresh credited elem
fresh_none ws [] = refl
fresh_none ws (v ∷ vs) = ground (arith, fresh_none ws vs)

fresh_empty : (seen : List ℕ) (vs : List VmaRegion) → fresh seen [] vs ≡ 0
unfolding fresh elem
fresh_empty seen [] = refl
fresh_empty seen (v ∷ vs) = ground (arith, fresh_empty seen vs)

-- A word that is no base, or that is in `seen`, adds nothing.
fresh_no_base :
    (seen ws : List ℕ) (w : ℕ) (vs : List VmaRegion)
    → exact vs w ≡ none
    → fresh seen (w ∷ ws) vs ≡ fresh seen ws vs
unfolding fresh exact elem
fresh_no_base seen ws w [] h = refl
fresh_no_base seen ws w (v ∷ vs) h = ground (arith, fresh_no_base seen ws w vs)

fresh_seen :
    (seen ws : List ℕ) (w : ℕ) (vs : List VmaRegion)
    → elem w seen ≡ true
    → fresh seen (w ∷ ws) vs ≡ fresh seen ws vs
unfolding fresh elem
fresh_seen seen ws w [] h = refl
fresh_seen seen ws w (v ∷ vs) h = elim (Bool-cases (v.start == w)) [
  | inl e ↦
      ground (arith, fresh_seen seen ws w vs h, ap (λ k. elem k seen) ((==_iff v.start w).0 e))
  | inr e ↦ ground (arith, fresh_seen seen ws w vs h)
]

fresh_above :
    (seen ws : List ℕ) (w lo : ℕ) (vs : List VmaRegion)
    → w < lo
    → Ascending lo vs
    → fresh seen (w ∷ ws) vs ≡ fresh (w ∷ seen) ws vs
unfolding fresh elem
fresh_above seen ws w lo [] h a = refl
fresh_above seen ws w lo (v ∷ vs) h a =
    ground (arith, fresh_above seen ws w v.end vs (omega arith) a.2)

-- A new word that is the base of `r` adds the size of `r`.
fresh_base :
    (seen ws : List ℕ) (w lo : ℕ) (r : VmaRegion) (vs : List VmaRegion)
    → Ascending lo vs
    → exact vs w ≡ some r
    → elem w seen ≡ false
    → fresh seen (w ∷ ws) vs ≡ r.end - r.start + fresh (w ∷ seen) ws vs
unfolding fresh exact elem
fresh_base seen ws w lo r [] a h n = cc
fresh_base seen ws w lo r (v ∷ vs) a h n = elim (Bool-cases (v.start == w)) [
  | inl e ↦ ground (
    arith,
    fresh_above seen ws w v.end vs (ground arith) a.2,
    exact_below v.end w vs (ground arith) a.2,
    ap (λ k. elem k seen) ((==_iff v.start w).0 e),
    ap is_candidate ((==_iff v.start w).0 e),
  )
  | inr e ↦ ground (arith, fresh_base seen ws w v.end r vs a.2)
]

exact_start : (w : ℕ) (r : VmaRegion) (vs : List VmaRegion) → exact vs w ≡ some r → r.start ≡ w
unfolding exact
exact_start w r [] h = cc
exact_start w r (v ∷ vs) h = ground (arith, exact_start w r vs)

exact_size :
    (lo w : ℕ) (r : VmaRegion) (vs : List VmaRegion)
    → Ascending lo vs
    → exact vs w ≡ some r
    → r.start < r.end
unfolding exact
exact_size lo w r [] a h = cc
exact_size lo w r (v ∷ vs) a h = ground (arith, exact_size v.end w r vs a.2)

scan_word_mapped :
    (lo : ℕ) (vmas : List VmaRegion) (w : ℕ) (ws : List ℕ) (f : Footprint)
    → Ascending lo vmas
    → ((scan_word vmas w f).mapped_vram_bytes + fresh (scan_word vmas w f).seen_starts ws vmas)
        % 2 ^ 64
      ≡ (f.mapped_vram_bytes + fresh f.seen_starts (w ∷ ws) vmas) % 2 ^ 64
unfolding scan_word credit
scan_word_mapped lo vmas w ws f a = elim (Option-cases (exact vmas w)) [
  | inl e ↦ ground (arith, base_vma-exact lo w vmas a, fresh_no_base f.seen_starts ws w vmas e, e)
  | inr (r, e) ↦ elim (Bool-cases (elem w f.seen_starts)) [
    | inl old ↦ ground (
      arith,
      e,
      base_vma-exact lo w vmas a,
      fresh_seen f.seen_starts ws w vmas old,
      ap (λ k. elem k f.seen_starts) (exact_start w r vmas e),
    )
    | inr new ↦ ground (
      arith,
      e,
      base_vma-exact lo w vmas a,
      exact_size lo w r vmas a e,
      ap (λ k. elem k f.seen_starts) (exact_start w r vmas e),
      exact_start w r vmas e,
      fresh_base f.seen_starts ws w lo r vmas a e new,
    )
  ]
]

scan_words_mapped :
    (lo : ℕ) (vmas : List VmaRegion) (ws : List ℕ) (f : Footprint)
    → Ascending lo vmas
    → (scan_words vmas ws f).mapped_vram_bytes % 2 ^ 64
      ≡ (f.mapped_vram_bytes + fresh f.seen_starts ws vmas) % 2 ^ 64
unfolding scan_words
scan_words_mapped lo vmas [] f a = omega (arith, fresh_empty f.seen_starts vmas)
scan_words_mapped lo vmas (w ∷ ws) f a =
    scan_words_mapped lo vmas ws (scan_word vmas w f) a ∙ scan_word_mapped lo vmas w ws f a

scan_word_bounds :
    (vmas : List VmaRegion) (w : ℕ) (f : Footprint)
    → IsU64 f.mapped_vram_bytes
    → IsU64 (scan_word vmas w f).mapped_vram_bytes
unfolding scan_word credit
scan_word_bounds vmas w f h = ground arith

scan_words_bounds :
    (vmas : List VmaRegion) (ws : List ℕ) (f : Footprint)
    → IsU64 f.mapped_vram_bytes
    → IsU64 (scan_words vmas ws f).mapped_vram_bytes
unfolding scan_words
scan_words_bounds vmas [] f h = h
scan_words_bounds vmas (w ∷ ws) f h =
    scan_words_bounds vmas ws (scan_word vmas w f) (scan_word_bounds vmas w f h)

scan_words_count :
    (vmas : List VmaRegion) (ws : List ℕ) (f : Footprint)
    → (scan_words vmas ws f).ptr_count % 2 ^ 32 ≡ (f.ptr_count + base_words vmas ws) % 2 ^ 32
unfolding scan_words scan_word credit base_words
scan_words_count vmas [] f = omega arith
scan_words_count vmas (w ∷ ws) f = ground (arith, scan_words_count vmas ws (scan_word vmas w f))

-- The words that a scan of `bytes` bytes at `va` reads, and whether the block is scanned at all.
abbrev pub is_scanned : ℕ → ℕ → Bool
is_scanned va bytes = not (va == 0) && leb 8 bytes

-- If the argument block is scanned and can be read, and the memory map is ascending without
-- overlaps and not empty, the scan succeeds; the mapped bytes are, mod 2^64, the sizes of the
-- regions whose base is a candidate word of the block, each region counted once however many words
-- point at it, and the pointer count is, mod 2^32, the number of words that are such a base,
-- repetitions included.
pub scan_kernarg_footprint_lem :
    (p : Process) (va bytes lo : ℕ) (buf : List ℕ)
    → is_scanned va bytes ≡ true
    → read_either p va (scan_bytes bytes) ≡ some buf
    → read_vmas p ≢ []
    → Ascending lo (read_vmas p)
    → ((scan_kernarg_footprint p va bytes).0 ≡ true)
      × ((scan_kernarg_footprint p va bytes).1.mapped_vram_bytes
          ≡ credited (words_of (scan_bytes bytes / 8) buf) (read_vmas p) % 2 ^ 64)
      × ((scan_kernarg_footprint p va bytes).1.ptr_count % 2 ^ 32
          ≡ base_words (read_vmas p) (words_of (scan_bytes bytes / 8) buf) % 2 ^ 32)
unfolding scan_kernarg_footprint scan_buffer
scan_kernarg_footprint_lem p va bytes lo buf hs hr hv a =
    let ws = words_of (scan_bytes bytes / 8) buf in
    ground (
      arith,
      scan_words_mapped lo (read_vmas p) ws no_footprint a,
      scan_words_bounds (read_vmas p) ws no_footprint,
      scan_words_count (read_vmas p) ws no_footprint,
      fresh_none ws (read_vmas p),
    )

-- The scan fails exactly when there is a block to scan and either neither read path gives its bytes
-- or the memory map is empty; where it fails both outputs are 0.
pub scan_kernarg_footprint_fails :
    (p : Process) (va bytes : ℕ)
    → ((scan_kernarg_footprint p va bytes).0 ≡ false ↔ (
        (is_scanned va bytes ≡ true)
        × ((read_either p va (scan_bytes bytes) ≡ none) ⊎ (read_vmas p ≡ []))))
      × (((scan_kernarg_footprint p va bytes).0 ≡ true)
          ⊎ ((scan_kernarg_footprint p va bytes).1.mapped_vram_bytes ≡ 0)
            × ((scan_kernarg_footprint p va bytes).1.ptr_count ≡ 0))
unfolding scan_kernarg_footprint scan_buffer
scan_kernarg_footprint_fails p va bytes = ground arith
