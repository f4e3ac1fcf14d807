-- ===== src/Parser/Ring.antt =====
-- The reads of an SDMA ring and the direction of a copy, in src/parser.cpp.
use hsa_snoop.Prelude.{
  length, take, drop, lookup, assign, add64, le_number, ℕ, zero, suc, ◌-◌, ◌*◌, ◌/◌, ◌%◌, ◌^◌, min,
  Bool, true, false, not, Option, none, some, List, [], ◌∷◌, ◌++◌, ltb, leb, ◌==◌, if◌then◌else◌,
}
use hsa_snoop.Os.{Process, Os}
use hsa_snoop.ProcMem.Reads.{read_proc_mem, virt_to_phys}
use hsa_snoop.Model.{QueueInfo, CopyDir, num_dwords}

-- The dwords of a buffer of `4 * n` bytes.
unfoldable pub dwords_of : ℕ → List ℕ → List ℕ
dwords_of zero bs = []
dwords_of (suc n) bs = le_number (take 4 bs) ∷ dwords_of n (drop 4 bs)

unfoldable pub read_ring_bytes : Process → QueueInfo → ℕ → ℕ → Option (List ℕ)
read_ring_bytes p q start_dw n =
    let ring_dw = num_dwords q in
    let off = start_dw % ring_dw in
    let first = min n (ring_dw - off) in
    if ring_dw == 0
    then none
    else elim (read_proc_mem p (add64 q.ring_base (off * 4)) (first * 4)) [
      | none ↦ none
      | some head ↦
          if ltb first n
          then elim (read_proc_mem p q.ring_base ((n - first) * 4)) [
            | none ↦ none
            | some tail ↦ some (head ++ tail)
          ]
          else some head
    ]

unfoldable pub read_ring_dwords : Process → QueueInfo → ℕ → ℕ → Option (List ℕ)
unfolding read_ring_bytes dwords_of
read_ring_dwords p q start_dw n = elim (read_ring_bytes p q start_dw n) [
  | none ↦ none
  | some bs ↦ some (dwords_of n bs)
]

abbrev pub page_cache_max : ℕ
page_cache_max = 2 ^ 16

-- The page cache as a map from page addresses.
abbrev pub PageCache : Type 0
PageCache = List (ℕ × Bool)

unfoldable pub is_host_va : Os → ℕ → PageCache → ℕ → Bool × PageCache
is_host_va os pid m va =
    let page = va / 4096 * 4096 in
    elim (lookup page m) [
      | some host ↦ (host, m)
      | none ↦
          let host = not (virt_to_phys os pid va == 0) in
          (host, assign page host (if leb page_cache_max (length m) then [] else m))
    ]

unfoldable pub dir_of : Bool → Bool → CopyDir
dir_of true false = CopyDir.host_to_device
dir_of false true = CopyDir.device_to_host
dir_of false false = CopyDir.device_to_device
dir_of true true = CopyDir.host_to_host

unfoldable pub classify_dir : Os → ℕ → PageCache → ℕ → ℕ → CopyDir × PageCache
unfolding is_host_va dir_of
classify_dir os pid m src dst =
    let (src_host, m1) = is_host_va os pid m src in
    let (dst_host, m2) = is_host_va os pid m1 dst in (dir_of src_host dst_host, m2)
