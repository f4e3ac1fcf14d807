-- ===== src/Parser/RingReads.antt =====
-- What `ReadRingDwords` of src/parser.cpp reads from a ring that wraps.
use native.Mathlib.Nat.{zero-add, add-zero, suc-add}
use hsa_snoop.Prelude.{
  length, add64, le_number, ℕ, zero, suc, ◌+◌, ◌-◌, ◌*◌, ◌%◌, ◌^◌, ◌≤◌, ◌<◌, min, ◌≡◌, refl, sym,
  ap, ◌∙◌, ◌≢◌, inl, inr, true, false, some, List, [], ◌∷◌, ◌++◌, arith, ltb, leb, ◌==◌, Bool-cases,
}
use hsa_snoop.Os.{Process}
use hsa_snoop.ProcMem.Reads.{read_proc_mem}
use hsa_snoop.Model.{QueueInfo, num_dwords}
use hsa_snoop.Parser.Ring.{dwords_of, read_ring_bytes, read_ring_dwords}

-- The `n` bytes of a memory from an address on.
abbrev pub bytes_from : (ℕ → ℕ) → ℕ → ℕ → List ℕ
bytes_from mem va zero = []
bytes_from mem va (suc n) = mem va ∷ bytes_from mem (va + 1) n

-- The process's memory is the map `mem` on the range: every read inside it transfers all its bytes.
abbrev pub Backs : (ℕ → ℕ) → Process → ℕ → ℕ → Type 0
Backs mem p base size =
    (va len : ℕ)
    → base ≤ va
    → va + len ≤ base + size
    → p.vm_readv va len ≡ some (bytes_from mem va len)

-- The dword at a ring index, wherever the index lies.
unfoldable pub ring_dword : (ℕ → ℕ) → QueueInfo → ℕ → ℕ
ring_dword mem q i = le_number (bytes_from mem (q.ring_base + i % num_dwords q * 4) 4)

-- The dwords at `n` indices from `start` on.
unfoldable pub ring_dwords : (ℕ → ℕ) → QueueInfo → ℕ → ℕ → List ℕ
unfolding ring_dword
ring_dwords mem q start zero = []
ring_dwords mem q start (suc n) = ring_dword mem q start ∷ ring_dwords mem q (start + 1) n

length-bytes_from : (mem : ℕ → ℕ) (va n : ℕ) → length (bytes_from mem va n) ≡ n
length-bytes_from mem va zero = refl
length-bytes_from mem va (suc n) = ap suc (length-bytes_from mem (va + 1) n)

bytes_from_four :
    (mem : ℕ → ℕ) (va n : ℕ)
    → bytes_from mem va (suc n * 4) ≡ bytes_from mem va 4 ++ bytes_from mem (va + 4) (n * 4)
bytes_from_four mem va n =
    ap (bytes_from mem va) (four n)
    ∙ ap
        (λ k.
          mem va
          ∷ mem (va + 1)
          ∷ mem (va + 1 + 1)
          ∷ mem (va + 1 + 1 + 1)
          ∷ bytes_from mem k (n * 4))
        (omega arith)
  where
    four : (n : ℕ) → suc n * 4 ≡ suc (suc (suc (suc (n * 4))))
    four n = omega arith

-- The dwords of consecutive bytes.
dwords_at : (ℕ → ℕ) → ℕ → ℕ → List ℕ
dwords_at mem va zero = []
dwords_at mem va (suc n) = le_number (bytes_from mem va 4) ∷ dwords_at mem (va + 4) n

dwords_of-bytes :
    (mem : ℕ → ℕ) (va n : ℕ) (rest : List ℕ) (k : ℕ)
    → dwords_of (n + k) (bytes_from mem va (n * 4) ++ rest) ≡ dwords_at mem va n ++ dwords_of k rest
unfolding dwords_of dwords_at
dwords_of-bytes mem va zero rest k = rw zero-add refl
dwords_of-bytes mem va (suc n) rest k =
    rw (suc-add, bytes_from_four mem va n)
      (ap (λ ds. le_number (bytes_from mem va 4) ∷ ds) (dwords_of-bytes mem (va + 4) n rest k))

mod_below : (m i : ℕ) → m ≢ 0 → i % m < m
mod_below m i h = omega arith

mod_next : (m i : ℕ) → i % m + 1 < m → (i + 1) % m ≡ i % m + 1
mod_next m i h = grind arith

mod_end : (m i : ℕ) → i % m < m → (i + (m - i % m)) % m ≡ 0
mod_end m i h = grind arith

ring_dwords_straight :
    (mem : ℕ → ℕ) (q : QueueInfo) (start n : ℕ)
    → start % num_dwords q + n ≤ num_dwords q
    → ring_dwords mem q start n ≡ dwords_at mem (q.ring_base + start % num_dwords q * 4) n
unfolding ring_dwords dwords_at ring_dword
ring_dwords_straight mem q start zero h = refl
ring_dwords_straight mem q start (suc zero) h = refl
ring_dwords_straight mem q start (suc (suc n)) h =
    let e : (start + 1) % num_dwords q ≡ start % num_dwords q + 1 =
      mod_next (num_dwords q) start (omega arith) in
    let k : q.ring_base + (start + 1) % num_dwords q * 4
        ≡ q.ring_base + start % num_dwords q * 4 + 4 =
      rw (e) (omega arith) in
    let h' : (start + 1) % num_dwords q + suc n ≤ num_dwords q = rw (e) (omega arith) in
    ap (λ ds. ring_dword mem q start ∷ ds)
      (ring_dwords_straight mem q (start + 1) (suc n) h' ∙ ap (λ va. dwords_at mem va (suc n)) k)

ring_dwords_append :
    (mem : ℕ → ℕ) (q : QueueInfo) (start m n : ℕ)
    → ring_dwords mem q start (m + n) ≡ ring_dwords mem q start m ++ ring_dwords mem q (start + m) n
unfolding ring_dwords
ring_dwords_append mem q start zero n = rw (zero-add, add-zero) refl
ring_dwords_append mem q start (suc m) n =
    let e : start + 1 + m ≡ start + suc m = omega arith in
    rw suc-add (
      ap (λ ds. ring_dword mem q start ∷ ds)
        (ring_dwords_append mem q (start + 1) m n
          ∙ ap (λ k. ring_dwords mem q (start + 1) m ++ ring_dwords mem q k n) e))

dwords_of-all :
    (mem : ℕ → ℕ) (va n : ℕ) → dwords_of n (bytes_from mem va (n * 4)) ≡ dwords_at mem va n
unfolding dwords_of dwords_at
dwords_of-all mem va zero = refl
dwords_of-all mem va (suc n) =
    rw (bytes_from_four mem va n)
      (ap (λ ds. le_number (bytes_from mem va 4) ∷ ds) (dwords_of-all mem (va + 4) n))

ring_dwords_from :
    (mem : ℕ → ℕ) (q : QueueInfo) (start r n : ℕ)
    → start % num_dwords q ≡ r
    → r + n ≤ num_dwords q
    → ring_dwords mem q start n ≡ dwords_at mem (q.ring_base + r * 4) n
ring_dwords_from mem q start r n e h =
    let k : start % num_dwords q + n ≤ num_dwords q = rw (e) h in
    ring_dwords_straight mem q start n k ∙ ap (λ j. dwords_at mem (q.ring_base + j * 4) n) e

ring_dwords_parts :
    (mem : ℕ → ℕ) (q : QueueInfo) (start m k : ℕ)
    → (start + m) % num_dwords q ≡ 0
    → start % num_dwords q + m ≤ num_dwords q
    → k ≤ num_dwords q
    → dwords_of (m + k) (
        bytes_from mem (q.ring_base + start % num_dwords q * 4) (m * 4)
        ++ bytes_from mem q.ring_base (k * 4))
      ≡ ring_dwords mem q start (m + k)
ring_dwords_parts mem q start m k e hm hk =
    let s = ring_dwords_from mem q (start + m) 0 k e (omega arith) in
    let z : q.ring_base + 0 * 4 ≡ q.ring_base = omega arith in
    rw
      (
        dwords_of-bytes mem (q.ring_base + start % num_dwords q * 4) m
            (bytes_from mem q.ring_base (k * 4)) k,
        dwords_of-all mem q.ring_base k,
        ring_dwords_append mem q start m k,
        ring_dwords_straight mem q start m hm,
        s,
      )
      (ap (λ va. dwords_at mem (q.ring_base + start % num_dwords q * 4) m ++ dwords_at mem va k)
        (sym z))

-- The two parts of a read that wraps are the dwords round the end of the ring.
ring_dwords_wrapped :
    (mem : ℕ → ℕ) (q : QueueInfo) (start n : ℕ)
    → num_dwords q ≢ 0
    → n ≤ num_dwords q
    → num_dwords q < start % num_dwords q + n
    → dwords_of n (
        bytes_from mem
          (q.ring_base + start % num_dwords q * 4)
          ((num_dwords q - start % num_dwords q) * 4)
        ++ bytes_from mem q.ring_base ((n - (num_dwords q - start % num_dwords q)) * 4))
      ≡ ring_dwords mem q start n
ring_dwords_wrapped mem q start n hz hn h =
    let o = mod_below (num_dwords q) start hz in
    let e : n ≡ num_dwords q - start % num_dwords q + (n - (num_dwords q - start % num_dwords q)) =
      omega arith in
    ap
      (λ j. dwords_of j (
        bytes_from mem (q.ring_base + start % num_dwords q * 4)
          ((num_dwords q - start % num_dwords q) * 4)
        ++ bytes_from mem q.ring_base ((n - (num_dwords q - start % num_dwords q)) * 4)))
      e
    ∙ ring_dwords_parts mem q start (num_dwords q - start % num_dwords q)
        (n - (num_dwords q - start % num_dwords q)) (mod_end (num_dwords q) start o) (omega arith)
        (omega arith)
    ∙ ap (ring_dwords mem q start) (sym e)

read_full :
    (mem : ℕ → ℕ) (p : Process) (base size va len : ℕ)
    → Backs mem p base size
    → base ≤ va
    → va + len ≤ base + size
    → read_proc_mem p va len ≡ some (bytes_from mem va len)
unfolding read_proc_mem
read_full mem p base size va len b h k =
    rw (b va len h k, length-bytes_from mem va len) (ground arith)

read_ring_bytes_straight :
    (mem : ℕ → ℕ) (p : Process) (q : QueueInfo) (start n : ℕ)
    → Backs mem p q.ring_base (num_dwords q * 4)
    → q.ring_base + num_dwords q * 4 ≤ 2 ^ 64
    → num_dwords q ≢ 0
    → start % num_dwords q + n ≤ num_dwords q
    → read_ring_bytes p q start n
      ≡ some (bytes_from mem (q.ring_base + start % num_dwords q * 4) (n * 4))
unfolding read_ring_bytes
read_ring_bytes_straight mem p q start n b hb hz h =
    let o = mod_below (num_dwords q) start hz in
    let e : add64 q.ring_base (start % num_dwords q * 4) ≡ q.ring_base + start % num_dwords q * 4 =
      omega arith in
    let f : min n (num_dwords q - start % num_dwords q) ≡ n = omega arith in
    let g =
      read_full mem p q.ring_base (num_dwords q * 4) (q.ring_base + start % num_dwords q * 4)
        (n * 4) b (omega arith) (omega arith) in
    rw (f, e, g) (ground arith)

read_ring_bytes_wrapped :
    (mem : ℕ → ℕ) (p : Process) (q : QueueInfo) (start n : ℕ)
    → Backs mem p q.ring_base (num_dwords q * 4)
    → q.ring_base + num_dwords q * 4 ≤ 2 ^ 64
    → num_dwords q ≢ 0
    → n ≤ num_dwords q
    → num_dwords q < start % num_dwords q + n
    → read_ring_bytes p q start n
      ≡ some (
          bytes_from mem
            (q.ring_base + start % num_dwords q * 4)
            ((num_dwords q - start % num_dwords q) * 4)
          ++ bytes_from mem q.ring_base ((n - (num_dwords q - start % num_dwords q)) * 4))
unfolding read_ring_bytes
read_ring_bytes_wrapped mem p q start n b hb hz hn h =
    let o = mod_below (num_dwords q) start hz in
    let e : add64 q.ring_base (start % num_dwords q * 4) ≡ q.ring_base + start % num_dwords q * 4 =
      omega arith in
    let f : min n (num_dwords q - start % num_dwords q) ≡ num_dwords q - start % num_dwords q =
      omega arith in
    let g =
      read_full mem p q.ring_base (num_dwords q * 4) (q.ring_base + start % num_dwords q * 4)
        ((num_dwords q - start % num_dwords q) * 4) b (omega arith) (omega arith) in
    let k =
      read_full mem p q.ring_base (num_dwords q * 4) q.ring_base
        ((n - (num_dwords q - start % num_dwords q)) * 4) b (omega arith) (omega arith) in
    let k' : read_proc_mem p q.ring_base ((n - min n (num_dwords q - start % num_dwords q)) * 4)
        ≡ some (bytes_from mem q.ring_base ((n - (num_dwords q - start % num_dwords q)) * 4)) =
      rw f k in
    let z : (num_dwords q == 0) ≡ false = ground arith in
    let w : ltb (min n (num_dwords q - start % num_dwords q)) n ≡ true = ground arith in
    rw (z, f, e, g, w, k') refl

-- If the ring's memory can be read and the ring ends within the 64-bit address space, a read of at
-- most a whole ring from any start index gives, one by one, the dwords at the indices from `start`
-- on, taken round the end of the ring.
pub read_ring_dwords_lem :
    (mem : ℕ → ℕ) (p : Process) (q : QueueInfo) (start n : ℕ)
    → Backs mem p q.ring_base (num_dwords q * 4)
    → q.ring_base + num_dwords q * 4 ≤ 2 ^ 64
    → num_dwords q ≢ 0
    → n ≤ num_dwords q
    → read_ring_dwords p q start n ≡ some (ring_dwords mem q start n)
unfolding read_ring_dwords ring_dwords
read_ring_dwords_lem mem p q start n b hb hz hn =
    elim (Bool-cases (leb (start % num_dwords q + n) (num_dwords q))) [
      | inl e ↦
          let h : start % num_dwords q + n ≤ num_dwords q = ground arith in
          rw (read_ring_dwords, read_ring_bytes_straight mem p q start n b hb hz h)
            (ap some (
              dwords_of-all mem (q.ring_base + start % num_dwords q * 4) n
              ∙ sym (ring_dwords_straight mem q start n h)))
      | inr e ↦
          let h : num_dwords q < start % num_dwords q + n = ground arith in
          rw (read_ring_dwords, read_ring_bytes_wrapped mem p q start n b hb hz hn h)
            (ap some (ring_dwords_wrapped mem q start n hz hn h))
    ]
