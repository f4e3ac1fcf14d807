-- ===== src/Parser/SdmaOrder.antt =====
-- What the SDMA decoding loop of src/parser.cpp does to a queue: order and numbering of the packets.
use native.Mathlib.Nat.{zero-add, add-zero, suc-add, sub_self}
use mathlib.Core.List.{append-nil, append_assoc}
use hsa_snoop.Prelude.{
  add64, ℕ, zero, suc, ◌+◌, ◌-◌, ◌≤◌, ◌<◌, ◌≡◌, refl, sym, ap, ◌∙◌, false, List, [], ◌∷◌, ◌++◌,
  arith,
}
use hsa_snoop.Os.{Os}
use hsa_snoop.Model.{SdmaRecord}
use hsa_snoop.Parser.State.{QueueState}
use hsa_snoop.Parser.PollSdma.{plain_record, linear_record, sdma_record, accept_sdma}
use hsa_snoop.Parser.Order.{Asc, AllEntries, emplace_last, Asc-snoc, AllEntries-snoc}
use hsa_snoop.Parser.Step.{IsPointer}

-- The numbers `a`, `a + 1`, ... , `n` of them.
abbrev pub count_from : ℕ → ℕ → List ℕ
count_from a zero = []
count_from a (suc n) = a ∷ count_from (a + 1) n

pub count_from_append : (a m n : ℕ) → count_from a (m + n) ≡ count_from a m ++ count_from (a + m) n
count_from_append a zero n = rw (zero-add, add-zero) refl
count_from_append a (suc m) n = rw (suc-add) (
    ap (◌∷◌ a) (
      count_from_append (a + 1) m n
      ∙ ap (λ k. count_from (a + 1) m ++ count_from k n) (omega arith)))

pub count_from_join :
    (a b c : ℕ)
    → a ≤ b
    → b ≤ c
    → count_from a (b - a) ++ count_from b (c - b) ≡ count_from a (c - a)
count_from_join a b c p q = sym (
    ap (count_from a) (omega arith)
    ∙ count_from_append a (b - a) (c - b)
    ∙ ap (λ k. count_from a (b - a) ++ count_from k (c - b)) (omega arith))

abbrev pub seqs : List (ℕ × SdmaRecord) → List ℕ
seqs [] = []
seqs ((k, r) ∷ m) = r.seq ∷ seqs m

pub seqs-append : (m n : List (ℕ × SdmaRecord)) → seqs (m ++ n) ≡ seqs m ++ seqs n
seqs-append [] n = refl
seqs-append ((k, r) ∷ m) n = ap (◌∷◌ r.seq) (seqs-append m n)

pub record IsSdmaPending (now end : ℕ) (r : SdmaRecord) : Type 0 where
  pub stamped : r.submit_ts ≤ now
  pub incomplete : r.completed ≡ false

-- The invariant of an SDMA queue: packets are in flight under the dword behind them.
pub record IsSdmaValid (now : ℕ) (s : QueueState) : Type 0 where
  pub ascending : Asc 0 (s.next_id + 1) s.sdma_inflight
  pub pending : AllEntries (IsSdmaPending now) s.sdma_inflight
  pub numbered : s.sdma_seq ≤ s.next_id
  pub counted : s.dropped ≤ s.next_id
  pub pointer : IsPointer s.next_id

-- A stretch of the loop: the packets that it enters stand behind those in flight and have the next
-- numbers, in order.
pub record IsSdmaRun (wptr now : ℕ) (s s' : QueueState) : Type 0 where
  pub valid : IsSdmaValid now s'
  pub onward : s.next_id ≤ s'.next_id
  pub within : s.next_id ≤ wptr → s'.next_id ≤ wptr
  pub more : s.sdma_seq ≤ s'.sdma_seq
  pub entered :
      seqs s'.sdma_inflight
      ≡ seqs s.sdma_inflight ++ count_from s.sdma_seq (s'.sdma_seq - s.sdma_seq)
  pub behind : (added : List (ℕ × SdmaRecord)) × (s'.sdma_inflight ≡ s.sdma_inflight ++ added)
  pub same_info : s'.info ≡ s.info
  pub same_primed : s'.primed ≡ s.primed
  pub same_evict : s'.evict ≡ s.evict

pub IsSdmaRun-none : (wptr now : ℕ) (s : QueueState) → IsSdmaValid now s → IsSdmaRun wptr now s s
IsSdmaRun-none wptr now s v = record {
  valid = v;
  onward = omega arith;
  within = λ h. h;
  more = omega arith;
  entered = rw (sub_self, append-nil) refl;
  behind = ([], sym (append-nil s.sdma_inflight));
  same_info = refl;
  same_primed = refl;
  same_evict = refl;
}

pub IsSdmaRun-trans :
    (wptr now : ℕ) (s s' s'' : QueueState)
    → IsSdmaRun wptr now s s'
    → IsSdmaRun wptr now s' s''
    → IsSdmaRun wptr now s s''
IsSdmaRun-trans wptr now s s' s'' a b = record {
  valid = b.valid;
  onward = omega (arith, a.onward, b.onward);
  within = λ h. b.within (a.within h);
  more = omega (arith, a.more, b.more);
  entered =
      b.entered
      ∙ ap (λ xs. xs ++ count_from s'.sdma_seq (s''.sdma_seq - s'.sdma_seq)) a.entered
      ∙ append_assoc (seqs s.sdma_inflight) (count_from s.sdma_seq (s'.sdma_seq - s.sdma_seq)) _
      ∙ ap (◌++◌ (seqs s.sdma_inflight))
          (count_from_join s.sdma_seq s'.sdma_seq s''.sdma_seq a.more b.more);
  behind = (
    a.behind.0 ++ b.behind.0,
    b.behind.1
        ∙ ap (λ m. m ++ b.behind.0) a.behind.1
        ∙ append_assoc s.sdma_inflight a.behind.0 b.behind.0,
  );
  same_info = b.same_info ∙ a.same_info;
  same_primed = b.same_primed ∙ a.same_primed;
  same_evict = b.same_evict ∙ a.same_evict;
}

-- The record that a packet gets: its number is the queue's, and it is stamped now.
pub sdma_record_lem :
    (os : Os) (s : QueueState) (dws : List ℕ) (win now : ℕ)
    → let rec = (sdma_record os s dws win now).0 in
      (rec.seq ≡ s.sdma_seq)
      × (rec.submit_ts ≡ now)
      × (rec.completed ≡ false)
      × (rec.queue_uid ≡ s.info.uid)
unfolding sdma_record linear_record plain_record
sdma_record_lem os s dws win now = ground arith

pub accept_moves :
    (os : Os) (wptr win len now : ℕ) (s : QueueState) (dws : List ℕ)
    → IsPointer wptr
    → 1 ≤ len
    → s.next_id + len ≤ wptr
    → (s.next_id < (accept_sdma os s dws win len now).next_id)
      × ((accept_sdma os s dws win len now).next_id ≤ wptr)
unfolding accept_sdma
accept_moves os wptr win len now s dws hw h1 h2 = omega arith

pub accept_sdma_lem :
    (os : Os) (wptr win len now : ℕ) (s : QueueState) (dws : List ℕ)
    → IsPointer wptr
    → 1 ≤ len
    → s.next_id + len ≤ wptr
    → IsSdmaValid now s
    → IsSdmaRun wptr now s (accept_sdma os s dws win len now)
unfolding accept_sdma
accept_sdma_lem os wptr win len now s dws hw h1 h2 v =
    let rec = (sdma_record os s dws win now).0 in
    let r = sdma_record_lem os s dws win now in
    let e : add64 s.next_id len ≡ s.next_id + len = omega arith in
    let f : add64 s.sdma_seq 1 ≡ s.sdma_seq + 1 = omega arith in
    let g : s.sdma_seq + 1 - s.sdma_seq ≡ suc zero = omega arith in
    let last =
      emplace_last 0 (s.next_id + 1) (s.next_id + len) rec s.sdma_inflight (omega arith)
        v.ascending in
    rw (e, f, last)
      (record {
        valid = record {
          ascending =
              Asc-snoc 0 (s.next_id + 1) (s.next_id + len) rec s.sdma_inflight (omega arith)
                (omega arith) v.ascending;
          pending =
              AllEntries-snoc (IsSdmaPending now) (s.next_id + len) rec s.sdma_inflight v.pending
                (record { stamped = omega (arith, r.1); incomplete = r.2 });
          numbered = omega arith;
          counted = omega arith;
          pointer = omega arith;
        };
        onward = omega arith;
        within = λ _. h2;
        more = omega arith;
        entered = rw (seqs-append s.sdma_inflight ((s.next_id + len, rec) ∷ []), r.0, g) refl;
        behind = ((s.next_id + len, rec) ∷ [], refl);
        same_info = refl;
        same_primed = refl;
        same_evict = refl;
      })
