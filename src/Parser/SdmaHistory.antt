-- ===== src/Parser/SdmaHistory.antt =====
-- The SDMA path of src/parser.cpp over any number of polls.
use native.Mathlib.Nat.{sub_self}
use mathlib.Core.List.{append-nil, append_assoc}
use hsa_snoop.Prelude.{
  All, IsU32, ℕ, ◌-◌, ◌/◌, ◌≤◌, ◌<◌, ◌≡◌, refl, sym, ap, ◌∙◌, ◌≢◌, inl, inr, Bool, true, false,
  none, some, List, [], ◌∷◌, ◌++◌, arith, ◌==◌, Bool-cases, Option-cases,
}
use hsa_snoop.Os.{Os}
use hsa_snoop.Model.{QueueInfo, SdmaRecord, num_dwords}
use hsa_snoop.Parser.State.{QueueState, new_queue, poll_failed, read_pointers, prime}
use hsa_snoop.Parser.PollSdma.{poll_sdma_packets, poll_sdma_queue}
use hsa_snoop.Parser.Order.{AllEntries}
use hsa_snoop.Parser.Step.{IsPointer}
use hsa_snoop.Parser.SdmaOrder.{IsSdmaPending, IsSdmaValid, count_from, count_from_join, seqs}
use hsa_snoop.Parser.SdmaPoll.{IsSdmaPoll, SdmaStopped, poll_sdma_packets_lem}
use hsa_snoop.Parser.SdmaRetire.{IsSdmaDelivered, out_seqs, IsDivided}
use hsa_snoop.Parser.History.{PointersFit, Polls, PollsFit}

IsSdmaValid-reset :
    (now : ℕ) (s : QueueState)
    → IsSdmaValid now s
    → IsSdmaValid now (record s { read_fail_count = 0 })
IsSdmaValid-reset now s v = record {
  ascending = v.ascending;
  pending = v.pending;
  numbered = v.numbered;
  counted = v.counted;
  pointer = v.pointer;
}

poll_sdma_failed :
    (os : Os) (now : ℕ) (s : QueueState)
    → read_pointers (os.process s.info.pid) s.info ≡ none
    → poll_sdma_queue os now s ≡ (poll_failed s, [])
unfolding poll_sdma_queue
poll_sdma_failed os now s e = rw (e, poll_sdma_queue) refl

poll_sdma_no_ring :
    (os : Os) (now wptr_raw rptr_raw : ℕ) (s : QueueState)
    → (num_dwords s.info == 0) ≡ true
    → read_pointers (os.process s.info.pid) s.info ≡ some (wptr_raw, rptr_raw)
    → poll_sdma_queue os now s ≡ (record s { read_fail_count = 0 }, [])
unfolding poll_sdma_queue
poll_sdma_no_ring os now wptr_raw rptr_raw s z e = rw (e, poll_sdma_queue) (rw z refl)

poll_sdma_prime :
    (os : Os) (now wptr_raw rptr_raw : ℕ) (s : QueueState)
    → (num_dwords s.info == 0) ≡ false
    → s.primed ≡ false
    → read_pointers (os.process s.info.pid) s.info ≡ some (wptr_raw, rptr_raw)
    → poll_sdma_queue os now s
      ≡ (prime (wptr_raw / 4) (rptr_raw / 4) (record s { read_fail_count = 0 }), [])
unfolding poll_sdma_queue
poll_sdma_prime os now wptr_raw rptr_raw s z p e = rw (e, poll_sdma_queue) (rw (z, p) refl)

poll_sdma_primed :
    (os : Os) (now wptr_raw rptr_raw : ℕ) (s : QueueState)
    → (num_dwords s.info == 0) ≡ false
    → s.primed ≡ true
    → read_pointers (os.process s.info.pid) s.info ≡ some (wptr_raw, rptr_raw)
    → poll_sdma_queue os now s
      ≡ poll_sdma_packets os (wptr_raw / 4) (rptr_raw / 4) now (record s { read_fail_count = 0 })
unfolding poll_sdma_queue
poll_sdma_primed os now wptr_raw rptr_raw s z p e = rw (e, poll_sdma_queue) (rw (z, p) refl)

poll_sdma_IsPoll :
    (os : Os) (now wptr_raw rptr_raw : ℕ) (s : QueueState)
    → num_dwords s.info ≢ 0
    → s.primed ≡ true
    → read_pointers (os.process s.info.pid) s.info ≡ some (wptr_raw, rptr_raw)
    → IsPointer wptr_raw
    → IsU32 s.info.ring_size
    → IsSdmaValid now s
    → let (s', out) = poll_sdma_queue os now s in
      IsSdmaPoll os (wptr_raw / 4) (rptr_raw / 4) now (record s { read_fail_count = 0 }) s' out
poll_sdma_IsPoll os now wptr_raw rptr_raw s z p e hw hr v =
    rw (poll_sdma_primed os now wptr_raw rptr_raw s (ground arith) p e) (
      poll_sdma_packets_lem os (wptr_raw / 4) (rptr_raw / 4) now (record s { read_fail_count = 0 })
        (omega arith) hr (IsSdmaValid-reset now s v))

-- A poll of a primed SDMA queue in a valid state, with a ring and readable pointers, which are byte
-- offsets, keeps the state valid. It adds packets behind those in flight; of all of these, the ones
-- that end at the read pointer's dword or before it are handed to the sink, completed now, and the
-- others stay in flight as they are. Every record handed to the sink is complete, completed now and
-- submitted no later; what stays in flight ends behind the read pointer's dword. The rounds of the
-- decoding loop are enough: it ends at the write pointer, at an unreadable ring, or at a packet that
-- is not wholly published.
pub poll_sdma_delivers :
    (os : Os) (now wptr_raw rptr_raw : ℕ) (s : QueueState)
    → num_dwords s.info ≢ 0
    → s.primed ≡ true
    → read_pointers (os.process s.info.pid) s.info ≡ some (wptr_raw, rptr_raw)
    → IsPointer wptr_raw
    → IsU32 s.info.ring_size
    → IsSdmaValid now s
    → let (s', out) = poll_sdma_queue os now s in
      IsSdmaValid now s'
      × All (IsSdmaDelivered now) out
      × AllEntries (λ end r. rptr_raw / 4 < end) s'.sdma_inflight
      × IsDivided (rptr_raw / 4) now s.sdma_inflight s'.sdma_inflight out
      × SdmaStopped os (wptr_raw / 4) s'
poll_sdma_delivers os now wptr_raw rptr_raw s z p e hw hr v =
    let r = poll_sdma_IsPoll os now wptr_raw rptr_raw s z p e hw hr v in
    (r.valid, r.delivered, r.retired, r.divided, r.stopped)

-- A queue between two polls, primed or not.
pub record IsSdmaQueue (now : ℕ) (s : QueueState) : Type 0 where
  pub valid : IsSdmaValid now s
  pub ring : IsU32 s.info.ring_size
  pub fresh :
      s.primed ≡ false
      → (s.sdma_inflight ≡ []) × (s.dropped ≡ 0) × (s.next_id ≡ 0) × (s.sdma_seq ≡ 0)

-- A poll continues the sequence of packet numbers.
pub record IsSdmaQueuePoll (now : ℕ) (s s' : QueueState) (out : List SdmaRecord) : Type 0 where
  pub queue : IsSdmaQueue now s'
  pub more : s.sdma_seq ≤ s'.sdma_seq
  pub in_order :
      out_seqs out ++ seqs s'.sdma_inflight
      ≡ seqs s.sdma_inflight ++ count_from s.sdma_seq (s'.sdma_seq - s.sdma_seq)
  pub same_info : s'.info ≡ s.info

IsSdmaPending-later :
    (now later : ℕ) (m : List (ℕ × SdmaRecord))
    → now ≤ later
    → AllEntries (IsSdmaPending now) m
    → AllEntries (IsSdmaPending later) m
IsSdmaPending-later now later [] h a = tt
IsSdmaPending-later now later ((end, r) ∷ m) h a = (
  record { stamped = omega (arith, a.0.stamped); incomplete = a.0.incomplete },
  IsSdmaPending-later now later m h a.1,
)

IsSdmaQueue-later :
    (now later : ℕ) (s : QueueState) → now ≤ later → IsSdmaQueue now s → IsSdmaQueue later s
IsSdmaQueue-later now later s h q = record {
  valid = record {
    ascending = q.valid.ascending;
    pending = IsSdmaPending-later now later s.sdma_inflight h q.valid.pending;
    numbered = q.valid.numbered;
    counted = q.valid.counted;
    pointer = q.valid.pointer;
  };
  ring = q.ring;
  fresh = q.fresh;
}

-- A poll that enters nothing, and keeps what the invariant reads.
unchanged_lem :
    (now n : ℕ) (b : Bool) (s : QueueState)
    → IsSdmaQueue now s
    → IsSdmaQueuePoll now s (record s { read_fail_count = n; evict = b }) []
unchanged_lem now n b s q = record {
  queue = record {
    valid = record {
      ascending = q.valid.ascending;
      pending = q.valid.pending;
      numbered = q.valid.numbered;
      counted = q.valid.counted;
      pointer = q.valid.pointer;
    };
    ring = q.ring;
    fresh = q.fresh;
  };
  more = omega arith;
  in_order = rw (sub_self, append-nil) refl;
  same_info = refl;
}

prime_sdma_lem :
    (now wptr rptr : ℕ) (s : QueueState)
    → IsPointer wptr
    → s.primed ≡ false
    → IsSdmaQueue now s
    → IsSdmaQueuePoll now s (prime wptr rptr (record s { read_fail_count = 0 })) []
unfolding prime
prime_sdma_lem now wptr rptr s hw p q =
    let (e, d, z, n) = q.fresh p in
    record {
      queue = record {
        valid = record {
          ascending = rw e tt;
          pending = q.valid.pending;
          numbered = omega arith;
          counted = omega arith;
          pointer = hw;
        };
        ring = q.ring;
        fresh = λ h. absurd (cc);
      };
      more = omega arith;
      in_order = rw (sub_self, append-nil) refl;
      same_info = refl;
    }

poll_sdma_queue_lem :
    (os : Os) (now : ℕ) (s : QueueState)
    → PointersFit (read_pointers (os.process s.info.pid) s.info)
    → IsSdmaQueue now s
    → let (s', out) = poll_sdma_queue os now s in IsSdmaQueuePoll now s s' out
unfolding poll_failed
poll_sdma_queue_lem os now s fit q =
    elim (Option-cases (read_pointers (os.process s.info.pid) s.info)) [
      | inl e ↦ rw (poll_sdma_failed os now s e) (unchanged_lem now _ _ s q)
      | inr ((wptr, rptr), e) ↦
          let hw = rw e at fit in
          elim (Bool-cases (num_dwords s.info == 0)) [
            | inl z ↦
                rw (poll_sdma_no_ring os now wptr rptr s z e) (unchanged_lem now 0 s.evict s q)
            | inr z ↦ elim (Bool-cases s.primed) [
              | inr p ↦
                  rw (poll_sdma_prime os now wptr rptr s z p e)
                    (prime_sdma_lem now (wptr / 4) (rptr / 4) s (omega arith) p q)
              | inl p ↦
                  let r =
                    poll_sdma_IsPoll os now wptr rptr s (ground arith) p e hw q.ring q.valid in
                  record {
                    queue = record {
                      valid = r.valid;
                      ring = rw (r.same_info) q.ring;
                      fresh = λ h. absurd (cc (r.same_primed));
                    };
                    more = r.more;
                    in_order = r.in_order;
                    same_info = r.same_info;
                  }
            ]
          ]
    ]

unfoldable pub run_sdma_polls : QueueState → Polls → QueueState × List SdmaRecord
unfolding poll_sdma_queue
run_sdma_polls s [] = (s, [])
run_sdma_polls s ((os, now) ∷ polls) =
    let (s', out) = poll_sdma_queue os now s in
    let (s'', rest) = run_sdma_polls s' polls in (s'', out ++ rest)

out_seqs-append : (xs ys : List SdmaRecord) → out_seqs (xs ++ ys) ≡ out_seqs xs ++ out_seqs ys
out_seqs-append [] ys = refl
out_seqs-append (r ∷ xs) ys = ap (◌∷◌ r.seq) (out_seqs-append xs ys)

in_order_trans :
    (o o' i i' i'' c c' : List ℕ)
    → o ++ i' ≡ i ++ c
    → o' ++ i'' ≡ i' ++ c'
    → (o ++ o') ++ i'' ≡ i ++ (c ++ c')
in_order_trans o o' i i' i'' c c' p q =
    append_assoc o o' i''
    ∙ ap (◌++◌ o) q
    ∙ sym (append_assoc o i' c')
    ∙ ap (λ xs. xs ++ c') p
    ∙ append_assoc i c c'

run_sdma_polls_lem :
    (t : ℕ) (s : QueueState) (polls : Polls)
    → IsSdmaQueue t s
    → PollsFit t s.info polls
    → let (s', out) = run_sdma_polls s polls in
      (s.sdma_seq ≤ s'.sdma_seq)
      × (out_seqs out ++ seqs s'.sdma_inflight
          ≡ seqs s.sdma_inflight ++ count_from s.sdma_seq (s'.sdma_seq - s.sdma_seq))
unfolding run_sdma_polls
run_sdma_polls_lem t s [] q fit = (omega arith, rw (sub_self, append-nil) refl)
run_sdma_polls_lem t s ((os, now) ∷ polls) q fit =
    let p = poll_sdma_queue_lem os now s fit.1 (IsSdmaQueue-later t now s fit.0 q) in
    let polled = poll_sdma_queue os now s in
    let last = run_sdma_polls polled.0 polls in
    let (more, order) = run_sdma_polls_lem now polled.0 polls p.queue (rw (p.same_info) fit.2) in
    (
      omega (arith, p.more, more),
      ap (λ xs. xs ++ seqs last.0.sdma_inflight) (out_seqs-append polled.1 last.1)
          ∙ in_order_trans (out_seqs polled.1) (out_seqs last.1) (seqs s.sdma_inflight)
              (seqs polled.0.sdma_inflight) (seqs last.0.sdma_inflight) _ _ p.in_order order
          ∙ ap (◌++◌ (seqs s.sdma_inflight))
              (count_from_join s.sdma_seq polled.0.sdma_seq last.0.sdma_seq p.more more),
    )

new_queue-IsSdmaQueue : (q : QueueInfo) → IsU32 q.ring_size → IsSdmaQueue 0 (new_queue q)
unfolding new_queue
new_queue-IsSdmaQueue q h = record {
  valid = record {
    ascending = tt;
    pending = tt;
    numbered = omega arith;
    counted = omega arith;
    pointer = omega arith;
  };
  ring = h;
  fresh = λ _. (refl, refl, refl, refl);
}

-- From a newly added SDMA queue on, over any number of polls at times that do not fall, with failed
-- reads, resyncs and wrapped rings: the packet numbers handed to the sink, followed by those in
-- flight, are 0, 1, 2 and so on up to the number of packets decoded. So packets are reported in the
-- order of the ring, each once, and none is lost between decoding and reporting.
pub run_sdma_in_order :
    (q : QueueInfo) (polls : Polls)
    → IsU32 q.ring_size
    → PollsFit 0 q polls
    → let (s', out) = run_sdma_polls (new_queue q) polls in
      out_seqs out ++ seqs s'.sdma_inflight ≡ count_from 0 s'.sdma_seq
unfolding new_queue
run_sdma_in_order q polls h fit =
    (run_sdma_polls_lem 0 (new_queue q) polls (new_queue-IsSdmaQueue q h) fit).1
    ∙ ap (count_from 0) (omega arith)
