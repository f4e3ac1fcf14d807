-- ===== src/Parser/History.antt =====
-- The AQL path of src/parser.cpp over any number of polls: `PollQueue` as `Run` calls it again and
-- again on one queue.
use hsa_snoop.Prelude.{
  length, All, IsU32, ℕ, ◌+◌, ◌≤◌, ◌<◌, ◌≡◌, refl, ◌⊎◌, inl, inr, true, false, Option, none, some,
  List, [], ◌∷◌, ◌++◌, arith, leb, Bool-cases, Option-cases,
}
use hsa_snoop.Os.{Os}
use hsa_snoop.Model.{QueueInfo, PacketRecord}
use hsa_snoop.Parser.State.{QueueState, new_queue, poll_failed, read_pointers, prime}
use hsa_snoop.Parser.PollAql.{poll_packets, poll_queue}
use hsa_snoop.Parser.Order.{Asc, keys, AllEntries}
use hsa_snoop.Parser.Step.{IsPending, IsValid, IsDelivered, IsPointer}
use hsa_snoop.Parser.Accounting.{IsPoll, Stopped, poll_packets_lem}
use hsa_snoop.Parser.Occurs.{occurs, ids, Adds, Adds-trans, poll_packets-Adds}

-- Under these conditions a poll is one of `poll_packets`.
pub poll_queue_packets :
    (os : Os) (now wptr rptr : ℕ) (s : QueueState)
    → s.primed ≡ true
    → read_pointers (os.process s.info.pid) s.info ≡ some (wptr, rptr)
    → poll_queue os now s ≡ poll_packets os wptr rptr now (record s { read_fail_count = 0 })
unfolding poll_queue
poll_queue_packets os now wptr rptr s p e = rw (e, poll_queue) (rw p refl)

pub poll_queue-prime :
    (os : Os) (now wptr rptr : ℕ) (s : QueueState)
    → s.primed ≡ false
    → read_pointers (os.process s.info.pid) s.info ≡ some (wptr, rptr)
    → poll_queue os now s ≡ (prime wptr rptr (record s { read_fail_count = 0 }), [])
unfolding poll_queue
poll_queue-prime os now wptr rptr s p e = rw (e, poll_queue) (rw p refl)

pub poll_queue_failed :
    (os : Os) (now : ℕ) (s : QueueState)
    → read_pointers (os.process s.info.pid) s.info ≡ none
    → poll_queue os now s ≡ (poll_failed s, [])
unfolding poll_queue
poll_queue_failed os now s e = rw (e, poll_queue) refl

IsValid-reset :
    (now : ℕ) (s : QueueState) → IsValid now s → IsValid now (record s { read_fail_count = 0 })
IsValid-reset now s v = record {
  ascending = v.ascending;
  pending = v.pending;
  counted = v.counted;
  pointer = v.pointer;
}

pub poll_queue-IsPoll :
    (os : Os) (now wptr rptr : ℕ) (s : QueueState)
    → s.primed ≡ true
    → read_pointers (os.process s.info.pid) s.info ≡ some (wptr, rptr)
    → IsPointer wptr
    → IsU32 s.info.ring_size
    → IsValid now s
    → let (s', out) = poll_queue os now s in
      IsPoll os wptr rptr now (record s { read_fail_count = 0 }) s' out
poll_queue-IsPoll os now wptr rptr s p e hw hr v = rw (poll_queue_packets os now wptr rptr s p e) (
    poll_packets_lem os wptr rptr now (record s { read_fail_count = 0 }) hw hr
      (IsValid-reset now s v))

-- A poll of a primed AQL queue in a valid state, with readable pointers, keeps the state valid and
-- accounts for every dispatch id that it passes: `next_id` does not fall, it does not pass the write
-- pointer unless it had, and by as much as it advances the dropped packets, those in flight and
-- those handed to the sink together become more.
pub poll_queue_conserves :
    (os : Os) (now wptr rptr : ℕ) (s : QueueState)
    → s.primed ≡ true
    → read_pointers (os.process s.info.pid) s.info ≡ some (wptr, rptr)
    → IsPointer wptr
    → IsU32 s.info.ring_size
    → IsValid now s
    → let (s', out) = poll_queue os now s in
      IsValid now s'
      × (s.next_id ≤ s'.next_id)
      × ((s'.next_id ≤ wptr) ⊎ (wptr < s.next_id))
      × (s'.next_id + s.dropped + length s.inflight
          ≡ s.next_id + s'.dropped + length s'.inflight + length out)
poll_queue_conserves os now wptr rptr s p e hw hr v =
    let r = poll_queue-IsPoll os now wptr rptr s p e hw hr v in
    let within : ((poll_queue os now s).0.next_id ≤ wptr) ⊎ (wptr < s.next_id) =
      elim (Bool-cases (leb s.next_id wptr)) [
        | inl e ↦ inl (r.within (ground arith))
        | inr e ↦ inr (ground arith)
      ] in
    (r.valid, r.onward, within, r.count)

-- After a poll of a primed AQL queue in a valid state, with readable pointers, every record handed to
-- the sink is complete, completed now, submitted no later, and of a dispatch id below the read
-- pointer; and every record still in flight has an id at or above the read pointer.
pub poll_queue_delivers :
    (os : Os) (now wptr rptr : ℕ) (s : QueueState)
    → s.primed ≡ true
    → read_pointers (os.process s.info.pid) s.info ≡ some (wptr, rptr)
    → IsPointer wptr
    → IsU32 s.info.ring_size
    → IsValid now s
    → let (s', out) = poll_queue os now s in
      All (IsDelivered rptr now) out × AllEntries (λ id r. rptr ≤ id) s'.inflight
poll_queue_delivers os now wptr rptr s p e hw hr v =
    let r = poll_queue-IsPoll os now wptr rptr s p e hw hr v in (r.delivered, r.retired)

-- After a poll of a primed AQL queue in a valid state, with readable pointers, either every packet up
-- to the write pointer has been passed, or the packet at `next_id` is not consumed and cannot be
-- decoded yet: the rounds given to the decoding loop are enough.
pub poll_queue_stops :
    (os : Os) (now wptr rptr : ℕ) (s : QueueState)
    → s.primed ≡ true
    → read_pointers (os.process s.info.pid) s.info ≡ some (wptr, rptr)
    → IsPointer wptr
    → IsU32 s.info.ring_size
    → IsValid now s
    → Stopped os wptr rptr (poll_queue os now s).0
poll_queue_stops os now wptr rptr s p e hw hr v =
    (poll_queue-IsPoll os now wptr rptr s p e hw hr v).stopped

-- A queue between two polls, primed or not.
pub record IsQueue (now : ℕ) (s : QueueState) : Type 0 where
  pub valid : IsValid now s
  pub ring : IsU32 s.info.ring_size
  pub fresh : s.primed ≡ false → (s.inflight ≡ []) × (s.dropped ≡ 0) × (s.next_id ≡ 0)

abbrev pub PointersFit : Option (ℕ × ℕ) → Type 0
PointersFit none = Unit {0}
PointersFit (some (wptr, rptr)) = IsPointer wptr

-- A poll from `s` to `s'`, for one dispatch id.
pub record IsQueuePoll (now k : ℕ) (s s' : QueueState) (out : List PacketRecord) : Type 0 where
  pub queue : IsQueue now s'
  pub onward : s.next_id ≤ s'.next_id
  pub adds : Adds k s s' out
  pub same_info : s'.info ≡ s.info

IsPending-later :
    (now later : ℕ) (m : List (ℕ × PacketRecord))
    → now ≤ later
    → AllEntries (IsPending now) m
    → AllEntries (IsPending later) m
IsPending-later now later [] h a = tt
IsPending-later now later ((id, r) ∷ m) h a = (
  record { id_key = a.0.id_key; stamped = omega (arith, a.0.stamped); incomplete = a.0.incomplete },
  IsPending-later now later m h a.1,
)

pub IsQueue-later : (now later : ℕ) (s : QueueState) → now ≤ later → IsQueue now s → IsQueue later s
IsQueue-later now later s h q = record {
  valid = record {
    ascending = q.valid.ascending;
    pending = IsPending-later now later s.inflight h q.valid.pending;
    counted = q.valid.counted;
    pointer = q.valid.pointer;
  };
  ring = q.ring;
  fresh = q.fresh;
}

poll_failed_lem :
    (now k : ℕ) (s : QueueState) → IsQueue now s → IsQueuePoll now k s (poll_failed s) []
unfolding poll_failed
poll_failed_lem now k s q = record {
  queue = record {
    valid = record {
      ascending = q.valid.ascending;
      pending = q.valid.pending;
      counted = q.valid.counted;
      pointer = q.valid.pointer;
    };
    ring = q.ring;
    fresh = q.fresh;
  };
  onward = omega arith;
  adds = ground arith;
  same_info = refl;
}

prime_lem :
    (now k wptr rptr : ℕ) (s : QueueState)
    → IsPointer wptr
    → s.primed ≡ false
    → IsQueue now s
    → IsQueuePoll now k s (prime wptr rptr (record s { read_fail_count = 0 })) []
unfolding prime
prime_lem now k wptr rptr s hw p q =
    let (e, d, z) = q.fresh p in
    record {
      queue = record {
        valid = record {
          ascending = rw e tt;
          pending = q.valid.pending;
          counted = omega arith;
          pointer = hw;
        };
        ring = q.ring;
        fresh = λ h. absurd (cc);
      };
      onward = omega arith;
      adds = ground arith;
      same_info = refl;
    }

primed_lem :
    (os : Os) (now k wptr rptr : ℕ) (s : QueueState)
    → IsPointer wptr
    → s.primed ≡ true
    → IsQueue now s
    → let (s', out) = poll_packets os wptr rptr now (record s { read_fail_count = 0 }) in
      IsQueuePoll now k s s' out
primed_lem os now k wptr rptr s hw p q =
    let v = IsValid-reset now s q.valid in
    let t : QueueState = record s { read_fail_count = 0 } in
    let r = poll_packets_lem os wptr rptr now t hw q.ring v in
    record {
      queue = record {
        valid = r.valid;
        ring = rw (r.same_info) q.ring;
        fresh = λ h. absurd (cc (r.same_primed));
      };
      onward = r.onward;
      adds = poll_packets-Adds os k wptr rptr now t hw q.ring v;
      same_info = r.same_info;
    }

pub poll_queue_lem :
    (os : Os) (now k : ℕ) (s : QueueState)
    → PointersFit (read_pointers (os.process s.info.pid) s.info)
    → IsQueue now s
    → let (s', out) = poll_queue os now s in IsQueuePoll now k s s' out
poll_queue_lem os now k s fit q =
    elim (Option-cases (read_pointers (os.process s.info.pid) s.info)) [
      | inl e ↦ rw (poll_queue_failed os now s e) (poll_failed_lem now k s q)
      | inr ((wptr, rptr), e) ↦
          let hw = rw e at fit in
          elim (Bool-cases s.primed) [
            | inl p ↦
                rw (poll_queue_packets os now wptr rptr s p e)
                  (primed_lem os now k wptr rptr s hw p q)
            | inr p ↦
                rw (poll_queue-prime os now wptr rptr s p e) (prime_lem now k wptr rptr s hw p q)
          ]
    ]

-- The polls of one queue: each with the system's answers and its time.
abbrev pub Polls : Type 0
Polls = List (Os × ℕ)

unfoldable pub run_polls : QueueState → Polls → QueueState × List PacketRecord
unfolding poll_queue
run_polls s [] = (s, [])
run_polls s ((os, now) ∷ polls) =
    let (s', out) = poll_queue os now s in
    let (s'', rest) = run_polls s' polls in (s'', out ++ rest)

-- The times do not fall, and the write pointers that are read are in range.
abbrev pub PollsFit : ℕ → QueueInfo → Polls → Type 0
PollsFit t q [] = Unit {0}
PollsFit t q ((os, now) ∷ polls) =
    (t ≤ now) × PointersFit (read_pointers (os.process q.pid) q) × PollsFit now q polls

run_polls-Adds :
    (k t : ℕ) (s : QueueState) (polls : Polls)
    → IsQueue t s
    → PollsFit t s.info polls
    → let (s', out) = run_polls s polls in
      (s.next_id ≤ s'.next_id) × Adds k s s' out × Asc 0 s'.next_id s'.inflight
unfolding run_polls
run_polls-Adds k t s [] q fit = (omega arith, ground arith, q.valid.ascending)
run_polls-Adds k t s ((os, now) ∷ polls) q fit =
    let p = poll_queue_lem os now k s fit.1 (IsQueue-later t now s fit.0 q) in
    let polled = poll_queue os now s in
    let (onward, adds, asc) =
      run_polls-Adds k now polled.0 polls p.queue (rw (p.same_info) fit.2) in
    (
      omega (arith, p.onward, onward),
      Adds-trans k s polled.0 (run_polls polled.0 polls).0 polled.1 (run_polls polled.0 polls).1
          p.onward onward p.adds adds,
      asc,
    )

new_queue-IsQueue : (q : QueueInfo) → IsU32 q.ring_size → IsQueue 0 (new_queue q)
unfolding new_queue
new_queue-IsQueue q h = record {
  valid = record { ascending = tt; pending = tt; counted = omega arith; pointer = omega arith };
  ring = h;
  fresh = λ _. (refl, refl, refl);
}

-- From a newly added AQL queue on, over any number of polls at times that do not fall, failed reads
-- and wrapped rings included, no dispatch id is handed to the sink twice, and none that has been
-- handed over is in flight.
pub run_polls_once :
    (k : ℕ) (q : QueueInfo) (polls : Polls)
    → IsU32 q.ring_size
    → PollsFit 0 q polls
    → let (s', out) = run_polls (new_queue q) polls in
      occurs k (ids out) + occurs k (keys s'.inflight) ≤ 1
unfolding new_queue
run_polls_once k q polls h fit =
    let (onward, adds, asc) = run_polls-Adds k 0 (new_queue q) polls (new_queue-IsQueue q h) fit in
    ground (arith, adds)
