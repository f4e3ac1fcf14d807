-- ===== src/Parser/Eviction.antt =====
-- When a queue of src/parser.cpp is given up, and which memory its slots are read from.
use native.Mathlib.Nat.{mod-lt}
use hsa_snoop.Prelude.{
  length, IsU32, ℕ, ◌+◌, ◌*◌, ◌%◌, ◌^◌, ◌≤◌, ◌<◌, ◌≡◌, refl, ap, ◌∙◌, ◌≢◌, ◌⊎◌, inl, inr, true,
  false, none, some, [], ◌∷◌, arith, ltb, leb, ltb→lt, ltb→ge, Bool-cases,
}
use hsa_snoop.Os.{Os}
use hsa_snoop.Model.{QueueInfo, num_slots}
use hsa_snoop.Aql.Packet.{packet_size}
use hsa_snoop.Parser.State.{QueueState, evict_after, poll_failed, read_pointers}
use hsa_snoop.Parser.Slot.{slot_addr}
use hsa_snoop.Parser.PollAql.{poll_queue}
use hsa_snoop.Parser.Step.{IsValid, IsPointer}
use hsa_snoop.Parser.History.{poll_queue_failed, poll_queue-IsPoll, Polls, run_polls}

-- None of the polls can read the two pointers.
abbrev pub AllFail : QueueInfo → Polls → Type 0
AllFail q [] = Unit {0}
AllFail q ((os, now) ∷ polls) = (read_pointers (os.process q.pid) q ≡ none) × AllFail q polls

run_polls_failed :
    (s : QueueState) (polls : Polls)
    → s.evict ≡ leb evict_after s.read_fail_count
    → AllFail s.info polls
    → ((run_polls s polls).0.evict ≡ leb evict_after (s.read_fail_count + length polls))
      × ((run_polls s polls).1 ≡ [])
      × ((run_polls s polls).0.next_id ≡ s.next_id)
unfolding run_polls poll_failed
run_polls_failed s [] e fail = (e ∙ ap (leb evict_after) (omega arith), refl, refl)
run_polls_failed s ((os, now) ∷ polls) e fail =
    rw (run_polls, poll_queue_failed os now s fail.0)
      (let r = run_polls_failed (poll_failed s) polls (ground arith) fail.1 in
        (r.0 ∙ ap (leb evict_after) (omega arith), r.1, r.2))

-- A queue without failures that is polled any number of times with unreadable pointers is marked for
-- eviction exactly when the polls are 50 or more; nothing is reported and `next_id` stays.
pub evict_after_failures :
    (s : QueueState) (polls : Polls)
    → s.evict ≡ false
    → s.read_fail_count ≡ 0
    → AllFail s.info polls
    → ((run_polls s polls).0.evict ≡ leb 50 (length polls))
      × ((run_polls s polls).1 ≡ [])
      × ((run_polls s polls).0.next_id ≡ s.next_id)
evict_after_failures s polls he hc fail =
    let r = run_polls_failed s polls (ground arith) fail in
    (r.0 ∙ ap (leb 50) (omega arith), r.1, r.2)

-- One poll of a primed queue in a valid state with readable pointers clears the count of failures,
-- however high it was, and leaves the mark for eviction as it was: only consecutive failures add up.
pub poll_queue_recovers :
    (os : Os) (now wptr rptr : ℕ) (s : QueueState)
    → s.primed ≡ true
    → read_pointers (os.process s.info.pid) s.info ≡ some (wptr, rptr)
    → IsPointer wptr
    → IsU32 s.info.ring_size
    → IsValid now s
    → ((poll_queue os now s).0.read_fail_count ≡ 0) × ((poll_queue os now s).0.evict ≡ s.evict)
poll_queue_recovers os now wptr rptr s p e hw hr v =
    let t = poll_queue-IsPoll os now wptr rptr s p e hw hr v in (t.same_fails, t.same_evict)

mod_apart : (n i j : ℕ) → i < j → j < i + n → i % n ≢ j % n
mod_apart n i j h k = grind arith

-- Two different slots lie apart.
slots_apart :
    (base a b : ℕ)
    → a ≢ b
    → (base + a * 64 + packet_size ≤ base + b * 64) ⊎ (base + b * 64 + packet_size ≤ base + a * 64)
slots_apart base a b h = elim (Bool-cases (ltb a b)) [
  | inl lt ↦ inl (omega (arith, ltb→lt a b lt))
  | inr ge ↦ let le = ltb→ge a b ge in inr (omega (arith, le, h))
]

num_slots_lem :
    (q : QueueInfo)
    → packet_size ≤ q.ring_size
    → (0 < num_slots q) × (num_slots q * 64 ≤ q.ring_size)
unfolding num_slots
num_slots_lem q h = ground arith

slot_addr_lem :
    (q : QueueInfo) (i : ℕ)
    → packet_size ≤ q.ring_size
    → q.ring_base + q.ring_size ≤ 2 ^ 64
    → (slot_addr q i ≡ q.ring_base + i % num_slots q * 64) × (i % num_slots q < num_slots q)
unfolding slot_addr
slot_addr_lem q i h hb =
    let n = num_slots_lem q h in
    let m : i % num_slots q < num_slots q = mod-lt i n.0 in (omega (arith, n.1, m), m)

-- For a ring of at least one slot that ends within the 64-bit address space, every packet id has a
-- slot of 64 bytes that lies wholly in the ring, and the slots of two ids that are less than the
-- number of slots apart do not overlap.
pub slot_addr_bounds :
    (q : QueueInfo) (i j : ℕ)
    → packet_size ≤ q.ring_size
    → IsU32 q.ring_size
    → q.ring_base + q.ring_size ≤ 2 ^ 64
    → i < j
    → j < i + num_slots q
    → (q.ring_base ≤ slot_addr q i)
      × (slot_addr q i + packet_size ≤ q.ring_base + q.ring_size)
      × ((slot_addr q i + packet_size ≤ slot_addr q j)
          ⊎ (slot_addr q j + packet_size ≤ slot_addr q i))
slot_addr_bounds q i j h hr hb lt near =
    let n = num_slots_lem q h in
    let a = slot_addr_lem q i h hb in
    let b = slot_addr_lem q j h hb in
    (
      omega (arith, a.0),
      omega (arith, a.0, a.1, n.1),
      rw (a.0, b.0)
          (slots_apart q.ring_base (i % num_slots q) (j % num_slots q)
            (mod_apart (num_slots q) i j lt near)),
    )
