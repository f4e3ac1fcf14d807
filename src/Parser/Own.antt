-- ===== src/Parser/Own.antt =====
-- The queue that the AQL records of src/parser.cpp name: all that a queue's polls decode are its own.
use native.Mathlib.Omega.{arith}
use hsa_snoop.Prelude.{
  All, emplace, add64, ℕ, zero, suc, ◌-◌, ◌≡◌, refl, ◌∙◌, inl, inr, false, Option, none, some, List,
  [], ◌∷◌, ◌++◌, arith, ltb, leb, Bool-cases, Option-cases,
}
use hsa_snoop.Os.{Os}
use hsa_snoop.Model.{QueueInfo, PacketRecord, num_slots}
use hsa_snoop.Ksym.Resolve.{Resolver}
use hsa_snoop.Parser.State.{QueueState, new_queue, poll_failed, read_pointers, prime, skip_wrapped}
use hsa_snoop.Parser.Slot.{decode_slot}
use hsa_snoop.Parser.PollAql.{complete, accept, decode_step, decode_loop, poll_packets, poll_queue}
use hsa_snoop.Parser.Order.{AllEntries, retire-AllEntries, retire_out}
use hsa_snoop.Parser.Step.{IsDecoded, decode_slot_lem}
use hsa_snoop.Parser.History.{
  poll_queue_packets, poll_queue-prime, poll_queue_failed, Polls, run_polls,
}

abbrev pub IsOf : ℕ → PacketRecord → Type 0
IsOf uid r = r.queue_uid ≡ uid

-- The queue has this uid, and so have its records in flight.
record IsOwn (uid : ℕ) (s : QueueState) : Type 0 where
  named : s.info.uid ≡ uid
  pending : AllEntries (λ id r. IsOf uid r) s.inflight

-- The state after a part of a poll, and what the sink is called with.
abbrev Owns : ℕ → QueueState × List PacketRecord → Type 0
Owns uid (s, out) = IsOwn uid s × All (IsOf uid) out

abbrev IfOwns : ℕ → Option (QueueState × List PacketRecord) → Type 0
IfOwns uid none = Unit {0}
IfOwns uid (some r) = Owns uid r

emplace-AllEntries {ℓ κ} :
    {V : Type ℓ} (P : ℕ → V → Type κ) (k : ℕ) (v : V) (m : List (ℕ × V))
    → P k v
    → AllEntries P m
    → AllEntries P (emplace k v m)
unfolding emplace
emplace-AllEntries P k v [] h a = (h, tt)
emplace-AllEntries P k v ((j, w) ∷ m) h a =
    ground (arith, emplace-AllEntries P k v m h a.1, a.0, a.1, h)

All-append :
    (uid : ℕ) (xs ys : List PacketRecord)
    → All (IsOf uid) xs
    → All (IsOf uid) ys
    → All (IsOf uid) (xs ++ ys)
All-append uid [] ys h k = k
All-append uid (r ∷ xs) ys h k = (h.0, All-append uid xs ys h.1 k)

accept-Owns :
    (uid rptr now : ℕ) (s : QueueState) (rec : PacketRecord) (ksym : Resolver)
    → IsOwn uid s
    → IsOf uid rec
    → Owns uid (accept rptr now s rec ksym)
unfolding accept complete
accept-Owns uid rptr now s rec ksym o h = elim (Bool-cases (ltb s.next_id rptr)) [
  | inl e ↦ rw (accept, e) (record { named = o.named; pending = o.pending }, (h, tt))
  | inr e ↦
      rw (accept, e)
        (
          record {
            named = o.named;
            pending =
                emplace-AllEntries (λ id r. IsOf uid r) s.next_id (record rec { submit_ts = now })
                  s.inflight h o.pending;
          },
          tt,
        )
]

decode_step-IfOwns :
    (uid : ℕ) (os : Os) (wptr rptr now : ℕ) (s : QueueState)
    → IsOwn uid s
    → IfOwns uid (decode_step os wptr rptr now s)
unfolding decode_step
decode_step-IfOwns uid os wptr rptr now s o = elim (Bool-cases (ltb s.next_id wptr)) [
  | inr done ↦ rw (done, decode_step) tt
  | inl more ↦
      let slot = decode_slot_lem os s.info s.ksym s.next_id rptr in
      let next = (decode_slot os s.info s.ksym s.next_id rptr).1 in
      elim (Option-cases (decode_slot os s.info s.ksym s.next_id rptr).0) [
        | inr (rec, e) ↦
            let d : IsDecoded s.info s.next_id rec = rw e at slot in
            rw (more, e, decode_step)
              (accept-Owns uid rptr now s rec next o (d.names_queue ∙ o.named))
        | inl e ↦ elim (Bool-cases (ltb s.next_id rptr)) [
          | inr wait ↦ rw (more, e, wait, decode_step) tt
          | inl missed ↦
              rw (more, e, missed, decode_step)
                (record { named = o.named; pending = o.pending }, tt)
        ]
      ]
]

decode_loop-Owns :
    (uid : ℕ) (os : Os) (wptr rptr now fuel : ℕ) (s : QueueState)
    → IsOwn uid s
    → Owns uid (decode_loop os wptr rptr now fuel s)
unfolding decode_loop
decode_loop-Owns uid os wptr rptr now zero s o = (o, tt)
decode_loop-Owns uid os wptr rptr now (suc fuel) s o =
    let step = decode_step-IfOwns uid os wptr rptr now s o in
    elim (Option-cases (decode_step os wptr rptr now s)) [
      | inl e ↦ rw (e, decode_loop) (o, tt)
      | inr ((s', out), e) ↦
          let here : Owns uid (s', out) = rw e at step in
          let rest = decode_loop-Owns uid os wptr rptr now fuel s' here.0 in
          rw (e, decode_loop)
            (rest.0, All-append uid out (decode_loop os wptr rptr now fuel s').1 here.1 rest.1)
    ]

skip_wrapped-IsOwn :
    (uid wptr size : ℕ) (s : QueueState) → IsOwn uid s → IsOwn uid (skip_wrapped wptr size s)
unfolding skip_wrapped
skip_wrapped-IsOwn uid wptr size s o = elim (Bool-cases (ltb (add64 s.next_id size) wptr)) [
  | inl e ↦ rw (e, skip_wrapped) (record { named = o.named; pending = o.pending })
  | inr e ↦ rw (e, skip_wrapped) o
]

finished_own :
    (uid rptr now : ℕ) (m : List (ℕ × PacketRecord))
    → AllEntries (λ id r. IsOf uid r) m
    → AllEntries (λ id r. leb rptr id ≡ false → IsOf uid (complete now r)) m
unfolding complete
finished_own uid rptr now [] a = tt
finished_own uid rptr now ((id, r) ∷ m) a = (λ _. a.0, finished_own uid rptr now m a.1)

poll_packets-Owns :
    (uid : ℕ) (os : Os) (wptr rptr now : ℕ) (s : QueueState)
    → IsOwn uid s
    → Owns uid (poll_packets os wptr rptr now s)
unfolding poll_packets
poll_packets-Owns uid os wptr rptr now s o =
    let s0 = skip_wrapped wptr (num_slots s.info) s in
    let fuel = wptr - s0.next_id in
    let d = decode_loop os wptr rptr now fuel s0 in
    let l =
      decode_loop-Owns uid os wptr rptr now fuel s0
        (skip_wrapped-IsOwn uid wptr (num_slots s.info) s o) in
    let m = d.0.inflight in
    (
      record {
        named = l.0.named;
        pending = retire-AllEntries (leb rptr) (complete now) (λ id r. IsOf uid r) m l.0.pending;
      },
      All-append uid d.1 _ l.1 (
          retire_out (leb rptr) (complete now) (IsOf uid) m
            (finished_own uid rptr now m l.0.pending)),
    )

poll_queue-Owns :
    (uid : ℕ) (os : Os) (now : ℕ) (s : QueueState) → IsOwn uid s → Owns uid (poll_queue os now s)
unfolding poll_failed prime
poll_queue-Owns uid os now s o =
    let s' : QueueState = record s { read_fail_count = 0 } in
    let o' : IsOwn uid s' = record { named = o.named; pending = o.pending } in
    elim (Option-cases (read_pointers (os.process s.info.pid) s.info)) [
      | inl e ↦
          rw (poll_queue_failed os now s e) (record { named = o.named; pending = o.pending }, tt)
      | inr ((wptr, rptr), e) ↦ elim (Bool-cases s.primed) [
        | inr p ↦
            rw (poll_queue-prime os now wptr rptr s p e)
              (record { named = o.named; pending = o.pending }, tt)
        | inl p ↦
            rw (poll_queue_packets os now wptr rptr s p e)
              (poll_packets-Owns uid os wptr rptr now s' o')
      ]
    ]

run_polls-Owns :
    (uid : ℕ) (s : QueueState) (polls : Polls) → IsOwn uid s → Owns uid (run_polls s polls)
unfolding run_polls
run_polls-Owns uid s [] o = (o, tt)
run_polls-Owns uid s ((os, now) ∷ polls) o =
    let p = poll_queue-Owns uid os now s o in
    let polled = poll_queue os now s in
    let rest = run_polls-Owns uid polled.0 polls p.0 in
    (rest.0, All-append uid polled.1 (run_polls polled.0 polls).1 p.1 rest.1)

-- Everything that the polls of a newly added queue report names that queue.
pub new_queue-IsOf :
    (q : QueueInfo) (polls : Polls) → All (IsOf q.uid) (run_polls (new_queue q) polls).1
unfolding new_queue
new_queue-IsOf q polls =
    (run_polls-Owns q.uid (new_queue q) polls (record { named = refl; pending = tt })).1
