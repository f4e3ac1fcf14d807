-- ===== src/Parser/Step.antt =====
-- What one round of the AQL decoding loop of src/parser.cpp does.
use hsa_snoop.Prelude.{
  length, All, length-append, add64, ℕ, ◌+◌, ◌^◌, ◌≤◌, ◌<◌, ◌≡◌, refl, inl, inr, true, false, not,
  ◌&&◌, Option, none, some, List, [], ◌∷◌, arith, ltb, ◌==◌, ltb→lt, Bool-cases, Option-cases,
}
use hsa_snoop.Os.{Os}
use hsa_snoop.ProcMem.Reads.{read_proc_mem}
use hsa_snoop.Model.{QueueInfo, PacketRecord, num_slots}
use hsa_snoop.Aql.Packet.{
  PacketType, invalid, kernel_dispatch, packet_size, header_type, field_at,
  to_kernel_dispatch_packet,
}
use hsa_snoop.Ksym.Resolve.{Resolver}
use hsa_snoop.Parser.State.{QueueState}
use hsa_snoop.Parser.Slot.{slot_addr, decode_invalid, decode_typed, decode_slot}
use hsa_snoop.Parser.PollAql.{accept, decode_step}
use hsa_snoop.Parser.Order.{Asc, AllEntries, Asc-widen, emplace_last, Asc-snoc, AllEntries-snoc}

-- A pointer that a queue can reach: 2^63 packets are not enqueued in practice.
abbrev pub IsPointer : ℕ → Type 0
IsPointer n = n < 2 ^ 63

-- An entry of `inflight`: its record is that of its key, has been stamped no later than `now`, and is
-- not complete.
pub record IsPending (now id : ℕ) (r : PacketRecord) : Type 0 where
  pub id_key : r.dispatch_id ≡ id
  pub stamped : r.submit_ts ≤ now
  pub incomplete : r.completed ≡ false

-- The invariant of a primed AQL queue.
pub record IsValid (now : ℕ) (s : QueueState) : Type 0 where
  pub ascending : Asc 0 s.next_id s.inflight
  pub pending : AllEntries (IsPending now) s.inflight
  pub counted : s.dropped ≤ s.next_id
  pub pointer : IsPointer s.next_id

-- What the sink may be told at `now`, the read pointer being `rptr`.
pub record IsDelivered (rptr now : ℕ) (r : PacketRecord) : Type 0 where
  pub consumed : r.dispatch_id < rptr
  pub complete : r.completed ≡ true
  pub finished : r.complete_ts ≡ now
  pub started : r.submit_ts ≤ now

-- A decoded record names the slot's id, has no time yet, and belongs to the queue.
pub record IsDecoded (q : QueueInfo) (id : ℕ) (r : PacketRecord) : Type 0 where
  pub names_id : r.dispatch_id ≡ id
  pub incomplete : r.completed ≡ false
  pub names_queue : r.queue_uid ≡ q.uid

abbrev pub IfDecoded : QueueInfo → ℕ → Option PacketRecord → Type 0
IfDecoded q id none = Unit {0}
IfDecoded q id (some r) = IsDecoded q id r

pub decoded_id : (q : QueueInfo) (id : ℕ) (r : PacketRecord) → IsDecoded q id r → r.dispatch_id ≡ id
decoded_id q id r d = d.names_id

decode_invalid_lem :
    (os : Os) (q : QueueInfo) (ksym : Resolver) (id rptr : ℕ) (raw : List ℕ)
    → IfDecoded q id (decode_invalid os q ksym id rptr raw).0
unfolding decode_invalid
decode_invalid_lem os q ksym id rptr raw =
    elim (Bool-cases (ltb id rptr && not ((to_kernel_dispatch_packet raw).kernel_object == 0))) [
      | inl e ↦
          rw (e, decode_invalid) (record { names_id = refl; incomplete = refl; names_queue = refl })
      | inr e ↦ rw (e, decode_invalid) tt
    ]

decode_typed_lem :
    (os : Os) (q : QueueInfo) (ksym : Resolver) (id rptr : ℕ) (raw : List ℕ) (type : PacketType)
    → IfDecoded q id (decode_typed os q ksym id rptr raw type).0
unfolding decode_typed
decode_typed_lem os q ksym id rptr raw invalid = decode_invalid_lem os q ksym id rptr raw
decode_typed_lem os q ksym id rptr raw kernel_dispatch = record {
  names_id = refl;
  incomplete = refl;
  names_queue = refl;
}
decode_typed_lem os q ksym id rptr raw type = record {
  names_id = refl;
  incomplete = refl;
  names_queue = refl;
}

pub decode_slot_lem :
    (os : Os) (q : QueueInfo) (ksym : Resolver) (id rptr : ℕ)
    → IfDecoded q id (decode_slot os q ksym id rptr).0
unfolding decode_slot
decode_slot_lem os q ksym id rptr = elim (Bool-cases (num_slots q == 0)) [
  | inl e ↦ rw (e, decode_slot) tt
  | inr e ↦ elim (Option-cases (read_proc_mem (os.process q.pid) (slot_addr q id) packet_size)) [
    | inl r ↦ rw (e, r, decode_slot) tt
    | inr (raw, r) ↦
        rw (e, r, decode_slot)
          (decode_typed_lem os q ksym id rptr raw (header_type (field_at 0 2 raw)))
  ]
]

-- The state and the output of one round that goes on.
pub record IsStep (wptr rptr now : ℕ) (s s' : QueueState) (out : List PacketRecord) : Type 0 where
  pub next : s'.next_id ≡ s.next_id + 1
  pub room : s.next_id < wptr
  pub count : s'.dropped + length s'.inflight + length out ≡ s.dropped + length s.inflight + 1
  pub few_dropped : s'.dropped ≤ s.dropped + 1
  pub ascending : Asc 0 s'.next_id s'.inflight
  pub pending : AllEntries (IsPending now) s'.inflight
  pub delivered : All (IsDelivered rptr now) out
  pub same_info : s'.info ≡ s.info
  pub same_primed : s'.primed ≡ s.primed
  pub same_evict : s'.evict ≡ s.evict
  pub same_fails : s'.read_fail_count ≡ s.read_fail_count

accept_lem :
    (wptr rptr now : ℕ) (s : QueueState) (rec : PacketRecord) (ksym : Resolver)
    → IsValid now s
    → s.next_id < wptr
    → IsDecoded s.info s.next_id rec
    → let (s', out) = accept rptr now s rec ksym in IsStep wptr rptr now s s' out
unfolding accept
accept_lem wptr rptr now s rec ksym v h d =
    let e : add64 s.next_id 1 ≡ s.next_id + 1 = omega arith in
    elim (Bool-cases (ltb s.next_id rptr)) [
      | inl early ↦
          rw (early, accept, e)
            (record {
              next = refl;
              room = h;
              count = omega arith;
              few_dropped = omega arith;
              ascending =
                  Asc-widen 0 0 s.next_id (s.next_id + 1) s.inflight (omega arith) (omega arith)
                    v.ascending;
              pending = v.pending;
              delivered = (
                record {
                  consumed = omega (arith, ltb→lt s.next_id rptr early, d.names_id);
                  complete = refl;
                  finished = refl;
                  started = omega arith;
                },
                tt,
              );
              same_info = refl;
              same_primed = refl;
              same_evict = refl;
              same_fails = refl;
            })
      | inr late ↦
          let last =
            emplace_last 0 s.next_id s.next_id (record rec { submit_ts = now }) s.inflight
              (omega arith) v.ascending in
          rw (late, accept, e, last)
            (record {
              next = refl;
              room = h;
              count = omega (
                arith,
                length-append s.inflight ((s.next_id, record rec { submit_ts = now }) ∷ []),
              );
              few_dropped = omega arith;
              ascending =
                  Asc-snoc 0 s.next_id s.next_id _ s.inflight (omega arith) (omega arith)
                    v.ascending;
              pending = AllEntries-snoc (IsPending now) s.next_id _ s.inflight v.pending (record {
                id_key = d.names_id;
                stamped = omega arith;
                incomplete = d.incomplete;
              });
              delivered = tt;
              same_info = refl;
              same_primed = refl;
              same_evict = refl;
              same_fails = refl;
            })
    ]

missed_lem :
    (wptr rptr now : ℕ) (s : QueueState)
    → IsValid now s
    → s.next_id < wptr
    → IsStep wptr rptr now s
        (record s { dropped = add64 s.dropped 1; next_id = add64 s.next_id 1 })
        []
missed_lem wptr rptr now s v h =
    let e : add64 s.next_id 1 ≡ s.next_id + 1 = omega arith in
    let f : add64 s.dropped 1 ≡ s.dropped + 1 = omega arith in
    rw (e, f)
      (record {
        next = refl;
        room = h;
        count = omega arith;
        few_dropped = omega arith;
        ascending =
            Asc-widen 0 0 s.next_id (s.next_id + 1) s.inflight (omega arith) (omega arith)
              v.ascending;
        pending = v.pending;
        delivered = tt;
        same_info = refl;
        same_primed = refl;
        same_evict = refl;
        same_fails = refl;
      })

abbrev pub StepOutcome : ℕ → ℕ → ℕ → QueueState → Option (QueueState × List PacketRecord) → Type 0
StepOutcome wptr rptr now s none = Unit {0}
StepOutcome wptr rptr now s (some (s', out)) = IsStep wptr rptr now s s' out

pub decode_step_lem :
    (os : Os) (wptr rptr now : ℕ) (s : QueueState)
    → IsValid now s
    → StepOutcome wptr rptr now s (decode_step os wptr rptr now s)
unfolding decode_step
decode_step_lem os wptr rptr now s v = elim (Bool-cases (ltb s.next_id wptr)) [
  | inr done ↦ rw (done, decode_step) tt
  | inl more ↦
      let h = ltb→lt s.next_id wptr more in
      let slot = decode_slot_lem os s.info s.ksym s.next_id rptr in
      elim (Option-cases (decode_slot os s.info s.ksym s.next_id rptr).0) [
        | inr (rec, e) ↦
            rw (more, e, decode_step)
              (accept_lem wptr rptr now s rec (decode_slot os s.info s.ksym s.next_id rptr).1 v h
                (rw e at slot))
        | inl e ↦ elim (Bool-cases (ltb s.next_id rptr)) [
          | inr wait ↦ rw (more, e, wait, decode_step) tt
          | inl missed ↦ rw (more, e, missed, decode_step) (missed_lem wptr rptr now s v h)
        ]
      ]
]
