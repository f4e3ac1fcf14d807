-- ===== src/Parser/Accounting.antt =====
-- What a whole poll of an AQL queue does: `PollQueue` of src/parser.cpp.
use hsa_snoop.Prelude.{
  length, All, length-append, All-append, add64, sub64, IsU32, ℕ, zero, suc, ◌+◌, ◌-◌, ◌≤◌, ◌<◌,
  ◌≡◌, refl, ap, ◌∙◌, ◌⊎◌, inl, inr, true, false, none, List, [], ◌∷◌, ◌++◌, arith, ltb, leb,
  ltb→lt, ltb→ge, Bool-cases, Option-cases,
}
use hsa_snoop.Os.{Os}
use hsa_snoop.Model.{QueueInfo, PacketRecord, num_slots}
use hsa_snoop.Parser.State.{QueueState, skip_wrapped, retire}
use hsa_snoop.Parser.Slot.{decode_slot}
use hsa_snoop.Parser.PollAql.{complete, decode_step, decode_loop, poll_packets}
use hsa_snoop.Parser.Order.{
  AllEntries, Asc-widen, length-retire, retire-Asc, retire-AllEntries, retire_out, retire_rest,
}
use hsa_snoop.Parser.Step.{IsPending, IsValid, IsDelivered, IsStep, IsPointer, decode_step_lem}

-- The state and the output of the decoding loop.
pub record IsRun (wptr rptr now : ℕ) (s s' : QueueState) (out : List PacketRecord) : Type 0 where
  pub valid : IsValid now s'
  pub onward : s.next_id ≤ s'.next_id
  pub within : s.next_id ≤ wptr → s'.next_id ≤ wptr
  pub count :
      s'.next_id + s.dropped + length s.inflight
      ≡ s.next_id + s'.dropped + length s'.inflight + length out
  pub delivered : All (IsDelivered rptr now) out
  pub same_info : s'.info ≡ s.info
  pub same_primed : s'.primed ≡ s.primed
  pub same_evict : s'.evict ≡ s.evict
  pub same_fails : s'.read_fail_count ≡ s.read_fail_count

IsRun-none : (wptr rptr now : ℕ) (s : QueueState) → IsValid now s → IsRun wptr rptr now s s []
IsRun-none wptr rptr now s v = record {
  valid = v;
  onward = omega arith;
  within = λ h. h;
  count = omega arith;
  delivered = tt;
  same_info = refl;
  same_primed = refl;
  same_evict = refl;
  same_fails = refl;
}

pub IsStep-IsValid :
    (wptr rptr now : ℕ) (s s' : QueueState) (out : List PacketRecord)
    → IsPointer wptr
    → IsValid now s
    → IsStep wptr rptr now s s' out
    → IsValid now s'
IsStep-IsValid wptr rptr now s s' out hw v t = record {
  ascending = t.ascending;
  pending = t.pending;
  counted = omega (arith, t.next, t.few_dropped);
  pointer = omega (arith, t.next, t.room);
}

IsRun-step :
    (wptr rptr now : ℕ) (s s' s'' : QueueState) (out rest : List PacketRecord)
    → IsStep wptr rptr now s s' out
    → IsRun wptr rptr now s' s'' rest
    → IsRun wptr rptr now s s'' (out ++ rest)
IsRun-step wptr rptr now s s' s'' out rest t r = record {
  valid = r.valid;
  onward = omega (arith, t.next, r.onward);
  within = λ h. r.within (omega (arith, t.next, t.room));
  count = omega (arith, t.next, t.count, r.count, length-append out rest);
  delivered = All-append (IsDelivered rptr now) out rest t.delivered r.delivered;
  same_info = r.same_info ∙ t.same_info;
  same_primed = r.same_primed ∙ t.same_primed;
  same_evict = r.same_evict ∙ t.same_evict;
  same_fails = r.same_fails ∙ t.same_fails;
}

pub decode_loop_lem :
    (os : Os) (wptr rptr now fuel : ℕ) (s : QueueState)
    → IsPointer wptr
    → IsValid now s
    → let (s', out) = decode_loop os wptr rptr now fuel s in IsRun wptr rptr now s s' out
unfolding decode_loop
decode_loop_lem os wptr rptr now zero s hw v = IsRun-none wptr rptr now s v
decode_loop_lem os wptr rptr now (suc fuel) s hw v =
    elim (Option-cases (decode_step os wptr rptr now s)) [
      | inl e ↦ rw (e, decode_loop) (IsRun-none wptr rptr now s v)
      | inr ((s', out), e) ↦
          let t = rw e at (decode_step_lem os wptr rptr now s v) in
          rw (e, decode_loop)
            (IsRun-step wptr rptr now s s' _ out _ t (
              decode_loop_lem os wptr rptr now fuel s' hw
                (IsStep-IsValid wptr rptr now s s' out hw v t)))
    ]

-- Why the decoding loop has ended: all packets are decoded, or the next slot is not yet published
-- and not yet consumed.
abbrev pub Stopped : Os → ℕ → ℕ → QueueState → Type 0
Stopped os wptr rptr s =
    (wptr ≤ s.next_id)
    ⊎ ((rptr ≤ s.next_id) × ((decode_slot os s.info s.ksym s.next_id rptr).0 ≡ none))

decode_step-none :
    (os : Os) (wptr rptr now : ℕ) (s : QueueState)
    → decode_step os wptr rptr now s ≡ none
    → Stopped os wptr rptr s
unfolding decode_step
decode_step-none os wptr rptr now s h = ground arith

-- With `wptr - next_id` rounds the loop ends by itself.
pub decode_loop-stops :
    (os : Os) (wptr rptr now fuel : ℕ) (s : QueueState)
    → IsPointer wptr
    → IsValid now s
    → wptr ≤ fuel + s.next_id
    → Stopped os wptr rptr (decode_loop os wptr rptr now fuel s).0
unfolding decode_loop
decode_loop-stops os wptr rptr now zero s hw v h = inl (omega arith)
decode_loop-stops os wptr rptr now (suc fuel) s hw v h =
    elim (Option-cases (decode_step os wptr rptr now s)) [
      | inl e ↦ rw (e, decode_loop) (decode_step-none os wptr rptr now s e)
      | inr ((s', out), e) ↦
          let t = rw e at (decode_step_lem os wptr rptr now s v) in
          rw (e, decode_loop)
            (decode_loop-stops os wptr rptr now fuel s' hw
              (IsStep-IsValid wptr rptr now s s' out hw v t) (omega (arith, t.next)))
    ]

-- The guard against a wrapped ring.
pub record IsSkip (wptr size now : ℕ) (s s' : QueueState) : Type 0 where
  pub valid : IsValid now s'
  pub window : wptr ≤ s'.next_id + size
  pub onward : s.next_id ≤ s'.next_id
  pub within : s.next_id ≤ wptr → s'.next_id ≤ wptr
  pub count : s'.next_id + s.dropped ≡ s.next_id + s'.dropped
  pub same_inflight : s'.inflight ≡ s.inflight
  pub same_info : s'.info ≡ s.info
  pub same_primed : s'.primed ≡ s.primed
  pub same_evict : s'.evict ≡ s.evict
  pub same_fails : s'.read_fail_count ≡ s.read_fail_count

pub skip_wrapped_lem :
    (wptr size now : ℕ) (s : QueueState)
    → IsPointer wptr
    → IsU32 size
    → IsValid now s
    → IsSkip wptr size now s (skip_wrapped wptr size s)
unfolding skip_wrapped
skip_wrapped_lem wptr size now s hw hs v = elim (Bool-cases (ltb (add64 s.next_id size) wptr)) [
  | inl over ↦
      let h : s.next_id + size < wptr = omega (arith, ltb→lt (add64 s.next_id size) wptr over) in
      let e : sub64 wptr size ≡ wptr - size = omega arith in
      let f : add64 s.dropped (sub64 (sub64 wptr s.next_id) size)
          ≡ s.dropped + (wptr - s.next_id - size) =
        omega arith in
      rw (over, skip_wrapped, e, f)
        (record {
          valid = record {
            ascending =
                Asc-widen 0 0 s.next_id (wptr - size) s.inflight (omega arith) (omega arith)
                  v.ascending;
            pending = v.pending;
            counted = omega arith;
            pointer = omega arith;
          };
          window = omega arith;
          onward = omega arith;
          within = λ _. omega arith;
          count = omega arith;
          same_inflight = refl;
          same_info = refl;
          same_primed = refl;
          same_evict = refl;
          same_fails = refl;
        })
  | inr fits ↦
      rw (fits, skip_wrapped)
        (record {
          valid = v;
          window = omega (arith, ltb→ge (add64 s.next_id size) wptr fits);
          onward = omega arith;
          within = λ h. h;
          count = omega arith;
          same_inflight = refl;
          same_info = refl;
          same_primed = refl;
          same_evict = refl;
          same_fails = refl;
        })
]

-- What a poll of a primed queue whose pointers can be read does.
pub record IsPoll (os : Os) (wptr rptr now : ℕ) (s s' : QueueState) (out : List PacketRecord)
    : Type 0 where
  pub valid : IsValid now s'
  pub onward : s.next_id ≤ s'.next_id
  pub within : s.next_id ≤ wptr → s'.next_id ≤ wptr
  pub count :
      s'.next_id + s.dropped + length s.inflight
      ≡ s.next_id + s'.dropped + length s'.inflight + length out
  pub delivered : All (IsDelivered rptr now) out
  pub retired : AllEntries (λ id r. rptr ≤ id) s'.inflight
  pub stopped : Stopped os wptr rptr s'
  pub same_info : s'.info ≡ s.info
  pub same_primed : s'.primed ≡ s.primed
  pub same_evict : s'.evict ≡ s.evict
  pub same_fails : s'.read_fail_count ≡ s.read_fail_count

leb→le : (a b : ℕ) → leb a b ≡ true → a ≤ b
leb→le a b h = ground arith

leb→gt : (a b : ℕ) → leb a b ≡ false → b < a
leb→gt a b h = ground arith

-- A pending entry that is retired is delivered as `IsDelivered` says.
pending-IsDelivered :
    (rptr now : ℕ) (m : List (ℕ × PacketRecord))
    → AllEntries (IsPending now) m
    → AllEntries (λ id r. leb rptr id ≡ false → IsDelivered rptr now (complete now r)) m
unfolding complete
pending-IsDelivered rptr now [] a = tt
pending-IsDelivered rptr now ((id, r) ∷ m) a = (
  λ h. record {
    consumed = omega (arith, leb→gt rptr id h, a.0.id_key);
    complete = refl;
    finished = refl;
    started = a.0.stamped;
  },
  pending-IsDelivered rptr now m a.1,
)

pub num_slots_bound : (q : QueueInfo) → IsU32 q.ring_size → IsU32 (num_slots q)
unfolding num_slots
num_slots_bound q h = ground arith

pub poll_packets_lem :
    (os : Os) (wptr rptr now : ℕ) (s : QueueState)
    → IsPointer wptr
    → IsU32 s.info.ring_size
    → IsValid now s
    → let (s', out) = poll_packets os wptr rptr now s in IsPoll os wptr rptr now s s' out
unfolding poll_packets
poll_packets_lem os wptr rptr now s hw hr v =
    let size = num_slots s.info in
    let s0 = skip_wrapped wptr size s in
    let k = skip_wrapped_lem wptr size now s hw (num_slots_bound s.info hr) v in
    let fuel = wptr - s0.next_id in
    let r = decode_loop_lem os wptr rptr now fuel s0 hw k.valid in
    let run = decode_loop os wptr rptr now fuel s0 in
    let m = run.0.inflight in
    let ret = retire (leb rptr) (complete now) m in
    record {
      valid = record {
        ascending = retire-Asc (leb rptr) (complete now) 0 run.0.next_id m r.valid.ascending;
        pending = retire-AllEntries (leb rptr) (complete now) (IsPending now) m r.valid.pending;
        counted = r.valid.counted;
        pointer = r.valid.pointer;
      };
      onward = omega (arith, k.onward, r.onward);
      within = λ h. r.within (k.within h);
      count = omega (
        arith,
        k.count,
        ap length k.same_inflight,
        r.count,
        length-append run.1 ret.0,
        length-retire (leb rptr) (complete now) m,
      );
      delivered = All-append (IsDelivered rptr now) run.1 ret.0 r.delivered (
          retire_out (leb rptr) (complete now) (IsDelivered rptr now) m
            (pending-IsDelivered rptr now m r.valid.pending));
      retired =
          retire_rest rptr run.0.next_id 0 (leb rptr) (complete now) m (λ id. leb→le rptr id)
            r.valid.ascending;
      stopped = decode_loop-stops os wptr rptr now fuel s0 hw k.valid (omega arith);
      same_info = r.same_info ∙ k.same_info;
      same_primed = r.same_primed ∙ k.same_primed;
      same_evict = r.same_evict ∙ k.same_evict;
      same_fails = r.same_fails ∙ k.same_fails;
    }
