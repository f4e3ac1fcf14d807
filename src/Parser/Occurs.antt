-- ===== src/Parser/Occurs.antt =====
-- How often a dispatch id is reported or in flight, in the AQL path of src/parser.cpp.
use hsa_snoop.Prelude.{
  add64, IsU32, ℕ, zero, suc, ◌+◌, ◌-◌, ◌≤◌, ◌<◌, ◌≡◌, refl, ap, ◌∙◌, inl, inr, ◌&&◌, Option, none,
  some, List, [], ◌∷◌, ◌++◌, arith, ltb, leb, ◌==◌, if◌then◌else◌, Bool-cases, Option-cases,
}
use hsa_snoop.Os.{Os}
use hsa_snoop.Ksym.Resolve.{Resolver}
use hsa_snoop.Model.{PacketRecord, num_slots}
use hsa_snoop.Parser.State.{QueueState, skip_wrapped, retire}
use hsa_snoop.Parser.Slot.{decode_slot}
use hsa_snoop.Parser.PollAql.{complete, accept, decode_step, decode_loop, poll_packets}
use hsa_snoop.Parser.Order.{Asc, keys, AllEntries, emplace_last, keys-append}
use hsa_snoop.Parser.Step.{
  IsPending, IsValid, IsPointer, decoded_id, decode_slot_lem, decode_step_lem,
}
use hsa_snoop.Parser.Accounting.{IsStep-IsValid, decode_loop_lem, skip_wrapped_lem, num_slots_bound}

abbrev pub occurs : ℕ → List ℕ → ℕ
occurs k [] = 0
occurs k (x ∷ xs) = (if x == k then 1 else 0) + occurs k xs

pub occurs-append : (k : ℕ) (xs ys : List ℕ) → occurs k (xs ++ ys) ≡ occurs k xs + occurs k ys
occurs-append k [] ys = omega arith
occurs-append k (x ∷ xs) ys = omega (arith, occurs-append k xs ys)

pub occurs_absent :
    {V : Type 0} (k lo hi : ℕ) (m : List (ℕ × V)) → Asc lo hi m → k < lo → occurs k (keys m) ≡ 0
occurs_absent k lo hi [] a h = refl
occurs_absent k lo hi ((j, v) ∷ m) a h = ground (arith, occurs_absent k (j + 1) hi m a.2)

-- A key of an ordered map occurs once at most.
pub occurs-Asc :
    {V : Type 0} (k lo hi : ℕ) (m : List (ℕ × V))
    → Asc lo hi m
    → (occurs k (keys m) ≤ 1) × (hi ≤ k → occurs k (keys m) ≡ 0)
occurs-Asc k lo hi [] a = ground arith
occurs-Asc k lo hi ((j, v) ∷ m) a =
    ground (arith, occurs-Asc k (j + 1) hi m a.2, occurs_absent k (j + 1) hi m a.2)

-- 1 if `k` lies in the range, 0 if not.
abbrev pub within_range : ℕ → ℕ → ℕ → ℕ
within_range lo hi k = if leb lo k && ltb k hi then 1 else 0

abbrev pub ids : List PacketRecord → List ℕ
ids [] = []
ids (r ∷ rs) = r.dispatch_id ∷ ids rs

ids-append : (xs ys : List PacketRecord) → ids (xs ++ ys) ≡ ids xs ++ ids ys
ids-append [] ys = refl
ids-append (r ∷ xs) ys = ap (◌∷◌ r.dispatch_id) (ids-append xs ys)

pub occurs-ids-append :
    (k : ℕ) (xs ys : List PacketRecord)
    → occurs k (ids (xs ++ ys)) ≡ occurs k (ids xs) + occurs k (ids ys)
occurs-ids-append k xs ys = ap (occurs k) (ids-append xs ys) ∙ occurs-append k (ids xs) (ids ys)

-- Between the two states an id is reported or in flight once more only if it has been passed.
abbrev pub Adds : ℕ → QueueState → QueueState → List PacketRecord → Type 0
Adds k s s' out =
    occurs k (ids out) + occurs k (keys s'.inflight)
    ≤ occurs k (keys s.inflight) + within_range s.next_id s'.next_id k

accept-Adds :
    (k rptr now : ℕ) (s : QueueState) (rec : PacketRecord) (ksym : Resolver)
    → IsValid now s
    → rec.dispatch_id ≡ s.next_id
    → let (s', out) = accept rptr now s rec ksym in Adds k s s' out
unfolding accept complete
accept-Adds k rptr now s rec ksym v d =
    let stamped : PacketRecord = record rec { submit_ts = now } in
    elim (Bool-cases (ltb s.next_id rptr)) [
      | inl early ↦ rw (early, accept) (ground arith)
      | inr late ↦
          rw
            (
              late,
              accept,
              emplace_last 0 s.next_id s.next_id stamped s.inflight (omega arith) v.ascending,
              keys-append s.inflight ((s.next_id, stamped) ∷ []),
              occurs-append k (keys s.inflight) (s.next_id ∷ []),
            )
            (ground arith)
    ]

missed-Adds :
    (k : ℕ) (s : QueueState)
    → IsPointer s.next_id
    → Adds k s (record s { dropped = add64 s.dropped 1; next_id = add64 s.next_id 1 }) []
missed-Adds k s h = ground arith

abbrev StepAdds : ℕ → QueueState → Option (QueueState × List PacketRecord) → Type 0
StepAdds k s none = Unit {0}
StepAdds k s (some (s', out)) = Adds k s s' out

decode_step-Adds :
    (os : Os) (k wptr rptr now : ℕ) (s : QueueState)
    → IsValid now s
    → StepAdds k s (decode_step os wptr rptr now s)
unfolding decode_step
decode_step-Adds os k wptr rptr now s v = elim (Bool-cases (ltb s.next_id wptr)) [
  | inr done ↦ rw (done, decode_step) tt
  | inl more ↦
      let slot = decode_slot_lem os s.info s.ksym s.next_id rptr in
      elim (Option-cases (decode_slot os s.info s.ksym s.next_id rptr).0) [
        | inr (rec, e) ↦
            rw (more, e, decode_step)
              (accept-Adds k rptr now s rec (decode_slot os s.info s.ksym s.next_id rptr).1 v
                (decoded_id s.info s.next_id rec (rw e at slot)))
        | inl e ↦ elim (Bool-cases (ltb s.next_id rptr)) [
          | inr wait ↦ rw (more, e, wait, decode_step) tt
          | inl missed ↦ rw (more, e, missed, decode_step) (missed-Adds k s v.pointer)
        ]
      ]
]

pub Adds-trans :
    (k : ℕ) (s s' s'' : QueueState) (out rest : List PacketRecord)
    → s.next_id ≤ s'.next_id
    → s'.next_id ≤ s''.next_id
    → Adds k s s' out
    → Adds k s' s'' rest
    → Adds k s s'' (out ++ rest)
Adds-trans k s s' s'' out rest p q a b = ground (arith, occurs-ids-append k out rest)

decode_loop-Adds :
    (os : Os) (k wptr rptr now fuel : ℕ) (s : QueueState)
    → IsPointer wptr
    → IsValid now s
    → let (s', out) = decode_loop os wptr rptr now fuel s in Adds k s s' out
unfolding decode_loop
decode_loop-Adds os k wptr rptr now zero s hw v = ground arith
decode_loop-Adds os k wptr rptr now (suc fuel) s hw v =
    elim (Option-cases (decode_step os wptr rptr now s)) [
      | inl e ↦ rw (e, decode_loop) (ground arith)
      | inr ((s', out), e) ↦
          let t = rw e at (decode_step_lem os wptr rptr now s v) in
          let v' = IsStep-IsValid wptr rptr now s s' out hw v t in
          let r = decode_loop_lem os wptr rptr now fuel s' hw v' in
          rw (e, decode_loop)
            (Adds-trans k s s' (decode_loop os wptr rptr now fuel s').0 out _
              (omega (arith, t.next)) r.onward (rw e at (decode_step-Adds os k wptr rptr now s v))
              (decode_loop-Adds os k wptr rptr now fuel s' hw v'))
    ]

-- What the retiring loop reports and what it leaves make up what was in flight.
retire-occurs :
    (k rptr now : ℕ) (m : List (ℕ × PacketRecord))
    → AllEntries (IsPending now) m
    → let (out, rest) = retire (leb rptr) (complete now) m in
      occurs k (ids out) + occurs k (keys rest) ≡ occurs k (keys m)
unfolding retire complete
retire-occurs k rptr now [] a = omega arith
retire-occurs k rptr now ((id, r) ∷ m) a =
    ground (arith, retire-occurs k rptr now m a.1, a.0.id_key)

pub poll_packets-Adds :
    (os : Os) (k wptr rptr now : ℕ) (s : QueueState)
    → IsPointer wptr
    → IsU32 s.info.ring_size
    → IsValid now s
    → let (s', out) = poll_packets os wptr rptr now s in Adds k s s' out
unfolding poll_packets
poll_packets-Adds os k wptr rptr now s hw hr v =
    let size = num_slots s.info in
    let s0 = skip_wrapped wptr size s in
    let skip = skip_wrapped_lem wptr size now s hw (num_slots_bound s.info hr) v in
    let fuel = wptr - s0.next_id in
    let r = decode_loop_lem os wptr rptr now fuel s0 hw skip.valid in
    let a = decode_loop-Adds os k wptr rptr now fuel s0 hw skip.valid in
    let run = decode_loop os wptr rptr now fuel s0 in
    let ret = retire (leb rptr) (complete now) run.0.inflight in
    ground (
      arith,
      skip.onward,
      r.onward,
      a,
      ap (λ m. occurs k (keys m)) skip.same_inflight,
      retire-occurs k rptr now run.0.inflight r.valid.pending,
      occurs-ids-append k run.1 ret.0,
    )
