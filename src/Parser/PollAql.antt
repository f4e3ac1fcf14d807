-- ===== src/Parser/PollAql.antt =====
-- `RingParser::PollQueue` of src/parser.cpp. The list beside the new state holds the records that the
-- sink is called with, in order.
use hsa_snoop.Prelude.{
  emplace, add64, ℕ, zero, suc, ◌-◌, true, not, Option, none, some, List, [], ◌∷◌, ◌++◌, ltb, leb,
  if◌then◌else◌,
}
use hsa_snoop.Os.{Os}
use hsa_snoop.Model.{PacketRecord, num_slots}
use hsa_snoop.Ksym.Resolve.{Resolver}
use hsa_snoop.Parser.State.{QueueState, poll_failed, read_pointers, prime, skip_wrapped, retire}
use hsa_snoop.Parser.Slot.{decode_slot}

-- `complete_ts = now; completed = true`.
unfoldable pub complete : ℕ → PacketRecord → PacketRecord
complete now r = record r { complete_ts = now; completed = true }

unfoldable pub accept :
    ℕ → ℕ → QueueState → PacketRecord → Resolver → QueueState × List PacketRecord
unfolding complete
accept rptr now s rec ksym =
    let stamped : PacketRecord = record rec { submit_ts = now } in
    if ltb s.next_id rptr
    then (record s { next_id = add64 s.next_id 1; ksym = ksym }, complete now stamped ∷ [])
    else (
      record s {
        next_id = add64 s.next_id 1;
        ksym = ksym;
        inflight = emplace s.next_id stamped s.inflight;
      },
      [],
    )

-- One round of the decoding loop, `none` where it ends.
unfoldable pub decode_step : Os → ℕ → ℕ → ℕ → QueueState → Option (QueueState × List PacketRecord)
unfolding accept
decode_step os wptr rptr now s =
    if not (ltb s.next_id wptr)
    then none
    else let d = decode_slot os s.info s.ksym s.next_id rptr in
      elim d.0 [
        | some rec ↦ some (accept rptr now s rec d.1)
        | none ↦
            if ltb s.next_id rptr
            then some (record s { dropped = add64 s.dropped 1; next_id = add64 s.next_id 1 }, [])
            else none
      ]

-- The loop with the rounds that are left.
unfoldable pub decode_loop : Os → ℕ → ℕ → ℕ → ℕ → QueueState → QueueState × List PacketRecord
unfolding decode_step
decode_loop os wptr rptr now zero s = (s, [])
decode_loop os wptr rptr now (suc fuel) s = elim (decode_step os wptr rptr now s) [
  | none ↦ (s, [])
  | some (s', out) ↦ let (s'', rest) = decode_loop os wptr rptr now fuel s' in (s'', out ++ rest)
]

-- The two loops, after the guard against a wrapped ring: `wptr - next_id` rounds are enough for the
-- first (`decode_loop-stops`).
unfoldable pub poll_packets : Os → ℕ → ℕ → ℕ → QueueState → QueueState × List PacketRecord
unfolding decode_loop skip_wrapped retire complete
poll_packets os wptr rptr now s =
    let s0 = skip_wrapped wptr (num_slots s.info) s in
    let (s1, decoded) = decode_loop os wptr rptr now (wptr - s0.next_id) s0 in
    let (retired, rest) = retire (leb rptr) (complete now) s1.inflight in
    (record s1 { inflight = rest; last_rptr = rptr }, decoded ++ retired)

unfoldable pub poll_queue : Os → ℕ → QueueState → QueueState × List PacketRecord
unfolding poll_packets poll_failed read_pointers prime
poll_queue os now s = elim (read_pointers (os.process s.info.pid) s.info) [
  | none ↦ (poll_failed s, [])
  | some (wptr, rptr) ↦
      let s' : QueueState = record s { read_fail_count = 0 } in
      if not s.primed then (prime wptr rptr s', []) else poll_packets os wptr rptr now s'
]
