-- ===== src/Parser/SdmaPoll.antt =====
-- What a whole poll of an SDMA queue does: `PollSdmaQueue` of src/parser.cpp.
use native.Mathlib.Nat.{sub_self}
use mathlib.Core.List.{append-nil}
use hsa_snoop.Prelude.{
  All, add64, sub64, IsU32, ℕ, zero, suc, ◌+◌, ◌-◌, ◌≤◌, ◌<◌, min, ◌≡◌, refl, sym, ap, ◌∙◌, ◌⊎◌,
  inl, inr, Bool, true, false, none, some, List, [], ◌++◌, arith, ltb, ◌==◌, ltb→lt, ltb→ge, ==_iff,
  Bool-cases, Option-cases,
}
use hsa_snoop.Os.{Os}
use hsa_snoop.Model.{QueueInfo, SdmaRecord, num_dwords}
use hsa_snoop.Sdma.Length.{packet_len_dwords}
use hsa_snoop.Parser.State.{QueueState, skip_wrapped}
use hsa_snoop.Parser.Ring.{read_ring_dwords}
use hsa_snoop.Parser.PollSdma.{
  sdma_window, decode_sdma, sdma_step, sdma_loop, complete_sdma, poll_sdma_packets,
}
use hsa_snoop.Parser.Order.{
  AllEntries, Asc-widen, retire-Asc, retire-AllEntries, retire_out, retire_rest,
}
use hsa_snoop.Parser.Step.{IsPointer}
use hsa_snoop.Parser.SdmaOrder.{
  IsSdmaPending, IsSdmaValid, IsSdmaRun, count_from, seqs, IsSdmaRun-none, IsSdmaRun-trans,
  accept_moves, accept_sdma_lem,
}
use hsa_snoop.Parser.SdmaRetire.{
  IsSdmaDelivered, sdma_delivered, out_seqs, retire-seqs, reached, ahead, IsDivided, retire_divides,
}

resync_lem :
    (wptr now : ℕ) (s : QueueState)
    → IsPointer wptr
    → s.next_id < wptr
    → IsSdmaValid now s
    → IsSdmaRun wptr now s
        (record s { dropped = add64 s.dropped (sub64 wptr s.next_id); next_id = wptr })
resync_lem wptr now s hw h v =
    let e : add64 s.dropped (sub64 wptr s.next_id) ≡ s.dropped + (wptr - s.next_id) = omega arith in
    rw (e) (record {
      valid = record {
        ascending =
            Asc-widen 0 0 (s.next_id + 1) (wptr + 1) s.sdma_inflight (omega arith) (omega arith)
              v.ascending;
        pending = v.pending;
        numbered = omega arith;
        counted = omega arith;
        pointer = hw;
      };
      onward = omega arith;
      within = λ _. omega arith;
      more = omega arith;
      entered = rw (sub_self, append-nil) refl;
      behind = ([], sym (append-nil s.sdma_inflight));
      same_info = refl;
      same_primed = refl;
      same_evict = refl;
    })

-- Why the loop ends in a state: everything up to the write pointer is passed, the ring cannot be
-- read, or the packet at `next_id` is not wholly published.
abbrev pub SdmaStopped : Os → ℕ → QueueState → Type 0
SdmaStopped os wptr s =
    (wptr ≤ s.next_id)
    ⊎ (read_ring_dwords (os.process s.info.pid) s.info s.next_id
          (min (sub64 wptr s.next_id) sdma_window)
        ≡ none)
    ⊎ ((dws : List ℕ) × (read_ring_dwords (os.process s.info.pid) s.info s.next_id
            (min (sub64 wptr s.next_id) sdma_window)
          ≡ some dws)
        × (let len =
              packet_len_dwords s.info.sdma_version dws (min (sub64 wptr s.next_id) sdma_window) in
            ((len ≡ 0) × (sub64 wptr s.next_id < 4)) ⊎ (sub64 wptr s.next_id < len)))

-- A round that goes on moves `next_id`, and one that does not has stopped for a reason.
abbrev RoundEnds : Os → ℕ → QueueState → QueueState × Bool → Type 0
RoundEnds os wptr s (s', true) = (s.next_id < s'.next_id) × (s'.next_id ≤ wptr)
RoundEnds os wptr s (s', false) = SdmaStopped os wptr s'

decode_sdma_lem :
    (os : Os) (wptr now : ℕ) (s : QueueState) (dws : List ℕ)
    → IsPointer wptr
    → s.next_id < wptr
    → IsSdmaValid now s
    → let win = min (sub64 wptr s.next_id) sdma_window in
      read_ring_dwords (os.process s.info.pid) s.info s.next_id win ≡ some dws
      → let r = decode_sdma os wptr win now s dws in
        IsSdmaRun wptr now s r.0 × RoundEnds os wptr s r
unfolding decode_sdma
decode_sdma_lem os wptr now s dws hw h v hr =
    let win = min (sub64 wptr s.next_id) sdma_window in
    let avail = sub64 wptr s.next_id in
    let len = packet_len_dwords s.info.sdma_version dws win in
    elim (Bool-cases (len == 0)) [
      | inl none_len ↦
          let lz = (==_iff len 0).0 none_len in
          elim (Bool-cases (ltb avail 4)) [
            | inl few ↦
                rw (decode_sdma, none_len, few)
                  (IsSdmaRun-none wptr now s v, inr (inr (dws, hr, inl (lz, ltb→lt avail 4 few))))
            | inr many ↦
                rw (decode_sdma, none_len, many) (resync_lem wptr now s hw h v, inl (omega arith))
          ]
      | inr some_len ↦ elim (Bool-cases (ltb avail len)) [
        | inl cut ↦
            rw (decode_sdma, some_len, cut)
              (IsSdmaRun-none wptr now s v, inr (inr (dws, hr, inr (ltb→lt avail len cut))))
        | inr whole ↦
            let h1 : 1 ≤ len = ground arith in
            let h2 : s.next_id + len ≤ wptr = omega (arith, ltb→ge avail len whole) in
            rw (decode_sdma, some_len, whole)
              (
                accept_sdma_lem os wptr win len now s dws hw h1 h2 v,
                accept_moves os wptr win len now s dws hw h1 h2,
              )
      ]
    ]

sdma_step_lem :
    (os : Os) (wptr now : ℕ) (s : QueueState)
    → IsPointer wptr
    → IsSdmaValid now s
    → IsSdmaRun wptr now s (sdma_step os wptr now s).0
      × RoundEnds os wptr s (sdma_step os wptr now s)
unfolding sdma_step
sdma_step_lem os wptr now s hw v =
    let win = min (sub64 wptr s.next_id) sdma_window in
    elim (Bool-cases (ltb s.next_id wptr)) [
      | inr done ↦
          rw (done, sdma_step) (IsSdmaRun-none wptr now s v, inl (ltb→ge s.next_id wptr done))
      | inl more ↦
          elim (Option-cases (read_ring_dwords (os.process s.info.pid) s.info s.next_id win)) [
            | inl e ↦ rw (more, e, sdma_step) (IsSdmaRun-none wptr now s v, inr (inl e))
            | inr (dws, e) ↦
                rw (more, e, sdma_step)
                  (decode_sdma_lem os wptr now s dws hw (ltb→lt s.next_id wptr more) v e)
          ]
    ]

-- With `wptr - next_id` rounds the loop ends by itself.
pub sdma_loop_lem :
    (os : Os) (wptr now fuel : ℕ) (s : QueueState)
    → IsPointer wptr
    → IsSdmaValid now s
    → wptr ≤ fuel + s.next_id
    → IsSdmaRun wptr now s (sdma_loop os wptr now fuel s)
      × SdmaStopped os wptr (sdma_loop os wptr now fuel s)
unfolding sdma_loop
sdma_loop_lem os wptr now zero s hw v h = (IsSdmaRun-none wptr now s v, inl (omega arith))
sdma_loop_lem os wptr now (suc fuel) s hw v h =
    let step = sdma_step os wptr now s in
    let t = sdma_step_lem os wptr now s hw v in
    elim (Bool-cases step.1) [
      | inl go ↦
          let m = moved os wptr s step go t.1 in
          let rest = sdma_loop_lem os wptr now fuel step.0 hw t.0.valid (omega (arith, m)) in
          rw (go) (
            IsSdmaRun-trans wptr now s step.0 (sdma_loop os wptr now fuel step.0) t.0 rest.0,
            rest.1,
          )
      | inr halt ↦ rw (halt) (t.0, ended os wptr s step halt t.1)
    ]
  where
    moved :
        (os : Os) (wptr : ℕ) (s : QueueState) (r : QueueState × Bool)
        → r.1 ≡ true
        → RoundEnds os wptr s r
        → s.next_id < r.0.next_id
    moved os wptr s (s', true) e t = t.0
    moved os wptr s (s', false) e t = cc

    ended :
        (os : Os) (wptr : ℕ) (s : QueueState) (r : QueueState × Bool)
        → r.1 ≡ false
        → RoundEnds os wptr s r
        → SdmaStopped os wptr r.0
    ended os wptr s (s', true) e t = cc
    ended os wptr s (s', false) e t = t

skip_sdma_lem :
    (wptr size now : ℕ) (s : QueueState)
    → IsPointer wptr
    → IsU32 size
    → IsSdmaValid now s
    → IsSdmaRun wptr now s (skip_wrapped wptr size s)
      × (wptr ≤ (skip_wrapped wptr size s).next_id + size)
unfolding skip_wrapped
skip_sdma_lem wptr size now s hw hs v = elim (Bool-cases (ltb (add64 s.next_id size) wptr)) [
  | inl over ↦
      let h : s.next_id + size < wptr = omega (arith, ltb→lt (add64 s.next_id size) wptr over) in
      let e : sub64 wptr size ≡ wptr - size = omega arith in
      let f : add64 s.dropped (sub64 (sub64 wptr s.next_id) size)
          ≡ s.dropped + (wptr - s.next_id - size) =
        omega arith in
      rw (over, skip_wrapped, e, f)
        (
          record {
            valid = record {
              ascending =
                  Asc-widen 0 0 (s.next_id + 1) (wptr - size + 1) s.sdma_inflight (omega arith)
                    (omega arith) v.ascending;
              pending = v.pending;
              numbered = omega arith;
              counted = omega arith;
              pointer = omega arith;
            };
            onward = omega arith;
            within = λ _. omega arith;
            more = omega arith;
            entered = rw (sub_self, append-nil) refl;
            behind = ([], sym (append-nil s.sdma_inflight));
            same_info = refl;
            same_primed = refl;
            same_evict = refl;
          },
          omega arith,
        )
  | inr fits ↦
      rw (fits, skip_wrapped)
        (IsSdmaRun-none wptr now s v, omega (arith, ltb→ge (add64 s.next_id size) wptr fits))
]

-- What a poll of a primed SDMA queue whose pointers can be read does.
pub record IsSdmaPoll (os : Os) (wptr rptr now : ℕ) (s s' : QueueState) (out : List SdmaRecord)
    : Type 0 where
  pub valid : IsSdmaValid now s'
  pub onward : s.next_id ≤ s'.next_id
  pub within : s.next_id ≤ wptr → s'.next_id ≤ wptr
  pub more : s.sdma_seq ≤ s'.sdma_seq
  pub in_order :
      out_seqs out ++ seqs s'.sdma_inflight
      ≡ seqs s.sdma_inflight ++ count_from s.sdma_seq (s'.sdma_seq - s.sdma_seq)
  pub delivered : All (IsSdmaDelivered now) out
  pub retired : AllEntries (λ end r. rptr < end) s'.sdma_inflight
  pub divided : IsDivided rptr now s.sdma_inflight s'.sdma_inflight out
  pub stopped : SdmaStopped os wptr s'
  pub same_info : s'.info ≡ s.info
  pub same_primed : s'.primed ≡ s.primed

num_dwords_bound : (q : QueueInfo) → IsU32 q.ring_size → IsU32 (num_dwords q)
unfolding num_dwords
num_dwords_bound q h = omega arith

pub poll_sdma_packets_lem :
    (os : Os) (wptr rptr now : ℕ) (s : QueueState)
    → IsPointer wptr
    → IsU32 s.info.ring_size
    → IsSdmaValid now s
    → let (s', out) = poll_sdma_packets os wptr rptr now s in IsSdmaPoll os wptr rptr now s s' out
unfolding poll_sdma_packets
poll_sdma_packets_lem os wptr rptr now s hw hr v =
    let size = num_dwords s.info in
    let s0 = skip_wrapped wptr size s in
    let k = (skip_sdma_lem wptr size now s hw (num_dwords_bound s.info hr) v).0 in
    let fuel = wptr - s0.next_id in
    let s1 = sdma_loop os wptr now fuel s0 in
    let l = sdma_loop_lem os wptr now fuel s0 hw k.valid (omega arith) in
    let r = IsSdmaRun-trans wptr now s s0 s1 k l.0 in
    let m = s1.sdma_inflight in
    record {
      valid = record {
        ascending =
            retire-Asc (ltb rptr) (complete_sdma now) 0 (s1.next_id + 1) m r.valid.ascending;
        pending =
            retire-AllEntries (ltb rptr) (complete_sdma now) (IsSdmaPending now) m r.valid.pending;
        numbered = r.valid.numbered;
        counted = r.valid.counted;
        pointer = r.valid.pointer;
      };
      onward = r.onward;
      within = r.within;
      more = r.more;
      divided = (
        r.behind.0,
        (retire_divides rptr now 0 (s1.next_id + 1) m r.valid.ascending).0
            ∙ ap (reached rptr now) r.behind.1,
        (retire_divides rptr now 0 (s1.next_id + 1) m r.valid.ascending).1
            ∙ ap (ahead rptr) r.behind.1,
      );
      in_order = retire-seqs rptr now m ∙ r.entered;
      delivered =
          retire_out (ltb rptr) (complete_sdma now) (IsSdmaDelivered now) m
            (sdma_delivered rptr now m r.valid.pending);
      retired =
          retire_rest (suc rptr) (s1.next_id + 1) 0 (ltb rptr) (complete_sdma now) m
            (λ end h. omega (arith, ltb→lt rptr end h)) r.valid.ascending;
      stopped = l.1;
      same_info = r.same_info;
      same_primed = r.same_primed;
    }
