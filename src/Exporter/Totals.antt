-- ===== src/Exporter/Totals.antt =====
-- What the calls of one record of src/prometheus_exporter.cpp add to the counters.
use native.Mathlib.Omega.{arith}
use hsa_snoop.Prelude.{
  lookup, text_eq, to_u32, Text, is_some, ℕ, ◌+◌, ◌≡◌, refl, ◌∙◌, inl, inr, Bool, true, ◌&&◌,
  Option, none, some, List, [], ◌∷◌, ◌++◌, arith, if◌then◌else◌, Bool-cases, Option-cases,
}
use hsa_snoop.Model.{QueueInfo, PacketRecord, SdmaRecord, is_sdma, is_copy}
use hsa_snoop.TraceWriter.Perfetto.{is_dispatch}
use hsa_snoop.Exporter.Metrics.{
  Family, Op, Call, QueueMeta, Exporter, call, gpu_labels, cached_type,
}
use hsa_snoop.Exporter.Queues.{queue_info_call, export_queue}
use hsa_snoop.Exporter.Packets.{
  launch_call, duration_calls, last_kernel_calls, triggered_calls, add_launch, barrier_calls,
  add_known, export_packet, copy_calls, export_sdma,
}

-- What calls add to the metrics of the families that a test accepts.
unfoldable pub total : (Family → Bool) → List Call → ℕ
total f [] = 0
total f (c ∷ cs) = (elim c.op [ Op.increment n ↦ if f c.family then n else 0 | _ ↦ 0 ]) + total f cs

pub total-append :
    (f : Family → Bool) (xs ys : List Call) → total f (xs ++ ys) ≡ total f xs + total f ys
unfolding total
total-append f [] ys = omega arith
total-append f (c ∷ cs) ys = omega (arith, total-append f cs ys)

abbrev pub one : Bool → ℕ
one b = if b then 1 else 0

-- What a packet is to add: of a registered queue, one launch for a dispatch and one barrier for a
-- barrier bit, and one error of another queue.
abbrev pub packet_adds : (Family → Bool) → Bool → PacketRecord → ℕ
unfolding is_dispatch
packet_adds f known r =
    if known
    then one (is_dispatch r.type && f Family.kernel_launches) + one (r.barrier && f Family.barrier)
    else one (f Family.errors)

-- What an SDMA packet is to add: one packet, and for a copy one copy and its bytes.
abbrev pub sdma_adds : (Family → Bool) → Bool → SdmaRecord → ℕ
unfolding is_copy
sdma_adds f known r =
    if known
    then one (f Family.sdma_packets)
      + (if is_copy r
          then one (f Family.sdma_copies) + (if f Family.sdma_bytes then r.bytes else 0)
          else 0)
    else one (f Family.errors)

total-duration_calls :
    (f : Family → Bool) (m : QueueMeta) (r : PacketRecord) → total f (duration_calls m r) ≡ 0
unfolding total duration_calls
total-duration_calls f m r = ground arith

total-last_kernel_calls :
    (f : Family → Bool) (m : QueueMeta) (name : Text) (k : Option (Text × Text))
    → total f (last_kernel_calls m name k).1 ≡ 0
unfolding total last_kernel_calls
total-last_kernel_calls f m name none = elim (Bool-cases (text_eq [] name)) [
  | inl h ↦ rw h refl
  | inr h ↦ rw h refl
]
total-last_kernel_calls f m name (some (old, t)) = elim (Bool-cases (text_eq old name)) [
  | inl h ↦ rw h refl
  | inr h ↦ rw h refl
]

total-triggered_calls :
    (f : Family → Bool) (m : QueueMeta) (t : Option Text) → total f (triggered_calls m t) ≡ 0
unfolding total triggered_calls
total-triggered_calls f m none = refl
total-triggered_calls f m (some t) = refl

total-barrier_calls :
    (f : Family → Bool) (m : QueueMeta) (r : PacketRecord)
    → total f (barrier_calls m r) ≡ one (r.barrier && f Family.barrier)
unfolding total barrier_calls
total-barrier_calls f m r = ground arith

total-add_launch :
    (f : Family → Bool) (now_rt now : ℕ) (m : QueueMeta) (r : PacketRecord) (x : Exporter)
    → total f (add_launch now_rt now m r x).1 ≡ one (f Family.kernel_launches)
unfolding add_launch total launch_call
total-add_launch f now_rt now m r x =
    let ks = (last_kernel_calls m r.kernel_name (lookup m.gpu_id x.last_kernel)).1 in
    let ts = triggered_calls m (lookup m.gpu_id x.triggered) in
    let ts_call =
      call Family.last_launch_ts
        (gpu_labels m.gpu_id (cached_type m.gpu_id m.gpu_type x.last_launch)) (Op.set now_rt) in
    omega (
      arith,
      total-append f (duration_calls m r) (ts_call ∷ (ks ++ ts)),
      total-append f ks ts,
      total-duration_calls f m r,
      total-last_kernel_calls f m r.kernel_name (lookup m.gpu_id x.last_kernel),
      total-triggered_calls f m (lookup m.gpu_id x.triggered),
    )

total-add_known :
    (f : Family → Bool) (now_rt now : ℕ) (m : QueueMeta) (r : PacketRecord) (x : Exporter)
    → total f (add_known now_rt now m r x).1 ≡ packet_adds f true r
unfolding add_known
total-add_known f now_rt now m r x =
    let calls = (add_launch now_rt now m r x).1 in
    elim (Bool-cases (is_dispatch r.type)) [
      | inl h ↦ rw h (
          total-append f calls (barrier_calls m r)
          ∙ omega (arith, total-add_launch f now_rt now m r x, total-barrier_calls f m r))
      | inr h ↦ rw h (total-barrier_calls f m r ∙ omega arith)
    ]

pub total-export_packet :
    (f : Family → Bool) (now_rt now : ℕ) (r : PacketRecord) (x : Exporter)
    → total f (export_packet now_rt now r x).1
      ≡ packet_adds f (is_some (lookup (to_u32 r.queue_uid) x.queue_meta)) r
unfolding export_packet total
total-export_packet f now_rt now r x =
    elim (Option-cases (lookup (to_u32 r.queue_uid) x.queue_meta)) [
      | inl h ↦ rw (export_packet, h) (omega arith)
      | inr (m, h) ↦ rw (export_packet, h) (total-add_known f now_rt now m r x)
    ]

total-copy_calls :
    (f : Family → Bool) (m : QueueMeta) (r : SdmaRecord)
    → total f (copy_calls m r) ≡ (
        if is_copy r
        then one (f Family.sdma_copies) + (if f Family.sdma_bytes then r.bytes else 0)
        else 0)
unfolding total copy_calls
total-copy_calls f m r = elim (Bool-cases (is_copy r)) [
  | inl h ↦ rw h (omega arith)
  | inr h ↦ rw h refl
]

pub total-export_sdma :
    (f : Family → Bool) (r : SdmaRecord) (x : Exporter)
    → total f (export_sdma r x) ≡ sdma_adds f (is_some (lookup (to_u32 r.queue_uid) x.queue_meta)) r
unfolding export_sdma total
total-export_sdma f r x = elim (Option-cases (lookup (to_u32 r.queue_uid) x.queue_meta)) [
  | inl h ↦ rw (export_sdma, h) (omega arith)
  | inr (m, h) ↦ rw (export_sdma, h) (omega (arith, total-copy_calls f m r))
]

pub total-export_queue :
    (f : Family → Bool) (gpu_type : ℕ → Text) (q : QueueInfo) (x : Exporter)
    → total f (export_queue gpu_type q x).1
      ≡ one (f (if is_sdma q then Family.active_sdma_queues else Family.active_queues))
unfolding total export_queue queue_info_call
total-export_queue f gpu_type q x = elim (Bool-cases (is_sdma q)) [
  | inl h ↦ rw h (omega arith)
  | inr h ↦ rw h (omega arith)
]
