-- ===== src/Exporter/Queues.antt =====
-- `RegisterQueue`, `SetAisArmed` and `SetXnackArmed` of src/prometheus_exporter.cpp. `gpu_type` is
-- `DetectGpuType`, which asks sysfs and rocminfo.
use hsa_snoop.Prelude.{
  to_dec, to_hex, assign, to_u32, Text, codes, ℕ, Bool, true, List, [], ◌∷◌, ◌++◌, if◌then◌else◌,
}
use hsa_snoop.Model.{QueueInfo, is_sdma}
use hsa_snoop.Exporter.Metrics.{
  Family, Op, Call, QueueMeta, Exporter, call, gpu_labels, cached_type, remember,
}

-- "0x%lx".
abbrev pub hex : ℕ → Text
unfolding to_hex
hex n = 48 ∷ 120 ∷ to_hex n

unfoldable pub queue_info_call : Text → QueueInfo → Call
queue_info_call gpu_type q =
    call Family.queue_info
      (gpu_labels q.gpu_id gpu_type
        ++ ((codes "pid", to_dec q.pid)
            ∷ (codes "comm", q.comm)
            ∷ (codes "ring_base", hex q.ring_base)
            ∷ (codes "ring_phys", hex q.ring_phys)
            ∷ (codes "ring_size", to_dec q.ring_size)
            ∷ []))
      (Op.set 1)

unfoldable pub export_queue : (ℕ → Text) → QueueInfo → Exporter → Exporter × List Call
unfolding queue_info_call is_sdma cached_type remember assign
export_queue gpu_type q x =
    let t = gpu_type q.gpu_id in
    let meta : QueueMeta = record { gpu_id = q.gpu_id; pid = q.pid; comm = q.comm; gpu_type = t } in
    let x' = record x { queue_meta = assign (to_u32 q.uid) meta x.queue_meta } in
    let sdma_labels = gpu_labels q.gpu_id (cached_type q.gpu_id t x.active_sdma_queue) in
    let aql_labels = gpu_labels q.gpu_id (cached_type q.gpu_id t x.active_queue) in
    if is_sdma q
    then (
      record x' { active_sdma_queue = remember q.gpu_id t x.active_sdma_queue },
      queue_info_call t q
          ∷ call Family.sdma_present [] (Op.set 1)
          ∷ call Family.active_sdma_queues sdma_labels (Op.increment 1)
          ∷ [],
    )
    else (
      record x' { active_queue = remember q.gpu_id t x.active_queue },
      queue_info_call t q ∷ call Family.active_queues aql_labels (Op.increment 1) ∷ [],
    )

unfoldable pub set_ais_armed : Bool → Exporter → Exporter × List Call
set_ais_armed armed x = (
  record x { ais_armed = true },
  call Family.ais_snoop_armed [] (Op.set (if armed then 1 else 0)) ∷ [],
)

unfoldable pub set_xnack_armed : Bool → Exporter → Exporter × List Call
set_xnack_armed armed x = (
  record x { xnack_armed = true },
  call Family.xnack_snoop_armed [] (Op.set (if armed then 1 else 0)) ∷ [],
)
