-- ===== src/Exporter/Packets.antt =====
-- `Add` of src/prometheus_exporter.cpp for AQL packets and for SDMA packets.
use hsa_snoop.Prelude.{
  lookup, assign, text_eq, to_u32, Text, codes, ℕ, ◌-◌, ◌&&◌, Option, none, some, List, [], ◌∷◌,
  ◌++◌, ltb, if◌then◌else◌,
}
use hsa_snoop.Model.{PacketRecord, SdmaRecord, copy_dir_name, is_copy}
use hsa_snoop.Sdma.Names.{op_name}
use hsa_snoop.TraceWriter.Perfetto.{is_dispatch}
use hsa_snoop.Exporter.Metrics.{
  Family, Op, Call, QueueMeta, LaunchEvent, Exporter, Labels, call, gpu_labels, owner_labels,
  cached_type, remember,
}

-- A packet of a queue that is not registered.
abbrev pub unknown_queue : Call
unknown_queue =
    call Family.errors ((codes "gpu_id", codes "unknown") ∷ (codes "pid", codes "unknown") ∷ [])
      (Op.increment 1)

abbrev pub kernel_labels : Text → QueueMeta → Labels
kernel_labels name m = (codes "kernel_name", name) ∷ gpu_labels m.gpu_id m.gpu_type

unfoldable pub launch_call : QueueMeta → PacketRecord → Call
launch_call m r =
    call Family.kernel_launches ((codes "kernel_name", r.kernel_name) ∷ owner_labels m)
      (Op.increment 1)

-- The duration of a kernel, if it completed after its submission.
unfoldable pub duration_calls : QueueMeta → PacketRecord → List Call
duration_calls m r =
    if r.completed && ltb r.submit_ts r.complete_ts
    then call Family.duration (kernel_labels r.kernel_name m)
        (Op.observe (r.complete_ts - r.submit_ts))
      ∷ []
    else []

-- The child of `hsa_last_kernel_launch_info` for a GPU, replaced when the name changes: the map has
-- an empty name and no gauge for a GPU that it does not hold.
unfoldable pub last_kernel_calls :
    QueueMeta → Text → Option (Text × Text) → Option (Text × Text) × List Call
last_kernel_calls m name none = if text_eq [] name then (none, []) else (
  some (name, m.gpu_type),
  call Family.last_kernel_info
        (gpu_labels m.gpu_id m.gpu_type ++ ((codes "kernel_name", name) ∷ [])) (Op.set 1)
      ∷ [],
)
last_kernel_calls m name (some (old, t)) = if text_eq old name then (some (old, t), []) else (
  some (name, m.gpu_type),
  call Family.last_kernel_info (gpu_labels m.gpu_id t ++ ((codes "kernel_name", old) ∷ []))
        Op.remove
      ∷ call Family.last_kernel_info
          (gpu_labels m.gpu_id m.gpu_type ++ ((codes "kernel_name", name) ∷ [])) (Op.set 1)
      ∷ [],
)

abbrev pub put_kernel :
    ℕ → Option (Text × Text) → List (ℕ × (Text × Text)) → List (ℕ × (Text × Text))
unfolding assign
put_kernel gpu none m = m
put_kernel gpu (some k) m = assign gpu k m

-- The latch of a GPU, which is set when its gauge is made.
unfoldable pub triggered_calls : QueueMeta → Option Text → List Call
triggered_calls m none = call Family.triggered (gpu_labels m.gpu_id m.gpu_type) (Op.set 1) ∷ []
triggered_calls m (some t) = []

-- A kernel dispatch, at the times of the two clocks.
unfoldable pub add_launch : ℕ → ℕ → QueueMeta → PacketRecord → Exporter → Exporter × List Call
unfolding launch_call duration_calls last_kernel_calls triggered_calls cached_type remember
add_launch now_rt now m r x =
    let (kernel, kernel_calls) =
      last_kernel_calls m r.kernel_name (lookup m.gpu_id x.last_kernel) in
    let event : LaunchEvent = record { ts = now; gpu_id = m.gpu_id } in
    let ts_labels = gpu_labels m.gpu_id (cached_type m.gpu_id m.gpu_type x.last_launch) in
    (
      record x {
        last_launch = remember m.gpu_id m.gpu_type x.last_launch;
        last_kernel = put_kernel m.gpu_id kernel x.last_kernel;
        triggered = remember m.gpu_id m.gpu_type x.triggered;
        launch_events = x.launch_events ++ (event ∷ []);
      },
      launch_call m r
          ∷ (duration_calls m r
              ++ (call Family.last_launch_ts ts_labels (Op.set now_rt)
                  ∷ (kernel_calls ++ triggered_calls m (lookup m.gpu_id x.triggered)))),
    )

unfoldable pub barrier_calls : QueueMeta → PacketRecord → List Call
barrier_calls m r =
    if r.barrier then call Family.barrier (owner_labels m) (Op.increment 1) ∷ [] else []

-- A packet of a registered queue.
unfoldable pub add_known : ℕ → ℕ → QueueMeta → PacketRecord → Exporter → Exporter × List Call
unfolding add_launch barrier_calls is_dispatch
add_known now_rt now m r x =
    let (x', calls) = add_launch now_rt now m r x in
    if is_dispatch r.type then (x', calls ++ barrier_calls m r) else (x, barrier_calls m r)

unfoldable pub export_packet : ℕ → ℕ → PacketRecord → Exporter → Exporter × List Call
unfolding add_known
export_packet now_rt now r x = elim (lookup (to_u32 r.queue_uid) x.queue_meta) [
  | none ↦ (x, unknown_queue ∷ [])
  | some m ↦ add_known now_rt now m r x
]

-- The two counters of a copy.
unfoldable pub copy_calls : QueueMeta → SdmaRecord → List Call
unfolding is_copy copy_dir_name
copy_calls m r =
    let labels = owner_labels m ++ ((codes "direction", copy_dir_name r.dir) ∷ []) in
    if is_copy r
    then call Family.sdma_copies labels (Op.increment 1)
      ∷ call Family.sdma_bytes labels (Op.increment r.bytes)
      ∷ []
    else []

unfoldable pub export_sdma : SdmaRecord → Exporter → List Call
unfolding copy_calls op_name
export_sdma r x = elim (lookup (to_u32 r.queue_uid) x.queue_meta) [
  | none ↦ unknown_queue ∷ []
  | some m ↦
      call Family.sdma_packets
        (owner_labels m ++ ((codes "opcode", op_name r.sdma_version r.opcode) ∷ []))
        (Op.increment 1)
      ∷ copy_calls m r
]
