-- ===== src/TraceWriter/Perfetto.antt =====
-- The track events of `WritePerfetto` of src/trace_writer.cpp for AQL and SDMA packets.
use hsa_snoop.Prelude.{
  lookup, to_dec, add64, Text, codes, ℕ, Bool, true, false, none, some, List, [], ◌∷◌, ◌++◌, ◌==◌,
  if◌then◌else◌,
}
use hsa_snoop.Model.{QueueInfo, Dim3, PacketRecord, SdmaRecord, copy_dir_name, is_copy}
use hsa_snoop.Aql.Packet.{PacketType, packet_type_name}
use hsa_snoop.TraceWriter.Pb.{varint_field, string_field, msg_field, debug_str, debug_uint}
use hsa_snoop.TraceWriter.Events.{Ev, events_of, stable_sort}

unfoldable pub queue_track_uuid : ℕ → ℕ
queue_track_uuid uid = add64 0x51000000 uid

-- "%u x %u x %u".
unfoldable pub dims : Dim3 → Text
dims d = to_dec d.x ++ (codes " x " ++ (to_dec d.y ++ (codes " x " ++ to_dec d.z)))

-- `queues_[uid].ring_phys`: a queue that is not registered reads as one without a ring.
unfoldable pub ring_phys_of : List (ℕ × QueueInfo) → ℕ → ℕ
ring_phys_of queues uid = elim (lookup uid queues) [ none ↦ 0 | some q ↦ q.ring_phys ]

-- Whether the annotations of a dispatch are written.
unfoldable pub is_dispatch : PacketType → Bool
is_dispatch PacketType.kernel_dispatch = true
is_dispatch PacketType.vendor_specific = true
is_dispatch _ = false

-- The annotations that only a dispatch has.
unfoldable pub dispatch_args : List ℕ → PacketRecord → List ℕ
unfolding dims
dispatch_args te r =
    let te1 = msg_field te 4 (debug_str (codes "grid") (dims r.grid)) in
    let te2 = msg_field te1 4 (debug_str (codes "workgroup") (dims r.wg)) in
    let te3 = msg_field te2 4 (debug_uint (codes "kernel_object") r.kernel_object) in
    let te4 = msg_field te3 4 (debug_uint (codes "group_seg") r.group_seg) in
    let te5 = msg_field te4 4 (debug_uint (codes "private_seg") r.private_seg) in
    msg_field te5 4 (debug_uint (codes "completion_signal") r.completion_signal)

-- The `TrackEvent` of an AQL packet: type 1 begins a slice and type 2 ends it.
unfoldable pub packet_event : List (ℕ × QueueInfo) → Ev PacketRecord → List ℕ
unfolding queue_track_uuid is_dispatch dispatch_args ring_phys_of
packet_event queues e =
    let r = e.r in
    let te0 = varint_field [] 11 (queue_track_uuid r.queue_uid) in
    let te1 = varint_field te0 9 1 in
    let te2 = string_field te1 23 r.kernel_name in
    let te3 = msg_field te2 4 (debug_str (codes "type") (packet_type_name r.type)) in
    let te4 = msg_field te3 4 (debug_uint (codes "dispatch_id") r.dispatch_id) in
    let te5 = if is_dispatch r.type then dispatch_args te4 r else te4 in
    let phys = ring_phys_of queues r.queue_uid in
    if e.begin
    then (if phys == 0 then te5 else msg_field te5 4 (debug_uint (codes "ring_phys") phys))
    else varint_field te0 9 2

-- The annotations of a copy.
unfoldable pub copy_args : List ℕ → SdmaRecord → List ℕ
copy_args te r =
    let te1 = msg_field te 4 (debug_uint (codes "bytes") r.bytes) in
    let te2 = msg_field te1 4 (debug_str (codes "direction") (copy_dir_name r.dir)) in
    let te3 = msg_field te2 4 (debug_uint (codes "src") r.src_addr) in
    msg_field te3 4 (debug_uint (codes "dst") r.dst_addr)

-- The `TrackEvent` of an SDMA packet.
unfoldable pub sdma_event : Ev SdmaRecord → List ℕ
unfolding queue_track_uuid copy_args
sdma_event e =
    let r = e.r in
    let te0 = varint_field [] 11 (queue_track_uuid r.queue_uid) in
    let te1 = varint_field te0 9 1 in
    let te2 = string_field te1 23 r.op_name in
    let te3 = msg_field te2 4 (debug_uint (codes "opcode") r.opcode) in
    let te4 = msg_field te3 4 (debug_uint (codes "seq") r.seq) in
    if e.begin then (if is_copy r then copy_args te4 r else te4) else varint_field te0 9 2

-- The `TracePacket` around a track event: timestamp, event and sequence id.
unfoldable pub trace_packet : ℕ → List ℕ → List ℕ
trace_packet ts te = varint_field (msg_field (varint_field [] 8 ts) 11 te) 10 1

module _ {ℓ} {R : Type ℓ} where
  -- The loop over the sorted events, which appends to `trace`.
  unfoldable pub write_events : (Ev R → List ℕ) → List ℕ → List (Ev R) → List ℕ
  unfolding trace_packet
  write_events te trace [] = trace
  write_events te trace (e ∷ es) = write_events te (msg_field trace 1 (trace_packet e.ts (te e))) es

-- The events of all AQL packets behind a trace.
unfoldable pub write_packets : List (ℕ × QueueInfo) → List PacketRecord → List ℕ → List ℕ
unfolding write_events packet_event
write_packets queues records trace =
    write_events (packet_event queues) trace
      (stable_sort (events_of (λ r. r.submit_ts) (λ r. r.complete_ts) records))

-- The events of all SDMA packets behind a trace.
unfoldable pub write_sdma_packets : List SdmaRecord → List ℕ → List ℕ
unfolding write_events sdma_event
write_sdma_packets records trace =
    write_events sdma_event trace
      (stable_sort (events_of (λ r. r.submit_ts) (λ r. r.complete_ts) records))
