-- ===== src/Parser/Slot.antt =====
-- `RingParser::DecodeSlot` of src/parser.cpp.
use hsa_snoop.Prelude.{
  add64, mul64, Text, ℕ, ◌%◌, Bool, false, not, ◌&&◌, Option, none, some, List, ltb, ◌==◌,
  if◌then◌else◌,
}
use hsa_snoop.Os.{Os}
use hsa_snoop.ProcMem.Reads.{read_proc_mem}
use hsa_snoop.Model.{QueueInfo, PacketRecord, num_slots}
use hsa_snoop.Aql.Packet.{
  PacketType, invalid, kernel_dispatch, KernelDispatchPacket, packet_size, packet_type_name,
  header_type, header_barrier, field_at, to_kernel_dispatch_packet,
}
use hsa_snoop.Ksym.Resolve.{Resolver, resolve}

unfoldable pub slot_addr : QueueInfo → ℕ → ℕ
slot_addr q id = add64 q.ring_base (mul64 (id % num_slots q) packet_size)

-- A record with no time yet.
unfoldable pub dispatch_record : QueueInfo → ℕ → Bool → KernelDispatchPacket → Text → PacketRecord
dispatch_record q id barrier p name = record {
  queue_uid = q.uid;
  dispatch_id = id;
  type = kernel_dispatch;
  barrier = barrier;
  kernel_object = p.kernel_object;
  kernel_name = name;
  grid = record { x = p.grid_size_x; y = p.grid_size_y; z = p.grid_size_z };
  wg = record { x = p.workgroup_size_x; y = p.workgroup_size_y; z = p.workgroup_size_z };
  private_seg = p.private_segment_size;
  group_seg = p.group_segment_size;
  completion_signal = p.completion_signal;
  kernarg_address = p.kernarg_address;
  submit_ts = 0;
  complete_ts = 0;
  completed = false;
}

-- A packet that is no dispatch: the fields of a dispatch keep their initial 0.
unfoldable pub other_record : QueueInfo → ℕ → ℕ → PacketType → PacketRecord
unfolding header_barrier packet_type_name
other_record q id header type = record {
  queue_uid = q.uid;
  dispatch_id = id;
  type = type;
  barrier = header_barrier header;
  kernel_object = 0;
  kernel_name = packet_type_name type;
  grid = record { x = 0; y = 0; z = 0 };
  wg = record { x = 0; y = 0; z = 0 };
  private_seg = 0;
  group_seg = 0;
  completion_signal = 0;
  kernarg_address = 0;
  submit_ts = 0;
  complete_ts = 0;
  completed = false;
}

-- A dispatch packet with the name of its kernel, and the resolver after the lookup.
unfoldable pub decode_dispatch :
    Os → QueueInfo → Resolver → ℕ → Bool → KernelDispatchPacket → Option PacketRecord × Resolver
unfolding dispatch_record
decode_dispatch os q ksym id barrier p =
    let (name, ksym') = resolve os ksym p.kernel_object in
    (some (dispatch_record q id barrier p name), ksym')

-- A header that reads Invalid: only a consumed slot whose kernel object is set is decoded.
unfoldable pub decode_invalid :
    Os → QueueInfo → Resolver → ℕ → ℕ → List ℕ → Option PacketRecord × Resolver
unfolding decode_dispatch to_kernel_dispatch_packet
decode_invalid os q ksym id rptr raw =
    if ltb id rptr && not ((to_kernel_dispatch_packet raw).kernel_object == 0)
    then decode_dispatch os q ksym id false (to_kernel_dispatch_packet raw)
    else (none, ksym)

unfoldable pub decode_typed :
    Os → QueueInfo → Resolver → ℕ → ℕ → List ℕ → PacketType → Option PacketRecord × Resolver
unfolding decode_invalid other_record
decode_typed os q ksym id rptr raw invalid = decode_invalid os q ksym id rptr raw
decode_typed os q ksym id rptr raw kernel_dispatch =
    decode_dispatch os q ksym id (header_barrier (field_at 0 2 raw)) (to_kernel_dispatch_packet raw)
decode_typed os q ksym id rptr raw type = (some (other_record q id (field_at 0 2 raw) type), ksym)

-- The record, `none` for the result false, and the resolver afterwards.
unfoldable pub decode_slot : Os → QueueInfo → Resolver → ℕ → ℕ → Option PacketRecord × Resolver
unfolding decode_typed slot_addr header_type field_at
decode_slot os q ksym id rptr =
    if num_slots q == 0
    then (none, ksym)
    else elim (read_proc_mem (os.process q.pid) (slot_addr q id) packet_size) [
      | none ↦ (none, ksym)
      | some raw ↦ decode_typed os q ksym id rptr raw (header_type (field_at 0 2 raw))
    ]
