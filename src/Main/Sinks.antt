-- ===== src/Main/Sinks.antt =====
-- The sinks of src/main.cpp: where a record goes that the parser or a monitor reports.
use hsa_snoop.Prelude.{
  lookup, assign, mul64, ℕ, false, not, ◌&&◌, Option, none, some, List, [], ◌∷◌, ◌++◌, ◌==◌,
  if◌then◌else◌,
}
use hsa_snoop.Model.{QueueInfo, PacketRecord, SdmaRecord, XnackRecord, AisRecord, MemRecord}
use hsa_snoop.Os.{Os}
use hsa_snoop.ProcMem.Reads.{read_kernarg_size}
use hsa_snoop.ProcMem.Footprint.{scan_kernarg_footprint}
use hsa_snoop.DispatchLog.Lines.{Ctx}
use hsa_snoop.TraceWriter.Writer.{Writer, add_packet, add_sdma, add_ais}
use hsa_snoop.TraceWriter.Perfetto.{is_dispatch}
use hsa_snoop.Sdma.Topology.{Node}
use hsa_snoop.Main.Session.{
  QueueIds, Modes, Session, Output, log_dispatch, log_sdma, export_packet, export_sdma, export_ais,
  export_xnack, export_mem, print_mem, print_xnack, on_queue,
}

-- `queue_ctx`.
unfoldable pub queue_ctx : List (ℕ × QueueIds) → ℕ → Ctx
queue_ctx ids uid = elim (lookup uid ids) [
  | none ↦ record { gpu_id = 0; pid = 0; comm = [] }
  | some i ↦ record { gpu_id = i.gpu_id; pid = i.pid; comm = i.comm }
]

-- The number of bytes that are scanned: 256 where the descriptor gives none.
unfoldable pub scan_size : ℕ → ℕ
scan_size declared = if declared == 0 then 256 else declared

-- What the argument block of a dispatch adds to its record.
unfoldable pub measure : Os → QueueIds → PacketRecord → MemRecord → MemRecord
unfolding read_kernarg_size scan_kernarg_footprint scan_size
measure os ids r mr =
    let declared = read_kernarg_size (os.process ids.pid) r.kernel_object in
    let (valid, f) =
      scan_kernarg_footprint (os.process ids.pid) r.kernarg_address (scan_size declared) in
    record mr {
      gpu_id = ids.gpu_id;
      kernarg_size_bytes = declared;
      footprint_valid = valid;
      mapped_vram_bytes = f.mapped_vram_bytes;
      ptr_count = f.ptr_count;
    }

-- The record of a dispatch of a queue that is not registered.
unfoldable pub mem_of : PacketRecord → MemRecord
mem_of r = record {
  queue_uid = r.queue_uid;
  dispatch_id = r.dispatch_id;
  kernel_name = r.kernel_name;
  gpu_id = 0;
  group_seg_bytes = r.group_seg;
  private_seg_bytes = r.private_seg;
  grid_size = mul64 (mul64 r.grid.x r.grid.y) r.grid.z;
  footprint_valid = false;
  kernarg_size_bytes = 0;
  mapped_vram_bytes = 0;
  ptr_count = 0;
  submit_ts = r.submit_ts;
}

unfoldable pub mem_record : Os → List (ℕ × QueueIds) → PacketRecord → MemRecord
unfolding mem_of measure
mem_record os ids r = elim (lookup r.queue_uid ids) [
  | none ↦ mem_of r
  | some i ↦ measure os i r (mem_of r)
]

-- The memory record of a dispatch, to the exporter or to stderr.
unfoldable pub mem_outputs : Os → Modes → Session → PacketRecord → List Output
unfolding mem_record is_dispatch
mem_outputs os m s r =
    let mr = mem_record os s.queue_ids r in
    if m.mem_mode && (is_dispatch r.type && not (r.kernarg_address == 0))
    then (if m.exporter then export_mem mr else print_mem mr) ∷ []
    else []

-- A change of the writer of a queue, if it has one.
unfoldable pub change_writer : ℕ → (Writer → Writer) → List (ℕ × Writer) → List (ℕ × Writer)
unfolding assign
change_writer uid f writers = elim (lookup uid writers) [
  | none ↦ writers
  | some w ↦ assign uid (f w) writers
]

-- A record goes to the exporter, to the writer of its queue, or to the one writer.
unfoldable pub add_record : Modes → ℕ → (Writer → Writer) → Session → Session
unfolding change_writer
add_record m uid f s =
    if m.exporter
    then s
    else if m.all_mode
    then record s { per_queue = change_writer uid f s.per_queue }
    else record s { single = f s.single }

-- The packet sink.
unfoldable pub packet_sink : Os → Modes → PacketRecord → Session → Session × List Output
unfolding add_record add_packet mem_outputs queue_ctx is_dispatch
packet_sink os m r s = (
  add_record m r.queue_uid (add_packet r) s,
  mem_outputs os m s r
      ++ ((if m.dispatch_log && is_dispatch r.type
            then log_dispatch r (queue_ctx s.queue_ids r.queue_uid) ∷ []
            else [])
          ++ (if m.exporter then export_packet r ∷ [] else [])),
)

-- The SDMA sink.
unfoldable pub sdma_sink : Modes → SdmaRecord → Session → Session × List Output
unfolding add_record add_sdma queue_ctx
sdma_sink m r s = (
  add_record m r.queue_uid (add_sdma r) s,
  (if m.dispatch_log then log_sdma r (queue_ctx s.queue_ids r.queue_uid) ∷ [] else [])
      ++ (if m.exporter then export_sdma r ∷ [] else []),
)

-- The AIS sink.
unfoldable pub ais_sink : Modes → AisRecord → Session → Session × List Output
unfolding add_ais
ais_sink m r s =
    if m.exporter
    then (s, export_ais r ∷ [])
    else if m.all_mode
    then (s, [])
    else (record s { single = add_ais r s.single }, [])

-- The XNACK sink.
unfoldable pub xnack_sink : Modes → XnackRecord → Session → Session × List Output
xnack_sink m r s = (s, (if m.exporter then export_xnack r else print_xnack r) ∷ [])

-- What happens to a session, one call at a time.
pub data Event : Type 0 where
  queue : QueueInfo → Event
  packet : PacketRecord → Event
  sdma : SdmaRecord → Event
  ais : AisRecord → Event
  xnack : XnackRecord → Event

unfoldable pub handle : Os → Option (List Node) → Modes → Event → Session → Session × List Output
unfolding on_queue packet_sink sdma_sink ais_sink xnack_sink
handle os topology m (queue q) s = on_queue os topology m q s
handle os topology m (packet r) s = packet_sink os m r s
handle os topology m (sdma r) s = sdma_sink m r s
handle os topology m (ais r) s = ais_sink m r s
handle os topology m (xnack r) s = xnack_sink m r s

-- Calls in order, each with the answers of the system of its time.
unfoldable pub handle_all :
    Option (List Node) → Modes → Session → List (Os × Event) → Session × List Output
unfolding handle
handle_all topology m s [] = (s, [])
handle_all topology m s ((os, e) ∷ es) =
    let (s', out) = handle os topology m e s in
    let (s'', rest) = handle_all topology m s' es in (s'', out ++ rest)
