-- ===== src/Main/Session.antt =====
-- How src/main.cpp takes a new queue: `get_writer` and `on_queue`, with the state that the sinks
-- share. What a call hands to another part is an output, in the order of the calls.
use hsa_snoop.Prelude.{
  lookup, emplace, Text, ℕ, ◌+◌, Bool, not, Option, none, some, List, [], ◌∷◌, ◌++◌, if◌then◌else◌,
}
use hsa_snoop.Model.{
  QueueInfo, PacketRecord, SdmaRecord, XnackRecord, AisRecord, MemRecord, is_sdma, is_traced,
}
use hsa_snoop.Os.{Os}
use hsa_snoop.Sdma.Defs.{is_supported_version}
use hsa_snoop.Sdma.Topology.{Node, detect_version}
use hsa_snoop.ProcMem.Reads.{virt_to_phys}
use hsa_snoop.DispatchLog.Lines.{Ctx}
use hsa_snoop.TraceWriter.Writer.{Format, Writer, new_writer, put, register_queue}

-- `QueueIds`.
pub record QueueIds : Type 0 where
  pub gpu_id : ℕ
  pub pid : ℕ
  pub comm : Text

-- The modes that the routing looks at: whether there is an exporter and a dispatch log.
pub record Modes : Type 0 where
  pub all_mode : Bool
  pub mem_mode : Bool
  pub exporter : Bool
  pub dispatch_log : Bool
  pub fmt : Format

-- The state that the sinks share; `single` is used without --all and without an exporter.
pub record Session : Type 0 where
  pub single : Writer
  pub per_queue : List (ℕ × Writer)
  pub queue_ids : List (ℕ × QueueIds)
  pub queue_count : ℕ

-- The calls of the other parts.
pub data Output : Type 0 where
  log_queue : QueueInfo → Output
  log_dispatch : PacketRecord → Ctx → Output
  log_sdma : SdmaRecord → Ctx → Output
  export_queue : QueueInfo → Output
  export_packet : PacketRecord → Output
  export_sdma : SdmaRecord → Output
  export_ais : AisRecord → Output
  export_xnack : XnackRecord → Output
  export_mem : MemRecord → Output
  print_mem : MemRecord → Output
  print_xnack : XnackRecord → Output
  parse_queue : QueueInfo → Output

abbrev pub new_session : Format → Session
unfolding new_writer
new_session fmt = record {
  single = new_writer fmt;
  per_queue = [];
  queue_ids = [];
  queue_count = 0;
}

-- `get_writer` with --all: a queue's writer is made when the queue is first seen.
unfoldable pub ensure_writer : Format → QueueInfo → List (ℕ × Writer) → List (ℕ × Writer)
unfolding put register_queue new_writer
ensure_writer fmt q writers = elim (lookup q.uid writers) [
  | some w ↦ writers
  | none ↦ put q.uid (register_queue q (new_writer fmt)) writers
]

-- The queue with the SDMA version that the topology gives; `none` where the queue is ignored.
unfoldable pub accept_queue : Option (List Node) → QueueInfo → Option QueueInfo
unfolding is_traced is_sdma detect_version is_supported_version
accept_queue topology q =
    let q' = record q { sdma_version = detect_version q.gpu_id topology } in
    if not (is_traced q)
    then none
    else if not (is_sdma q)
    then some q
    else if is_supported_version q'.sdma_version
    then some q'
    else none

-- `queue_ids.emplace`: an entry that is there is kept.
unfoldable pub record_ids : QueueInfo → List (ℕ × QueueIds) → List (ℕ × QueueIds)
unfolding emplace
record_ids q ids = emplace q.uid (record { gpu_id = q.gpu_id; pid = q.pid; comm = q.comm }) ids

-- A queue that was accepted, with its physical address.
unfoldable pub take_queue : Modes → QueueInfo → Session → Session × List Output
unfolding record_ids ensure_writer register_queue
take_queue m q s =
    let s' = record s { queue_ids = record_ids q s.queue_ids; queue_count = s.queue_count + 1 } in
    let s'' =
      if m.exporter
      then s'
      else if m.all_mode
      then record s' { per_queue = ensure_writer m.fmt q s.per_queue }
      else record s' { single = register_queue q s.single } in
    (
      s'',
      (if m.dispatch_log then log_queue q ∷ [] else [])
          ++ ((if m.exporter then export_queue q ∷ [] else []) ++ (parse_queue q ∷ [])),
    )

-- `on_queue`.
unfoldable pub on_queue :
    Os → Option (List Node) → Modes → QueueInfo → Session → Session × List Output
unfolding accept_queue virt_to_phys take_queue
on_queue os topology m q s = elim (accept_queue topology q) [
  | none ↦ (s, [])
  | some q' ↦ take_queue m (record q' { ring_phys = virt_to_phys os q.pid q.ring_base }) s
]
