-- ===== src/TraceWriter/Slices.antt =====
-- The slices in the trace that `WritePerfetto` of src/trace_writer.cpp writes for AQL packets, as a
-- reader finds them.
use native.Mathlib.Omega.{arith}
use hsa_snoop.Prelude.{length, IsU64, ℕ, List, [], ◌∷◌, ◌++◌, arith}
use hsa_snoop.Model.{QueueInfo, PacketRecord}
use hsa_snoop.TraceWriter.Wire.{Value, field_bytes}
use hsa_snoop.TraceWriter.Events.{Ev, events_of}
use hsa_snoop.TraceWriter.Perfetto.{packet_event, trace_packet}

-- An event whose time and lengths the format can state.
abbrev pub Fits : List (ℕ × QueueInfo) → Ev PacketRecord → Type 0
Fits queues e =
    IsU64 e.ts
    × IsU64 (length e.r.kernel_name)
    × IsU64 (length (packet_event queues e))
    × IsU64 (length (trace_packet e.ts (packet_event queues e)))

abbrev packet_field : List (ℕ × QueueInfo) → Ev PacketRecord → List ℕ
packet_field queues e = field_bytes (1, Value.bytes (trace_packet e.ts (packet_event queues e)))

abbrev all_packets : List (ℕ × QueueInfo) → List (Ev PacketRecord) → List ℕ
all_packets queues [] = []
all_packets queues (e ∷ es) = packet_field queues e ++ all_packets queues es

-- The begin and the end of a record's slice.
abbrev pub slices : List PacketRecord → List (Ev PacketRecord)
slices records = events_of (λ r. r.submit_ts) (λ r. r.complete_ts) records
