-- ===== src/TraceWriter/Tracks.antt =====
-- The track descriptors of `WritePerfetto` of src/trace_writer.cpp, and its AIS events.
-- `std::hash<std::string>` is a parameter.
use hsa_snoop.Prelude.{
  take, elem, to_dec, to_int_dec, text_eq, to_u32, Text, codes, bit_or, ℕ, ◌+◌, ◌*◌, ◌%◌, ◌^◌, Bool,
  false, ◌||◌, List, [], ◌∷◌, ◌++◌, if◌then◌else◌,
}
use hsa_snoop.Model.{QueueInfo, AisRecord, is_sdma, ais_op_name, is_error}
use hsa_snoop.TraceWriter.Pb.{varint_field, string_field, msg_field, debug_str, debug_uint}
use hsa_snoop.TraceWriter.Events.{Ev, events_of, stable_sort}
use hsa_snoop.TraceWriter.Perfetto.{queue_track_uuid, write_events}

unfoldable pub ais_track_uuid : (Text → ℕ) → ℕ → Text → ℕ
unfolding bit_or
ais_track_uuid hash pid pcie_id = bit_or 64 0xA1500000 (to_u32 pid * 2 ^ 16) + hash pcie_id % 2 ^ 16

-- The packet around a track descriptor, behind a trace.
unfoldable pub add_descriptor : List ℕ → List ℕ → List ℕ
unfolding msg_field
add_descriptor trace td = msg_field trace 1 (msg_field [] 60 td)

-- A process track: its uuid is the pid.
unfoldable pub add_process : List ℕ → ℕ → Text → List ℕ
unfolding add_descriptor varint_field string_field
add_process trace pid comm =
    let proc = string_field (varint_field [] 1 pid) 6 comm in
    add_descriptor trace (msg_field (varint_field [] 1 pid) 3 proc)

-- "%s queue %lu (gpu %u)".
unfoldable pub queue_label : QueueInfo → Text
unfolding is_sdma
queue_label q =
    (if is_sdma q then codes "sdma" else codes "aql")
    ++ (codes " queue " ++ (to_dec q.uid ++ (codes " (gpu " ++ (to_dec q.gpu_id ++ (41 ∷ [])))))

-- A child track: its uuid, its name and its parent's uuid.
unfoldable pub add_track : List ℕ → ℕ → Text → ℕ → List ℕ
unfolding add_descriptor varint_field string_field
add_track trace uuid name parent =
    add_descriptor trace (varint_field (string_field (varint_field [] 1 uuid) 2 name) 5 parent)

-- The loop over the queues: the trace, and `seen_pid`.
unfoldable pub queue_tracks : List ℕ → List ℕ → List (ℕ × QueueInfo) → List ℕ × List ℕ
unfolding add_process add_track queue_label queue_track_uuid
queue_tracks trace seen [] = (trace, seen)
queue_tracks trace seen ((uid, q) ∷ more) =
    let known = elem q.pid seen in
    let trace' = if known then trace else add_process trace q.pid q.comm in
    let seen' = if known then seen else q.pid ∷ seen in
    queue_tracks (add_track trace' (queue_track_uuid q.uid) (queue_label q) q.pid) seen' more

-- "ais [gpu %u] [%s]" in 256 bytes.
unfoldable pub ais_label : AisRecord → Text
ais_label r =
    take 255 (codes "ais [gpu " ++ (to_dec r.gpu_id ++ (codes "] [" ++ (r.pcie_id ++ (93 ∷ [])))))

-- Whether the key "pid:pcie_id" was seen.
unfoldable pub seen_track : Text → List Text → Bool
seen_track key [] = false
seen_track key (k ∷ ks) = text_eq key k || seen_track key ks

-- The loop over the AIS records; `pids` holds `seen_pid` and `ais_seen_pid`.
unfoldable pub ais_tracks : (Text → ℕ) → List ℕ → List ℕ → List Text → List AisRecord → List ℕ
unfolding add_process add_track ais_label ais_track_uuid seen_track
ais_tracks hash trace pids keys [] = trace
ais_tracks hash trace pids keys (r ∷ more) =
    let key = to_dec r.pid ++ (58 ∷ r.pcie_id) in
    let known = elem r.pid pids in
    let trace' = if known then trace else add_process trace r.pid r.comm in
    let pids' = if known then pids else r.pid ∷ pids in
    let uuid = ais_track_uuid hash r.pid r.pcie_id in
    let skipped = ais_tracks hash trace pids keys more in
    let added =
      ais_tracks hash (add_track trace' uuid (ais_label r) r.pid) pids' (key ∷ keys) more in
    if seen_track key keys then skipped else added

-- The `TrackEvent` of an AIS record.
unfoldable pub ais_event : (Text → ℕ) → Ev AisRecord → List ℕ
unfolding ais_track_uuid debug_str debug_uint is_error
ais_event hash e =
    let r = e.r in
    let te0 = varint_field [] 11 (ais_track_uuid hash r.pid r.pcie_id) in
    let te1 = varint_field te0 9 1 in
    let te2 = string_field te1 23 (codes "ais/" ++ ais_op_name r.op) in
    let te3 = msg_field te2 4 (debug_str (codes "op") (ais_op_name r.op)) in
    let te4 = msg_field te3 4 (debug_uint (codes "gpu_id") r.gpu_id) in
    let te5 = msg_field te4 4 (debug_str (codes "pcie_id") r.pcie_id) in
    let te6 = msg_field te5 4 (debug_uint (codes "size_req") r.size_req) in
    let te7 = msg_field te6 4 (debug_uint (codes "size_copied") r.size_copied) in
    let te8 =
      if is_error r
      then msg_field te7 4 (debug_str (codes "error") (to_int_dec r.error))
      else te7 in
    if e.begin then msg_field te8 4 (debug_uint (codes "seq") r.seq) else varint_field te0 9 2

-- The events of all AIS records behind a trace.
unfoldable pub write_ais : (Text → ℕ) → List AisRecord → List ℕ → List ℕ
unfolding write_events ais_event
write_ais hash records trace =
    write_events (ais_event hash) trace
      (stable_sort (events_of (λ r. r.submit_ts) (λ r. r.complete_ts) records))
