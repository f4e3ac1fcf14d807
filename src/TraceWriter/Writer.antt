-- ===== src/TraceWriter/Writer.antt =====
-- `TraceWriter` of src/trace_writer.h and src/trace_writer.cpp: what is added, and what is written.
use hsa_snoop.Prelude.{
  length, Text, codes, ℕ, ◌+◌, Bool, true, Option, none, some, List, [], ◌∷◌, ◌++◌, ltb, ◌==◌,
  if◌then◌else◌,
}
use hsa_snoop.Model.{QueueInfo, PacketRecord, SdmaRecord, AisRecord}
use hsa_snoop.TraceWriter.Perfetto.{write_packets, write_sdma_packets}
use hsa_snoop.TraceWriter.Tracks.{queue_tracks, ais_tracks, write_ais}
use hsa_snoop.TraceWriter.Json.{
  key_plain, queue_meta, packet_json, sdma_json, ais_json, write_entries,
}

pub data Format : Type 0 where
  perfetto json : Format

-- `queues` is in ascending order of the uids.
pub record Writer : Type 0 where
  pub fmt : Format
  pub records : List PacketRecord
  pub sdma_records : List SdmaRecord
  pub ais_records : List AisRecord
  pub queues : List (ℕ × QueueInfo)

unfoldable pub new_writer : Format → Writer
new_writer fmt = record {
  fmt = fmt;
  records = [];
  sdma_records = [];
  ais_records = [];
  queues = [];
}

unfoldable pub add_packet : PacketRecord → Writer → Writer
add_packet r w = record w { records = w.records ++ (r ∷ []) }

unfoldable pub add_sdma : SdmaRecord → Writer → Writer
add_sdma r w = record w { sdma_records = w.sdma_records ++ (r ∷ []) }

unfoldable pub add_ais : AisRecord → Writer → Writer
add_ais r w = record w { ais_records = w.ais_records ++ (r ∷ []) }

-- `queues_[q.uid] = q` in a map whose keys ascend.
unfoldable pub put {ℓ} : {A : Type ℓ} → ℕ → A → List (ℕ × A) → List (ℕ × A)
put k v [] = (k, v) ∷ []
put k v ((j, w) ∷ m) =
    let rest = put k v m in
    if k == j then (k, v) ∷ m else if ltb k j then (k, v) ∷ (j, w) ∷ m else (j, w) ∷ rest

unfoldable pub register_queue : QueueInfo → Writer → Writer
unfolding put
register_queue q w = record w { queues = put q.uid q w.queues }

unfoldable pub record_count : Writer → ℕ
record_count w = length w.records + length w.sdma_records + length w.ais_records

unfoldable pub json_bytes : (Text → ℕ) → Writer → Text
unfolding write_entries queue_meta packet_json sdma_json ais_json
json_bytes hash w =
    let (meta, f1) = write_entries (λ (kv : ℕ × QueueInfo). queue_meta kv.1) true w.queues in
    let (packets, f2) = write_entries (packet_json w.queues) f1 w.records in
    let (sdma, f3) = write_entries (sdma_json w.queues) f2 w.sdma_records in
    let (ais, f4) = write_entries (ais_json hash) f3 w.ais_records in
    ((codes "{" ++ key_plain (codes "traceEvents") (codes "[")) ++ (10 ∷ []))
    ++ (meta ++ (packets ++ (sdma ++ (ais ++ (10 ∷ 93 ∷ 125 ∷ 10 ∷ [])))))

unfoldable pub perfetto_bytes : (Text → ℕ) → Writer → List ℕ
unfolding queue_tracks write_packets write_sdma_packets ais_tracks write_ais
perfetto_bytes hash w =
    let (tracks, pids) = queue_tracks [] [] w.queues in
    let t1 = write_packets w.queues w.records tracks in
    let t2 = write_sdma_packets w.sdma_records t1 in
    let t3 = ais_tracks hash t2 pids [] w.ais_records in write_ais hash w.ais_records t3

-- What is written to the file, `none` where it cannot be opened.
unfoldable pub write_file : (Text → ℕ) → Bool → Writer → Option (List ℕ)
unfolding json_bytes perfetto_bytes
write_file hash opens w =
    let bytes : List ℕ = elim w.fmt [
      | Format.json ↦ json_bytes hash w
      | Format.perfetto ↦ perfetto_bytes hash w
    ] in
    if opens then some bytes else none
