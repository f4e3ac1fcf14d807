-- ===== src/TraceWriter/Json.antt =====
-- `WriteJson` of src/trace_writer.cpp. `std::hash<std::string>` is a parameter.
use hsa_snoop.Prelude.{
  lookup, to_dec, to_hex, to_int_dec, text_eq, Text, codes, ℕ, ◌+◌, ◌-◌, ◌*◌, ◌%◌, ◌^◌, Bool, true,
  false, ◌||◌, none, some, List, [], ◌∷◌, ◌++◌, ltb, ◌==◌, if◌then◌else◌,
}
use hsa_snoop.Model.{
  QueueInfo, PacketRecord, SdmaRecord, AisRecord, copy_dir_name, is_copy, ais_op_name, latency,
}
use hsa_snoop.Aql.Packet.{packet_type_name}
use hsa_snoop.TraceWriter.Events.{min_dur}
use hsa_snoop.TraceWriter.Perfetto.{dims, ring_phys_of, is_dispatch}
use hsa_snoop.TraceWriter.Tracks.{queue_label}
use hsa_snoop.TraceWriter.Numbers.{stream_us}

unfoldable pub json_escape : Text → Text
json_escape [] = []
json_escape (c ∷ s) =
    let rest = json_escape s in
    if (c == 34) || c == 92 then 92 ∷ c ∷ rest else if c == 10 then 92 ∷ 110 ∷ rest else c ∷ rest

-- `dur`.
unfoldable pub duration : ℕ → ℕ → ℕ
duration submit complete = let dur = complete - submit in if ltb dur min_dur then min_dur else dur

-- `",\n"` in front of all but the first entry.
abbrev pub separate : Bool → Text
separate true = []
separate false = 44 ∷ 10 ∷ []

-- A key and the quote in front of a text, and a key in front of a number.
abbrev pub key_text : Text → Text → Text
key_text key val = (34 ∷ key) ++ (34 ∷ 58 ∷ 34 ∷ (val ++ (34 ∷ [])))

abbrev pub key_plain : Text → Text → Text
key_plain key val = (34 ∷ key) ++ (34 ∷ 58 ∷ val)

abbrev pub key_num : Text → ℕ → Text
unfolding to_dec
key_num key n = key_plain key (to_dec n)

abbrev pub key_hex : Text → ℕ → Text
unfolding to_hex
key_hex key n = key_text key (48 ∷ 120 ∷ to_hex n)

-- The members of an object, with a comma in front of all but the first.
unfoldable pub members : List Text → Text
members [] = []
members (m ∷ []) = m
members (m ∷ n ∷ more) = m ++ (44 ∷ members (n ∷ more))

abbrev pub braced : List Text → Text
unfolding members
braced ms = (123 ∷ members ms) ++ (125 ∷ [])

-- The two metadata entries of a queue.
unfoldable pub queue_meta : QueueInfo → Text
unfolding json_escape queue_label
queue_meta q =
    let comm = json_escape q.comm ++ (codes " (" ++ (to_dec q.pid ++ (41 ∷ []))) in
    braced (
      key_text (codes "ph") (codes "M")
      ∷ key_text (codes "name") (codes "process_name")
      ∷ key_num (codes "pid") q.pid
      ∷ key_num (codes "tid") 0
      ∷ key_plain (codes "args") (braced (key_text (codes "name") comm ∷ []))
      ∷ [])
    ++ (44
        ∷ 10
        ∷ braced (
            key_text (codes "ph") (codes "M")
            ∷ key_text (codes "name") (codes "thread_name")
            ∷ key_num (codes "pid") q.pid
            ∷ key_num (codes "tid") q.uid
            ∷ key_plain (codes "args") (braced (key_text (codes "name") (queue_label q) ∷ []))
            ∷ []))

-- A slice: its process, track, times, name and arguments.
unfoldable pub slice : ℕ → ℕ → ℕ → ℕ → Text → List Text → Text
unfolding json_escape stream_us
slice pid tid ts dur name args = braced (
    key_text (codes "ph") (codes "X")
    ∷ key_num (codes "pid") pid
    ∷ key_num (codes "tid") tid
    ∷ key_plain (codes "ts") (stream_us ts)
    ∷ key_plain (codes "dur") (stream_us dur)
    ∷ key_text (codes "name") (json_escape name)
    ∷ key_plain (codes "args") (braced args)
    ∷ [])

-- The pid of a record's queue, 0 if it is not registered.
unfoldable pub pid_of : List (ℕ × QueueInfo) → ℕ → ℕ
pid_of queues uid = elim (lookup uid queues) [ none ↦ 0 | some q ↦ q.pid ]

unfoldable pub ring_phys_arg : ℕ → List Text
ring_phys_arg phys = if phys == 0 then [] else key_hex (codes "ring_phys") phys ∷ []

unfoldable pub packet_args : ℕ → PacketRecord → List Text
unfolding is_dispatch dims packet_type_name ring_phys_arg
packet_args phys r =
    (key_text (codes "type") (packet_type_name r.type)
      ∷ key_num (codes "dispatch_id") r.dispatch_id
      ∷ key_plain (codes "barrier") (if r.barrier then codes "true" else codes "false")
      ∷ [])
    ++ ((if is_dispatch r.type
          then key_text (codes "grid") (dims r.grid)
            ∷ key_text (codes "workgroup") (dims r.wg)
            ∷ key_hex (codes "kernel_object") r.kernel_object
            ∷ key_num (codes "private_seg") r.private_seg
            ∷ key_num (codes "group_seg") r.group_seg
            ∷ key_hex (codes "completion_signal") r.completion_signal
            ∷ []
          else [])
        ++ ring_phys_arg phys)

unfoldable pub packet_json : List (ℕ × QueueInfo) → PacketRecord → Text
unfolding slice pid_of duration packet_args ring_phys_of
packet_json queues r =
    slice (pid_of queues r.queue_uid) r.queue_uid r.submit_ts (duration r.submit_ts r.complete_ts)
      r.kernel_name (packet_args (ring_phys_of queues r.queue_uid) r)

unfoldable pub sdma_args : ℕ → SdmaRecord → List Text
unfolding ring_phys_arg is_copy copy_dir_name
sdma_args phys r =
    (key_num (codes "opcode") r.opcode ∷ key_num (codes "seq") r.seq ∷ [])
    ++ ((if is_copy r
          then key_num (codes "bytes") r.bytes
            ∷ key_text (codes "direction") (copy_dir_name r.dir)
            ∷ key_hex (codes "src") r.src_addr
            ∷ key_hex (codes "dst") r.dst_addr
            ∷ []
          else [])
        ++ ring_phys_arg phys)

unfoldable pub sdma_json : List (ℕ × QueueInfo) → SdmaRecord → Text
unfolding slice pid_of duration sdma_args ring_phys_of
sdma_json queues r =
    slice (pid_of queues r.queue_uid) r.queue_uid r.submit_ts (duration r.submit_ts r.complete_ts)
      r.op_name (sdma_args (ring_phys_of queues r.queue_uid) r)

unfoldable pub ais_slice_name : AisRecord → Text
unfolding ais_op_name
ais_slice_name r =
    (codes "ais/" ++ ais_op_name r.op)
    ++ (if text_eq r.pcie_id [] || text_eq r.pcie_id (codes "unknown")
        then []
        else codes " [" ++ (r.pcie_id ++ (93 ∷ [])))

unfoldable pub ais_json : (Text → ℕ) → AisRecord → Text
unfolding slice duration latency ais_slice_name ais_op_name json_escape
ais_json hash r =
    slice r.pid (0xA15 * 0x10000 + hash r.pcie_id % 2 ^ 16) r.submit_ts (duration 0 (latency r))
      (ais_slice_name r)
      (key_text (codes "op") (ais_op_name r.op)
        ∷ key_num (codes "gpu_id") r.gpu_id
        ∷ key_text (codes "pcie_id") (json_escape r.pcie_id)
        ∷ key_num (codes "size_req") r.size_req
        ∷ key_num (codes "size_copied") r.size_copied
        ∷ key_plain (codes "error") (to_int_dec r.error)
        ∷ key_num (codes "seq") r.seq
        ∷ [])

-- Entries behind an output, with `first` at the start and at the end.
unfoldable pub write_entries {ℓ} : {A : Type ℓ} → (A → Text) → Bool → List A → Text × Bool
write_entries show first [] = ([], first)
write_entries show first (r ∷ rs) =
    let (rest, last) = write_entries show false rs in (separate first ++ (show r ++ rest), last)
