-- ===== src/Discovery/Uprobe.antt =====
-- `RunKfdUprobe` and `RunBpftrace` of src/discovery.cpp, one line at a time.
use hsa_snoop.Prelude.{
  take, elem, text_eq, add64, to_u32, Text, codes, contains, is_some, starts, ℕ, zero, suc, ◌-◌,
  ◌*◌, Bool, false, not, ◌&&◌, ◌||◌, Option, none, some, List, [], ◌∷◌, ◌++◌, ltb, ◌==◌,
  if◌then◌else◌,
}
use hsa_snoop.Model.{QueueInfo}
use hsa_snoop.Sdma.Defs.{Version}
use hsa_snoop.Discovery.Fields.{get_u64, get_str}
use hsa_snoop.Discovery.Kprobe.{LineEnv, prefer_comm, passes_filter}

-- `next_uid` and `seen`.
pub record Seen : Type 0 where
  pub next_uid : ℕ
  pub seen : List ℕ

unfoldable pub uprobe_queue : ℕ → Text → ℕ → ℕ → ℕ → QueueInfo
unfolding get_u64 get_str
uprobe_queue now line ring slots uid = record {
  pid = to_u32 (get_u64 line (codes "pid"));
  comm = get_str line (codes "comm");
  ring_base = ring;
  wptr_addr = 0;
  rptr_addr = 0;
  ring_size = to_u32 (slots * 64);
  gpu_id = 0;
  qtype = 2;
  sdma_version = Version.unknown;
  create_ts = now;
  ring_phys = 0;
  uid = uid;
}

-- A dispatch on a ring: a ring that was seen before is passed over.
unfoldable pub uprobe_dispatch : ℕ → ℕ → Seen → Text → ℕ → ℕ → Seen × List QueueInfo
unfolding uprobe_queue passes_filter
uprobe_dispatch filter now s line ring slots =
    let q = uprobe_queue now line ring slots s.next_uid in
    let s' : Seen = record { next_uid = add64 s.next_uid 1; seen = ring ∷ s.seen } in
    if elem ring s.seen
    then (s, [])
    else if passes_filter filter q.pid
    then (s', q ∷ [])
    else (s', [])

unfoldable pub uprobe_line : ℕ → ℕ → Seen → Text → Seen × List QueueInfo
unfolding uprobe_dispatch get_u64
uprobe_line filter now s line =
    let ring = get_u64 line (codes "ring") in
    let slots = to_u32 (get_u64 line (codes "slots")) in
    if not (is_some (starts (codes "DISPATCH ") line))
    then (s, [])
    else if (ring == 0) || slots == 0
    then (s, [])
    else uprobe_dispatch filter now s line ring slots

unfoldable pub uprobe_lines : ℕ → Seen → List (ℕ × Text) → Seen × List QueueInfo
unfolding uprobe_line
uprobe_lines filter s [] = (s, [])
uprobe_lines filter s ((now, line) ∷ more) =
    let (s', out) = uprobe_line filter now s line in
    let (s'', rest) = uprobe_lines filter s' more in (s'', out ++ rest)

-- Whether the name of an event does not fit the name of the process that is asked for.
unfoldable pub comm_mismatch : Option Text → Text → Bool
comm_mismatch none comm = false
comm_mismatch (some target) comm =
    not (text_eq target [])
    && (not (contains (take 15 target) comm) && not (contains (take 15 comm) target))

-- Whether a candidate process has a name that holds the event's.
unfoldable pub fits_comm : Option Text → Text → Bool
fits_comm none comm = false
fits_comm (some c2) comm = not (text_eq c2 []) && contains (take 15 comm) c2

-- The loop over the candidates: `n` of them from `candidate` on, and `pid` if none fits. A candidate
-- below 1 is passed over; `candidate` is counted from 200000 below 0.
unfoldable pub scan_pids : (ℕ → Option Text) → Text → ℕ → ℕ → ℕ → ℕ
unfolding fits_comm
scan_pids proc_comm comm pid candidate zero = pid
scan_pids proc_comm comm pid candidate (suc n) =
    let later = scan_pids proc_comm comm pid (suc candidate) n in
    if ltb 200000 candidate && fits_comm (proc_comm (candidate - 200000)) comm
    then candidate - 200000
    else later

-- `ns_pid`; `none` where the event is skipped.
unfoldable pub ns_pid_of : ℕ → (ℕ → Option Text) → ℕ → Text → Option ℕ
unfolding comm_mismatch scan_pids
ns_pid_of filter proc_comm pid comm =
    if filter == 0
    then some (scan_pids proc_comm comm pid pid 200001)
    else if comm_mismatch (proc_comm filter) comm
    then none
    else some filter

unfoldable pub bpf_queue : LineEnv → Text → ℕ → ℕ → QueueInfo
unfolding get_u64 get_str prefer_comm
bpf_queue env line ns_pid uid = record {
  pid = ns_pid;
  comm = prefer_comm (env.proc_comm ns_pid) (get_str line (codes "comm"));
  ring_base = get_u64 line (codes "ring");
  wptr_addr = get_u64 line (codes "wptr");
  rptr_addr = get_u64 line (codes "rptr");
  ring_size = to_u32 (get_u64 line (codes "size"));
  gpu_id = to_u32 (get_u64 line (codes "node"));
  qtype = 21;
  sdma_version = Version.unknown;
  create_ts = env.now;
  ring_phys = 0;
  uid = uid;
}

unfoldable pub bpf_line : ℕ → LineEnv → ℕ → Text → ℕ × List QueueInfo
unfolding get_u64 get_str ns_pid_of bpf_queue
bpf_line filter env uid line =
    let pid = to_u32 (get_u64 line (codes "pid")) in
    let comm = get_str line (codes "comm") in
    let ns_pid = ns_pid_of filter env.proc_comm pid comm in
    if not (is_some (starts (codes "QUEUE ") line))
    then (uid, [])
    else if (get_u64 line (codes "ring") == 0) || get_u64 line (codes "size") == 0
    then (uid, [])
    else elim ns_pid [ none ↦ (uid, []) | some p ↦ (add64 uid 1, bpf_queue env line p uid ∷ []) ]

unfoldable pub bpf_lines : ℕ → ℕ → List (LineEnv × Text) → ℕ × List QueueInfo
unfolding bpf_line
bpf_lines filter uid [] = (uid, [])
bpf_lines filter uid ((env, line) ∷ more) =
    let (uid', out) = bpf_line filter env uid line in
    let (uid'', rest) = bpf_lines filter uid' more in (uid'', out ++ rest)
