-- ===== src/Discovery/Kprobe.antt =====
-- `RunKprobe` of src/discovery.cpp, one line of the trace pipe at a time.
use hsa_snoop.Prelude.{
  add64, to_u32, Text, codes, contains, is_space_or_tab, before_text, split_last, trim_start, atoi,
  ℕ, Bool, false, not, ◌&&◌, ◌||◌, Option, none, some, List, [], ◌∷◌, ◌++◌, ◌==◌, if◌then◌else◌,
  ◌>>=◌,
}
use hsa_snoop.Model.{QueueInfo}
use hsa_snoop.Sdma.Defs.{Version}
use hsa_snoop.Discovery.Fields.{find_u64}

-- The answers of the system while a line is handled: the clock, and the first line of
-- /proc/<pid>/comm, `none` if it cannot be read.
pub record LineEnv : Type 0 where
  pub now : ℕ
  pub proc_comm : ℕ → Option Text

-- The authoritative name of a process if it is there and not empty.
unfoldable pub prefer_comm : Option Text → Text → Text
prefer_comm none comm = comm
prefer_comm (some []) comm = comm
prefer_comm (some (c ∷ s)) comm = c ∷ s

-- The "<comm>-<pid>" in front of " [": the pid and the name without the blanks in front.
unfoldable pub line_prefix : Text → Option (ℕ × Text)
line_prefix line = do
  prefix ← before_text (codes " [") line
  (comm, digits) ← split_last 45 prefix
  some (atoi digits, trim_start is_space_or_tab comm)

unfoldable pub kprobe_queue : ℕ → Text → ℕ → Text → ℕ → QueueInfo
unfolding find_u64
kprobe_queue now line pid comm uid = record {
  pid = pid;
  comm = comm;
  ring_base = find_u64 line (codes "ring_base");
  wptr_addr = find_u64 line (codes "wptr");
  rptr_addr = find_u64 line (codes "rptr");
  ring_size = to_u32 (find_u64 line (codes "ring_size"));
  gpu_id = to_u32 (find_u64 line (codes "gpu_id"));
  qtype = to_u32 (find_u64 line (codes "qtype"));
  sdma_version = Version.unknown;
  create_ts = now;
  ring_phys = 0;
  uid = uid;
}

-- Whether a line is looked at: not empty, no comment, and from the probe.
unfoldable pub is_probe_line : Text → Text → Bool
is_probe_line probe [] = false
is_probe_line probe (c ∷ s) = if c == 35 then false else contains probe (c ∷ s)

unfoldable pub passes_filter : ℕ → ℕ → Bool
passes_filter filter pid = (filter == 0) || pid == filter

-- The record of a line that the filter lets through, and whether the callback gets it.
unfoldable pub kprobe_event : ℕ → ℕ → Text → ℕ → Text → ℕ → ℕ × List QueueInfo
unfolding passes_filter kprobe_queue
kprobe_event filter now line pid comm uid =
    let q = kprobe_queue now line pid comm uid in
    if not (passes_filter filter pid)
    then (uid, [])
    else if not (q.ring_base == 0) && not (q.ring_size == 0)
    then (add64 uid 1, q ∷ [])
    else (add64 uid 1, [])

-- One line: the next uid, and the queue that the callback is called with.
unfoldable pub kprobe_line : Text → ℕ → LineEnv → ℕ → Text → ℕ × List QueueInfo
unfolding is_probe_line line_prefix prefer_comm kprobe_event
kprobe_line probe filter env uid line =
    if is_probe_line probe line
    then elim (line_prefix line) [
      | none ↦ (uid, [])
      | some (pid, comm) ↦
          kprobe_event filter env.now line pid (prefer_comm (env.proc_comm pid) comm) uid
    ]
    else (uid, [])

-- Lines in order, each with the answers of its time.
unfoldable pub kprobe_lines : Text → ℕ → ℕ → List (LineEnv × Text) → ℕ × List QueueInfo
unfolding kprobe_line
kprobe_lines probe filter uid [] = (uid, [])
kprobe_lines probe filter uid ((env, line) ∷ more) =
    let (uid', out) = kprobe_line probe filter env uid line in
    let (uid'', rest) = kprobe_lines probe filter uid' more in (uid'', out ++ rest)
