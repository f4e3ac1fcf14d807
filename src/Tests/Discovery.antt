-- ===== src/Tests/Discovery.antt =====
-- Lines of a trace pipe and of bpftrace.
use native.Mathlib.Omega.{arith}
use hsa_snoop.Prelude.{
  All, elem, Text, codes, starts, after, before_text, split_last, until, from_first_not, trim_start,
  skip_space, read_digits, read_unsigned, read_signed, strtoull, read_long, atoi, ◌≡◌, refl, none,
  List, [], ◌∷◌, ◌++◌, map, arith,
}
use hsa_snoop.Model.{QueueInfo}
use hsa_snoop.Sdma.Defs.{Version}
use hsa_snoop.Discovery.Fields.{find_u64, get_u64, get_str}
use hsa_snoop.Discovery.Kprobe.{
  LineEnv, prefer_comm, line_prefix, kprobe_queue, is_probe_line, passes_filter, kprobe_event,
  kprobe_line, kprobe_lines,
}
use hsa_snoop.Discovery.Uprobe.{Seen, uprobe_queue, uprobe_dispatch, uprobe_line, uprobe_lines}
use hsa_snoop.Discovery.Reads.{split_lines, polled_lines, rounds, arm}
use hsa_snoop.Discovery.Lines.{concat, polled_lines_lem}
use hsa_snoop.Discovery.Spin.{reading, uprobe_spins, IsWhole, ended_pipe, rounds_deliver}
use hsa_snoop.Discovery.Queues.{Numbered, IsReported, kprobe_lines_lem, NewRings, uprobe_lines_lem}
use hsa_snoop.Discovery.Printed.{words, fields}
use hsa_snoop.Discovery.RoundTrip.{probe_fields, plain_test, plain_test-IsPlain, kprobe_queue_lem}

-- "ab" and "c", a line end and "d", in two reads.
abbrev chunks : List Text
chunks = (97 ∷ 98 ∷ []) ∷ (99 ∷ 10 ∷ 100 ∷ []) ∷ []

polled_lines_lem_example : polled_lines [] chunks ≡ split_lines (concat chunks)
polled_lines_lem_example = polled_lines_lem chunks

two_reads : polled_lines [] chunks ≡ (codes "abc" ∷ [], codes "d")
unfolding polled_lines split_lines
two_reads = refl

abbrev dispatch_line : Text
dispatch_line = codes "DISPATCH pid=42 comm=app ring=0x1000 slots=64"

abbrev later_reads : List Text
later_reads = (dispatch_line ++ (10 ∷ [])) ∷ []

uprobe_spins_example : rounds 4 (reading (arm [] (codes "Attaching 1 probe...")).0 later_reads) ≡ (
  reading (split_lines (arm [] (codes "Attaching 1 probe...")).0).1 later_reads,
  (split_lines (arm [] (codes "Attaching 1 probe...")).0).0,
)
uprobe_spins_example =
    uprobe_spins (codes "Attaching 1 probe...") later_reads 3 (unfold arm after starts in refl)

dispatch_IsWhole : IsWhole (dispatch_line ++ (10 ∷ []))
unfolding split_lines
dispatch_IsWhole = refl

rounds_deliver_example :
    rounds 3 (reading (10 ∷ []) later_reads)
    ≡ (ended_pipe, (split_lines (10 ∷ ([] ++ concat later_reads))).0)
rounds_deliver_example =
    rounds_deliver 10 [] later_reads (unfold split_lines in refl) (dispatch_IsWhole, tt)

abbrev probe_line : Text
probe_line =
    codes
      "  app-42  [001] d.... 7.5: hsasnoop_cq_9: (kfd+0x0) ring_base=4096 wptr=16 rptr=24 ring_size=64 gpu_id=7 qtype=2"

abbrev env : LineEnv
env = record { now = 1000; proc_comm = λ pid. none }

kprobe_lines_lem_example :
    Numbered 1
      (kprobe_lines (codes "hsasnoop_cq_9") 0 1 ((env, probe_line) ∷ [])).1
      (kprobe_lines (codes "hsasnoop_cq_9") 0 1 ((env, probe_line) ∷ [])).0
    × All (IsReported 0) (kprobe_lines (codes "hsasnoop_cq_9") 0 1 ((env, probe_line) ∷ [])).1
kprobe_lines_lem_example =
    kprobe_lines_lem (codes "hsasnoop_cq_9") 0 1 ((env, probe_line) ∷ []) (omega arith)

abbrev first_seen : Seen
first_seen = record { next_uid = 1; seen = [] }

uprobe_lines_lem_example :
    NewRings [] (uprobe_lines 0 first_seen ((5, dispatch_line) ∷ (6, dispatch_line) ∷ [])).1
uprobe_lines_lem_example =
    uprobe_lines_lem 0 first_seen ((5, dispatch_line) ∷ (6, dispatch_line) ∷ [])

one_queue :
    map
      (λ q. q.ring_size)
      (uprobe_lines 0 first_seen ((5, dispatch_line) ∷ (6, dispatch_line) ∷ [])).1
    ≡ 4096 ∷ []
unfolding uprobe_lines uprobe_line uprobe_dispatch uprobe_queue passes_filter get_u64 get_str
    strtoull read_signed read_unsigned read_digits skip_space after starts until elem
one_queue = refl

abbrev found : List QueueInfo
unfolding kprobe_lines
found = (kprobe_lines (codes "hsasnoop_cq_9") 0 1 ((env, probe_line) ∷ [])).1

read_back : (map (λ q. q.pid) found ≡ 42 ∷ []) × (map (λ q. q.comm) found ≡ codes "app" ∷ [])
unfolding found kprobe_lines kprobe_line kprobe_event kprobe_queue is_probe_line line_prefix
    prefer_comm passes_filter find_u64 strtoull read_signed read_unsigned read_digits skip_space
    atoi read_long after starts before_text split_last trim_start from_first_not
read_back = (refl, refl)

abbrev stamp : List Text
stamp = codes "[001]" ∷ codes "7.5:" ∷ codes "hsasnoop_cq_9:" ∷ []

kprobe_queue_lem_example :
    kprobe_queue 9
      (codes "app-42" ++ (words stamp ++ fields (probe_fields 4096 16 24 64 7 2)))
      42
      (codes "app")
      1
    ≡ record {
      pid = 42;
      comm = codes "app";
      ring_base = 4096;
      wptr_addr = 16;
      rptr_addr = 24;
      ring_size = 64;
      gpu_id = 7;
      qtype = 2;
      sdma_version = Version.unknown;
      create_ts = 9;
      ring_phys = 0;
      uid = 1;
    }
unfolding plain_test
kprobe_queue_lem_example =
    let plain = plain_test-IsPlain in
    kprobe_queue_lem 9 42 1 (codes "app") (codes "app-42") stamp 4096 16 24 64 7 2
      (plain (codes "app-42") refl)
      (
        plain (codes "[001]") refl,
        (plain (codes "7.5:") refl, (plain (codes "hsasnoop_cq_9:") refl, tt)),
      )
      (omega arith, (omega arith, (omega arith, tt)))
      (omega arith, (omega arith, (omega arith, tt)))
