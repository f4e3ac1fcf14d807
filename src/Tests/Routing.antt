-- ===== src/Tests/Routing.antt =====
-- Sessions and exporters with one queue and one packet.
use native.Mathlib.Omega.{arith}
use hsa_snoop.Prelude.{
  length, elem, to_dec, digits_loop, text_eq, codes, skip_space, read_digits, read_unsigned,
  read_long, atoi, ◌-◌, ◌≡◌, refl, ◌≢◌, ◌↔◌, Bool, true, false, not, ◌||◌, none, some, List, [],
  ◌∷◌, ◌++◌, arith,
}
use hsa_snoop.Model.{PacketRecord, is_sdma}
use hsa_snoop.Os.{Os}
use hsa_snoop.Aql.Packet.{PacketType}
use hsa_snoop.TraceWriter.Writer.{Format, Writer, new_writer}
use hsa_snoop.TraceWriter.Numbers.{digit_count, six_digits, fraction, print_scaled, stream_us}
use hsa_snoop.Main.Options.{
  DiscoveryMode, Options, go_on, exit, Host, defaults, format_of, value_option, flag_option,
  last_option, parse_args, select_mode, library_path, reject, find_library, start_up,
}
use hsa_snoop.Main.Session.{Modes, Session, new_session}
use hsa_snoop.Main.Sinks.{Event, handle_all}
use hsa_snoop.Main.Gains.{packets_for, sdma_for}
use hsa_snoop.Main.Routing.{packets_in, sdma_in, writer_of, routing_lem}
use hsa_snoop.Main.Checks.{targets, is_mode, has_library, goes_on, start_up_lem}
use hsa_snoop.Exporter.Metrics.{Family, Exporter, new_exporter}
use hsa_snoop.Exporter.Totals.{total}
use hsa_snoop.Exporter.Counts.{Change, changes, expected, changes_lem}
use hsa_snoop.Exporter.Rates.{update_rate_gauges}
use hsa_snoop.Exporter.Window.{recent, launches, SomeSetsRate, update_rate_gauges_lem}
use hsa_snoop.TraceWriter.Perfetto.{is_dispatch}
use hsa_snoop.Tests.Data.{aql_os, aql_queue}

-- A barrier packet of queue 5.
abbrev packet : PacketRecord
packet = record {
  queue_uid = 5;
  dispatch_id = 3;
  type = PacketType.barrier_and;
  barrier = true;
  kernel_object = 0;
  kernel_name = codes "barrier_and";
  grid = record { x = 0; y = 0; z = 0 };
  wg = record { x = 0; y = 0; z = 0 };
  private_seg = 0;
  group_seg = 0;
  completion_signal = 0;
  kernarg_address = 0;
  submit_ts = 1000;
  complete_ts = 1000;
  completed = true;
}

-- Times with a stream's six digits: 1.234 and 86400123456.789 microseconds.
small_time : stream_us 1234 ≡ codes "1.234"
unfolding stream_us digit_count six_digits print_scaled fraction to_dec digits_loop
small_time = refl

uptime : stream_us 86400123456789 ≡ codes "8.64001e+10"
unfolding stream_us digit_count six_digits print_scaled fraction to_dec digits_loop
uptime = refl

abbrev all_queues : Modes
all_queues = record {
  all_mode = true;
  mem_mode = false;
  exporter = false;
  dispatch_log = true;
  fmt = Format.json;
}

-- A session that knows queue 5.
abbrev known_session : Session
known_session = record (new_session Format.json) { per_queue = (5, new_writer Format.json) ∷ [] }

abbrev events : List (Os × Event)
events =
    (aql_os 1 1, Event.packet packet)
    ∷ (aql_os 1 1, Event.queue aql_queue)
    ∷ (aql_os 1 1, Event.packet (record packet { queue_uid = 6 }))
    ∷ []

routing_lem_example :
    (w' : Writer) × (writer_of all_queues 5 (handle_all none all_queues known_session events).0
      ≡ some w')
    × (w'.records ≡ (new_writer Format.json).records ++ packets_for true 5 (packets_in events))
    × (w'.sdma_records ≡ (new_writer Format.json).sdma_records ++ sdma_for true 5 (sdma_in events))
routing_lem_example =
    routing_lem none all_queues 5 events known_session (new_writer Format.json) refl refl

one_packet : packets_for true 5 (packets_in events) ≡ packet ∷ []
unfolding packets_for
one_packet = refl

-- Without --all the one writer is told of both.
two_packets : length (packets_for false 5 (packets_in events)) ≡ 2
unfolding packets_for
two_packets = refl

abbrev traced_pid : Options
traced_pid = record defaults { pid_filter = 42 }

-- A machine on which hsa-snoop runs as root and finds neither library.
abbrev host : Host
host = record { wsl2 = false; enabled = false; root = true; libhsa = []; librocdxg = [] }

start_up_lem_example : (goes_on (start_up host traced_pid) ≡ true) ↔ (
    (is_mode traced_pid.mode_str ≡ true)
    × (has_library host traced_pid ≡ true)
    × (host.root ≡ true)
    × ((host.enabled || not traced_pid.prometheus_mode) ≡ true)
    × (targets traced_pid ≡ 1))
start_up_lem_example = start_up_lem host traced_pid

traced_pid_goes_on : start_up host traced_pid ≡ go_on (DiscoveryMode.kprobe, traced_pid)
unfolding start_up select_mode find_library library_path reject text_eq
traced_pid_goes_on = refl

unknown_mode : start_up host (record traced_pid { mode_str = codes "ebpf" }) ≡ exit 2
unfolding start_up select_mode text_eq
unknown_mode = refl

no_library : start_up host (record traced_pid { mode_str = codes "bpftrace" }) ≡ exit 1
unfolding start_up select_mode find_library library_path text_eq
no_library = refl

parsed :
    parse_args true defaults (codes "--pid" ∷ codes "42" ∷ codes "--format" ∷ codes "json" ∷ [])
    ≡ go_on (record defaults { pid_filter = 42; fmt = Format.json })
unfolding parse_args value_option flag_option format_of text_eq atoi read_long read_unsigned
    read_digits skip_space
parsed = refl

-- "--out" without a value is an unknown argument.
missing_value : parse_args true defaults (codes "--out" ∷ []) ≡ exit 2
unfolding parse_args flag_option last_option text_eq
missing_value = refl

abbrev is_barrier : Family → Bool
is_barrier Family.barrier = true
is_barrier _ = false

abbrev history : List Change
history = Change.packet 3 4 packet ∷ Change.queue aql_queue ∷ Change.packet 5 6 packet ∷ []

changes_lem_example :
    total is_barrier (changes (λ gpu. codes "gfx90a") history new_exporter.0).1
    ≡ expected is_barrier [] history
unfolding elem
changes_lem_example =
    changes_lem is_barrier (λ gpu. codes "gfx90a") history new_exporter.0 [] (λ k. refl)

one_barrier : expected is_barrier [] history ≡ 1
unfolding expected elem is_sdma is_dispatch
one_barrier = refl

abbrev launched : Exporter
launched = record new_exporter.0 {
  launch_events =
      record { ts = 10; gpu_id = 1 }
      ∷ record { ts = 30; gpu_id = 1 }
      ∷ record { ts = 40; gpu_id = 2 }
      ∷ [];
}

none_recent : launches 1 (recent (45 - 5) launched.launch_events) ≡ 0
unfolding launches recent
none_recent = refl

one_recent : launches 1 (recent (45 - 20) launched.launch_events) ≢ 0
unfolding launches recent
one_recent = λ e. omega arith

update_rate_gauges_lem_example :
    ((update_rate_gauges (λ gpu. []) 20 45 launched).0.launch_events
      ≡ recent (45 - 20) launched.launch_events)
    × SomeSetsRate 1
        (launches 1 (recent (45 - 20) launched.launch_events))
        20
        (update_rate_gauges (λ gpu. []) 20 45 launched).1
update_rate_gauges_lem_example =
    update_rate_gauges_lem (λ gpu. []) 20 45 1 launched
      ((omega arith, (omega arith, tt)), ((omega arith, tt), (tt, tt))) one_recent
