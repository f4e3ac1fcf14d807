-- ===== src/Tests/Written.antt =====
-- A queue that is polled, reported and traced.
use native.Mathlib.Omega.{arith}
use hsa_snoop.Prelude.{
  length, codes, le_number, ◌≤◌, ◌≡◌, refl, true, false, none, some, List, [], ◌∷◌, arith,
}
use hsa_snoop.Model.{PacketRecord, num_slots}
use hsa_snoop.Aql.Packet.{PacketType}
use hsa_snoop.TraceWriter.Writer.{Format, Writer, new_writer}
use hsa_snoop.Parser.State.{new_queue, read_pointers}
use hsa_snoop.Parser.Slot.{decode_slot}
use hsa_snoop.Parser.Occurs.{occurs, ids}
use hsa_snoop.Parser.History.{Polls, run_polls, PollsFit}
use hsa_snoop.Main.Session.{Modes, Session, new_session}
use hsa_snoop.Main.Sinks.{Event, handle_all}
use hsa_snoop.Main.Gains.{packets_for}
use hsa_snoop.Main.Routing.{writer_of}
use hsa_snoop.Main.Written.{Turn, calls_of, polls_of, OthersApart, written_once}
use hsa_snoop.Tests.Data.{aql_os, aql_queue}

abbrev all_queues : Modes
all_queues = record {
  all_mode = true;
  mem_mode = false;
  exporter = false;
  dispatch_log = false;
  fmt = Format.perfetto;
}

-- A session that knows queue 5 and queue 6.
abbrev session : Session
session = record (new_session Format.perfetto) {
  per_queue = (5, new_writer Format.perfetto) ∷ (6, new_writer Format.perfetto) ∷ [];
}

-- A barrier packet of queue 6.
abbrev other_packet : PacketRecord
other_packet = record {
  queue_uid = 6;
  dispatch_id = 3;
  type = PacketType.barrier_and;
  barrier = true;
  kernel_object = 0;
  kernel_name = codes "barrier_and";
  grid = record { x = 0; y = 0; z = 0 };
  wg = record { x = 0; y = 0; z = 0 };
  private_seg = 0;
  group_seg = 0;
  completion_signal = 0;
  kernarg_address = 0;
  submit_ts = 1000;
  complete_ts = 1000;
  completed = true;
}

-- A poll that primes the queue, and one that finds two packets consumed.
abbrev polls : Polls
polls = (aql_os 0 0, 5) ∷ (aql_os 2 2, 10) ∷ []

polls_fit : PollsFit 0 aql_queue polls
unfolding read_pointers le_number
polls_fit = (omega arith, omega arith, (omega arith, omega arith, tt))

-- The same polls, and packets of another queue reported in between.
abbrev turns : List Turn
turns =
    Turn.poll (aql_os 0 0) 5
    ∷ Turn.other (aql_os 0 0) (Event.packet other_packet)
    ∷ Turn.poll (aql_os 2 2) 10
    ∷ []

others_apart : OthersApart true 5 turns
unfolding packets_for
others_apart = (refl, tt)

written_once_example :
    (w' : Writer) × (writer_of all_queues 5
        (handle_all none all_queues session (calls_of (new_queue aql_queue) turns)).0
      ≡ some w')
    × (w'.records ≡ (run_polls (new_queue aql_queue) (polls_of turns)).1)
    × (occurs 1 (ids w'.records) ≤ 1)
unfolding new_writer
written_once_example =
    written_once none all_queues session (new_writer Format.perfetto) 1 aql_queue turns refl refl
      refl (omega arith) polls_fit others_apart

two_reports : length (run_polls (new_queue aql_queue) polls).1 ≡ 2
unfolding run_polls new_queue le_number num_slots decode_slot
two_reports = refl
