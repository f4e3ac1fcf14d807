-- ===== src/Tests/Trace.antt =====
-- A trace with one dispatch.
use native.Mathlib.Omega.{arith}
use hsa_snoop.Prelude.{codes, ℕ, ◌≡◌, ◌≢◌, true, some, List, [], ◌∷◌, ◌++◌, arith}
use hsa_snoop.Model.{PacketRecord}
use hsa_snoop.Aql.Packet.{PacketType}
use hsa_snoop.TraceWriter.Wire.{Value, write_message, read_message, read_message-write_message}
use hsa_snoop.TraceWriter.Events.{
  begin_event, end_event, events_of, stable_sort, Ordered, count, slice_order, sorted_events,
}

abbrev packet : PacketRecord
packet = record {
  queue_uid = 5;
  dispatch_id = 3;
  type = PacketType.barrier_and;
  barrier = true;
  kernel_object = 0;
  kernel_name = codes "barrier_and";
  grid = record { x = 0; y = 0; z = 0 };
  wg = record { x = 0; y = 0; z = 0 };
  private_seg = 0;
  group_seg = 0;
  completion_signal = 0;
  kernarg_address = 0;
  submit_ts = 1000;
  complete_ts = 1000;
  completed = true;
}

abbrev submitted : PacketRecord → ℕ
submitted r = r.submit_ts

abbrev finished : PacketRecord → ℕ
finished r = r.complete_ts

slice_order_example :
    stable_sort (events_of submitted finished (packet ∷ packet ∷ []))
    ≢ []
      ++ (end_event submitted finished packet
          ∷ ([] ++ (begin_event submitted finished packet ∷ [])))
slice_order_example = slice_order submitted finished (packet ∷ packet ∷ []) [] [] [] packet

sorted_two :
    Ordered (stable_sort (events_of submitted finished (packet ∷ packet ∷ [])))
    × (count (λ e. e.begin) (stable_sort (events_of submitted finished (packet ∷ packet ∷ [])))
        ≡ count (λ e. e.begin) (events_of submitted finished (packet ∷ packet ∷ [])))
sorted_two = sorted_events submitted finished (packet ∷ packet ∷ []) (λ e. e.begin)

abbrev fields : List (ℕ × Value)
fields = (8, Value.number 300) ∷ (2, Value.bytes (7 ∷ 8 ∷ [])) ∷ []

read_message-write_message_example : read_message 2 (write_message [] fields) ≡ some fields
read_message-write_message_example =
    read_message-write_message fields ((omega arith, omega arith), ((omega arith, omega arith), tt))
