-- ===== src/Tests/Polls.antt =====
-- Polls of an AQL ring and of an SDMA ring.
use native.Mathlib.Omega.{arith}
use hsa_snoop.Prelude.{
  length, All, le_number, ℕ, ◌+◌, ◌/◌, ◌%◌, ◌≤◌, ◌<◌, ◌≡◌, refl, ◌≢◌, ◌⊎◌, true, false, none, some,
  [], ◌∷◌, ◌++◌, arith, ◌==◌, if◌then◌else◌,
}
use hsa_snoop.Os.{Process, Os}
use hsa_snoop.Aql.Packet.{packet_size}
use hsa_snoop.Model.{num_slots, num_dwords}
use hsa_snoop.Parser.State.{QueueState, new_queue, read_pointers}
use hsa_snoop.Parser.Slot.{slot_addr}
use hsa_snoop.Parser.Ring.{read_ring_dwords}
use hsa_snoop.Parser.PollAql.{poll_queue}
use hsa_snoop.Parser.PollSdma.{poll_sdma_queue}
use hsa_snoop.Parser.Order.{keys, AllEntries}
use hsa_snoop.Parser.Step.{IsValid, IsDelivered}
use hsa_snoop.Parser.Accounting.{Stopped}
use hsa_snoop.Parser.Occurs.{occurs, ids}
use hsa_snoop.Parser.History.{
  poll_queue_conserves, poll_queue_delivers, poll_queue_stops, Polls, run_polls, PollsFit,
  run_polls_once,
}
use hsa_snoop.Parser.Eviction.{AllFail, evict_after_failures, poll_queue_recovers, slot_addr_bounds}
use hsa_snoop.Parser.SdmaOrder.{IsSdmaValid, count_from, seqs}
use hsa_snoop.Parser.SdmaPoll.{SdmaStopped}
use hsa_snoop.Parser.SdmaRetire.{IsSdmaDelivered, out_seqs, IsDivided}
use hsa_snoop.Parser.SdmaHistory.{poll_sdma_delivers, run_sdma_polls, run_sdma_in_order}
use hsa_snoop.Parser.RingReads.{bytes_from, ring_dwords, read_ring_dwords_lem}
use hsa_snoop.Parser.Rounds.{no_output, run_round}
use hsa_snoop.Parser.RoundsApart.{run_round_drops}
use hsa_snoop.Tests.Data.{process_of, os_of, aql_os, aql_queue, sdma_os, sdma_queue, state_of}

start_IsValid : IsValid 9 (state_of aql_queue true)
start_IsValid = record {
  ascending = omega arith;
  pending = tt;
  counted = omega arith;
  pointer = omega arith;
}

aql_pointers : read_pointers ((aql_os 3 1).process 7) aql_queue ≡ some (3, 1)
unfolding read_pointers le_number
aql_pointers = refl

poll_queue_conserves_example :
    let (s', out) = poll_queue (aql_os 3 1) 9 (state_of aql_queue true) in
    IsValid 9 s'
    × (0 ≤ s'.next_id)
    × ((s'.next_id ≤ 3) ⊎ (3 < 0))
    × (s'.next_id + 0 + 0 ≡ 0 + s'.dropped + length s'.inflight + length out)
poll_queue_conserves_example =
    poll_queue_conserves (aql_os 3 1) 9 3 1 (state_of aql_queue true) refl aql_pointers
      (omega arith) (omega arith) start_IsValid

poll_queue_delivers_example :
    let (s', out) = poll_queue (aql_os 3 1) 9 (state_of aql_queue true) in
    All (IsDelivered 1 9) out × AllEntries (λ id r. 1 ≤ id) s'.inflight
poll_queue_delivers_example =
    poll_queue_delivers (aql_os 3 1) 9 3 1 (state_of aql_queue true) refl aql_pointers (omega arith)
      (omega arith) start_IsValid

poll_queue_stops_example :
    Stopped (aql_os 3 1) 3 1 (poll_queue (aql_os 3 1) 9 (state_of aql_queue true)).0
poll_queue_stops_example =
    poll_queue_stops (aql_os 3 1) 9 3 1 (state_of aql_queue true) refl aql_pointers (omega arith)
      (omega arith) start_IsValid

poll_queue_recovers_example :
    ((poll_queue (aql_os 3 1) 9 (state_of aql_queue true)).0.read_fail_count ≡ 0)
    × ((poll_queue (aql_os 3 1) 9 (state_of aql_queue true)).0.evict ≡ false)
poll_queue_recovers_example =
    poll_queue_recovers (aql_os 3 1) 9 3 1 (state_of aql_queue true) refl aql_pointers (omega arith)
      (omega arith) start_IsValid

-- A first poll, one with two packets, and one after both are consumed.
abbrev aql_polls : Polls
aql_polls = (aql_os 0 0, 1) ∷ (aql_os 2 1, 2) ∷ (aql_os 2 2, 3) ∷ []

aql_polls_fit : PollsFit 0 aql_queue aql_polls
unfolding read_pointers le_number
aql_polls_fit =
    (omega arith, omega arith, (omega arith, omega arith, (omega arith, omega arith, tt)))

run_polls_once_example :
    let (s', out) = run_polls (new_queue aql_queue) aql_polls in
    occurs 1 (ids out) + occurs 1 (keys s'.inflight) ≤ 1
run_polls_once_example = run_polls_once 1 aql_queue aql_polls (omega arith) aql_polls_fit

-- Polls of a process whose memory is gone.
abbrev gone : Os
gone = os_of (process_of [] [])

abbrev failed_polls : Polls
failed_polls = (gone, 1) ∷ (gone, 2) ∷ []

all_fail : AllFail aql_queue failed_polls
unfolding read_pointers
all_fail = (refl, (refl, tt))

evict_after_failures_example :
    ((run_polls (state_of aql_queue true) failed_polls).0.evict ≡ false)
    × ((run_polls (state_of aql_queue true) failed_polls).1 ≡ [])
    × ((run_polls (state_of aql_queue true) failed_polls).0.next_id ≡ 0)
evict_after_failures_example =
    evict_after_failures (state_of aql_queue true) failed_polls refl refl all_fail

slot_addr_bounds_example :
    (4096 ≤ slot_addr aql_queue 3)
    × (slot_addr aql_queue 3 + 64 ≤ 4096 + 256)
    × ((slot_addr aql_queue 3 + packet_size ≤ slot_addr aql_queue 6)
        ⊎ (slot_addr aql_queue 6 + packet_size ≤ slot_addr aql_queue 3))
unfolding num_slots
slot_addr_bounds_example =
    slot_addr_bounds aql_queue 3 6 (omega arith) (omega arith) (omega arith) (omega arith)
      (omega arith)

sdma_pointers : read_pointers ((sdma_os 44 28).process 7) sdma_queue ≡ some (44, 28)
unfolding read_pointers le_number
sdma_pointers = refl

start_IsSdmaValid : IsSdmaValid 9 (state_of sdma_queue true)
start_IsSdmaValid = record {
  ascending = omega arith;
  pending = tt;
  numbered = omega arith;
  counted = omega arith;
  pointer = omega arith;
}

sdma_ring : num_dwords sdma_queue ≢ 0
unfolding num_dwords
sdma_ring = omega arith

poll_sdma_delivers_example :
    let (s', out) = poll_sdma_queue (sdma_os 44 28) 9 (state_of sdma_queue true) in
    IsSdmaValid 9 s'
    × All (IsSdmaDelivered 9) out
    × AllEntries (λ end r. 28 / 4 < end) s'.sdma_inflight
    × IsDivided (28 / 4) 9 (state_of sdma_queue true).sdma_inflight s'.sdma_inflight out
    × SdmaStopped (sdma_os 44 28) (44 / 4) s'
poll_sdma_delivers_example =
    poll_sdma_delivers (sdma_os 44 28) 9 44 28 (state_of sdma_queue true) sdma_ring refl
      sdma_pointers (omega arith) (omega arith) start_IsSdmaValid

abbrev sdma_polls : Polls
sdma_polls = (sdma_os 0 0, 1) ∷ (sdma_os 44 28, 2) ∷ []

sdma_polls_fit : PollsFit 0 sdma_queue sdma_polls
unfolding read_pointers le_number
sdma_polls_fit = (omega arith, omega arith, (omega arith, omega arith, tt))

run_sdma_in_order_example :
    let (s', out) = run_sdma_polls (new_queue sdma_queue) sdma_polls in
    out_seqs out ++ seqs s'.sdma_inflight ≡ count_from 0 s'.sdma_seq
run_sdma_in_order_example = run_sdma_in_order sdma_queue sdma_polls (omega arith) sdma_polls_fit

-- A memory that can be read everywhere.
abbrev ring_memory : ℕ → ℕ
ring_memory va = va % 256

abbrev ring_process : Process
ring_process = record {
  vm_readv = λ va len. some (bytes_from ring_memory va len);
  mem_open = false;
  mem_pread = λ va len. none;
  pagemap = λ off. none;
  maps = [];
  alive = true;
}

sdma_dwords : num_dwords sdma_queue ≡ 16
unfolding num_dwords
sdma_dwords = refl

-- Four dwords across the end of a ring of 16.
read_ring_dwords_lem_example :
    read_ring_dwords ring_process sdma_queue 14 4 ≡ some (ring_dwords ring_memory sdma_queue 14 4)
read_ring_dwords_lem_example =
    read_ring_dwords_lem ring_memory ring_process sdma_queue 14 4 (λ va len lo hi. refl)
      (omega (arith, sdma_dwords)) sdma_ring (omega (arith, sdma_dwords))

-- Process 7 has ended and process 8 has not.
abbrev ended : Os
ended = record (aql_os 3 1) {
  process = λ pid.
      if pid == 7 then record (process_of [] []) { alive = false } else (aql_os 3 1).process pid;
}

abbrev other : QueueState
other = state_of (record aql_queue { pid = 8 }) true

run_round_drops_example :
    ((run_round ended 9 (other ∷ state_of aql_queue true ∷ other ∷ [])).0
      ≡ (run_round ended 9 (other ∷ [])).0 ++ (run_round ended 9 (other ∷ [])).0)
    × ((run_round ended 9 (other ∷ state_of aql_queue true ∷ other ∷ [])).1
        ≡ (run_round ended 9 (other ∷ [])).1 ++ (no_output ∷ (run_round ended 9 (other ∷ [])).1))
run_round_drops_example =
    run_round_drops ended 9 (other ∷ []) (other ∷ []) (state_of aql_queue true) refl
