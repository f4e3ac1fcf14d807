-- ===== src/Parser/Rounds.antt =====
-- One round of `RingParser::Run` of src/parser.cpp over all queues.
use hsa_snoop.Prelude.{ℕ, true, not, List, [], ◌∷◌, if◌then◌else◌}
use hsa_snoop.Os.{Os}
use hsa_snoop.Model.{PacketRecord, SdmaRecord, is_sdma}
use hsa_snoop.Parser.State.{QueueState}
use hsa_snoop.Parser.PollAql.{poll_queue}
use hsa_snoop.Parser.PollSdma.{poll_sdma_queue}

-- What one queue's poll hands to the two sinks.
pub record Output : Type 0 where
  pub packets : List PacketRecord
  pub sdma_packets : List SdmaRecord

abbrev pub no_output : Output
no_output = record { packets = []; sdma_packets = [] }

unfoldable pub visit : Os → ℕ → QueueState → QueueState × Output
unfolding poll_queue poll_sdma_queue
visit os now s =
    if s.evict
    then (s, no_output)
    else if not (os.process s.info.pid).alive
    then (record s { evict = true }, no_output)
    else if is_sdma s.info
    then (let (s', out) = poll_sdma_queue os now s in
        (s', record { packets = []; sdma_packets = out }))
    else (let (s', out) = poll_queue os now s in (s', record { packets = out; sdma_packets = [] }))

unfoldable pub visit_all : Os → ℕ → List QueueState → List QueueState × List Output
unfolding visit
visit_all os now [] = ([], [])
visit_all os now (s ∷ ss) =
    let (s', out) = visit os now s in
    let (rest, outs) = visit_all os now ss in (s' ∷ rest, out ∷ outs)

-- `remove_if` with the `evict` flag.
unfoldable pub remove_evicted : List QueueState → List QueueState
remove_evicted [] = []
remove_evicted (s ∷ ss) = let rest = remove_evicted ss in if s.evict then rest else s ∷ rest

unfoldable pub run_round : Os → ℕ → List QueueState → List QueueState × List Output
unfolding visit_all remove_evicted
run_round os now queues =
    let (polled, outs) = visit_all os now queues in (remove_evicted polled, outs)
