-- ===== src/Tests/Data.antt =====
-- Traced processes whose memory is written out, and queues of theirs.
use hsa_snoop.Prelude.{lookup, ℕ, zero, suc, Bool, true, false, Option, none, some, List, [], ◌∷◌}
use hsa_snoop.Os.{MapsLine, Process, Os}
use hsa_snoop.Sdma.Defs.{Version}
use hsa_snoop.Model.{QueueInfo}
use hsa_snoop.Ksym.Symbols.{no_names}
use hsa_snoop.Parser.State.{QueueState}

abbrev pub padded : ℕ → List ℕ → List ℕ
padded zero bs = []
padded (suc n) [] = 0 ∷ padded n []
padded (suc n) (b ∷ bs) = b ∷ padded n bs

-- A read at one of the listed addresses gives the bytes there, filled up with zeros.
abbrev pub reads : List (ℕ × List ℕ) → ℕ → ℕ → Option (List ℕ)
reads m va len = elim (lookup va m) [ none ↦ none | some bs ↦ some (padded len bs) ]

abbrev pub process_of : List (ℕ × List ℕ) → List MapsLine → Process
process_of m lines = record {
  vm_readv = reads m;
  mem_open = true;
  mem_pread = reads m;
  pagemap = λ off. none;
  maps = lines;
  alive = true;
}

abbrev pub os_of : Process → Os
os_of p = record { page_size = 4096; cxa_demangle = λ s. none; process = λ pid. p }

abbrev pub queue_of : ℕ → ℕ → Version → QueueInfo
queue_of qtype ring_size version = record {
  pid = 7;
  comm = [];
  ring_base = 4096;
  wptr_addr = 8;
  rptr_addr = 16;
  ring_size = ring_size;
  gpu_id = 1;
  qtype = qtype;
  sdma_version = version;
  create_ts = 0;
  ring_phys = 0;
  uid = 5;
}

-- An AQL ring of four slots: a kernel dispatch, a barrier, and a slot that is not yet published.
abbrev pub aql_os : ℕ → ℕ → Os
aql_os wptr rptr = os_of (
    process_of
      ((8, wptr ∷ []) ∷ (16, rptr ∷ []) ∷ (4096, 2 ∷ []) ∷ (4160, 3 ∷ 1 ∷ []) ∷ (4224, 1 ∷ []) ∷ [])
      [])

abbrev pub aql_queue : QueueInfo
aql_queue = queue_of 2 256 Version.unknown

-- An SDMA ring of 16 dwords with a v4 linear copy of 5 bytes and a fence.
abbrev pub sdma_os : ℕ → ℕ → Os
sdma_os wptr_raw rptr_raw = os_of (
    process_of
      ((8, wptr_raw ∷ [])
        ∷ (16, rptr_raw ∷ [])
        ∷ (4096, 1 ∷ 0 ∷ 0 ∷ 0 ∷ 4 ∷ [])
        ∷ (4124, 5 ∷ [])
        ∷ [])
      [])

abbrev pub sdma_queue : QueueInfo
sdma_queue = queue_of 1 64 Version.v4

-- A queue state with these fields, the others as `AddQueue` leaves them.
abbrev pub state_of : QueueInfo → Bool → QueueState
state_of q primed = record {
  info = q;
  ksym = record { pid = 7; caches = no_names; scanned_generation = 0 };
  next_id = 0;
  last_rptr = 0;
  primed = primed;
  dropped = 0;
  inflight = [];
  sdma_seq = 0;
  sdma_inflight = [];
  page_host = [];
  read_fail_count = 0;
  evict = false;
}
