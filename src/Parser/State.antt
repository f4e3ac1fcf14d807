-- ===== src/Parser/State.antt =====
-- The state of one polled queue: `RingParser::QueueState` of src/parser.h.
use hsa_snoop.Prelude.{
  add64, sub64, ℕ, ◌+◌, Bool, true, false, not, ◌&&◌, Option, none, some, List, [], ◌∷◌, ◌++◌, ltb,
  leb, if◌then◌else◌,
}
use hsa_snoop.Os.{Process}
use hsa_snoop.ProcMem.Reads.{read_queue_ptr}
use hsa_snoop.Model.{QueueInfo, PacketRecord, SdmaRecord, is_sdma}
use hsa_snoop.Sdma.Defs.{is_supported_version}
use hsa_snoop.Ksym.Resolve.{Resolver, new_resolver}

-- `ksym` is null in the source for a queue that is not AQL; only the AQL path uses it.
pub record QueueState : Type 0 where
  pub info : QueueInfo
  pub ksym : Resolver
  pub next_id : ℕ
  pub last_rptr : ℕ
  pub primed : Bool
  pub dropped : ℕ
  pub inflight : List (ℕ × PacketRecord)
  pub sdma_seq : ℕ
  pub sdma_inflight : List (ℕ × SdmaRecord)
  pub page_host : List (ℕ × Bool)
  pub read_fail_count : ℕ
  pub evict : Bool

-- The state that `AddQueue` makes.
unfoldable pub new_queue : QueueInfo → QueueState
unfolding new_resolver
new_queue q = record {
  info = q;
  ksym = new_resolver q.pid;
  next_id = 0;
  last_rptr = 0;
  primed = false;
  dropped = 0;
  inflight = [];
  sdma_seq = 0;
  sdma_inflight = [];
  page_host = [];
  read_fail_count = 0;
  evict = false;
}

-- `queues_` after `AddQueue`: an SDMA queue of an unsupported version is ignored.
unfoldable pub add_queue : QueueInfo → List QueueState → List QueueState
unfolding new_queue
add_queue q queues =
    if is_sdma q && not (is_supported_version q.sdma_version)
    then queues
    else queues ++ new_queue q ∷ []

-- The consecutive failures after which a queue is evicted.
abbrev pub evict_after : ℕ
evict_after = 50

-- A poll that cannot read the two queue pointers.
unfoldable pub poll_failed : QueueState → QueueState
poll_failed s =
    let n = s.read_fail_count + 1 in
    record s { read_fail_count = n; evict = if leb evict_after n then true else s.evict }

-- The write and read pointers of a queue.
unfoldable pub read_pointers : Process → QueueInfo → Option (ℕ × ℕ)
unfolding read_queue_ptr
read_pointers p q = elim (read_queue_ptr p q.wptr_addr) [
  | none ↦ none
  | some wptr ↦ elim (read_queue_ptr p q.rptr_addr) [ none ↦ none | some rptr ↦ some (wptr, rptr) ]
]

-- The first successful poll only takes the pointers over.
unfoldable pub prime : ℕ → ℕ → QueueState → QueueState
prime wptr rptr s = record s { next_id = wptr; last_rptr = rptr; primed = true }

-- Where the producer is more than `size` entries ahead, what lies further back counts as dropped.
unfoldable pub skip_wrapped : ℕ → ℕ → QueueState → QueueState
skip_wrapped wptr size s =
    if ltb (add64 s.next_id size) wptr
    then record s {
      dropped = add64 s.dropped (sub64 (sub64 wptr s.next_id) size);
      next_id = sub64 wptr size;
    }
    else s

-- The loop over `inflight.begin()`: the entries up to the first at which `stop` holds are finished,
-- handed to the sink in order, and erased.
unfoldable pub retire {ℓ} :
    {V : Type ℓ} → (ℕ → Bool) → (V → V) → List (ℕ × V) → List V × List (ℕ × V)
retire stop finish [] = ([], [])
retire stop finish ((k, v) ∷ m) =
    let (out, rest) = retire stop finish m in
    if stop k then ([], (k, v) ∷ m) else (finish v ∷ out, rest)
