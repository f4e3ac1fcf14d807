-- ===== src/Exporter/Metrics.antt =====
-- The calls of the prometheus-cpp library that src/prometheus_exporter.cpp makes. A metric is named
-- by its family and its labels; what the library does with a call is not modelled. A duration is in
-- nanoseconds.
use hsa_snoop.Prelude.{
  lookup, to_dec, assign, Text, codes, ℕ, Bool, false, none, some, List, [], ◌∷◌, ◌++◌,
}

pub data Family : Type 0 where
  up kernel_launches errors barrier active_queues launch_rate last_launch_ts : Family
  last_kernel_info duration triggered sdma_copies sdma_bytes sdma_packets : Family
  active_sdma_queues sdma_present ais_rx_ops ais_tx_ops ais_rx_bytes ais_tx_bytes : Family
  ais_rx_errors ais_tx_errors ais_rx_latency ais_tx_latency ais_rx_io_size : Family
  ais_tx_io_size ais_active ais_snoop_armed ais_pcie_info xnack_total xnack_snoop_armed : Family
  queue_info mem_lds mem_scratch mem_mapped_vram mem_mapped_vram_total : Family

abbrev pub Labels : Type 0
Labels = List (Text × Text)

-- `set_ratio a b` sets a gauge to a / b.
pub data Op : Type 0 where
  increment set observe : ℕ → Op
  set_ratio : ℕ → ℕ → Op
  remove : Op

pub record Call : Type 0 where
  pub family : Family
  pub labels : Labels
  pub op : Op

abbrev pub call : Family → Labels → Op → Call
call f ls op = record { family = f; labels = ls; op = op }

pub record QueueMeta : Type 0 where
  pub gpu_id : ℕ
  pub pid : ℕ
  pub comm : Text
  pub gpu_type : Text

pub record LaunchEvent : Type 0 where
  pub ts : ℕ
  pub gpu_id : ℕ

-- The maps of cached gauges hold the labels that each gauge was made with, by the GPU's id; the
-- labels `gpu_id` and `gpu_type` of a gauge are written as the GPU's type here.
pub record Exporter : Type 0 where
  pub queue_meta : List (ℕ × QueueMeta)
  pub active_queue : List (ℕ × Text)
  pub active_sdma_queue : List (ℕ × Text)
  pub last_launch : List (ℕ × Text)
  -- The kernel and the type of the child of each GPU.
  pub last_kernel : List (ℕ × (Text × Text))
  pub triggered : List (ℕ × Text)
  pub ais_armed : Bool
  pub xnack_armed : Bool
  pub launch_events : List LaunchEvent
  pub rate : List (ℕ × Text)

abbrev pub gpu_labels : ℕ → Text → Labels
unfolding to_dec
gpu_labels gpu_id gpu_type = (codes "gpu_id", to_dec gpu_id) ∷ (codes "gpu_type", gpu_type) ∷ []

abbrev pub owner_labels : QueueMeta → Labels
unfolding to_dec
owner_labels m =
    gpu_labels m.gpu_id m.gpu_type ++ ((codes "pid", to_dec m.pid) ∷ (codes "comm", m.comm) ∷ [])

-- The state and the calls of the constructor.
abbrev pub new_exporter : Exporter × List Call
new_exporter = (
  record {
    queue_meta = [];
    active_queue = [];
    active_sdma_queue = [];
    last_launch = [];
    last_kernel = [];
    triggered = [];
    ais_armed = false;
    xnack_armed = false;
    launch_events = [];
    rate = [];
  },
  call Family.up [] (Op.set 1)
      ∷ call Family.sdma_present [] (Op.set 0)
      ∷ call Family.ais_active [] (Op.set 0)
      ∷ [],
)

-- The type that the cached gauge of a GPU was made with, or the one of a new gauge.
unfoldable pub cached_type : ℕ → Text → List (ℕ × Text) → Text
cached_type gpu_id gpu_type cache = elim (lookup gpu_id cache) [ none ↦ gpu_type | some t ↦ t ]

-- A gauge that is cached once.
unfoldable pub remember : ℕ → Text → List (ℕ × Text) → List (ℕ × Text)
unfolding assign
remember gpu_id gpu_type cache = elim (lookup gpu_id cache) [
  | none ↦ assign gpu_id gpu_type cache
  | some t ↦ cache
]
