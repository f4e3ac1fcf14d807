-- ===== src/Exporter/Rates.antt =====
-- `UpdateRateGauges` of src/prometheus_exporter.cpp. The window is in nanoseconds, `gpu_type` is
-- `DetectGpuType`, and the steady clock does not stand before the window's length.
use hsa_snoop.Prelude.{
  lookup, assign, Text, ℕ, ◌+◌, ◌-◌, none, some, List, [], ◌∷◌, ◌++◌, ltb, if◌then◌else◌,
}
use hsa_snoop.Exporter.Metrics.{
  Family, Op, Call, LaunchEvent, Exporter, call, gpu_labels, cached_type, remember,
}

-- The events at the front that are older than the cutoff are dropped.
unfoldable pub prune : ℕ → List LaunchEvent → List LaunchEvent
prune cutoff [] = []
prune cutoff (e ∷ es) = let rest = prune cutoff es in if ltb e.ts cutoff then rest else e ∷ es

-- `counts[ev.gpu_id]++` for all events.
unfoldable pub count_events : List LaunchEvent → List (ℕ × ℕ) → List (ℕ × ℕ)
unfolding assign
count_events [] counts = counts
count_events (e ∷ es) counts =
    let old : ℕ = elim (lookup e.gpu_id counts) [ none ↦ 0 | some n ↦ n ] in
    count_events es (assign e.gpu_id (old + 1) counts)

unfoldable pub zero_rates : List (ℕ × Text) → List Call
zero_rates [] = []
zero_rates ((gpu, t) ∷ more) =
    call Family.launch_rate (gpu_labels gpu t) (Op.set 0) ∷ zero_rates more

unfoldable pub set_rates :
    (ℕ → Text) → ℕ → List (ℕ × ℕ) → List (ℕ × Text) → List (ℕ × Text) × List Call
unfolding cached_type remember
set_rates gpu_type window [] rate = (rate, [])
set_rates gpu_type window ((gpu, n) ∷ more) rate =
    let labels = gpu_labels gpu (cached_type gpu (gpu_type gpu) rate) in
    let (rate', calls) = set_rates gpu_type window more (remember gpu (gpu_type gpu) rate) in
    (rate', call Family.launch_rate labels (Op.set_ratio n window) ∷ calls)

unfoldable pub update_rate_gauges : (ℕ → Text) → ℕ → ℕ → Exporter → Exporter × List Call
unfolding prune count_events zero_rates set_rates
update_rate_gauges gpu_type window now x =
    let events = prune (now - window) x.launch_events in
    let (rate, calls) = set_rates gpu_type window (count_events events []) x.rate in
    (record x { launch_events = events; rate = rate }, zero_rates x.rate ++ calls)
