-- ===== src/Exporter/Window.antt =====
-- The launches that the rates of src/prometheus_exporter.cpp count.
use native.Mathlib.Omega.{arith}
use hsa_snoop.Prelude.{
  All, lookup, lookup-assign, assign, Text, ℕ, ◌+◌, ◌-◌, ◌≤◌, ◌≡◌, refl, sym, ap, ◌∙◌, ◌≢◌, ◌⊎◌,
  inl, inr, false, Option, none, some, List, [], ◌∷◌, ◌++◌, arith, ltb, ◌==◌, if◌then◌else◌, ltb→ge,
  Bool-cases,
}
use hsa_snoop.Exporter.Metrics.{
  Family, Op, Call, LaunchEvent, Exporter, call, gpu_labels, cached_type, remember,
}
use hsa_snoop.Exporter.Rates.{prune, count_events, zero_rates, set_rates, update_rate_gauges}

-- The events in the order of their times.
abbrev pub InOrder : List LaunchEvent → Type 0
InOrder [] = Unit {0}
InOrder (e ∷ es) = All (λ (later : LaunchEvent). e.ts ≤ later.ts) es × InOrder es

-- The events that are not older than the cutoff.
unfoldable pub recent : ℕ → List LaunchEvent → List LaunchEvent
recent cutoff [] = []
recent cutoff (e ∷ es) = let rest = recent cutoff es in if ltb e.ts cutoff then rest else e ∷ rest

-- How many events are a GPU's.
unfoldable pub launches : ℕ → List LaunchEvent → ℕ
launches gpu [] = 0
launches gpu (e ∷ es) = (if e.gpu_id == gpu then 1 else 0) + launches gpu es

abbrev pub count_in : Option ℕ → ℕ
count_in none = 0
count_in (some n) = n

recent_whole :
    (cutoff a : ℕ) (es : List LaunchEvent)
    → cutoff ≤ a
    → All (λ (later : LaunchEvent). a ≤ later.ts) es
    → recent cutoff es ≡ es
unfolding recent
recent_whole cutoff a [] h k = refl
recent_whole cutoff a (e ∷ es) h k =
    let young : ltb e.ts cutoff ≡ false = ground (arith, k.0) in
    rw young (ap (◌∷◌ e) (recent_whole cutoff a es h k.1))

prune-recent :
    (cutoff : ℕ) (es : List LaunchEvent) → InOrder es → prune cutoff es ≡ recent cutoff es
unfolding prune recent
prune-recent cutoff [] h = refl
prune-recent cutoff (e ∷ es) h = elim (Bool-cases (ltb e.ts cutoff)) [
  | inl old ↦ rw old (prune-recent cutoff es h.1)
  | inr young ↦
      rw young (ap (◌∷◌ e) (sym (recent_whole cutoff e.ts es (ltb→ge e.ts cutoff young) h.0)))
]

count_in-counted :
    (gpu j n : ℕ) (o : Option ℕ)
    → count_in (if j == gpu then some (n + 1) else o) ≡ (if j == gpu then n + 1 else count_in o)
count_in-counted gpu j n o = ground arith

count_in-count_events :
    (gpu : ℕ) (es : List LaunchEvent) (counts : List (ℕ × ℕ))
    → count_in (lookup gpu (count_events es counts))
      ≡ count_in (lookup gpu counts) + launches gpu es
unfolding count_events launches
count_in-count_events gpu [] counts = omega arith
count_in-count_events gpu (e ∷ es) counts =
    let old : ℕ = count_in (lookup e.gpu_id counts) in
    let later = count_in-count_events gpu es (assign e.gpu_id (old + 1) counts) in
    let here = ap count_in (lookup-assign e.gpu_id gpu (old + 1) counts) in
    let split = count_in-counted gpu e.gpu_id old (lookup gpu counts) in
    elim (Bool-cases (e.gpu_id == gpu)) [
      | inl same ↦
          let eq : e.gpu_id ≡ gpu = ground arith in
          let known = ap (λ i. count_in (lookup i counts)) eq in
          rw same (omega (arith, later, rw same at (here ∙ split), known))
      | inr other ↦ rw other (omega (arith, later, rw other at (here ∙ split)))
    ]

-- A call sets a GPU's rate to this many launches in a window.
abbrev pub SetsRate : ℕ → ℕ → ℕ → Call → Type 0
SetsRate gpu n window c =
    (t : Text) × (c ≡ call Family.launch_rate (gpu_labels gpu t) (Op.set_ratio n window))

abbrev pub IsRatio : Op → Type 0
IsRatio (Op.set_ratio a b) = Unit {0}
IsRatio _ = ⊥

-- One of the calls does so, and those that follow it set rates to launches in a window as well: none
-- resets a gauge.
abbrev pub SomeSetsRate : ℕ → ℕ → ℕ → List Call → Type 0
SomeSetsRate gpu n window [] = ⊥
SomeSetsRate gpu n window (c ∷ cs) =
    (SetsRate gpu n window c × All (λ (later : Call). IsRatio later.op) cs)
    ⊎ SomeSetsRate gpu n window cs

SomeSetsRate-append :
    (gpu n window : ℕ) (cs ds : List Call)
    → SomeSetsRate gpu n window ds
    → SomeSetsRate gpu n window (cs ++ ds)
SomeSetsRate-append gpu n window [] ds h = h
SomeSetsRate-append gpu n window (c ∷ cs) ds h = inr (SomeSetsRate-append gpu n window cs ds h)

set_rates-IsRatio :
    (gpu_type : ℕ → Text) (window : ℕ) (counts : List (ℕ × ℕ)) (rate : List (ℕ × Text))
    → All (λ (c : Call). IsRatio c.op) (set_rates gpu_type window counts rate).1
unfolding set_rates
set_rates-IsRatio gpu_type window [] rate = tt
set_rates-IsRatio gpu_type window ((j, k) ∷ more) rate =
    (tt, set_rates-IsRatio gpu_type window more (remember j (gpu_type j) rate))

set_rates-SomeSetsRate :
    (gpu_type : ℕ → Text) (window gpu n : ℕ) (counts : List (ℕ × ℕ)) (rate : List (ℕ × Text))
    → lookup gpu counts ≡ some n
    → SomeSetsRate gpu n window (set_rates gpu_type window counts rate).1
unfolding set_rates
set_rates-SomeSetsRate gpu_type window gpu n [] rate h = cc
set_rates-SomeSetsRate gpu_type window gpu n ((j, k) ∷ more) rate h = elim (Bool-cases (j == gpu)) [
  | inl same ↦
      let e : j ≡ gpu = ground arith in
      let v : k ≡ n = ground arith in
      inl (
        (cached_type j (gpu_type j) rate, rw (e, v) refl),
        set_rates-IsRatio gpu_type window more (remember j (gpu_type j) rate),
      )
  | inr other ↦ inr (
      set_rates-SomeSetsRate gpu_type window gpu n more (remember j (gpu_type j) rate)
        (ground arith))
]

counted_lem : (o : Option ℕ) (n : ℕ) → n ≢ 0 → count_in o ≡ n → o ≡ some n
counted_lem none n h e = absurd (h (sym e))
counted_lem (some m) n h e = ap some e

-- For launches in the order of their times, `UpdateRateGauges` keeps exactly those that are not older
-- than the window, although it looks only at the front of the queue; and it sets the rate of every
-- GPU that has launches among those to their number in the window, after the resets to 0.
pub update_rate_gauges_lem :
    (gpu_type : ℕ → Text) (window now gpu : ℕ) (x : Exporter)
    → InOrder x.launch_events
    → launches gpu (recent (now - window) x.launch_events) ≢ 0
    → ((update_rate_gauges gpu_type window now x).0.launch_events
        ≡ recent (now - window) x.launch_events)
      × SomeSetsRate gpu
          (launches gpu (recent (now - window) x.launch_events))
          window
          (update_rate_gauges gpu_type window now x).1
unfolding update_rate_gauges
update_rate_gauges_lem gpu_type window now gpu x h some_recent =
    let e = prune-recent (now - window) x.launch_events h in
    let kept = prune (now - window) x.launch_events in
    let n = launches gpu (recent (now - window) x.launch_events) in
    let count = count_in-count_events gpu kept [] ∙ omega (arith, ap (launches gpu) e) in
    let there = counted_lem (lookup gpu (count_events kept [])) n some_recent count in
    (
      e,
      SomeSetsRate-append gpu n window (zero_rates x.rate) _
          (set_rates-SomeSetsRate gpu_type window gpu n (count_events kept []) x.rate there),
    )
