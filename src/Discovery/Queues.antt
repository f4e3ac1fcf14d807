-- ===== src/Discovery/Queues.antt =====
-- Which queues the readers of src/discovery.cpp report: their numbers, the filter, and the rings.
use native.Mathlib.Omega.{arith}
use hsa_snoop.Prelude.{
  length, All, All-append, elem, add64, to_u32, Text, codes, is_some, starts, ℕ, suc, ◌+◌, ◌^◌, ◌≤◌,
  ◌<◌, ◌≡◌, ◌≢◌, inl, inr, true, false, not, ◌&&◌, ◌||◌, List, [], ◌∷◌, ◌++◌, arith, ◌==◌,
  Bool-cases, Option-cases,
}
use hsa_snoop.Model.{QueueInfo}
use hsa_snoop.Discovery.Fields.{get_u64}
use hsa_snoop.Discovery.Kprobe.{
  LineEnv, prefer_comm, line_prefix, kprobe_queue, is_probe_line, passes_filter, kprobe_event,
  kprobe_line, kprobe_lines,
}
use hsa_snoop.Discovery.Uprobe.{Seen, uprobe_queue, uprobe_dispatch, uprobe_line, uprobe_lines}

-- The uids ascend from `u` on and stay below `v`.
abbrev pub Numbered : ℕ → List QueueInfo → ℕ → Type 0
Numbered u [] v = u ≤ v
Numbered u (q ∷ qs) v = (u ≤ q.uid) × Numbered (suc q.uid) qs v

Numbered-below : (u v w : ℕ) (qs : List QueueInfo) → u ≤ v → Numbered v qs w → Numbered u qs w
Numbered-below u v w [] h k = omega arith
Numbered-below u v w (q ∷ qs) h k = (omega (arith, k.0), k.1)

Numbered-append :
    (u v w : ℕ) (xs ys : List QueueInfo)
    → Numbered u xs v
    → Numbered v ys w
    → Numbered u (xs ++ ys) w
Numbered-append u v w [] ys h k = Numbered-below u v w ys h k
Numbered-append u v w (q ∷ qs) ys h k = (h.0, Numbered-append (suc q.uid) v w qs ys h.1 k)

-- A queue that the callback may be called with.
abbrev pub IsReported : ℕ → QueueInfo → Type 0
unfolding passes_filter
IsReported filter q = (q.ring_base ≢ 0) × (q.ring_size ≢ 0) × (passes_filter filter q.pid ≡ true)

-- What one line does: the next uid and the queues reported.
abbrev LineSound : ℕ → ℕ → ℕ × List QueueInfo → Type 0
LineSound filter u r = Numbered u r.1 r.0 × (r.0 ≤ suc u) × All (IsReported filter) r.1

LineSound-none : (filter u : ℕ) → LineSound filter u (u, [])
LineSound-none filter u = (omega arith, omega arith, tt)

nonzero_left : (a b : ℕ) → (not (a == 0) && not (b == 0)) ≡ true → a ≢ 0
nonzero_left a b h = ground arith

nonzero_right : (a b : ℕ) → (not (a == 0) && not (b == 0)) ≡ true → b ≢ 0
nonzero_right a b h = ground arith

kprobe_event-LineSound :
    (filter now : ℕ) (line : Text) (pid : ℕ) (comm : Text) (u : ℕ)
    → suc u < 2 ^ 64
    → LineSound filter u (kprobe_event filter now line pid comm u)
unfolding kprobe_event kprobe_queue
kprobe_event-LineSound filter now line pid comm u h =
    let e : add64 u 1 ≡ suc u = grind arith in
    let q = kprobe_queue now line pid comm u in
    elim (Bool-cases (passes_filter filter pid)) [
      | inr out ↦ rw out (LineSound-none filter u)
      | inl through ↦ elim (Bool-cases (not (q.ring_base == 0) && not (q.ring_size == 0))) [
        | inr empty ↦ rw (through, empty, e) (omega arith, omega arith, tt)
        | inl full ↦
            let base : q.ring_base ≢ 0 = nonzero_left q.ring_base q.ring_size full in
            let size : q.ring_size ≢ 0 = nonzero_right q.ring_base q.ring_size full in
            rw (through, full, e)
              ((omega arith, omega arith), omega arith, ((base, size, through), tt))
      ]
    ]

kprobe_line-LineSound :
    (probe : Text) (filter : ℕ) (env : LineEnv) (u : ℕ) (line : Text)
    → suc u < 2 ^ 64
    → LineSound filter u (kprobe_line probe filter env u line)
unfolding kprobe_line
kprobe_line-LineSound probe filter env u line h = elim (Bool-cases (is_probe_line probe line)) [
  | inr other ↦ rw other (LineSound-none filter u)
  | inl ours ↦ elim (Option-cases (line_prefix line)) [
    | inl bare ↦ rw (ours, bare) (LineSound-none filter u)
    | inr ((pid, comm), there) ↦
        rw (ours, there)
          (kprobe_event-LineSound filter env.now line pid (prefer_comm (env.proc_comm pid) comm) u
            h)
  ]
]

-- Over any lines of the trace pipe that are too few for the next uid to wrap around, the queues that
-- `RunKprobe` reports have ascending, different uids from the first one on, and each of them has a
-- ring address and a ring size other than 0 and a pid that the filter lets through.
pub kprobe_lines_lem :
    (probe : Text) (filter u : ℕ) (lines : List (LineEnv × Text))
    → u + length lines < 2 ^ 64
    → Numbered u (kprobe_lines probe filter u lines).1 (kprobe_lines probe filter u lines).0
      × All (IsReported filter) (kprobe_lines probe filter u lines).1
unfolding kprobe_lines
kprobe_lines_lem probe filter u [] h = (omega arith, tt)
kprobe_lines_lem probe filter u ((env, line) ∷ more) h =
    let r = kprobe_line probe filter env u line in
    let sound = kprobe_line-LineSound probe filter env u line (omega arith) in
    let later = kprobe_lines_lem probe filter r.0 more (omega (arith, sound.1)) in
    let out = (kprobe_lines probe filter r.0 more).1 in
    (
      Numbered-append u r.0 (kprobe_lines probe filter r.0 more).0 r.1 out sound.0 later.0,
      All-append (IsReported filter) r.1 out sound.2 later.1,
    )

-- The rings of reported queues, none of which stands in `seen` or twice.
abbrev pub NewRings : List ℕ → List QueueInfo → Type 0
NewRings seen [] = Unit {0}
NewRings seen (q ∷ qs) = (elem q.ring_base seen ≡ false) × NewRings (q.ring_base ∷ seen) qs

-- What does not stand in the second list does not stand in the first.
abbrev pub Within : List ℕ → List ℕ → Type 0
Within xs ys = (k : ℕ) → elem k ys ≡ false → elem k xs ≡ false

Within-cons : (a : ℕ) (xs ys : List ℕ) → Within xs ys → Within (a ∷ xs) (a ∷ ys)
unfolding elem
Within-cons a xs ys h k e = ground (arith, h k (ground arith))

NewRings-Within :
    (xs ys : List ℕ) (qs : List QueueInfo) → Within xs ys → NewRings ys qs → NewRings xs qs
NewRings-Within xs ys [] h n = tt
NewRings-Within xs ys (q ∷ qs) h n = (
  h q.ring_base n.0,
  NewRings-Within (q.ring_base ∷ xs) (q.ring_base ∷ ys) qs (Within-cons q.ring_base xs ys h) n.1,
)

Within-tail : (a : ℕ) (xs : List ℕ) → Within xs (a ∷ xs)
unfolding elem
Within-tail a xs k e = ground arith

-- One line in front of more.
abbrev Onward : Seen → Seen × List QueueInfo → Type 0
Onward s r = (rest : List QueueInfo) → NewRings r.0.seen rest → NewRings s.seen (r.1 ++ rest)

uprobe_dispatch-NewRings :
    (filter now : ℕ) (s : Seen) (line : Text) (ring slots : ℕ)
    → Onward s (uprobe_dispatch filter now s line ring slots)
unfolding uprobe_dispatch uprobe_queue
uprobe_dispatch-NewRings filter now s line ring slots rest = elim (Bool-cases (elem ring s.seen)) [
  | inl old ↦ rw old (λ n. n)
  | inr new ↦
      let q = uprobe_queue now line ring slots s.next_uid in
      elim (Bool-cases (passes_filter filter q.pid)) [
        | inl through ↦ rw (new, through) (λ n. (new, n))
        | inr out ↦
            rw (new, out) (NewRings-Within s.seen (ring ∷ s.seen) rest (Within-tail ring s.seen))
      ]
]

uprobe_line-NewRings :
    (filter now : ℕ) (s : Seen) (line : Text) → Onward s (uprobe_line filter now s line)
unfolding uprobe_line
uprobe_line-NewRings filter now s line rest =
    let ring = get_u64 line (codes "ring") in
    let slots = to_u32 (get_u64 line (codes "slots")) in
    elim (Bool-cases (not (is_some (starts (codes "DISPATCH ") line)))) [
      | inl other ↦ rw other (λ n. n)
      | inr ours ↦ elim (Bool-cases ((ring == 0) || slots == 0)) [
        | inl empty ↦ rw (ours, empty) (λ n. n)
        | inr full ↦ rw (ours, full) (uprobe_dispatch-NewRings filter now s line ring slots rest)
      ]
    ]

-- Over any lines of dispatches, `RunKfdUprobe` reports a ring at most once, and never one that it has
-- seen before: no ring of a queue that it reports stands among the seen ones or among those of the
-- queues reported earlier.
pub uprobe_lines_lem :
    (filter : ℕ) (s : Seen) (lines : List (ℕ × Text))
    → NewRings s.seen (uprobe_lines filter s lines).1
unfolding uprobe_lines
uprobe_lines_lem filter s [] = tt
uprobe_lines_lem filter s ((now, line) ∷ more) =
    let r = uprobe_line filter now s line in
    uprobe_line-NewRings filter now s line (uprobe_lines filter r.0 more).1
      (uprobe_lines_lem filter r.0 more)
