-- ===== src/Exporter/Counts.antt =====
-- What the counters of src/prometheus_exporter.cpp add up to.
use native.Mathlib.Omega.{arith}
use hsa_snoop.Prelude.{
  elem, lookup, lookup-assign, assign, to_u32, Text, is_some, ℕ, ◌+◌, ◌≡◌, refl, ap, ◌∙◌, inl, inr,
  Bool, ◌||◌, Option, some, List, [], ◌∷◌, ◌++◌, arith, ◌==◌, if◌then◌else◌, Bool-cases,
  Option-cases,
}
use hsa_snoop.Model.{QueueInfo, PacketRecord, SdmaRecord, is_sdma}
use hsa_snoop.TraceWriter.Perfetto.{is_dispatch}
use hsa_snoop.Exporter.Metrics.{Family, Call, QueueMeta, Exporter}
use hsa_snoop.Exporter.Queues.{export_queue}
use hsa_snoop.Exporter.Packets.{add_launch, add_known, export_packet, export_sdma}
use hsa_snoop.Exporter.Totals.{
  total, total-append, one, packet_adds, sdma_adds, total-export_packet, total-export_sdma,
  total-export_queue,
}

-- What happens to the queues and packets of an exporter; a packet comes with the two clocks.
pub data Change : Type 0 where
  queue : QueueInfo → Change
  packet : ℕ → ℕ → PacketRecord → Change
  sdma : SdmaRecord → Change

abbrev pub change : (ℕ → Text) → Change → Exporter → Exporter × List Call
change gpu_type (Change.queue q) x = export_queue gpu_type q x
change gpu_type (Change.packet now_rt now r) x = export_packet now_rt now r x
change gpu_type (Change.sdma r) x = (x, export_sdma r x)

abbrev pub changes : (ℕ → Text) → List Change → Exporter → Exporter × List Call
changes gpu_type [] x = (x, [])
changes gpu_type (c ∷ cs) x =
    let (x', calls) = change gpu_type c x in
    let (x'', rest) = changes gpu_type cs x' in (x'', calls ++ rest)

-- The sum over a history, with the uids of the queues that are registered, in 32 bits.
unfoldable pub expected : (Family → Bool) → List ℕ → List Change → ℕ
unfolding is_sdma
expected f known [] = 0
expected f known (Change.queue q ∷ cs) =
    one (f (if is_sdma q then Family.active_sdma_queues else Family.active_queues))
    + expected f (to_u32 q.uid ∷ known) cs
expected f known (Change.packet now_rt now r ∷ cs) =
    packet_adds f (elem (to_u32 r.queue_uid) known) r + expected f known cs
expected f known (Change.sdma r ∷ cs) =
    sdma_adds f (elem (to_u32 r.queue_uid) known) r + expected f known cs

-- The queues that an exporter knows, by their uids in 32 bits.
abbrev pub Knows : Exporter → List ℕ → Type 0
Knows x known = (k : ℕ) → is_some (lookup k x.queue_meta) ≡ elem k known

export_queue_meta :
    (gpu_type : ℕ → Text) (q : QueueInfo) (x : Exporter)
    → (export_queue gpu_type q x).0.queue_meta
      ≡ assign
          (to_u32 q.uid)
          (record { gpu_id = q.gpu_id; pid = q.pid; comm = q.comm; gpu_type = gpu_type q.gpu_id })
          x.queue_meta
unfolding export_queue
export_queue_meta gpu_type q x = elim (Bool-cases (is_sdma q)) [
  | inl h ↦ rw (export_queue, h) refl
  | inr h ↦ rw (export_queue, h) refl
]

is_some-assigned :
    (a k : ℕ) (v : QueueMeta) (o : Option QueueMeta) (b : Bool)
    → is_some o ≡ b
    → is_some (if a == k then some v else o) ≡ ((k == a) || b)
is_some-assigned a k v o b h = ground arith

Knows-export_queue :
    (gpu_type : ℕ → Text) (q : QueueInfo) (x : Exporter) (known : List ℕ)
    → Knows x known
    → Knows (export_queue gpu_type q x).0 (to_u32 q.uid ∷ known)
unfolding elem
Knows-export_queue gpu_type q x known h k =
    let meta : QueueMeta = record {
      gpu_id = q.gpu_id;
      pid = q.pid;
      comm = q.comm;
      gpu_type = gpu_type q.gpu_id;
    } in
    ap (λ m. is_some (lookup k m)) (export_queue_meta gpu_type q x)
    ∙ ap is_some (lookup-assign (to_u32 q.uid) k meta x.queue_meta)
    ∙ is_some-assigned (to_u32 q.uid) k meta (lookup k x.queue_meta) (elem k known) (h k)

same_meta :
    (now_rt now : ℕ) (r : PacketRecord) (x : Exporter)
    → (export_packet now_rt now r x).0.queue_meta ≡ x.queue_meta
unfolding export_packet add_known add_launch
same_meta now_rt now r x = elim (Option-cases (lookup (to_u32 r.queue_uid) x.queue_meta)) [
  | inl h ↦ rw (export_packet, h) refl
  | inr (m, h) ↦ elim (Bool-cases (is_dispatch r.type)) [
    | inl d ↦ rw (export_packet, h, d) refl
    | inr d ↦ rw (export_packet, h, d) refl
  ]
]

Knows-export_packet :
    (now_rt now : ℕ) (r : PacketRecord) (x : Exporter) (known : List ℕ)
    → Knows x known
    → Knows (export_packet now_rt now r x).0 known
Knows-export_packet now_rt now r x known h k =
    ap (λ m. is_some (lookup k m)) (same_meta now_rt now r x) ∙ h k

-- Over any history of queues and packets, what the calls of the exporter add to the metrics of any
-- choice of families is the sum over the history: one to the queues of its kind for each queue; for
-- each AQL packet of a queue registered before it, one launch if it is a dispatch and one barrier if
-- it has the bit; for each SDMA packet of such a queue one packet, and for a copy one copy and its
-- bytes; and one error for each packet of any other queue, uids being compared in 32 bits.
pub changes_lem :
    (f : Family → Bool) (gpu_type : ℕ → Text) (cs : List Change) (x : Exporter) (known : List ℕ)
    → ((k : ℕ) → is_some (lookup k x.queue_meta) ≡ elem k known)
    → total f (changes gpu_type cs x).1 ≡ expected f known cs
unfolding total expected
changes_lem f gpu_type [] x known h = refl
changes_lem f gpu_type (Change.queue q ∷ cs) x known h =
    let (x', calls) = export_queue gpu_type q x in
    let h' = Knows-export_queue gpu_type q x known h in
    let later = changes_lem f gpu_type cs (export_queue gpu_type q x).0 (to_u32 q.uid ∷ known) h' in
    total-append f calls (changes gpu_type cs x').1
    ∙ omega (arith, total-export_queue f gpu_type q x, later)
changes_lem f gpu_type (Change.packet now_rt now r ∷ cs) x known h =
    let (x', calls) = export_packet now_rt now r x in
    let h' = Knows-export_packet now_rt now r x known h in
    let later = changes_lem f gpu_type cs (export_packet now_rt now r x).0 known h' in
    let e = ap (λ b. packet_adds f b r) (h (to_u32 r.queue_uid)) in
    total-append f calls (changes gpu_type cs x').1
    ∙ omega (arith, total-export_packet f now_rt now r x, later, e)
changes_lem f gpu_type (Change.sdma r ∷ cs) x known h =
    let later = changes_lem f gpu_type cs x known h in
    let e = ap (λ b. sdma_adds f b r) (h (to_u32 r.queue_uid)) in
    total-append f (export_sdma r x) (changes gpu_type cs x).1
    ∙ omega (arith, total-export_sdma f r x, later, e)
