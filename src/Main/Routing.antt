-- ===== src/Main/Routing.antt =====
-- Where the records of src/main.cpp end: each is kept once, by the writer that its queue's trace is
-- written from.
use native.Mathlib.Omega.{arith}
use mathlib.Core.Option as Opt
use mathlib.Core.Path.{subst}
use hsa_snoop.Prelude.{
  lookup, ℕ, ◌≡◌, refl, ap, ◌∙◌, ◌⊎◌, inl, inr, true, false, Option, some, List, [], ◌∷◌, ◌++◌,
  arith, ◌==◌, if◌then◌else◌, Bool-cases, Option-cases,
}
use hsa_snoop.Model.{QueueInfo, PacketRecord, SdmaRecord, AisRecord}
use hsa_snoop.Os.{Os}
use hsa_snoop.Sdma.Topology.{Node}
use hsa_snoop.TraceWriter.Writer.{Writer, add_packet, add_sdma, add_ais, register_queue}
use hsa_snoop.ProcMem.Reads.{virt_to_phys}
use hsa_snoop.Main.Session.{Modes, Session, accept_queue, take_queue, on_queue}
use hsa_snoop.Main.Sinks.{
  Event, add_record, packet_sink, sdma_sink, ais_sink, xnack_sink, handle, handle_all,
}
use hsa_snoop.Main.Gains.{
  Gains, is_told, packets_for, sdma_for, Gains-none, Gains-packet, Gains-sdma, Gains-other_packet,
  Gains-other_sdma, Gains-trans,
}
use hsa_snoop.Main.Lookups.{
  lookup-change_writer_same, lookup-change_writer_other, lookup-ensure_writer,
}

-- The records that calls bring.
abbrev pub packets_in : List (Os × Event) → List PacketRecord
packets_in [] = []
packets_in ((os, Event.packet r) ∷ es) = r ∷ packets_in es
packets_in ((os, _) ∷ es) = packets_in es

abbrev pub sdma_in : List (Os × Event) → List SdmaRecord
sdma_in [] = []
sdma_in ((os, Event.sdma r) ∷ es) = r ∷ sdma_in es
sdma_in ((os, _) ∷ es) = sdma_in es

-- The writer that a queue's trace is written from.
abbrev pub writer_of : Modes → ℕ → Session → Option Writer
writer_of m uid s = if m.all_mode then lookup uid s.per_queue else some s.single

-- The writer of a queue is there after a call, and has gained what the call brings.
abbrev Kept : Modes → ℕ → Writer → List PacketRecord → List SdmaRecord → Session → Type 0
Kept m uid w ps ds s' =
    (w' : Writer) × (writer_of m uid s' ≡ some w') × Gains m.all_mode uid ps ds w w'

-- A record of queue `j` changes the writer of `uid` if that is told of it, and else leaves it alone.
abbrev Changed : Modes → ℕ → ℕ → (Writer → Writer) → Writer → Session → Type 0
Changed m uid j f w s' =
    ((writer_of m uid s' ≡ some (f w)) × (is_told m.all_mode uid j ≡ true))
    ⊎ ((writer_of m uid s' ≡ some w) × (is_told m.all_mode uid j ≡ false))

add_record-Changed :
    (m : Modes) (uid j : ℕ) (f : Writer → Writer) (s : Session) (w : Writer)
    → m.exporter ≡ false
    → writer_of m uid s ≡ some w
    → Changed m uid j f w (add_record m j f s)
unfolding add_record
add_record-Changed m uid j f s w x h = elim (Bool-cases m.all_mode) [
  | inr single ↦ rw (x, single) (inl (ap (Opt.map f) (rw single at h), refl))
  | inl all ↦ elim (Bool-cases (j == uid)) [
    | inr other ↦
        rw (x, all)
          (inr (lookup-change_writer_other uid j f s.per_queue other ∙ rw all at h, other))
    | inl same ↦
        let e : j ≡ uid = ground arith in
        rw (x, all, e)
          (inl (lookup-change_writer_same uid f s.per_queue w (rw all at h), ground arith))
  ]
]

packet_sink-Kept :
    (os : Os) (m : Modes) (uid : ℕ) (r : PacketRecord) (s : Session) (w : Writer)
    → m.exporter ≡ false
    → writer_of m uid s ≡ some w
    → Kept m uid w (r ∷ []) [] (packet_sink os m r s).0
unfolding packet_sink
packet_sink-Kept os m uid r s w x h =
    elim (add_record-Changed m uid r.queue_uid (add_packet r) s w x h) [
      | inl (e, told) ↦ (add_packet r w, e, Gains-packet m.all_mode uid r w told)
      | inr (e, other) ↦ (w, e, Gains-other_packet m.all_mode uid r w other)
    ]

sdma_sink-Kept :
    (m : Modes) (uid : ℕ) (r : SdmaRecord) (s : Session) (w : Writer)
    → m.exporter ≡ false
    → writer_of m uid s ≡ some w
    → Kept m uid w [] (r ∷ []) (sdma_sink m r s).0
unfolding sdma_sink
sdma_sink-Kept m uid r s w x h = elim (add_record-Changed m uid r.queue_uid (add_sdma r) s w x h) [
  | inl (e, told) ↦ (add_sdma r w, e, Gains-sdma m.all_mode uid r w told)
  | inr (e, other) ↦ (w, e, Gains-other_sdma m.all_mode uid r w other)
]

ais_sink-Kept :
    (m : Modes) (uid : ℕ) (r : AisRecord) (s : Session) (w : Writer)
    → m.exporter ≡ false
    → writer_of m uid s ≡ some w
    → Kept m uid w [] [] (ais_sink m r s).0
unfolding ais_sink add_ais
ais_sink-Kept m uid r s w x h = elim (Bool-cases m.all_mode) [
  | inl all ↦ rw (x, all) (w, rw all at h, Gains-none true uid w w refl refl)
  | inr single ↦
      rw (x, single)
        (
          add_ais r w,
          ap (Opt.map (add_ais r)) (rw single at h),
          Gains-none false uid w (add_ais r w) refl refl,
        )
]

take_queue-Kept :
    (m : Modes) (uid : ℕ) (q : QueueInfo) (s : Session) (w : Writer)
    → m.exporter ≡ false
    → writer_of m uid s ≡ some w
    → Kept m uid w [] [] (take_queue m q s).0
unfolding take_queue register_queue
take_queue-Kept m uid q s w x h = elim (Bool-cases m.all_mode) [
  | inl all ↦
      rw (x, all)
        (
          w,
          lookup-ensure_writer m.fmt q uid s.per_queue w (rw all at h),
          Gains-none true uid w w refl refl,
        )
  | inr single ↦
      rw (x, single)
        (
          register_queue q w,
          ap (Opt.map (register_queue q)) (rw single at h),
          Gains-none false uid w (register_queue q w) refl refl,
        )
]

on_queue-Kept :
    (os : Os) (topology : Option (List Node)) (m : Modes) (uid : ℕ) (q : QueueInfo) (s : Session)
    (w : Writer)
    → m.exporter ≡ false
    → writer_of m uid s ≡ some w
    → Kept m uid w [] [] (on_queue os topology m q s).0
unfolding on_queue
on_queue-Kept os topology m uid q s w x h = elim (Option-cases (accept_queue topology q)) [
  | inl ignored ↦ rw (on_queue, ignored) (w, h, Gains-none m.all_mode uid w w refl refl)
  | inr (q', accepted) ↦
      rw (on_queue, accepted)
        (take_queue-Kept m uid (record q' { ring_phys = virt_to_phys os q.pid q.ring_base }) s w x
          h)
]

handle-Kept :
    (os : Os) (topology : Option (List Node)) (m : Modes) (uid : ℕ) (e : Event) (s : Session)
    (w : Writer)
    → m.exporter ≡ false
    → writer_of m uid s ≡ some w
    → Kept m uid w (packets_in ((os, e) ∷ [])) (sdma_in ((os, e) ∷ [])) (handle os topology m e s).0
unfolding handle xnack_sink
handle-Kept os topology m uid (Event.queue q) s w x h = on_queue-Kept os topology m uid q s w x h
handle-Kept os topology m uid (Event.packet r) s w x h = packet_sink-Kept os m uid r s w x h
handle-Kept os topology m uid (Event.sdma r) s w x h = sdma_sink-Kept m uid r s w x h
handle-Kept os topology m uid (Event.ais r) s w x h = ais_sink-Kept m uid r s w x h
handle-Kept os topology m uid (Event.xnack r) s w x h =
    (w, h, Gains-none m.all_mode uid w w refl refl)

packets_in-cons :
    (os : Os) (e : Event) (es : List (Os × Event))
    → packets_in ((os, e) ∷ []) ++ packets_in es ≡ packets_in ((os, e) ∷ es)
packets_in-cons os (Event.packet r) es = refl
packets_in-cons os (Event.queue q) es = refl
packets_in-cons os (Event.sdma r) es = refl
packets_in-cons os (Event.ais r) es = refl
packets_in-cons os (Event.xnack r) es = refl

sdma_in-cons :
    (os : Os) (e : Event) (es : List (Os × Event))
    → sdma_in ((os, e) ∷ []) ++ sdma_in es ≡ sdma_in ((os, e) ∷ es)
sdma_in-cons os (Event.packet r) es = refl
sdma_in-cons os (Event.queue q) es = refl
sdma_in-cons os (Event.sdma r) es = refl
sdma_in-cons os (Event.ais r) es = refl
sdma_in-cons os (Event.xnack r) es = refl

handle_all-Kept :
    (topology : Option (List Node)) (m : Modes) (uid : ℕ) (es : List (Os × Event)) (s : Session)
    (w : Writer)
    → m.exporter ≡ false
    → writer_of m uid s ≡ some w
    → Kept m uid w (packets_in es) (sdma_in es) (handle_all topology m s es).0
unfolding handle_all
handle_all-Kept topology m uid [] s w x h = (w, h, Gains-none m.all_mode uid w w refl refl)
handle_all-Kept topology m uid ((os, e) ∷ es) s w x h =
    let (v, k, g) = handle-Kept os topology m uid e s w x h in
    let (u, l, g') = handle_all-Kept topology m uid es (handle os topology m e s).0 v x k in
    let moved =
      Gains-trans m.all_mode uid (packets_in ((os, e) ∷ [])) (packets_in es)
        (sdma_in ((os, e) ∷ [])) (sdma_in es) w v u g g' in
    (
      u,
      l,
      subst (λ ds. Gains m.all_mode uid (packets_in ((os, e) ∷ es)) ds w u) (sdma_in-cons os e es)
          (subst (λ qs. Gains m.all_mode uid qs (sdma_in ((os, e) ∷ []) ++ sdma_in es) w u)
            (packets_in-cons os e es) moved),
    )

-- Without an exporter, whatever queues are found and whatever records are reported in between, the
-- records of the writer that a known queue's trace is written from are those it had, followed by
-- the reported ones it is told of, AQL and SDMA, each once and in the order of the reports: with
-- --all exactly those of its queue, and for the one writer all of them.
pub routing_lem :
    (topology : Option (List Node)) (m : Modes) (uid : ℕ) (es : List (Os × Event)) (s : Session)
    (w : Writer)
    → m.exporter ≡ false
    → writer_of m uid s ≡ some w
    → (w' : Writer) × (writer_of m uid (handle_all topology m s es).0 ≡ some w')
      × (w'.records ≡ w.records ++ packets_for m.all_mode uid (packets_in es))
      × (w'.sdma_records ≡ w.sdma_records ++ sdma_for m.all_mode uid (sdma_in es))
routing_lem topology m uid es s w x h =
    let (w', k, g) = handle_all-Kept topology m uid es s w x h in (w', k, g.packets, g.sdma)
