-- ===== src/Main/Written.antt =====
-- From the ring of a queue to its trace: what the ring parser reports goes through the sinks of
-- src/main.cpp to the writer of the queue.
use native.Mathlib.Omega.{arith}
use hsa_snoop.Prelude.{
  All, IsU32, ℕ, ◌≤◌, ◌≡◌, refl, sym, ap, ◌∙◌, Bool, true, false, Option, some, List, [], ◌∷◌, ◌++◌,
  arith,
}
use hsa_snoop.Model.{QueueInfo, PacketRecord}
use hsa_snoop.Os.{Os}
use hsa_snoop.Sdma.Topology.{Node}
use hsa_snoop.TraceWriter.Writer.{Writer}
use hsa_snoop.Parser.State.{QueueState, new_queue}
use hsa_snoop.Parser.PollAql.{poll_queue}
use hsa_snoop.Parser.Occurs.{occurs, ids}
use hsa_snoop.Parser.History.{Polls, run_polls, PollsFit, run_polls_once}
use hsa_snoop.Parser.Own.{IsOf, new_queue-IsOf}
use hsa_snoop.Main.Session.{Modes, Session}
use hsa_snoop.Main.Sinks.{Event, handle_all}
use hsa_snoop.Main.Gains.{is_told, packets_for, packets_for-append}
use hsa_snoop.Main.Routing.{packets_in, writer_of, routing_lem}

-- What happens to a session in turn: the parser polls the queue and calls the packet sink with each
-- record that the poll hands over, or another call comes in.
pub data Turn : Type 0 where
  poll : Os → ℕ → Turn
  other : Os → Event → Turn

-- The calls of the packet sink that a poll makes.
abbrev pub sink_calls : Os → List PacketRecord → List (Os × Event)
sink_calls os [] = []
sink_calls os (r ∷ rs) = (os, Event.packet r) ∷ sink_calls os rs

-- The session's calls, the queue going from poll to poll.
unfoldable pub calls_of : QueueState → List Turn → List (Os × Event)
unfolding poll_queue
calls_of s [] = []
calls_of s (poll os now ∷ ts) =
    let (s', out) = poll_queue os now s in sink_calls os out ++ calls_of s' ts
calls_of s (other os e ∷ ts) = (os, e) ∷ calls_of s ts

abbrev pub polls_of : List Turn → Polls
polls_of [] = []
polls_of (poll os now ∷ ts) = (os, now) ∷ polls_of ts
polls_of (other os e ∷ ts) = polls_of ts

-- The other calls bring no packet that the writer of `uid` is told of.
abbrev pub OthersApart : Bool → ℕ → List Turn → Type 0
OthersApart all uid [] = Unit {0}
OthersApart all uid (poll os now ∷ ts) = OthersApart all uid ts
OthersApart all uid (other os e ∷ ts) =
    (packets_for all uid (packets_in ((os, e) ∷ [])) ≡ []) × OthersApart all uid ts

packets_in-append :
    (es fs : List (Os × Event)) → packets_in (es ++ fs) ≡ packets_in es ++ packets_in fs
packets_in-append [] fs = refl
packets_in-append ((os, Event.packet r) ∷ es) fs = ap (λ rs. r ∷ rs) (packets_in-append es fs)
packets_in-append ((os, Event.queue q) ∷ es) fs = packets_in-append es fs
packets_in-append ((os, Event.sdma r) ∷ es) fs = packets_in-append es fs
packets_in-append ((os, Event.ais r) ∷ es) fs = packets_in-append es fs
packets_in-append ((os, Event.xnack r) ∷ es) fs = packets_in-append es fs

packets_in-sink_calls : (os : Os) (rs : List PacketRecord) → packets_in (sink_calls os rs) ≡ rs
packets_in-sink_calls os [] = refl
packets_in-sink_calls os (r ∷ rs) = ap (λ xs. r ∷ xs) (packets_in-sink_calls os rs)

-- A queue's own packets are told to its writer.
packets_for_own :
    (all : Bool) (uid : ℕ) (rs : List PacketRecord)
    → All (IsOf uid) rs
    → packets_for all uid rs ≡ rs
unfolding packets_for
packets_for_own all uid [] h = refl
packets_for_own all uid (r ∷ rs) h =
    let told : is_told all uid r.queue_uid ≡ true = ground (arith, h.0) in
    rw (told, packets_for_own all uid rs h.1) refl

-- What the writer is told of is what the polls report to it.
packets_for-calls_of :
    (all : Bool) (uid : ℕ) (s : QueueState) (ts : List Turn)
    → OthersApart all uid ts
    → packets_for all uid (packets_in (calls_of s ts))
      ≡ packets_for all uid (run_polls s (polls_of ts)).1
unfolding calls_of run_polls
packets_for-calls_of all uid s [] h = refl
packets_for-calls_of all uid s (poll os now ∷ ts) h =
    let polled = poll_queue os now s in
    ap (packets_for all uid) (
      packets_in-append (sink_calls os polled.1) (calls_of polled.0 ts)
      ∙ ap (λ rs. rs ++ packets_in (calls_of polled.0 ts)) (packets_in-sink_calls os polled.1))
    ∙ packets_for-append all uid polled.1 (packets_in (calls_of polled.0 ts))
    ∙ ap (λ rs. packets_for all uid polled.1 ++ rs) (packets_for-calls_of all uid polled.0 ts h)
    ∙ sym (packets_for-append all uid polled.1 (run_polls polled.0 (polls_of ts)).1)
packets_for-calls_of all uid s (other os e ∷ ts) h =
    ap (packets_for all uid) (packets_in-append ((os, e) ∷ []) (calls_of s ts))
    ∙ packets_for-append all uid (packets_in ((os, e) ∷ [])) (packets_in (calls_of s ts))
    ∙ ap (λ rs. rs ++ packets_for all uid (packets_in (calls_of s ts))) h.0
    ∙ packets_for-calls_of all uid s ts h.1

-- A newly added AQL queue is polled any number of times, every report of a poll goes to the packet
-- sink of a session without an exporter, and other calls may come in between that bring the queue's
-- writer no packet. Then that writer, if it had no records, holds exactly the packets that the polls
-- report, in order, and no dispatch id twice.
pub written_once :
    (topology : Option (List Node)) (m : Modes) (session : Session) (w : Writer) (k : ℕ)
    (q : QueueInfo) (ts : List Turn)
    → m.exporter ≡ false
    → writer_of m q.uid session ≡ some w
    → w.records ≡ []
    → IsU32 q.ring_size
    → PollsFit 0 q (polls_of ts)
    → OthersApart m.all_mode q.uid ts
    → (w' : Writer) × (writer_of m q.uid
          (handle_all topology m session (calls_of (new_queue q) ts)).0
        ≡ some w')
      × (w'.records ≡ (run_polls (new_queue q) (polls_of ts)).1)
      × (occurs k (ids w'.records) ≤ 1)
written_once topology m session w k q ts x h empty size fit apart =
    let (w', there, gained, _) =
      routing_lem topology m q.uid (calls_of (new_queue q) ts) session w x h in
    let out = (run_polls (new_queue q) (polls_of ts)).1 in
    let told =
      packets_for-calls_of m.all_mode q.uid (new_queue q) ts apart
      ∙ packets_for_own m.all_mode q.uid out (new_queue-IsOf q (polls_of ts)) in
    let reported = packets_for m.all_mode q.uid (packets_in (calls_of (new_queue q) ts)) in
    let e : w'.records ≡ out = gained ∙ ap (λ rs. rs ++ reported) empty ∙ told in
    let once = run_polls_once k q (polls_of ts) size fit in
    (w', there, e, omega (arith, ap (λ ps. occurs k (ids ps)) e, once))
