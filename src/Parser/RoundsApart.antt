-- ===== src/Parser/RoundsApart.antt =====
-- How the queues of one round of `RingParser::Run` of src/parser.cpp bear on one another.
use native.Mathlib.Omega.{arith}
use hsa_snoop.Prelude.{
  ℕ, ◌≡◌, refl, ap, ◌∙◌, Bool, true, false, List, [], ◌∷◌, ◌++◌, arith, if◌then◌else◌,
}
use hsa_snoop.Os.{Os}
use hsa_snoop.Parser.State.{QueueState}
use hsa_snoop.Parser.Rounds.{no_output, visit, visit_all, remove_evicted, run_round}

visit_all-append :
    (os : Os) (now : ℕ) (xs ys : List QueueState)
    → ((visit_all os now (xs ++ ys)).0 ≡ (visit_all os now xs).0 ++ (visit_all os now ys).0)
      × ((visit_all os now (xs ++ ys)).1 ≡ (visit_all os now xs).1 ++ (visit_all os now ys).1)
unfolding visit_all
visit_all-append os now [] ys = (refl, refl)
visit_all-append os now (x ∷ xs) ys =
    let r = visit_all-append os now xs ys in
    (ap (λ ss. (visit os now x).0 ∷ ss) r.0, ap (λ outs. (visit os now x).1 ∷ outs) r.1)

keep-append :
    (evicted : Bool) (x : QueueState) (us vs ws : List QueueState)
    → ws ≡ us ++ vs
    → (if evicted then ws else x ∷ ws) ≡ (if evicted then us else x ∷ us) ++ vs
keep-append true x us vs ws h = h
keep-append false x us vs ws h = ap (λ ss. x ∷ ss) h

remove_evicted-append :
    (xs ys : List QueueState) → remove_evicted (xs ++ ys) ≡ remove_evicted xs ++ remove_evicted ys
unfolding remove_evicted
remove_evicted-append [] ys = refl
remove_evicted-append (x ∷ xs) ys =
    keep-append x.evict x (remove_evicted xs) (remove_evicted ys) (remove_evicted (xs ++ ys))
      (remove_evicted-append xs ys)

run_round-append :
    (os : Os) (now : ℕ) (xs ys : List QueueState)
    → ((run_round os now (xs ++ ys)).0 ≡ (run_round os now xs).0 ++ (run_round os now ys).0)
      × ((run_round os now (xs ++ ys)).1 ≡ (run_round os now xs).1 ++ (run_round os now ys).1)
unfolding run_round
run_round-append os now xs ys =
    let r = visit_all-append os now xs ys in
    (
      ap remove_evicted r.0 ∙ remove_evicted-append (visit_all os now xs).0 (visit_all os now ys).0,
      r.1,
    )

visit_gone :
    (os : Os) (now : ℕ) (s : QueueState)
    → (os.process s.info.pid).alive ≡ false
    → ((visit os now s).0.evict ≡ true) × ((visit os now s).1 ≡ no_output)
unfolding visit
visit_gone os now s h = ground arith

run_round_gone :
    (os : Os) (now : ℕ) (s : QueueState) (ys : List QueueState)
    → (os.process s.info.pid).alive ≡ false
    → ((run_round os now (s ∷ ys)).0 ≡ (run_round os now ys).0)
      × ((run_round os now (s ∷ ys)).1 ≡ no_output ∷ (run_round os now ys).1)
unfolding run_round visit_all remove_evicted
run_round_gone os now s ys h =
    let v = visit_gone os now s h in (rw (v.0) refl, ap (λ o. o ∷ (visit_all os now ys).1) v.1)

-- Where a queue's process is no longer alive, a round reports nothing for that queue and removes it;
-- the other queues are left in the states, and report the packets, of the rounds without it: no queue
-- bears on another.
pub run_round_drops :
    (os : Os) (now : ℕ) (xs ys : List QueueState) (s : QueueState)
    → (os.process s.info.pid).alive ≡ false
    → ((run_round os now (xs ++ (s ∷ ys))).0 ≡ (run_round os now xs).0 ++ (run_round os now ys).0)
      × ((run_round os now (xs ++ (s ∷ ys))).1
          ≡ (run_round os now xs).1 ++ (no_output ∷ (run_round os now ys).1))
run_round_drops os now xs ys s h =
    let r = run_round-append os now xs (s ∷ ys) in
    let g = run_round_gone os now s ys h in
    (
      r.0 ∙ ap (λ ss. (run_round os now xs).0 ++ ss) g.0,
      r.1 ∙ ap (λ outs. (run_round os now xs).1 ++ outs) g.1,
    )
