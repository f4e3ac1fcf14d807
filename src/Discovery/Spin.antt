-- ===== src/Discovery/Spin.antt =====
-- When the blocking readers of src/discovery.cpp make progress: they read only into an empty buffer.
use native.Mathlib.Omega.{arith}
use mathlib.Core.List.{append-nil}
use hsa_snoop.Prelude.{
  length, All, Text, codes, contains, is_some, starts, after, ℕ, zero, suc, ◌≡◌, refl, sym, ap, ◌∙◌,
  ◌≢◌, inl, inr, true, false, ◌||◌, Option, none, some, List, [], ◌∷◌, ◌++◌, arith, ◌==◌,
  Bool-cases,
}
use hsa_snoop.Discovery.Reads.{Pipe, push_front, split_lines, refill, round, rounds, arm}
use hsa_snoop.Discovery.Lines.{concat, split_lines-append, Settled, split_lines-Settled}

-- A reader that has not ended.
abbrev pub reading : Text → List Text → Pipe
reading buf reads = record { buf = buf; reads = reads; ended = false }

round-open :
    (c : ℕ) (buf : Text) (reads : List Text)
    → round (reading (c ∷ buf) reads)
      ≡ (reading (split_lines (c ∷ buf)).1 reads, (split_lines (c ∷ buf)).0)
unfolding round refill
round-open c buf reads = refl

abbrev with_lines : List Text → Pipe × List Text → Pipe × List Text
with_lines ls p = (p.0, ls ++ p.1)

rounds-suc : (n : ℕ) (p : Pipe) → rounds (suc n) p ≡ with_lines (round p).1 (rounds n (round p).0)
unfolding rounds
rounds-suc n p = refl

rounds-Settled :
    (n c : ℕ) (buf : Text) (reads : List Text)
    → Settled (c ∷ buf)
    → rounds n (reading (c ∷ buf) reads) ≡ (reading (c ∷ buf) reads, [])
unfolding rounds
rounds-Settled zero c buf reads h = refl
rounds-Settled (suc n) c buf reads h =
    rounds-suc n (reading (c ∷ buf) reads)
    ∙ ap (λ q. with_lines q.1 (rounds n q.0)) (round-open c buf reads)
    ∙ ap (λ (p : List Text × Text). with_lines p.0 (rounds n (reading p.1 reads))) h
    ∙ ap (with_lines []) (rounds-Settled n c buf reads h)

-- The rounds behind the one that took `ls` out of the buffer.
rounds-rest :
    (n : ℕ) (rest : Text) (reads ls : List Text)
    → rest ≢ []
    → Settled rest
    → with_lines ls (rounds n (reading rest reads)) ≡ (reading rest reads, ls)
rounds-rest n [] reads ls ne h = absurd (ne refl)
rounds-rest n (c ∷ rest) reads ls ne h = rw (rounds-Settled n c rest reads h, append-nil ls) refl

rounds-partial :
    (n : ℕ) (buf : Text) (reads : List Text)
    → (split_lines buf).1 ≢ []
    → rounds (suc n) (reading buf reads) ≡ (reading (split_lines buf).1 reads, (split_lines buf).0)
unfolding rounds split_lines
rounds-partial n [] reads ne = absurd (ne refl)
rounds-partial n (c ∷ buf) reads ne =
    let p = split_lines (c ∷ buf) in
    rounds-suc n (reading (c ∷ buf) reads)
    ∙ ap (λ q. with_lines q.1 (rounds n q.0)) (round-open c buf reads)
    ∙ rounds-rest n p.1 reads p.0 ne (split_lines-Settled (c ∷ buf))

-- The rest behind a character that is no line end.
push_front-cons : (c : ℕ) (p : List Text × Text) → p.1 ≢ [] → (push_front c p).1 ≢ []
push_front-cons c ([], rest) ne = cc
push_front-cons c (l ∷ ls, rest) ne = ne

split_lines-last : (s : Text) (c : ℕ) → (c == 10) ≡ false → (split_lines (s ++ (c ∷ []))).1 ≢ []
unfolding split_lines
split_lines-last [] c h = rw h cc
split_lines-last (d ∷ s) c h = elim (Bool-cases (d == 10)) [
  | inl k ↦ rw k (split_lines-last s c h)
  | inr k ↦ rw k (push_front-cons d (split_lines (s ++ (c ∷ []))) (split_lines-last s c h))
]

is_some-or :
    (o later : Option Text)
    → is_some (elim o [ none ↦ later | some r ↦ some r ]) ≡ (is_some o || is_some later)
is_some-or none later = refl
is_some-or (some r) later = refl

contains-cons :
    (w : Text) (c : ℕ) (s : Text)
    → contains w (c ∷ s) ≡ (is_some (starts w (c ∷ s)) || contains w s)
unfolding after
contains-cons w c s = is_some-or (starts w (c ∷ s)) (after w s)

contains-nil : (w : Text) → contains w [] ≡ is_some (starts w [])
unfolding after
contains-nil w = refl

starts-newline :
    (w s : Text)
    → All (λ x. (x == 10) ≡ false) w
    → is_some (starts w (s ++ (10 ∷ []))) ≡ is_some (starts w s)
unfolding starts
starts-newline [] s h = refl
starts-newline (x ∷ w) [] h = rw h.0 refl
starts-newline (x ∷ w) (c ∷ s) h = elim (Bool-cases (x == c)) [
  | inl k ↦ rw k (starts-newline w s h.1)
  | inr k ↦ rw k refl
]

contains-newline :
    (w s : Text) → All (λ x. (x == 10) ≡ false) w → contains w (s ++ (10 ∷ [])) ≡ contains w s
contains-newline w [] h =
    contains-cons w 10 [] ∙ rw (contains-nil w, starts-newline w [] h) (ground arith)
contains-newline w (c ∷ s) h =
    contains-cons w c (s ++ (10 ∷ []))
    ∙ rw (starts-newline w (c ∷ s) h, contains-newline w s h) (sym (contains-cons w c s))

true≢false : true ≢ false
true≢false = cc

-- The characters of "Attaching" are no line ends.
apart : All (λ x. (x == 10) ≡ false) (codes "Attaching")
apart = (refl, (refl, (refl, (refl, (refl, (refl, (refl, (refl, (refl, tt)))))))))

no_newline :
    (pre : Text) (c : ℕ)
    → contains (codes "Attaching") pre ≡ false
    → contains (codes "Attaching") (pre ++ (c ∷ [])) ≡ true
    → (c == 10) ≡ false
no_newline pre c h found = elim (Bool-cases (c == 10)) [
  | inr other ↦ other
  | inl same ↦
      let e : c ≡ 10 = ground arith in
      absurd (true≢false (sym (rw e at found) ∙ contains-newline (codes "Attaching") pre apart ∙ h))
]

arm-partial :
    (s pre : Text)
    → contains (codes "Attaching") pre ≡ false
    → (arm pre s).1 ≡ true
    → (split_lines (arm pre s).0).1 ≢ []
unfolding arm
arm-partial [] pre h k = absurd cc
arm-partial (c ∷ s) pre h k = elim (Bool-cases (contains (codes "Attaching") (pre ++ (c ∷ [])))) [
  | inl found ↦ rw found (split_lines-last pre c (no_newline pre c h found))
  | inr more ↦ rw more (arm-partial s (pre ++ (c ∷ [])) more (rw more at k))
]

-- Once `StartKfdUprobe` has seen "Attaching", `RunKfdUprobe` never reads from its pipe: whatever the
-- pipe would answer and for however many rounds the loop runs, it has not ended, no read has been
-- made, the buffer is the same, and no line has been taken but those that stood in front of the word.
pub uprobe_spins :
    (input : Text) (reads : List Text) (n : ℕ)
    → (arm [] input).1 ≡ true
    → rounds (suc n) (reading (arm [] input).0 reads)
      ≡ (reading (split_lines (arm [] input).0).1 reads, (split_lines (arm [] input).0).0)
uprobe_spins input reads n h =
    rounds-partial n (arm [] input).0 reads (arm-partial input [] (unfold after starts in refl) h)

-- A read that ends with a line end.
abbrev pub IsWhole : Text → Type 0
IsWhole s = (split_lines s).1 ≡ []

abbrev pub ended_pipe : Pipe
ended_pipe = record { buf = []; reads = []; ended = true }

round-read :
    (read : Text) (reads : List Text)
    → round (reading [] (read ∷ reads)) ≡ (reading (split_lines read).1 reads, (split_lines read).0)
unfolding round refill
round-read read reads = refl

rounds-end : rounds 1 (reading [] []) ≡ (ended_pipe, [])
unfolding rounds round refill split_lines
rounds-end = refl

-- The rounds behind one that has left an empty buffer.
rounds-onward :
    (n : ℕ) (buf : Text) (reads ls later : List Text)
    → buf ≡ []
    → rounds n (reading [] reads) ≡ (ended_pipe, later)
    → with_lines ls (rounds n (reading buf reads)) ≡ (ended_pipe, ls ++ later)
rounds-onward n buf reads ls later e h =
    ap (λ b. with_lines ls (rounds n (reading b reads))) e ∙ ap (with_lines ls) h

lines-whole :
    (s t : Text) → IsWhole s → (split_lines s).0 ++ (split_lines t).0 ≡ (split_lines (s ++ t)).0
unfolding split_lines
lines-whole s t h =
    ap (λ r. (split_lines s).0 ++ (split_lines (r ++ t)).0) (sym h)
    ∙ ap (λ (p : List Text × Text). p.0) (sym (split_lines-append s t))

rounds-whole :
    (reads : List Text)
    → All IsWhole reads
    → rounds (suc (length reads)) (reading [] reads) ≡ (ended_pipe, (split_lines (concat reads)).0)
unfolding split_lines
rounds-whole [] k = rounds-end
rounds-whole (read ∷ reads) k =
    let n = suc (length reads) in
    rounds-suc n (reading [] (read ∷ reads))
    ∙ ap (λ q. with_lines q.1 (rounds n q.0)) (round-read read reads)
    ∙ rounds-onward n (split_lines read).1 reads (split_lines read).0 (split_lines (concat reads)).0
        k.0 (rounds-whole reads k.1)
    ∙ ap (λ ls. (ended_pipe, ls)) (lines-whole read (concat reads) k.0)

-- If what was read while the probes were armed and each read of the pipe ends with a line end, the
-- loop of `RunKfdUprobe` and `RunBpftrace` ends after as many rounds as there are reads and two
-- more, with all reads made, and the lines that it has handled are all lines of the input, in order.
pub rounds_deliver :
    (c : ℕ) (pre : Text) (reads : List Text)
    → IsWhole (c ∷ pre)
    → All IsWhole reads
    → rounds (suc (suc (length reads))) (reading (c ∷ pre) reads)
      ≡ (ended_pipe, (split_lines (c ∷ (pre ++ concat reads))).0)
rounds_deliver c pre reads h k =
    let n = suc (length reads) in
    rounds-suc n (reading (c ∷ pre) reads)
    ∙ ap (λ q. with_lines q.1 (rounds n q.0)) (round-open c pre reads)
    ∙ rounds-onward n (split_lines (c ∷ pre)).1 reads (split_lines (c ∷ pre)).0
        (split_lines (concat reads)).0 h (rounds-whole reads k)
    ∙ ap (λ ls. (ended_pipe, ls)) (lines-whole (c ∷ pre) (concat reads) h)
