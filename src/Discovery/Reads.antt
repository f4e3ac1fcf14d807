-- ===== src/Discovery/Reads.antt =====
-- How `RunKprobe`, `RunKfdUprobe` and `RunBpftrace` of src/discovery.cpp cut what they read from a
-- pipe into lines.
use hsa_snoop.Prelude.{
  Text, codes, contains, ℕ, zero, suc, Bool, true, false, List, [], ◌∷◌, ◌++◌, ◌==◌, if◌then◌else◌,
}

-- A character in front of the lines and the rest.
abbrev pub push_front : ℕ → List Text × Text → List Text × Text
push_front c ([], rest) = ([], c ∷ rest)
push_front c (l ∷ ls, rest) = ((c ∷ l) ∷ ls, rest)

-- The loop over `buf.find('\n')`: the lines that it takes from the buffer, without their line ends,
-- and what it leaves there.
unfoldable pub split_lines : Text → List Text × Text
split_lines [] = ([], [])
split_lines (c ∷ s) =
    let later = split_lines s in if c == 10 then ([] ∷ later.0, later.1) else push_front c later

-- `RunKprobe`: each read is put behind the buffer, then the lines are taken. A poll without input and
-- a failed read do nothing. The lines, and what the buffer holds in the end.
unfoldable pub polled_lines : Text → List Text → List Text × Text
unfolding split_lines
polled_lines buf [] = ([], buf)
polled_lines buf (chunk ∷ more) =
    let (ls, rest) = split_lines (buf ++ chunk) in
    let (ls', rest') = polled_lines rest more in (ls ++ ls', rest')

-- The state of `RunKfdUprobe` and `RunBpftrace` between two rounds of their loop: the buffer, the
-- reads that the pipe will still answer, at whose end it is closed, and whether the loop has ended.
pub record Pipe : Type 0 where
  pub buf : Text
  pub reads : List Text
  pub ended : Bool

-- The read at the head of a round, which is made for an empty buffer only.
unfoldable pub refill : Text → List Text → Pipe
refill (c ∷ buf) reads = record { buf = c ∷ buf; reads = reads; ended = false }
refill [] [] = record { buf = []; reads = []; ended = true }
refill [] (chunk ∷ reads) = record { buf = chunk; reads = reads; ended = false }

-- One round: the read, then all complete lines.
unfoldable pub round : Pipe → Pipe × List Text
unfolding refill split_lines
round p =
    let q = refill p.buf p.reads in
    let (ls, rest) = split_lines q.buf in if p.ended then (p, []) else (record q { buf = rest }, ls)

unfoldable pub rounds : ℕ → Pipe → Pipe × List Text
unfolding round
rounds zero p = (p, [])
rounds (suc n) p = let (q, ls) = round p in let (r, ls') = rounds n q in (r, ls ++ ls')

-- The loop of `StartKfdUprobe` that waits for "Attaching", one character at a time: what it has read,
-- whether the word came, and what is left in the pipe.
unfoldable pub arm : Text → Text → Text × Bool × Text
arm pre [] = (pre, false, [])
arm pre (c ∷ s) =
    let later = arm (pre ++ (c ∷ [])) s in
    if contains (codes "Attaching") (pre ++ (c ∷ [])) then (pre ++ (c ∷ []), true, s) else later
