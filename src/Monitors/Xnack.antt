-- ===== src/Monitors/Xnack.antt =====
-- `ReadLoop` of src/xnack_monitor.cpp, one line of at most 511 characters at a time, as `fgets` cuts
-- them. `sscanf` is a parameter: its three values, or none where fewer convert.
use hsa_snoop.Prelude.{
  add64, Text, codes, contains, is_some, starts, ℕ, Bool, not, Option, none, some, List, [], ◌∷◌,
  ◌++◌, if◌then◌else◌,
}
use hsa_snoop.Model.{XnackRecord}

-- `ready` and `seq`.
pub record XnackState : Type 0 where
  pub ready : Bool
  pub seq : ℕ

abbrev pub Sscanf : Type 0
Sscanf = Text → Option (ℕ × Text × ℕ)

unfoldable pub xnack_event : Sscanf → ℕ → ℕ → Text → List XnackRecord
xnack_event sscanf seq now line = elim (sscanf line) [
  | none ↦ []
  | some (pid, comm, pasid) ↦
      record { seq = seq; pasid = pasid; pid = pid; comm = comm; timestamp = now } ∷ []
]

unfoldable pub xnack_line : Sscanf → ℕ → XnackState → Text → XnackState × List XnackRecord
unfolding xnack_event
xnack_line sscanf now s line =
    let seq = add64 s.seq 1 in
    if not s.ready
    then (record s { ready = contains (codes "XNACK_MONITOR_READY") line }, [])
    else if is_some (starts (codes "XNACK ") line)
    then (record s { seq = seq }, xnack_event sscanf seq now line)
    else (s, [])

-- Lines in order, each with the clock of its time.
unfoldable pub xnack_lines : Sscanf → XnackState → List (ℕ × Text) → XnackState × List XnackRecord
unfolding xnack_line
xnack_lines sscanf s [] = (s, [])
xnack_lines sscanf s ((now, line) ∷ more) =
    let (s', out) = xnack_line sscanf now s line in
    let (s'', rest) = xnack_lines sscanf s' more in (s'', out ++ rest)
