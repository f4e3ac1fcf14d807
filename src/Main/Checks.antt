-- ===== src/Main/Checks.antt =====
-- Which command lines src/main.cpp goes on with.
use native.Mathlib.Omega.{arith}
use hsa_snoop.Prelude.{
  text_eq, Text, codes, ℕ, ◌+◌, ◌≡◌, ◌↔◌, Bool, true, false, not, ◌&&◌, ◌||◌, [], arith, ◌==◌,
  if◌then◌else◌,
}
use hsa_snoop.Main.Options.{
  Options, Result, go_on, exit, Host, select_mode, library_path, is_empty, reject, find_library,
  start_up,
}

-- What is asked to be traced: how many of --all, a pid other than 0, and a command.
abbrev pub targets : Options → ℕ
targets o =
    (if o.all_mode then 1 else 0)
    + (if o.pid_filter == 0 then 0 else 1)
    + (if is_empty o.child_cmd then 0 else 1)

-- The argument of --mode is one of the three modes, or there is none.
abbrev pub is_mode : Text → Bool
is_mode m =
    text_eq m []
    || (text_eq m (codes "kprobe")
        || (text_eq m (codes "bpftrace") || text_eq m (codes "kfd-uprobe")))

-- The library of the mode is given or found; a run without --mode on WSL2 is in bpftrace mode.
abbrev pub has_library : Host → Options → Bool
has_library h o =
    if text_eq o.mode_str (codes "kfd-uprobe")
    then not (text_eq o.libhsa_path []) || not (text_eq h.libhsa [])
    else if text_eq o.mode_str (codes "bpftrace") || (text_eq o.mode_str [] && h.wsl2)
    then not (text_eq o.librocdxg_path []) || not (text_eq h.librocdxg [])
    else true

abbrev pub goes_on {ℓ} : {A : Type ℓ} → Result A → Bool
goes_on (go_on a) = true
goes_on (exit n) = false

-- The program goes on past its checks of the parsed options exactly when --mode is absent or names
-- one of the three modes, the library that the mode needs is given or found, the program runs as
-- root, --prometheus is given only to a build that has it, and exactly one of --all, a pid other than
-- 0 and a command is given.
pub start_up_lem :
    (h : Host) (o : Options)
    → (goes_on (start_up h o) ≡ true) ↔ (
        (is_mode o.mode_str ≡ true)
        × (has_library h o ≡ true)
        × (h.root ≡ true)
        × ((h.enabled || not o.prometheus_mode) ≡ true)
        × (targets o ≡ 1))
unfolding start_up select_mode find_library library_path reject
start_up_lem h o = ground arith
