-- ===== src/Main/Options.antt =====
-- The command line of src/main.cpp.
use hsa_snoop.Prelude.{
  text_eq, Text, codes, atoi, ℕ, ◌%◌, ◌^◌, Bool, true, false, not, ◌&&◌, ◌||◌, Option, none, some,
  List, [], ◌∷◌, ◌==◌, if◌then◌else◌,
}
use hsa_snoop.TraceWriter.Writer.{Format}

pub data DiscoveryMode : Type 0 where
  kprobe bpftrace kfd_uprobe : DiscoveryMode

-- The variables that the options set; an `int` is its 32 bits.
pub record Options : Type 0 where
  pub pid_filter : ℕ
  pub poll_us : ℕ
  pub duration : ℕ
  pub all_mode : Bool
  pub prometheus_mode : Bool
  pub ais_mode : Bool
  pub xnack_mode : Bool
  pub mem_mode : Bool
  pub prometheus_port : ℕ
  pub prometheus_snapshot_path : Text
  pub out : Text
  pub out_dir : Text
  pub tracefs : Text
  pub mode_str : Text
  pub librocdxg_path : Text
  pub libhsa_path : Text
  pub dispatch_log_path : Text
  pub fmt : Format
  pub child_cmd : List Text

abbrev pub defaults : Options
defaults = record {
  pid_filter = 0;
  poll_us = 20;
  duration = 0;
  all_mode = false;
  prometheus_mode = false;
  ais_mode = false;
  xnack_mode = false;
  mem_mode = false;
  prometheus_port = 9488;
  prometheus_snapshot_path = [];
  out = [];
  out_dir = [];
  tracefs = codes "/sys/kernel/tracing";
  mode_str = [];
  librocdxg_path = [];
  libhsa_path = [];
  dispatch_log_path = [];
  fmt = Format.perfetto;
  child_cmd = [];
}

-- The end of the program with an exit code, or a value to go on with.
pub data Result {ℓ} (A : Type ℓ) : Type ℓ where
  go_on : A → Result A
  exit : ℕ → Result A

unfoldable pub format_of : Text → Format
format_of v = if text_eq v (codes "json") then Format.json else Format.perfetto

-- An option that takes the next argument; `enabled` is HSA_SNOOP_PROMETHEUS_ENABLED.
unfoldable pub value_option : Bool → Text → Text → Options → Option Options
unfolding format_of atoi
value_option enabled a v o =
    if text_eq a (codes "--pid")
    then some (record o { pid_filter = atoi v })
    else if text_eq a (codes "--out")
    then some (record o { out = v })
    else if text_eq a (codes "--out-dir")
    then some (record o { out_dir = v })
    else if text_eq a (codes "--poll-us")
    then some (record o { poll_us = atoi v })
    else if text_eq a (codes "--duration")
    then some (record o { duration = atoi v })
    else if text_eq a (codes "--tracefs")
    then some (record o { tracefs = v })
    else if text_eq a (codes "--mode")
    then some (record o { mode_str = v })
    else if text_eq a (codes "--librocdxg")
    then some (record o { librocdxg_path = v })
    else if text_eq a (codes "--libhsa")
    then some (record o { libhsa_path = v })
    else if text_eq a (codes "--log-dispatches")
    then some (record o { dispatch_log_path = v })
    else if enabled && text_eq a (codes "--prometheus-port")
    then some (record o { prometheus_port = atoi v % 2 ^ 16 })
    else if enabled && text_eq a (codes "--prometheus-snapshot")
    then some (record o { prometheus_snapshot_path = v })
    else if text_eq a (codes "--format")
    then some (record o { fmt = format_of v })
    else none

-- An option without a value.
unfoldable pub flag_option : Text → Options → Option Options
flag_option a o =
    if text_eq a (codes "--all")
    then some (record o { all_mode = true })
    else if text_eq a (codes "--prometheus")
    then some (record o { prometheus_mode = true })
    else if text_eq a (codes "--ais-snoop")
    then some (record o { ais_mode = true })
    else if text_eq a (codes "--xnack-snoop")
    then some (record o { xnack_mode = true })
    else if text_eq a (codes "--mem-snoop")
    then some (record o { mem_mode = true })
    else none

-- What remains: "--", the help, or an argument that is unknown.
unfoldable pub last_option : Text → List Text → Options → Result Options
last_option a rest o =
    if text_eq a (codes "--")
    then go_on (record o { child_cmd = rest })
    else if text_eq a (codes "-h") || text_eq a (codes "--help")
    then exit 0
    else exit 2

-- The loop over the arguments behind the program's name.
unfoldable pub parse_args : Bool → Options → List Text → Result Options
unfolding value_option flag_option last_option
parse_args enabled o [] = go_on o
parse_args enabled o (a ∷ []) = elim (flag_option a o) [
  | some o' ↦ go_on o'
  | none ↦ last_option a [] o
]
parse_args enabled o (a ∷ v ∷ rest) = elim (value_option enabled a v o) [
  | some o' ↦ parse_args enabled o' rest
  | none ↦ elim (flag_option a o) [
    | some o' ↦ parse_args enabled o' (v ∷ rest)
    | none ↦ last_option a (v ∷ rest) o
  ]
]

-- The mode of discovery; `wsl2` is `IsWsl2()`.
unfoldable pub select_mode : Bool → Text → Result DiscoveryMode
select_mode wsl2 mode =
    if text_eq mode (codes "kfd-uprobe")
    then go_on DiscoveryMode.kfd_uprobe
    else if text_eq mode (codes "bpftrace")
    then go_on DiscoveryMode.bpftrace
    else if text_eq mode [] && wsl2
    then go_on DiscoveryMode.bpftrace
    else if not (text_eq mode []) && not (text_eq mode (codes "kprobe"))
    then exit 2
    else go_on DiscoveryMode.kprobe

-- The library of a mode: the option's, or the one that is found; `none` where the run ends.
unfoldable pub library_path : Text → Text → Result Text
library_path given found =
    if not (text_eq given []) then go_on given else if text_eq found [] then exit 1 else go_on found

abbrev pub is_empty {ℓ} : {A : Type ℓ} → List A → Bool
is_empty [] = true
is_empty (x ∷ xs) = false

-- The checks of the options: the exit code of the first that fails, `none` if all hold.
unfoldable pub reject : Bool → Bool → Options → Option ℕ
reject enabled root o =
    let pid = not (o.pid_filter == 0) in
    let child = not (is_empty o.child_cmd) in
    if not enabled && o.prometheus_mode
    then some 2
    else if not root
    then some 1
    else if not o.all_mode && (not pid && not child)
    then some 2
    else if o.all_mode && (pid || child)
    then some 2
    else if pid && child
    then some 2
    else none

-- What the program finds out about the machine, its build and its user: `IsWsl2()`,
-- HSA_SNOOP_PROMETHEUS_ENABLED, `geteuid() == 0`, `FindLibhsa()` and `FindLibrocdxg()`.
pub record Host : Type 0 where
  pub wsl2 : Bool
  pub enabled : Bool
  pub root : Bool
  pub libhsa : Text
  pub librocdxg : Text

-- The library that a mode needs, where it is not given.
unfoldable pub find_library : Host → DiscoveryMode → Options → Result Options
unfolding library_path
find_library h DiscoveryMode.kfd_uprobe o = elim (library_path o.libhsa_path h.libhsa) [
  | exit n ↦ exit n
  | go_on path ↦ go_on (record o { libhsa_path = path })
]
find_library h DiscoveryMode.bpftrace o = elim (library_path o.librocdxg_path h.librocdxg) [
  | exit n ↦ exit n
  | go_on path ↦ go_on (record o { librocdxg_path = path })
]
find_library h DiscoveryMode.kprobe o = go_on o

-- From the parsed options to the end of the program or to the mode and the options it goes on with.
unfoldable pub start_up : Host → Options → Result (DiscoveryMode × Options)
unfolding select_mode find_library reject
start_up h o = elim (select_mode h.wsl2 o.mode_str) [
  | exit n ↦ exit n
  | go_on mode ↦ elim (find_library h mode o) [
    | exit n ↦ exit n
    | go_on o' ↦ elim (reject h.enabled h.root o') [ some n ↦ exit n | none ↦ go_on (mode, o') ]
  ]
]

-- The default outputs.
unfoldable pub default_outputs : Options → Options
default_outputs o =
    let name : Text = elim o.fmt [
      | Format.json ↦ codes "hsa-snoop.json"
      | Format.perfetto ↦ codes "hsa-snoop.pftrace"
    ] in
    if o.all_mode && not o.prometheus_mode
    then (if is_empty o.out_dir then record o { out_dir = codes "/var/log/hsa-snoop" } else o)
    else if not o.prometheus_mode && is_empty o.out
    then record o { out = name }
    else o
