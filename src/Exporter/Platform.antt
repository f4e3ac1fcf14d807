-- ===== src/Exporter/Platform.antt =====
-- The platform and the types of GPUs of src/prometheus_exporter.cpp. Files, the KFD topology and the
-- output of rocminfo are parameters.
use hsa_snoop.Prelude.{
  get_or, text_eq, Text, codes, contains, is_some, is_space_or_tab, starts, ℕ, Bool, false, ◌&&◌,
  ◌||◌, Option, none, some, List, [], ◌∷◌, map, ◌==◌, if◌then◌else◌,
}
use hsa_snoop.Monitors.Pcie.{to_lower}

-- Of the first line of /proc/version, `none` if it cannot be opened.
unfoldable pub detect_platform : Option Text → Text
detect_platform none = codes "linux"
detect_platform (some line) =
    if contains (codes "microsoft") (map to_lower line) then codes "wsl2" else codes "linux"

-- The text without the blanks and line ends behind its last other character.
unfoldable pub trim_end : Text → Text
trim_end [] = []
trim_end (c ∷ s) =
    let rest = trim_end s in
    if ((c == 10) || (c == 13) || c == 32) && text_eq rest [] then [] else c ∷ rest

-- Without the blanks and tabs in front.
unfoldable pub skip_blanks : Text → Text
skip_blanks [] = []
skip_blanks (c ∷ s) = let rest = skip_blanks s in if is_space_or_tab c then rest else c ∷ s

-- The target that a line of rocminfo names.
unfoldable pub gfx_line : Text → Option Text
unfolding trim_end skip_blanks
gfx_line line = elim (starts (codes "Name:") (skip_blanks line)) [
  | none ↦ none
  | some rest ↦
      if is_some (starts (codes "gfx") (skip_blanks rest))
      then some (trim_end (skip_blanks rest))
      else none
]

unfoldable pub first_gfx : List Text → Text
unfolding gfx_line
first_gfx [] = codes "unknown"
first_gfx (line ∷ more) =
    let later = first_gfx more in elim (gfx_line line) [ none ↦ later | some t ↦ t ]

-- The lines of rocminfo as `fgets` cuts them, `none` if it does not start.
unfoldable pub type_from_rocminfo : Option (List Text) → Text
unfolding first_gfx
type_from_rocminfo none = codes "unknown"
type_from_rocminfo (some lines) = first_gfx lines

-- A node of the topology: its directory's name, the number in its `gpu_id`, 0 if it holds none and
-- `none` if it cannot be opened, and the first line of its `name`.
pub record GpuNode : Type 0 where
  pub entry : Text
  pub gpu_id : Option ℕ
  pub name : Option Text

unfoldable pub is_gpu_node : ℕ → GpuNode → Bool
is_gpu_node gpu_id node =
    let same : Bool = elim node.gpu_id [ none ↦ false | some g ↦ g == gpu_id ] in
    if get_or node.entry 0 0 == 46 then false else same

-- The name of the GPU's first node; `none` goes on to rocminfo.
unfoldable pub node_name : ℕ → List GpuNode → Option Text
unfolding is_gpu_node
node_name gpu_id [] = none
node_name gpu_id (node ∷ more) =
    let later = node_name gpu_id more in if is_gpu_node gpu_id node then node.name else later

abbrev pub named : Text → Text
named [] = codes "unknown"
named (c ∷ s) = c ∷ s

unfoldable pub detect_gpu_type : Option (List GpuNode) → Option (List Text) → ℕ → Text
unfolding node_name type_from_rocminfo
detect_gpu_type none rocminfo gpu_id = type_from_rocminfo rocminfo
detect_gpu_type (some nodes) rocminfo gpu_id = elim (node_name gpu_id nodes) [
  | none ↦ type_from_rocminfo rocminfo
  | some name ↦ named name
]
