-- ===== src/Sdma/Topology.antt =====
-- `DetectVersion` of src/sdma.cpp: the SDMA version of a GPU from the KFD topology in sysfs.
use hsa_snoop.Prelude.{
  get_or, text_eq, to_u32, Text, codes, ℕ, Bool, false, Option, none, some, List, [], ◌∷◌, ◌==◌,
  if◌then◌else◌,
}
use hsa_snoop.Sdma.Defs.{Version, version_from_gfx_target}

-- One entry of the topology directory: its name, the number in its `gpu_id` if it holds one, and the
-- pairs of a key and a number at the front of its `properties`.
pub record Node : Type 0 where
  pub name : Text
  pub gpu_id : Option ℕ
  pub properties : List (Text × ℕ)

-- Whether an entry is the GPU's; one whose name begins with '.' is passed over.
unfoldable pub is_node_of : ℕ → Node → Bool
is_node_of gpu_id node =
    let same : Bool = elim node.gpu_id [ none ↦ false | some g ↦ g == gpu_id ] in
    if get_or node.name 0 0 == 46 then false else same

unfoldable pub gfx_version : List (Text × ℕ) → Version
unfolding version_from_gfx_target
gfx_version [] = Version.unknown
gfx_version ((key, value) ∷ more) =
    let later = gfx_version more in
    if text_eq key (codes "gfx_target_version")
    then version_from_gfx_target (to_u32 value)
    else later

-- The first entry of the GPU decides, also where it has no version.
unfoldable pub find_version : ℕ → List Node → Version
unfolding is_node_of gfx_version
find_version gpu_id [] = Version.unknown
find_version gpu_id (node ∷ more) =
    let later = find_version gpu_id more in
    if is_node_of gpu_id node then gfx_version node.properties else later

-- The directory's entries, `none` if it cannot be opened.
unfoldable pub detect_version : ℕ → Option (List Node) → Version
unfolding find_version
detect_version gpu_id none = Version.unknown
detect_version gpu_id (some nodes) = find_version gpu_id nodes
