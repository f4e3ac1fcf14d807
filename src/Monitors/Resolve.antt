-- ===== src/Monitors/Resolve.antt =====
-- `ResolvePcieDeviceInfo` of src/ais_monitor.cpp. The answers of the file system are parameters.
use hsa_snoop.Prelude.{
  length, elem, Text, codes, split_last, ℕ, zero, suc, ◌+◌, Bool, ◌&&◌, Option, none, some, List,
  [], ◌∷◌, ◌++◌, ltb, ◌==◌, if◌then◌else◌, ◌>>=◌,
}
use hsa_snoop.Model.{PcieDeviceInfo}
use hsa_snoop.Monitors.Pcie.{read_sysfs_str, vendor_name, device_type_of}

-- The file system at one time: stat() of /proc/<pid>/fd/<fd> and the device it gives as the text
-- "major:minor", `none` for its error; realpath(); the first line of a file; and the lines of pci.ids
-- at its three places.
pub record Sysfs : Type 0 where
  pub fd_device : ℕ → ℕ → Option Text
  pub realpath : Text → Option Text
  pub first_line : Text → Option Text
  pub pci_ids : List (Option (List Text))

abbrev pub count_char : ℕ → Text → ℕ
count_char k [] = 0
count_char k (c ∷ s) = (if c == k then 1 else 0) + count_char k s

-- "DDDD:BB:SS.F".
unfoldable pub is_bdf : Text → Bool
is_bdf name = ltb 8 (length name) && ((count_char 58 name == 2) && elem 46 name)

-- The walk up from a path, at most `depth` steps: the device's address and its directory.
unfoldable pub walk_up : (Text → Option Text) → ℕ → Text → Option (Text × Text)
unfolding is_bdf
walk_up realpath zero dev = none
walk_up realpath (suc depth) dev = do
  real ← realpath dev
  (dir, name) ← split_last 47 real
  let up = walk_up realpath depth (real ++ codes "/..") in
      if is_bdf name then some (name, real) else up

abbrev pub unknown_info : Text → PcieDeviceInfo
unknown_info bdf = record {
  bdf = bdf;
  device_type = codes "unknown";
  vendor = codes "unknown";
  vendor_id = [];
  device_id = [];
  class_code = [];
}

-- The device of an address and a directory.
unfoldable pub device_info : Sysfs → Text → Text → PcieDeviceInfo
unfolding read_sysfs_str vendor_name device_type_of
device_info fs bdf dir =
    let vendor_id = read_sysfs_str (fs.first_line (dir ++ codes "/vendor")) in
    let class_code = read_sysfs_str (fs.first_line (dir ++ codes "/class")) in
    record {
      bdf = bdf;
      device_type = device_type_of class_code vendor_id;
      vendor = vendor_name fs.pci_ids vendor_id;
      vendor_id = vendor_id;
      device_id = read_sysfs_str (fs.first_line (dir ++ codes "/device"));
      class_code = class_code;
    }

-- The device without the cache.
unfoldable pub probe_device : Sysfs → ℕ → ℕ → PcieDeviceInfo
unfolding walk_up device_info
probe_device fs pid fd = elim (fs.fd_device pid fd) [
  | none ↦ unknown_info []
  | some dev ↦ elim (walk_up fs.realpath 8 (codes "/sys/dev/block/" ++ (dev ++ codes "/device"))) [
    | none ↦ unknown_info (codes "unknown")
    | some (bdf, dir) ↦ device_info fs bdf dir
  ]
]

-- The cache, whose key "pid:fd" is the pair of numbers.
abbrev pub Cache : Type 0
Cache = List ((ℕ × ℕ) × PcieDeviceInfo)

unfoldable pub cached : ℕ → ℕ → Cache → Option PcieDeviceInfo
cached pid fd [] = none
cached pid fd (((p, f), info) ∷ more) =
    let later = cached pid fd more in if (p == pid) && f == fd then some info else later

unfoldable pub resolve_device : Sysfs → Cache → ℕ → ℕ → Cache × PcieDeviceInfo
unfolding cached probe_device
resolve_device fs cache pid fd =
    let info = probe_device fs pid fd in
    elim (cached pid fd cache) [
      | some known ↦ (cache, known)
      | none ↦ (((pid, fd), info) ∷ cache, info)
    ]
