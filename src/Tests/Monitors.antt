-- ===== src/Tests/Monitors.antt =====
-- A device that is found in sysfs.
use hsa_snoop.Prelude.{
  text_eq, Text, codes, starts, from_first_not, ◌≡◌, refl, true, none, some, [], ◌∷◌, map,
  if◌then◌else◌,
}
use hsa_snoop.Monitors.Pcie.{
  classify_by_class_code, classify_by_vendor_id, vendor_line, load_vendors, vendor_in, vendor_name,
  device_type_of,
}
use hsa_snoop.Monitors.Resolve.{Sysfs, resolve_device}
use hsa_snoop.Monitors.Ais.{Fields, AisState, ais_lines}
use hsa_snoop.Monitors.Devices.{resolve_device_stays}
use hsa_snoop.Monitors.Xnack.{Sscanf, xnack_event, xnack_line, xnack_lines}
use hsa_snoop.Exporter.Platform.{
  trim_end, skip_blanks, gfx_line, first_gfx, type_from_rocminfo, detect_gpu_type,
}

-- Descriptor 3 of every process is on a device below an Ethernet function of vendor 15b3.
abbrev sysfs : Text → Sysfs
sysfs class_code = record {
  fd_device = λ pid fd. some (codes "8:0");
  realpath = λ path. some (codes "/sys/devices/0000:01:00.0");
  first_line = λ path.
      if text_eq path (codes "/sys/devices/0000:01:00.0/class")
      then some class_code
      else some (codes "0x15B3");
  pci_ids = none ∷ some (codes "15b3  Mellanox" ∷ []) ∷ [];
}

abbrev no_fields : Text → Fields
no_fields text = record { gpu_id = 0; size_req = 4096; op = 1; fd = some 3 }

abbrev start : AisState
start = record { seq = 0; cache = [] }

abbrev transfer : Text
transfer = codes "app-42 [000] 1.0: hsasnoop_ais: (kfd+0x0) gpu_id=1 size_req=4096 op=1 fd=3"

resolve_device_stays_example :
    (resolve_device
      (sysfs (codes "0x010802"))
      (ais_lines no_fields
        (codes "hsasnoop_ais")
        (record start { cache = (resolve_device (sysfs (codes "0x020000")) start.cache 42 3).0 })
        ((sysfs (codes "0x010802"), 5, transfer) ∷ [])).0.cache
      42
      3).1
    ≡ (resolve_device (sysfs (codes "0x020000")) start.cache 42 3).1
resolve_device_stays_example =
    resolve_device_stays no_fields (codes "hsasnoop_ais") (sysfs (codes "0x020000"))
      (sysfs (codes "0x010802")) start ((sysfs (codes "0x010802"), 5, transfer) ∷ []) 42 3

-- The class of a device decides before its vendor.
ethernet : device_type_of (codes "020000") (codes "15b3") ≡ codes "eth"
unfolding device_type_of classify_by_class_code classify_by_vendor_id text_eq
ethernet = refl

vendor :
    vendor_name (none ∷ some (codes "15b3  Mellanox" ∷ []) ∷ []) (codes "15b3") ≡ codes "Mellanox"
unfolding vendor_name load_vendors vendor_in vendor_line from_first_not text_eq
vendor = refl

-- A line that does not parse takes a number.
abbrev gap_parser : Sscanf
gap_parser line = if text_eq line (codes "XNACK bad") then none else some (1, codes "kworker", 7)

gap :
    map
      (λ r. r.seq)
      (xnack_lines gap_parser
        (record { ready = true; seq = 0 })
        ((1, codes "XNACK bad") ∷ (2, codes "XNACK good") ∷ [])).1
    ≡ 2 ∷ []
unfolding xnack_lines xnack_line xnack_event starts text_eq
gap = refl

-- The type of a GPU without a KFD topology.
rocm_type :
    detect_gpu_type none (some (codes "  Name:  AMD Ryzen" ∷ codes "  Name:    gfx1151 " ∷ [])) 7
    ≡ codes "gfx1151"
unfolding detect_gpu_type type_from_rocminfo first_gfx gfx_line skip_blanks trim_end starts text_eq
rocm_type = refl
