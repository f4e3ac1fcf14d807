-- ===== src/Monitors/Pcie.antt =====
-- The classification of PCIe devices of src/ais_monitor.cpp.
use hsa_snoop.Prelude.{
  length, take, drop, text_eq, Text, codes, is_space_or_tab, digit_value, from_first_not, ℕ, ◌+◌,
  Bool, true, not, ◌&&◌, ◌||◌, Option, none, some, List, [], ◌∷◌, map, ltb, leb, ◌==◌,
  if◌then◌else◌,
}

abbrev pub to_lower : ℕ → ℕ
to_lower c = if leb 65 c && leb c 90 then c + 32 else c

-- Without a leading "0x" or "0X" of a text longer than 2.
unfoldable pub strip_0x : Text → Text
strip_0x [] = []
strip_0x (a ∷ []) = a ∷ []
strip_0x (a ∷ b ∷ []) = a ∷ b ∷ []
strip_0x (a ∷ b ∷ c ∷ s) = if (a == 48) && ((b == 120) || b == 88) then c ∷ s else a ∷ b ∷ c ∷ s

-- Of the first line of the file, `none` if it cannot be opened.
unfoldable pub read_sysfs_str : Option Text → Text
unfolding strip_0x
read_sysfs_str none = []
read_sysfs_str (some line) = map to_lower (strip_0x line)

unfoldable pub classify_by_class_code : Text → Text
classify_by_class_code cls =
    let base = take 4 cls in
    if ltb (length cls) 6
    then []
    else if text_eq base (codes "0108")
    then codes "nvme"
    else if text_eq base (codes "0107")
    then codes "sas"
    else if text_eq base (codes "0106")
    then codes "sata"
    else if text_eq base (codes "0104")
    then codes "raid"
    else if text_eq base (codes "0c06")
    then codes "rdma"
    else if text_eq base (codes "0c07")
    then codes "rdma"
    else if text_eq base (codes "0200")
    then codes "eth"
    else if text_eq base (codes "0207")
    then codes "rdma"
    else []

unfoldable pub classify_by_vendor_id : Text → Text
classify_by_vendor_id vid =
    if text_eq vid (codes "15b3")
    then codes "rdma"
    else if text_eq vid (codes "1425")
    then codes "rdma"
    else if text_eq vid (codes "8086")
    then []
    else if text_eq vid (codes "14e4")
    then []
    else if text_eq vid (codes "1d0f")
    then codes "rdma"
    else if text_eq vid (codes "0x1dd8") || text_eq vid (codes "1dd8")
    then codes "rdma"
    else if text_eq vid (codes "1077")
    then codes "rdma"
    else if text_eq vid (codes "10ee") || text_eq vid (codes "1924")
    then codes "rdma"
    else []

abbrev pub is_xdigit : ℕ → Bool
is_xdigit c = ltb (digit_value c) 16

abbrev pub all_chars : (ℕ → Bool) → Text → Bool
all_chars p [] = true
all_chars p (c ∷ s) = p c && all_chars p s

-- The vendor and its name of a line of pci.ids, `none` for a line that is passed over.
unfoldable pub vendor_line : Text → Option (Text × Text)
vendor_line [] = none
vendor_line (c ∷ s) =
    let line = c ∷ s in
    let key = take 4 line in
    let name = from_first_not is_space_or_tab (drop 4 line) in
    if (c == 35) || c == 9
    then none
    else if ltb (length line) 6
    then none
    else if all_chars is_xdigit key
    then elim name [ none ↦ none | some n ↦ some (key, n) ]
    else none

-- The first of the files that opens is read, and later lines replace earlier ones: the name of the
-- last line of a vendor.
unfoldable pub load_vendors : List (Option (List Text)) → List Text
load_vendors [] = []
load_vendors (none ∷ more) = load_vendors more
load_vendors (some lines ∷ more) = lines

unfoldable pub vendor_in : Text → List Text → Text → Text
unfolding vendor_line
vendor_in vid [] found = found
vendor_in vid (line ∷ more) found = elim (vendor_line line) [
  | none ↦ vendor_in vid more found
  | some (key, name) ↦ vendor_in vid more (if text_eq key vid then name else found)
]

-- The name of a vendor; `files` are the lines of pci.ids at its three places.
unfoldable pub vendor_name : List (Option (List Text)) → Text → Text
unfolding load_vendors vendor_in
vendor_name files vid = vendor_in vid (load_vendors files) (codes "unknown")

-- The class decides, and the vendor only where the class says nothing.
unfoldable pub device_type_of : Text → Text → Text
unfolding classify_by_class_code classify_by_vendor_id
device_type_of class_code vendor_id =
    let by_class = classify_by_class_code class_code in
    let by_vendor = classify_by_vendor_id vendor_id in
    if not (text_eq by_class [])
    then by_class
    else if not (text_eq by_vendor [])
    then by_vendor
    else codes "unknown"
