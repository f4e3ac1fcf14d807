-- ===== src/Monitors/Ais.antt =====
-- `ReadLoop` of src/ais_monitor.cpp, one line at a time. What `sscanf` makes of the fields is a parameter.
use hsa_snoop.Prelude.{
  drop, add64, Text, codes, pos, contains, after, before_text, split_last, trim_start, atoi, ℕ,
  true, Option, none, some, List, [], ◌∷◌, ◌++◌, ltb, ◌==◌, if◌then◌else◌, ◌>>=◌,
}
use hsa_snoop.Model.{AisOp, PcieDeviceInfo, AisRecord}
use hsa_snoop.Monitors.Resolve.{Sysfs, Cache, resolve_device}

-- The four conversions of "gpu_id=%u size_req=%lu op=%u fd=%d", with 0, 0, 0 and none for what fails;
-- a negative descriptor is none as well.
pub record Fields : Type 0 where
  pub gpu_id : ℕ
  pub size_req : ℕ
  pub op : ℕ
  pub fd : Option ℕ

unfoldable pub op_of : ℕ → AisOp
op_of n = if n == 1 then AisOp.read else if n == 2 then AisOp.write else AisOp.unknown

-- What stands behind the second ": ", and there behind the first ')' and one more character.
unfoldable pub fields_of : Text → Option Text
fields_of line = do
  rest ← after (codes ": ") line
  raw ← after (codes ": ") rest
  elim (after (41 ∷ []) raw) [ none ↦ some raw | some s ↦ some (drop 1 s) ]

-- The thread and the name in front of the first '['.
unfoldable pub thread_of : Text → Option (ℕ × Text)
thread_of line = do
  prefix ← before_text (91 ∷ []) line
  (comm, digits) ← split_last 45 prefix
  some (atoi digits, trim_start (λ c. c == 32) comm)

-- The loop's state: the number of the last record and the cache of the devices.
pub record AisState : Type 0 where
  pub seq : ℕ
  pub cache : Cache

unfoldable pub ais_record : ℕ → ℕ → Text → Fields → PcieDeviceInfo → Text → ℕ → AisRecord
unfolding op_of
ais_record seq tid comm f info pcie_id now = record {
  seq = seq;
  pid = tid;
  comm = comm;
  op = op_of f.op;
  gpu_id = f.gpu_id;
  pcie_id = pcie_id;
  pcie_info = info;
  size_req = f.size_req;
  size_copied = f.size_req;
  error = pos 0;
  submit_ts = now;
  complete_ts = now;
  completed = true;
}

abbrev pub no_info : PcieDeviceInfo
no_info = record {
  bdf = [];
  device_type = [];
  vendor = [];
  vendor_id = [];
  device_id = [];
  class_code = [];
}

-- The record of a line that could be taken apart.
unfoldable pub ais_deliver : Sysfs → ℕ → AisState → ℕ → Text → Fields → AisState × AisRecord
unfolding ais_record resolve_device
ais_deliver fs now s tid comm f =
    let seq = add64 s.seq 1 in
    let bare : AisState × AisRecord =
      (record { seq = seq; cache = s.cache }, ais_record seq tid comm f no_info [] now) in
    elim f.fd [
      | none ↦ bare
      | some fd ↦
          let (cache, info) = resolve_device fs s.cache tid fd in
          if ltb 0 tid
          then (record { seq = seq; cache = cache }, ais_record seq tid comm f info info.bdf now)
          else bare
    ]

-- One line: nothing for a line of another probe or without the parts that are looked for.
unfoldable pub ais_line :
    (Text → Fields) → Text → Sysfs → ℕ → AisState → Text → AisState × List AisRecord
unfolding fields_of thread_of ais_deliver
ais_line sscanf probe fs now s line =
    if contains probe line
    then elim (fields_of line) [
      | none ↦ (s, [])
      | some fields ↦ elim (thread_of line) [
        | none ↦ (s, [])
        | some (tid, comm) ↦
            let (s', r) = ais_deliver fs now s tid comm (sscanf fields) in (s', r ∷ [])
      ]
    ]
    else (s, [])

-- Lines in order, each with the clock and the file system of its time.
unfoldable pub ais_lines :
    (Text → Fields) → Text → AisState → List (Sysfs × ℕ × Text) → AisState × List AisRecord
unfolding ais_line
ais_lines sscanf probe s [] = (s, [])
ais_lines sscanf probe s ((fs, now, line) ∷ more) =
    let (s', out) = ais_line sscanf probe fs now s line in
    let (s'', rest) = ais_lines sscanf probe s' more in (s'', out ++ rest)
