-- ===== src/Monitors/Devices.antt =====
-- The cache of src/ais_monitor.cpp: what it says of a descriptor of a process.
use native.Mathlib.Omega.{arith}
use hsa_snoop.Prelude.{
  Text, contains, ℕ, ◌≡◌, refl, sym, ap, ◌∙◌, ◌≢◌, inl, inr, true, ◌&&◌, none, some, List, [], ◌∷◌,
  arith, ltb, ◌==◌, if◌then◌else◌, Bool-cases, Option-cases,
}
use hsa_snoop.Model.{PcieDeviceInfo}
use hsa_snoop.Monitors.Resolve.{Sysfs, probe_device, Cache, cached, resolve_device}
use hsa_snoop.Monitors.Ais.{
  Fields, AisState, fields_of, thread_of, ais_deliver, ais_line, ais_lines,
}

resolve_device-some :
    (fs : Sysfs) (cache : Cache) (pid fd : ℕ) (info : PcieDeviceInfo)
    → cached pid fd cache ≡ some info
    → resolve_device fs cache pid fd ≡ (cache, info)
unfolding resolve_device
resolve_device-some fs cache pid fd info h = rw (resolve_device, h) refl

resolve_device-none :
    (fs : Sysfs) (cache : Cache) (pid fd : ℕ)
    → cached pid fd cache ≡ none
    → resolve_device fs cache pid fd
      ≡ (((pid, fd), probe_device fs pid fd) ∷ cache, probe_device fs pid fd)
unfolding resolve_device
resolve_device-none fs cache pid fd h = rw (resolve_device, h) refl

cached-cons :
    (pid fd p f : ℕ) (i : PcieDeviceInfo) (cache : Cache)
    → cached pid fd (((p, f), i) ∷ cache)
      ≡ (if (p == pid) && f == fd then some i else cached pid fd cache)
unfolding cached
cached-cons pid fd p f i cache = refl

cached-resolve_device :
    (fs : Sysfs) (cache : Cache) (pid fd : ℕ)
    → cached pid fd (resolve_device fs cache pid fd).0 ≡ some (resolve_device fs cache pid fd).1
cached-resolve_device fs cache pid fd = elim (Option-cases (cached pid fd cache)) [
  | inr (info, h) ↦
      let e = resolve_device-some fs cache pid fd info h in
      ap (λ r. cached pid fd r.0) e ∙ h ∙ sym (ap (λ r. some r.1) e)
  | inl h ↦
      let e = resolve_device-none fs cache pid fd h in
      let same : ((pid == pid) && fd == fd) ≡ true = ground arith in
      ap (λ r. cached pid fd r.0) e
      ∙ cached-cons pid fd pid fd (probe_device fs pid fd) cache
      ∙ rw same (sym (ap (λ r. some r.1) e))
]

none≢some : {i : PcieDeviceInfo} → none ≢ some i
none≢some = cc

-- An entry of the cache is not replaced by the answer for any descriptor.
resolve_device_keeps :
    (fs : Sysfs) (cache : Cache) (p f pid fd : ℕ) (info : PcieDeviceInfo)
    → cached pid fd cache ≡ some info
    → cached pid fd (resolve_device fs cache p f).0 ≡ some info
resolve_device_keeps fs cache p f pid fd info h = elim (Option-cases (cached p f cache)) [
  | inr (other, k) ↦ ap (λ r. cached pid fd r.0) (resolve_device-some fs cache p f other k) ∙ h
  | inl k ↦
      ap (λ r. cached pid fd r.0) (resolve_device-none fs cache p f k)
      ∙ cached-cons pid fd p f (probe_device fs p f) cache
      ∙ elim (Bool-cases ((p == pid) && f == fd)) [
        | inr apart ↦ rw apart h
        | inl same ↦
            let e : p ≡ pid = ground arith in
            let e' : f ≡ fd = ground arith in
            absurd (
              none≢some
                (sym k ∙ ap (λ x. cached x f cache) e ∙ ap (λ x. cached pid x cache) e' ∙ h))
      ]
]

ais_deliver_keeps :
    (fs : Sysfs) (now : ℕ) (s : AisState) (tid : ℕ) (comm : Text) (f : Fields) (pid fd : ℕ)
    (info : PcieDeviceInfo)
    → cached pid fd s.cache ≡ some info
    → cached pid fd (ais_deliver fs now s tid comm f).0.cache ≡ some info
unfolding ais_deliver
ais_deliver_keeps fs now s tid comm f pid fd info h = elim (Option-cases f.fd) [
  | inl k ↦ rw (ais_deliver, k) h
  | inr (d, k) ↦ elim (Bool-cases (ltb 0 tid)) [
    | inl real ↦ rw (ais_deliver, k, real) (resolve_device_keeps fs s.cache tid d pid fd info h)
    | inr idle ↦ rw (ais_deliver, k, idle) h
  ]
]

ais_line_keeps :
    (sscanf : Text → Fields) (probe : Text) (fs : Sysfs) (now : ℕ) (s : AisState) (line : Text)
    (pid fd : ℕ) (info : PcieDeviceInfo)
    → cached pid fd s.cache ≡ some info
    → cached pid fd (ais_line sscanf probe fs now s line).0.cache ≡ some info
unfolding ais_line
ais_line_keeps sscanf probe fs now s line pid fd info h = elim (Bool-cases (contains probe line)) [
  | inr other ↦ rw other h
  | inl ours ↦ elim (Option-cases (fields_of line)) [
    | inl k ↦ rw (ours, k) h
    | inr (fields, k) ↦ elim (Option-cases (thread_of line)) [
      | inl l ↦ rw (ours, k, l) h
      | inr ((tid, comm), l) ↦
          rw (ours, k, l) (ais_deliver_keeps fs now s tid comm (sscanf fields) pid fd info h)
    ]
  ]
]

ais_lines_keep :
    (sscanf : Text → Fields) (probe : Text) (lines : List (Sysfs × ℕ × Text)) (s : AisState)
    (pid fd : ℕ) (info : PcieDeviceInfo)
    → cached pid fd s.cache ≡ some info
    → cached pid fd (ais_lines sscanf probe s lines).0.cache ≡ some info
unfolding ais_lines
ais_lines_keep sscanf probe [] s pid fd info h = h
ais_lines_keep sscanf probe ((fs, now, line) ∷ more) s pid fd info h =
    ais_lines_keep sscanf probe more (ais_line sscanf probe fs now s line).0 pid fd info
      (ais_line_keeps sscanf probe fs now s line pid fd info h)

-- Once the device behind a descriptor of a process has been resolved, it is never looked up again:
-- after any further lines, and whatever the file system says then, the answer is the first one, also
-- where the process has closed the descriptor and opened another file under its number.
pub resolve_device_stays :
    (sscanf : Text → Fields) (probe : Text) (fs fs' : Sysfs) (s : AisState)
    (lines : List (Sysfs × ℕ × Text)) (pid fd : ℕ)
    → (resolve_device fs'
        (ais_lines sscanf probe
          (record s { cache = (resolve_device fs s.cache pid fd).0 })
          lines).0.cache
        pid
        fd).1
      ≡ (resolve_device fs s.cache pid fd).1
resolve_device_stays sscanf probe fs fs' s lines pid fd =
    let r = resolve_device fs s.cache pid fd in
    let s' = record s { cache = r.0 } in
    let h = cached-resolve_device fs s.cache pid fd in
    let k = ais_lines_keep sscanf probe lines s' pid fd r.1 h in
    ap (λ p. p.1) (resolve_device-some fs' (ais_lines sscanf probe s' lines).0.cache pid fd r.1 k)
