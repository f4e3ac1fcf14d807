-- ===== src/DispatchLog/Lines.antt =====
-- The lines of src/dispatch_log.cpp. What `gmtime_r` and `strftime` make of whole seconds since the
-- epoch is a parameter, and `offset` is `mono_to_unix_offset_` in nanoseconds.
use hsa_snoop.Prelude.{
  to_dec, to_hex, Text, codes, ℕ, zero, suc, ◌+◌, ◌-◌, ◌/◌, ◌%◌, ◌^◌, Bool, ◌&&◌, [], ◌∷◌, ◌++◌,
  ltb, ◌==◌, if◌then◌else◌,
}
use hsa_snoop.Model.{QueueInfo, Dim3, PacketRecord, SdmaRecord, copy_dir_name, is_copy}
use hsa_snoop.DispatchLog.Escape.{append_escaped}

-- `out->back()`.
abbrev pub back : Text → ℕ
back [] = 0
back (b ∷ []) = b
back (b ∷ c ∷ s) = back (c ∷ s)

unfoldable pub append_key : Text → Text → Text
unfolding append_escaped
append_key out key =
    append_escaped (if back out == 123 then out else out ++ (44 ∷ [])) key ++ (58 ∷ [])

unfoldable pub append_str : Text → Text → Text → Text
unfolding append_key
append_str out key val = append_escaped (append_key out key) val

unfoldable pub append_num : Text → Text → ℕ → Text
unfolding append_key
append_num out key val = append_key out key ++ to_dec val

-- The digits of `n` below `10 ^ w`, with leading zeros.
unfoldable pub padded_dec : ℕ → ℕ → Text
padded_dec zero n = []
padded_dec (suc w) n = (48 + n / 10 ^ w % 10) ∷ padded_dec w n

-- The one use of `AppendFixed`: microseconds with three decimals, from nanoseconds.
unfoldable pub append_fixed : Text → Text → ℕ → Text
unfolding append_key padded_dec
append_fixed out key ns =
    append_key out key ++ (to_dec (ns / 1000) ++ (46 ∷ padded_dec 3 (ns % 1000)))

unfoldable pub append_timestamp : (ℕ → Text) → Text → ℕ → Text
unfolding append_key padded_dec
append_timestamp strftime out unix_ns =
    append_escaped (append_key out (codes "ts"))
      (strftime (unix_ns / 10 ^ 9) ++ (46 ∷ (padded_dec 6 (unix_ns % 10 ^ 9 / 1000) ++ (90 ∷ []))))

-- `Ctx`.
pub record Ctx : Type 0 where
  pub gpu_id : ℕ
  pub pid : ℕ
  pub comm : Text

-- "0x%lx".
abbrev pub hex_text : ℕ → Text
hex_text n = 48 ∷ 120 ∷ to_hex n

abbrev pub mono_to_unix : ℕ → ℕ → ℕ
mono_to_unix offset mono = mono + offset

-- `WriteLine`: what is written for a line.
abbrev pub write_line : Text → Text
write_line s = s ++ (10 ∷ [])

-- The line of `LogQueue` before its line end.
unfoldable pub queue_line : (ℕ → Text) → ℕ → QueueInfo → Text → Text
unfolding append_timestamp append_str append_num
queue_line strftime offset q kind =
    let o1 = append_timestamp strftime (123 ∷ []) (mono_to_unix offset q.create_ts) in
    let o2 = append_str o1 (codes "ev") (codes "queue") in
    let o3 = append_str o2 (codes "kind") kind in
    let o4 = append_num o3 (codes "gpu_id") q.gpu_id in
    let o5 = append_num o4 (codes "pid") q.pid in
    let o6 = append_str o5 (codes "comm") q.comm in
    let o7 = append_num o6 (codes "queue_uid") q.uid in
    let o8 = append_num o7 (codes "qtype") q.qtype in
    let o9 = append_num o8 (codes "ring_size") q.ring_size in
    let o10 = append_str o9 (codes "ring_va") (hex_text q.ring_base) in
    let o11 = append_str o10 (codes "ring_phys") (hex_text q.ring_phys) in o11 ++ (125 ∷ [])

-- The bracketed list of an array of three.
unfoldable pub dims_text : Dim3 → Text
dims_text d = 91 ∷ (to_dec d.x ++ (44 ∷ (to_dec d.y ++ (44 ∷ (to_dec d.z ++ (93 ∷ []))))))

-- The member "dur_us", which only a packet has that is retired after it was submitted.
unfoldable pub append_duration : Text → Bool → ℕ → ℕ → Text
unfolding append_fixed
append_duration out completed submit_ts complete_ts =
    if completed && ltb submit_ts complete_ts
    then append_fixed out (codes "dur_us") (complete_ts - submit_ts)
    else out

unfoldable pub dispatch_line : (ℕ → Text) → ℕ → PacketRecord → Ctx → Text
unfolding append_timestamp append_str append_num dims_text append_duration
dispatch_line strftime offset r c =
    let o1 = append_timestamp strftime (123 ∷ []) (mono_to_unix offset r.submit_ts) in
    let o2 = append_str o1 (codes "ev") (codes "dispatch") in
    let o3 = append_num o2 (codes "gpu_id") c.gpu_id in
    let o4 = append_num o3 (codes "pid") c.pid in
    let o5 = append_str o4 (codes "comm") c.comm in
    let o6 = append_num o5 (codes "queue_uid") r.queue_uid in
    let o7 = append_num o6 (codes "dispatch_id") r.dispatch_id in
    let o8 = append_str o7 (codes "kernel") r.kernel_name in
    let o9 = append_key o8 (codes "grid") ++ dims_text r.grid in
    let o10 = append_key o9 (codes "wg") ++ dims_text r.wg in
    let o11 = append_num o10 (codes "lds") r.group_seg in
    let o12 = append_num o11 (codes "scratch") r.private_seg in
    append_duration o12 r.completed r.submit_ts r.complete_ts ++ (125 ∷ [])

unfoldable pub append_copy : Text → SdmaRecord → Text
unfolding append_str append_num
append_copy out r =
    if is_copy r
    then append_num (append_str out (codes "dir") (copy_dir_name r.dir)) (codes "bytes") r.bytes
    else out

unfoldable pub sdma_line : (ℕ → Text) → ℕ → SdmaRecord → Ctx → Text
unfolding append_timestamp append_str append_num append_copy append_duration
sdma_line strftime offset r c =
    let o1 = append_timestamp strftime (123 ∷ []) (mono_to_unix offset r.submit_ts) in
    let o2 = append_str o1 (codes "ev") (codes "sdma") in
    let o3 = append_num o2 (codes "gpu_id") c.gpu_id in
    let o4 = append_num o3 (codes "pid") c.pid in
    let o5 = append_str o4 (codes "comm") c.comm in
    let o6 = append_num o5 (codes "queue_uid") r.queue_uid in
    let o7 = append_num o6 (codes "seq") r.seq in
    let o8 = append_str o7 (codes "op") r.op_name in
    append_duration (append_copy o8 r) r.completed r.submit_ts r.complete_ts ++ (125 ∷ [])

unfoldable pub log_queue : (ℕ → Text) → ℕ → QueueInfo → Text → Text
unfolding queue_line
log_queue strftime offset q kind = write_line (queue_line strftime offset q kind)

unfoldable pub log_dispatch : (ℕ → Text) → ℕ → PacketRecord → Ctx → Text
unfolding dispatch_line
log_dispatch strftime offset r c = write_line (dispatch_line strftime offset r c)

unfoldable pub log_sdma : (ℕ → Text) → ℕ → SdmaRecord → Ctx → Text
unfolding sdma_line
log_sdma strftime offset r c = write_line (sdma_line strftime offset r c)
