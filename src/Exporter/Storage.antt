-- ===== src/Exporter/Storage.antt =====
-- `Add` of src/prometheus_exporter.cpp for storage transfers, page faults and memory footprints.
-- `gpu_type` is `DetectGpuType`.
use hsa_snoop.Prelude.{
  to_dec, to_int_dec, text_eq, mul64, Text, codes, ℕ, Bool, true, false, not, ◌&&◌, List, [], ◌∷◌,
  ◌++◌, ltb, if◌then◌else◌,
}
use hsa_snoop.Model.{AisOp, XnackRecord, AisRecord, MemRecord, latency, is_error}
use hsa_snoop.Exporter.Metrics.{Family, Op, Call, Labels, call, gpu_labels}

unfoldable pub or_unknown : Text → Text
or_unknown [] = codes "unknown"
or_unknown (c ∷ s) = c ∷ s

-- The labels that all families of transfers share.
unfoldable pub device_labels : Text → AisRecord → Labels
unfolding or_unknown
device_labels gpu_type r =
    gpu_labels r.gpu_id gpu_type
    ++ ((codes "pcie_id", or_unknown r.pcie_id)
        ∷ (codes "device_type", or_unknown r.pcie_info.device_type)
        ∷ (codes "vendor", or_unknown r.pcie_info.vendor)
        ∷ [])

unfoldable pub pcie_info_calls : AisRecord → List Call
unfolding or_unknown
pcie_info_calls r =
    if text_eq (or_unknown r.pcie_id) (codes "unknown")
    then []
    else call Family.ais_pcie_info
        ((codes "pcie_id", or_unknown r.pcie_id)
          ∷ (codes "device_type", or_unknown r.pcie_info.device_type)
          ∷ (codes "vendor", or_unknown r.pcie_info.vendor)
          ∷ (codes "vendor_id", or_unknown r.pcie_info.vendor_id)
          ∷ (codes "device_id", or_unknown r.pcie_info.device_id)
          ∷ (codes "class_code", or_unknown r.pcie_info.class_code)
          ∷ [])
        (Op.set 1)
      ∷ []

-- The family of reads or of all other transfers.
unfoldable pub is_read : AisRecord → Bool
is_read r = elim r.op [ AisOp.read ↦ true | _ ↦ false ]

abbrev pub either {ℓ} : {A : Type ℓ} → Bool → A → A → A
either b rx tx = if b then rx else tx

-- The number of operations, and the bytes of those that succeed.
unfoldable pub transfer_calls : Text → AisRecord → List Call
unfolding is_read device_labels is_error
transfer_calls gpu_type r =
    let labels = device_labels gpu_type r in
    call (either (is_read r) Family.ais_rx_ops Family.ais_tx_ops)
      (labels ++ ((codes "pid", to_dec r.pid) ∷ (codes "comm", r.comm) ∷ [])) (Op.increment 1)
    ∷ (if not (is_error r) && ltb 0 r.size_copied
        then call (either (is_read r) Family.ais_rx_bytes Family.ais_tx_bytes) labels
            (Op.increment r.size_copied)
          ∷ []
        else [])

unfoldable pub error_calls : Text → AisRecord → List Call
unfolding is_read device_labels is_error
error_calls gpu_type r =
    if is_error r
    then call (either (is_read r) Family.ais_rx_errors Family.ais_tx_errors)
        (device_labels gpu_type r ++ ((codes "errno", to_int_dec r.error) ∷ [])) (Op.increment 1)
      ∷ []
    else []

-- The histograms of the latency and of the size.
unfoldable pub histogram_calls : Text → AisRecord → List Call
unfolding is_read device_labels latency
histogram_calls gpu_type r =
    let labels = device_labels gpu_type r in
    (if r.completed
      then call (either (is_read r) Family.ais_rx_latency Family.ais_tx_latency) labels
          (Op.observe (latency r))
        ∷ []
      else [])
    ++ (if ltb 0 r.size_req
        then call (either (is_read r) Family.ais_rx_io_size Family.ais_tx_io_size) labels
            (Op.observe r.size_req)
          ∷ []
        else [])

unfoldable pub export_ais : (ℕ → Text) → AisRecord → List Call
unfolding pcie_info_calls transfer_calls error_calls histogram_calls
export_ais gpu_type r =
    let t = gpu_type r.gpu_id in
    call Family.ais_active [] (Op.set 1)
    ∷ (pcie_info_calls r ++ (transfer_calls t r ++ (error_calls t r ++ histogram_calls t r)))

unfoldable pub export_xnack : XnackRecord → List Call
export_xnack r =
    call Family.xnack_total ((codes "pasid", to_dec r.pasid) ∷ (codes "comm", r.comm) ∷ [])
      (Op.increment 1)
    ∷ []

unfoldable pub export_mem : (ℕ → Text) → MemRecord → List Call
export_mem gpu_type r =
    let labels = (codes "kernel_name", r.kernel_name) ∷ gpu_labels r.gpu_id (gpu_type r.gpu_id) in
    call Family.mem_lds labels (Op.set r.group_seg_bytes)
    ∷ call Family.mem_scratch labels (Op.set (mul64 r.private_seg_bytes r.grid_size))
    ∷ (if r.footprint_valid
        then call Family.mem_mapped_vram labels (Op.set r.mapped_vram_bytes)
          ∷ call Family.mem_mapped_vram_total labels (Op.increment r.mapped_vram_bytes)
          ∷ []
        else [])
