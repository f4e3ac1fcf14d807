-- ===== src/Model.antt =====
-- src/model.h: the records that the components hand to one another. A time is a whole number of
-- nanoseconds of CLOCK_MONOTONIC_RAW, where the source has seconds as a double.
use hsa_snoop.Prelude.{
  Text, codes, ℤ, pos, negsuc, ℕ, ◌-◌, ◌/◌, Bool, true, not, ◌||◌, ◌==◌, if◌then◌else◌,
}
use hsa_snoop.Sdma.Defs.{Version, op_copy}
use hsa_snoop.Aql.Packet.{PacketType, packet_size}

pub record QueueInfo : Type 0 where
  pub pid : ℕ
  pub comm : Text
  pub ring_base : ℕ
  pub wptr_addr : ℕ
  pub rptr_addr : ℕ
  pub ring_size : ℕ
  pub gpu_id : ℕ
  pub qtype : ℕ
  pub sdma_version : Version
  pub create_ts : ℕ
  pub ring_phys : ℕ
  pub uid : ℕ

unfoldable pub num_slots : QueueInfo → ℕ
num_slots q = if q.ring_size == 0 then 0 else q.ring_size / packet_size

unfoldable pub num_dwords : QueueInfo → ℕ
num_dwords q = q.ring_size / 4

unfoldable pub is_aql : QueueInfo → Bool
is_aql q = (q.qtype == 2) || q.qtype == 21

unfoldable pub is_sdma : QueueInfo → Bool
is_sdma q = (q.qtype == 1) || ((q.qtype == 3) || q.qtype == 4)

unfoldable pub is_traced : QueueInfo → Bool
unfolding is_aql is_sdma
is_traced q = is_aql q || is_sdma q

-- An array of three numbers.
pub record Dim3 : Type 0 where
  pub x : ℕ
  pub y : ℕ
  pub z : ℕ

pub record PacketRecord : Type 0 where
  pub queue_uid : ℕ
  pub dispatch_id : ℕ
  pub type : PacketType
  pub barrier : Bool
  pub kernel_object : ℕ
  pub kernel_name : Text
  pub grid : Dim3
  pub wg : Dim3
  pub private_seg : ℕ
  pub group_seg : ℕ
  pub completion_signal : ℕ
  pub kernarg_address : ℕ
  pub submit_ts : ℕ
  pub complete_ts : ℕ
  pub completed : Bool

pub data CopyDir : Type 0 where
  unknown host_to_device device_to_host device_to_device host_to_host : CopyDir

unfoldable pub copy_dir_name : CopyDir → Text
copy_dir_name CopyDir.host_to_device = codes "h2d"
copy_dir_name CopyDir.device_to_host = codes "d2h"
copy_dir_name CopyDir.device_to_device = codes "d2d"
copy_dir_name CopyDir.host_to_host = codes "h2h"
copy_dir_name CopyDir.unknown = codes "unknown"

pub record SdmaRecord : Type 0 where
  pub queue_uid : ℕ
  pub seq : ℕ
  pub opcode : ℕ
  pub sub_opcode : ℕ
  pub sdma_version : Version
  pub op_name : Text
  pub bytes : ℕ
  pub src_addr : ℕ
  pub dst_addr : ℕ
  pub dir : CopyDir
  pub submit_ts : ℕ
  pub complete_ts : ℕ
  pub completed : Bool

unfoldable pub is_copy : SdmaRecord → Bool
is_copy r = r.opcode == op_copy

pub data AisOp : Type 0 where
  unknown read write : AisOp

unfoldable pub ais_op_name : AisOp → Text
ais_op_name AisOp.read = codes "read"
ais_op_name AisOp.write = codes "write"
ais_op_name AisOp.unknown = codes "unknown"

pub record PcieDeviceInfo : Type 0 where
  pub bdf : Text
  pub device_type : Text
  pub vendor : Text
  pub vendor_id : Text
  pub device_id : Text
  pub class_code : Text

pub record XnackRecord : Type 0 where
  pub seq : ℕ
  pub pasid : ℕ
  pub pid : ℕ
  pub comm : Text
  pub timestamp : ℕ

pub record AisRecord : Type 0 where
  pub seq : ℕ
  pub pid : ℕ
  pub comm : Text
  pub op : AisOp
  pub gpu_id : ℕ
  pub pcie_id : Text
  pub pcie_info : PcieDeviceInfo
  pub size_req : ℕ
  pub size_copied : ℕ
  pub error : ℤ
  pub submit_ts : ℕ
  pub complete_ts : ℕ
  pub completed : Bool

-- The completion is not before the submission.
unfoldable pub latency : AisRecord → ℕ
latency r = if r.completed then r.complete_ts - r.submit_ts else 0

unfoldable pub is_error : AisRecord → Bool
is_error r = elim r.error [ pos n ↦ not (n == 0) | negsuc n ↦ true ]

pub record MemRecord : Type 0 where
  pub queue_uid : ℕ
  pub dispatch_id : ℕ
  pub kernel_name : Text
  pub gpu_id : ℕ
  pub group_seg_bytes : ℕ
  pub private_seg_bytes : ℕ
  pub grid_size : ℕ
  pub footprint_valid : Bool
  pub kernarg_size_bytes : ℕ
  pub mapped_vram_bytes : ℕ
  pub ptr_count : ℕ
  pub submit_ts : ℕ
