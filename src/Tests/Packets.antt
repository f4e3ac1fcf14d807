-- ===== src/Tests/Packets.antt =====
-- SDMA and AQL packets.
use native.Mathlib.Omega.{arith}
use hsa_snoop.Prelude.{
  length, codes, ◌+◌, ◌-◌, ◌*◌, ◌≤◌, ◌≡◌, refl, ◌↔◌, inr, [], ◌∷◌, arith, if◌then◌else◌,
}
use hsa_snoop.Sdma.Defs.{Version, is_supported_version, header_op, header_sub_op}
use hsa_snoop.Sdma.Length.{copy_packet_len, packet_len_dwords, packet_len_dwords-append}
use hsa_snoop.Sdma.Names.{copy_sub_op_name, copy_name_iff_len}
use hsa_snoop.Sdma.Copy.{
  is_linear_copy, linear_copy_bytes, max_copy_bytes, linear_copy_bytes_lem, linear_copy_len,
}
use hsa_snoop.Aql.Packet.{
  KernelDispatchPacket, IsPacket, to_kernel_dispatch_packet, packet_bytes, to_packet-bytes,
}

-- A write packet whose count dword is the last of the window.
packet_len_dwords-append_example :
    packet_len_dwords Version.v6 (2 ∷ 0 ∷ 0 ∷ 1 ∷ 7 ∷ []) 5
    ≡ packet_len_dwords Version.v6 (2 ∷ 0 ∷ 0 ∷ 1 ∷ []) 4
packet_len_dwords-append_example =
    packet_len_dwords-append Version.v6 (2 ∷ 0 ∷ 0 ∷ 1 ∷ []) (7 ∷ []) (inr (omega arith))

copy_name_iff_len_example :
    (copy_packet_len Version.v4 (1 + 2 * 256) ≡ 0)
    ↔ (copy_sub_op_name Version.v4 (header_sub_op (1 + 2 * 256)) ≡ codes "unknown")
unfolding is_supported_version
copy_name_iff_len_example = copy_name_iff_len Version.v4 (1 + 2 * 256) refl

-- A v7 linear copy.
v4_copy_len :
    (7 ≤ packet_len_dwords Version.v7 (1 ∷ 4 ∷ []) 2)
    × (packet_len_dwords Version.v7 (1 ∷ 4 ∷ []) 2 ≤ 9)
unfolding header_op header_sub_op is_linear_copy
v4_copy_len = linear_copy_len Version.v7 (1 ∷ 4 ∷ []) 2 refl refl (omega arith)

linear_copy_bytes_lem_example :
    linear_copy_bytes Version.v4 0 (5 - 1 + 3 * max_copy_bytes Version.v4 0)
    ≡ (if is_linear_copy Version.v4 0 then 5 else 0)
unfolding max_copy_bytes
linear_copy_bytes_lem_example = linear_copy_bytes_lem Version.v4 0 5 3 (omega arith) (omega arith)

abbrev dispatch : KernelDispatchPacket
dispatch = record {
  header = 2;
  setup = 1;
  workgroup_size_x = 64;
  workgroup_size_y = 1;
  workgroup_size_z = 1;
  reserved0 = 0;
  grid_size_x = 1024;
  grid_size_y = 1;
  grid_size_z = 1;
  private_segment_size = 0;
  group_segment_size = 512;
  kernel_object = 140000;
  kernarg_address = 65536;
  reserved2 = 0;
  completion_signal = 99;
}

dispatch-IsPacket : IsPacket dispatch
dispatch-IsPacket = record {
  header_u16 = omega arith;
  setup_u16 = omega arith;
  workgroup_x_u16 = omega arith;
  workgroup_y_u16 = omega arith;
  workgroup_z_u16 = omega arith;
  reserved0_u16 = omega arith;
  grid_x_u32 = omega arith;
  grid_y_u32 = omega arith;
  grid_z_u32 = omega arith;
  private_u32 = omega arith;
  group_u32 = omega arith;
  object_u64 = omega arith;
  kernarg_u64 = omega arith;
  reserved2_u64 = omega arith;
  signal_u64 = omega arith;
}

to_packet-bytes_example :
    (to_kernel_dispatch_packet (packet_bytes dispatch) ≡ dispatch)
    × (length (packet_bytes dispatch) ≡ 64)
to_packet-bytes_example = to_packet-bytes dispatch dispatch-IsPacket
