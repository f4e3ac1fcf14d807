-- ===== src/Sdma/Names.antt =====
-- The display names of src/sdma.cpp, and their agreement with the packet lengths.
use hsa_snoop.Prelude.{Text, codes, ℕ, ◌≡◌, ◌↔◌, true, arith, ◌==◌, if◌then◌else◌}
use hsa_snoop.Sdma.Defs.{
  Version, is_supported_version, is_v6_or_v7, is_v4, op_nop, op_copy, op_write, op_indirect,
  op_fence, op_trap, op_sem, op_poll_regmem, op_cond_exe, op_atomic, op_const_fill, op_ptepde,
  op_timestamp, op_srbm_write, op_pre_exe, op_version_specific_16, op_gcr_req, op_v6_dummy_trap,
  subop_copy_linear, subop_copy_tiled, subop_copy_soa, subop_copy_linear_sub_wind,
  subop_copy_tiled_sub_wind, subop_copy_t2t_sub_wind, subop_copy_dirty_page, subop_copy_linear_phy,
  subop_copy_linear_bc, subop_copy_tiled_bc, subop_copy_linear_sub_wind_bc,
  subop_copy_tiled_sub_wind_bc, subop_copy_t2t_sub_wind_bc, subop_copy_linear_sub_wind_large,
  header_sub_op, header_broadcast,
}
use hsa_snoop.Sdma.Length.{copy_packet_len}

unfoldable pub version_name : Version → Text
version_name Version.v4 = codes "v4"
version_name Version.v5 = codes "v5"
version_name Version.v6 = codes "v6"
version_name Version.v7 = codes "v7"
version_name Version.unknown = codes "unknown"

unfoldable pub op_name : Version → ℕ → Text
op_name version op =
    if op == op_nop
    then codes "nop"
    else if op == op_copy
    then codes "copy"
    else if op == op_write
    then codes "write"
    else if op == op_indirect
    then codes "indirect"
    else if op == op_fence
    then codes "fence"
    else if op == op_trap
    then codes "trap"
    else if op == op_sem
    then codes "semaphore"
    else if op == op_poll_regmem
    then codes "poll_regmem"
    else if op == op_cond_exe
    then codes "cond_exe"
    else if op == op_atomic
    then codes "atomic"
    else if op == op_const_fill
    then codes "const_fill"
    else if op == op_ptepde
    then codes "ptepde"
    else if op == op_timestamp
    then codes "timestamp"
    else if op == op_srbm_write
    then codes "srbm_write"
    else if op == op_pre_exe
    then codes "pre_exe"
    else if op == op_version_specific_16
    then (if is_v4 version
        then codes "dummy_trap"
        else if is_v6_or_v7 version
        then codes "gpuvm_inv"
        else codes "unknown")
    else if op == op_gcr_req
    then (if is_v6_or_v7 version then codes "gcr_req" else codes "unknown")
    else if op == op_v6_dummy_trap
    then (if is_v6_or_v7 version then codes "dummy_trap" else codes "unknown")
    else codes "unknown"

unfoldable pub copy_sub_op_name : Version → ℕ → Text
copy_sub_op_name version sub_op =
    if sub_op == subop_copy_linear
    then codes "linear"
    else if sub_op == subop_copy_tiled
    then codes "tiled"
    else if sub_op == subop_copy_soa
    then codes "soa"
    else if sub_op == subop_copy_linear_sub_wind
    then codes "linear_subwindow"
    else if sub_op == subop_copy_tiled_sub_wind
    then codes "tiled_subwindow"
    else if sub_op == subop_copy_t2t_sub_wind
    then codes "t2t_subwindow"
    else if sub_op == subop_copy_dirty_page
    then codes "dirty_page"
    else if sub_op == subop_copy_linear_phy
    then codes "linear_physical"
    else if sub_op == subop_copy_linear_bc
    then (if is_v6_or_v7 version then codes "linear_bc" else codes "unknown")
    else if sub_op == subop_copy_tiled_bc
    then (if is_v6_or_v7 version then codes "tiled_bc" else codes "unknown")
    else if sub_op == subop_copy_linear_sub_wind_bc
    then (if is_v6_or_v7 version then codes "linear_subwindow_bc" else codes "unknown")
    else if sub_op == subop_copy_tiled_sub_wind_bc
    then (if is_v6_or_v7 version then codes "tiled_subwindow_bc" else codes "unknown")
    else if sub_op == subop_copy_t2t_sub_wind_bc
    then (if is_v6_or_v7 version then codes "t2t_subwindow_bc" else codes "unknown")
    else if sub_op == subop_copy_linear_sub_wind_large
    then (if is_v6_or_v7 version then codes "linear_subwindow_large" else codes "unknown")
    else codes "unknown"

-- For each supported version, a copy header has length 0 exactly when its sub-opcode has the name
-- "unknown": the tables of lengths and of names cover the same sub-opcodes, broadcasts included.
pub copy_name_iff_len :
    (version : Version) (dw0 : ℕ)
    → is_supported_version version ≡ true
    → (copy_packet_len version dw0 ≡ 0)
      ↔ (copy_sub_op_name version (header_sub_op dw0) ≡ codes "unknown")
unfolding copy_packet_len copy_sub_op_name is_supported_version header_broadcast
copy_name_iff_len Version.unknown dw0 h = cc
copy_name_iff_len Version.v4 dw0 h = ground arith
copy_name_iff_len Version.v5 dw0 h = cc
copy_name_iff_len Version.v6 dw0 h = ground arith
copy_name_iff_len Version.v7 dw0 h = ground arith
