-- ===== src/Sdma/Defs.antt =====
-- src/sdma.h and src/sdma.cpp: the decoder of the SDMA microcode packets.
-- A dword, an opcode and a sub-opcode are natural numbers; `x & (2^k - 1)` and `x >> k` are written
-- `x % 2 ^ k` and `x / 2 ^ k`.
use hsa_snoop.Prelude.{ℕ, ◌/◌, ◌%◌, ◌^◌, Bool, true, false, not, ◌&&◌, ◌==◌, if◌then◌else◌}

-- `enum class Version`.
pub data Version : Type 0 where
  unknown v4 v5 v6 v7 : Version

unfoldable pub is_supported_version : Version → Bool
is_supported_version Version.v4 = true
is_supported_version Version.v6 = true
is_supported_version Version.v7 = true
is_supported_version _ = false

-- `version == Version::V6 || version == Version::V7`, the test that the decoder repeats.
abbrev pub is_v6_or_v7 : Version → Bool
is_v6_or_v7 Version.v6 = true
is_v6_or_v7 Version.v7 = true
is_v6_or_v7 _ = false

abbrev pub is_v4 : Version → Bool
is_v4 Version.v4 = true
is_v4 _ = false

abbrev pub is_v7 : Version → Bool
is_v7 Version.v7 = true
is_v7 _ = false

unfoldable pub version_from_gfx_target : ℕ → Version
version_from_gfx_target t =
    let g = t / 10000 in
    if g == 9
    then Version.v4
    else if g == 10
    then Version.v5
    else if g == 11
    then Version.v6
    else if g == 12
    then Version.v7
    else Version.unknown

-- `RingBytesToDwords`.
abbrev pub ring_bytes_to_dwords : ℕ → ℕ
ring_bytes_to_dwords byte_offset = byte_offset / 4

-- `enum Op`.
abbrev pub op_nop : ℕ
op_nop = 0

abbrev pub op_copy : ℕ
op_copy = 1

abbrev pub op_write : ℕ
op_write = 2

abbrev pub op_indirect : ℕ
op_indirect = 4

abbrev pub op_fence : ℕ
op_fence = 5

abbrev pub op_trap : ℕ
op_trap = 6

abbrev pub op_sem : ℕ
op_sem = 7

abbrev pub op_poll_regmem : ℕ
op_poll_regmem = 8

abbrev pub op_cond_exe : ℕ
op_cond_exe = 9

abbrev pub op_atomic : ℕ
op_atomic = 10

abbrev pub op_const_fill : ℕ
op_const_fill = 11

abbrev pub op_ptepde : ℕ
op_ptepde = 12

abbrev pub op_timestamp : ℕ
op_timestamp = 13

abbrev pub op_srbm_write : ℕ
op_srbm_write = 14

abbrev pub op_pre_exe : ℕ
op_pre_exe = 15

abbrev pub op_version_specific_16 : ℕ
op_version_specific_16 = 16

abbrev pub op_gcr_req : ℕ
op_gcr_req = 17

abbrev pub op_v6_dummy_trap : ℕ
op_v6_dummy_trap = 32

-- `enum CopySubOp`.
abbrev pub subop_copy_linear : ℕ
subop_copy_linear = 0

abbrev pub subop_copy_tiled : ℕ
subop_copy_tiled = 1

abbrev pub subop_copy_soa : ℕ
subop_copy_soa = 3

abbrev pub subop_copy_linear_sub_wind : ℕ
subop_copy_linear_sub_wind = 4

abbrev pub subop_copy_tiled_sub_wind : ℕ
subop_copy_tiled_sub_wind = 5

abbrev pub subop_copy_t2t_sub_wind : ℕ
subop_copy_t2t_sub_wind = 6

abbrev pub subop_copy_dirty_page : ℕ
subop_copy_dirty_page = 7

abbrev pub subop_copy_linear_phy : ℕ
subop_copy_linear_phy = 8

abbrev pub subop_copy_linear_bc : ℕ
subop_copy_linear_bc = 16

abbrev pub subop_copy_tiled_bc : ℕ
subop_copy_tiled_bc = 17

abbrev pub subop_copy_linear_sub_wind_bc : ℕ
subop_copy_linear_sub_wind_bc = 20

abbrev pub subop_copy_tiled_sub_wind_bc : ℕ
subop_copy_tiled_sub_wind_bc = 21

abbrev pub subop_copy_t2t_sub_wind_bc : ℕ
subop_copy_t2t_sub_wind_bc = 22

abbrev pub subop_copy_linear_sub_wind_large : ℕ
subop_copy_linear_sub_wind_large = 36

-- `HeaderOp`, `HeaderSubOp`, `HeaderBroadcast` and `NopCount`.
unfoldable pub header_op : ℕ → ℕ
header_op dw0 = dw0 % 256

unfoldable pub header_sub_op : ℕ → ℕ
header_sub_op dw0 = dw0 / 2 ^ 8 % 256

unfoldable pub header_broadcast : ℕ → Bool
unfolding header_sub_op
header_broadcast dw0 =
    let sub = header_sub_op dw0 in
    if not (sub == subop_copy_linear) && not (sub == subop_copy_tiled)
    then false
    else not (dw0 / 2 ^ 27 % 2 == 0)

unfoldable pub nop_count : ℕ → ℕ
nop_count dw0 = dw0 / 2 ^ 16 % 2 ^ 14
