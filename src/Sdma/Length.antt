-- ===== src/Sdma/Length.antt =====
-- `PacketLenDwords` of src/sdma.cpp and its helpers.
use hsa_snoop.Prelude.{
  length, get_or, ℕ, ◌+◌, ◌%◌, ◌^◌, ◌≤◌, ◌≡◌, ◌≢◌, ◌⊎◌, false, not, ◌||◌, List, [], ◌∷◌, ◌++◌,
  arith, ltb, leb, ◌==◌, if◌then◌else◌,
}
use hsa_snoop.Sdma.Defs.{
  Version, is_supported_version, is_v6_or_v7, is_v4, is_v7, op_nop, op_copy, op_write, op_indirect,
  op_fence, op_trap, op_sem, op_poll_regmem, op_cond_exe, op_atomic, op_const_fill, op_ptepde,
  op_timestamp, op_srbm_write, op_pre_exe, op_version_specific_16, op_gcr_req, op_v6_dummy_trap,
  subop_copy_linear, subop_copy_tiled, subop_copy_soa, subop_copy_linear_sub_wind,
  subop_copy_tiled_sub_wind, subop_copy_t2t_sub_wind, subop_copy_dirty_page, subop_copy_linear_phy,
  subop_copy_linear_bc, subop_copy_tiled_bc, subop_copy_linear_sub_wind_bc,
  subop_copy_tiled_sub_wind_bc, subop_copy_t2t_sub_wind_bc, subop_copy_linear_sub_wind_large,
  header_op, header_sub_op, header_broadcast, nop_count,
}

unfoldable pub broadcast_copy_packet_len : ℕ → ℕ
broadcast_copy_packet_len sub =
    if sub == subop_copy_linear then 9 else if sub == subop_copy_tiled then 16 else 0

-- The `switch` over the sub-opcode of `CopyPacketLenV4`.
copy_sub_len_v4 : ℕ → ℕ
copy_sub_len_v4 sub =
    if sub == subop_copy_linear || sub == subop_copy_dirty_page || sub == subop_copy_linear_phy
    then 7
    else if sub == subop_copy_soa
    then 8
    else if sub == subop_copy_linear_sub_wind || sub == subop_copy_tiled
    then 13
    else if sub == subop_copy_tiled_sub_wind
    then 14
    else if sub == subop_copy_t2t_sub_wind
    then 15
    else 0

unfoldable pub copy_packet_len_v4 : ℕ → ℕ
unfolding copy_sub_len_v4 broadcast_copy_packet_len
copy_packet_len_v4 header =
    let sub = header_sub_op header in
    if header_broadcast header then broadcast_copy_packet_len sub else copy_sub_len_v4 sub

-- The `switch` over the sub-opcode of `CopyPacketLenV6`.
copy_sub_len_v6 : ℕ → ℕ
copy_sub_len_v6 sub =
    if sub == subop_copy_linear
      || sub == subop_copy_dirty_page
      || sub == subop_copy_linear_phy
      || sub == subop_copy_linear_bc
    then 7
    else if sub == subop_copy_soa
    then 8
    else if sub == subop_copy_linear_sub_wind
        || sub == subop_copy_tiled
        || sub == subop_copy_tiled_bc
        || sub == subop_copy_linear_sub_wind_bc
    then 13
    else if sub == subop_copy_tiled_sub_wind_bc
    then 14
    else if sub == subop_copy_t2t_sub_wind_bc
    then 15
    else if sub == subop_copy_tiled_sub_wind
    then 17
    else if sub == subop_copy_t2t_sub_wind
    then 18
    else if sub == subop_copy_linear_sub_wind_large
    then 20
    else 0

unfoldable pub copy_packet_len_v6 : ℕ → ℕ
unfolding copy_sub_len_v6 broadcast_copy_packet_len
copy_packet_len_v6 header =
    let sub = header_sub_op header in
    if header_broadcast header then broadcast_copy_packet_len sub else copy_sub_len_v6 sub

unfoldable pub copy_packet_len_v7 : ℕ → ℕ
unfolding copy_packet_len_v6 broadcast_copy_packet_len
copy_packet_len_v7 header =
    let sub = header_sub_op header in
    if header_broadcast header
    then broadcast_copy_packet_len sub
    else if sub == subop_copy_linear || sub == subop_copy_linear_bc
    then 8
    else copy_packet_len_v6 header

unfoldable pub poll_packet_len : Version → ℕ → ℕ
poll_packet_len version sub =
    if sub == 0
    then 6
    else if sub == 1
    then 4
    else if sub == 2
    then 5
    else if sub == 3
    then 13
    else if sub == 4
    then (if is_v6_or_v7 version then 4 else 0)
    else 0

unfoldable pub pte_pde_packet_len : Version → ℕ → ℕ
pte_pde_packet_len version sub =
    if sub == 1
    then 8
    else if sub == 2
    then (if is_v4 version then 7 else 8)
    else if sub == 3
    then 7
    else 0

-- The `case OP_COPY` of `PacketLenDwords`.
unfoldable pub copy_packet_len : Version → ℕ → ℕ
unfolding copy_packet_len_v4 copy_packet_len_v6 copy_packet_len_v7
copy_packet_len version dw0 =
    if is_v4 version
    then copy_packet_len_v4 dw0
    else if is_v7 version
    then copy_packet_len_v7 dw0
    else copy_packet_len_v6 dw0

-- The cases of the `switch` of `PacketLenDwords` that the header dword decides.
unfoldable pub fixed_packet_len : Version → ℕ → ℕ → ℕ
unfolding poll_packet_len pte_pde_packet_len
fixed_packet_len version op sub =
    if op == op_fence
    then 4
    else if op == op_trap
    then 2
    else if op == op_sem
    then 3
    else if op == op_poll_regmem
    then poll_packet_len version sub
    else if op == op_cond_exe
    then 5
    else if op == op_atomic
    then 8
    else if op == op_const_fill
    then (if sub == 0 then 5 else if sub == 1 then 6 else 0)
    else if op == op_ptepde
    then pte_pde_packet_len version sub
    else if op == op_timestamp
    then (if leb sub 2 then 3 else 0)
    else if op == op_srbm_write
    then 3
    else if op == op_pre_exe
    then 2
    else if op == op_indirect
    then 6
    else if op == op_version_specific_16
    then (if is_v4 version then 2 else 4)
    else if op == op_gcr_req
    then (if is_v6_or_v7 version then 5 else 0)
    else if op == op_v6_dummy_trap
    then (if is_v6_or_v7 version then 2 else 0)
    else 0

-- `dw` holds the `navail` readable dwords. No sum wraps at 32 bits: see `packet_len_dwords_bounds`.
unfoldable pub packet_len_dwords : Version → List ℕ → ℕ → ℕ
packet_len_dwords version dw navail =
    if not (is_supported_version version)
    then 0
    else if ltb navail 1
    then 0
    else let dw0 = get_or dw 0 0 in
      let op = header_op dw0 in
      let sub = header_sub_op dw0 in
      if op == op_nop
      then 1 + nop_count dw0
      else if op == op_copy
      then copy_packet_len version dw0
      else if op == op_write
      then (if not (sub == 0) || ltb navail 4 then 0 else 5 + get_or dw 3 0 % 2 ^ 20)
      else fixed_packet_len version op sub

copy_packet_len-le : (version : Version) (dw0 : ℕ) → copy_packet_len version dw0 ≤ 20
unfolding copy_packet_len
copy_packet_len-le version dw0 = ground arith

fixed_packet_len-le : (version : Version) (op sub : ℕ) → fixed_packet_len version op sub ≤ 13
unfolding fixed_packet_len
fixed_packet_len-le version op sub = ground arith

-- A length is at most 2^20 + 4 dwords, so no sum of `PacketLenDwords` wraps at 32 bits; an
-- unsupported version and an empty window give 0.
pub packet_len_dwords_bounds :
    (version : Version) (dw : List ℕ) (navail : ℕ)
    → (packet_len_dwords version dw navail ≤ 2 ^ 20 + 4)
      × (is_supported_version version ≡ false → packet_len_dwords version dw navail ≡ 0)
      × (navail ≡ 0 → packet_len_dwords version dw navail ≡ 0)
unfolding packet_len_dwords nop_count
packet_len_dwords_bounds version dw navail = ground (
  arith,
  copy_packet_len-le version (get_or dw 0 0),
  fixed_packet_len-le version (header_op (get_or dw 0 0)) (header_sub_op (get_or dw 0 0)),
)

-- Where a window decides a length that is not 0, or is four dwords long, the decoder's answer stays
-- the same when the window grows: a length is final, and from four dwords on so is the answer 0.
pub packet_len_dwords-append :
    (version : Version) (dw more : List ℕ)
    → (packet_len_dwords version dw (length dw) ≢ 0) ⊎ (4 ≤ length dw)
    → packet_len_dwords version (dw ++ more) (length (dw ++ more))
      ≡ packet_len_dwords version dw (length dw)
unfolding packet_len_dwords
packet_len_dwords-append version [] more h = ground arith
packet_len_dwords-append version (a ∷ []) more h = ground arith
packet_len_dwords-append version (a ∷ b ∷ []) more h = ground arith
packet_len_dwords-append version (a ∷ b ∷ c ∷ []) more h = ground arith
packet_len_dwords-append version (a ∷ b ∷ c ∷ d ∷ dw) more h = ground arith
