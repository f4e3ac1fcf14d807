-- ===== src/Sdma/Copy.antt =====
-- The byte count of the linear copies: `IsLinearCopy` and `LinearCopyBytes` of src/sdma.cpp.
use hsa_snoop.Prelude.{
  get_or, ℕ, ◌+◌, ◌-◌, ◌*◌, ◌%◌, ◌^◌, ◌≤◌, ◌≡◌, Bool, true, not, ◌&&◌, ◌||◌, List, arith, ◌==◌,
  if◌then◌else◌,
}
use hsa_snoop.Sdma.Defs.{
  Version, is_supported_version, is_v6_or_v7, is_v4, op_copy, subop_copy_linear,
  subop_copy_linear_bc, header_op, header_sub_op, header_broadcast,
}
use hsa_snoop.Sdma.Length.{copy_packet_len, packet_len_dwords}

unfoldable pub is_linear_copy : Version → ℕ → Bool
is_linear_copy version sub_op =
    (is_v4 version && sub_op == subop_copy_linear)
    || (is_v6_or_v7 version && (sub_op == subop_copy_linear || sub_op == subop_copy_linear_bc))

unfoldable pub linear_copy_bytes : Version → ℕ → ℕ → ℕ
unfolding is_linear_copy
linear_copy_bytes version sub_op count_dw =
    if not (is_linear_copy version sub_op)
    then 0
    else if is_v6_or_v7 version && sub_op == subop_copy_linear
    then count_dw % 2 ^ 30 + 1
    else count_dw % 2 ^ 22 + 1

-- The largest transfer that the COUNT field of a linear copy can state.
unfoldable pub max_copy_bytes : Version → ℕ → ℕ
max_copy_bytes version sub_op =
    if is_v6_or_v7 version && sub_op == subop_copy_linear then 2 ^ 30 else 2 ^ 22

-- On a linear copy, a COUNT dword that holds `n - 1` in its field, with anything in the bits above
-- the field, is read back as `n`, for each `n` from 1 to the largest transfer; on any other
-- sub-opcode the byte count is 0.
pub linear_copy_bytes_lem :
    (version : Version) (sub_op n flags : ℕ)
    → 1 ≤ n
    → n ≤ max_copy_bytes version sub_op
    → linear_copy_bytes version sub_op (n - 1 + flags * max_copy_bytes version sub_op)
      ≡ (if is_linear_copy version sub_op then n else 0)
unfolding linear_copy_bytes max_copy_bytes
linear_copy_bytes_lem version sub_op n flags lo hi = ground arith

-- A packet with a linear-copy header is at least 7 and at most 9 dwords long whatever its flags are,
-- if one dword of it is readable.
pub linear_copy_len :
    (version : Version) (dw : List ℕ) (navail : ℕ)
    → header_op (get_or dw 0 0) ≡ op_copy
    → is_linear_copy version (header_sub_op (get_or dw 0 0)) ≡ true
    → 1 ≤ navail
    → (7 ≤ packet_len_dwords version dw navail) × (packet_len_dwords version dw navail ≤ 9)
unfolding packet_len_dwords copy_packet_len is_linear_copy is_supported_version header_broadcast
linear_copy_len version dw navail hop hlin h = ground arith
