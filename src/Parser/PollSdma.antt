-- ===== src/Parser/PollSdma.antt =====
-- `RingParser::PollSdmaQueue` of src/parser.cpp. The list beside the new state holds the records that
-- the sink is called with, in order.
use hsa_snoop.Prelude.{
  get_or, emplace, add64, sub64, Text, codes, ℕ, zero, suc, ◌+◌, ◌-◌, ◌*◌, ◌^◌, min, Bool, true,
  false, not, ◌&&◌, none, some, List, [], ◌++◌, ltb, leb, ◌==◌, if◌then◌else◌,
}
use hsa_snoop.Os.{Os}
use hsa_snoop.Model.{CopyDir, SdmaRecord, num_dwords}
use hsa_snoop.Sdma.Defs.{
  Version, ring_bytes_to_dwords, op_copy, header_op, header_sub_op, header_broadcast,
}
use hsa_snoop.Sdma.Length.{packet_len_dwords}
use hsa_snoop.Sdma.Names.{op_name, copy_sub_op_name}
use hsa_snoop.Sdma.Copy.{is_linear_copy, linear_copy_bytes}
use hsa_snoop.Parser.State.{QueueState, poll_failed, read_pointers, prime, skip_wrapped, retire}
use hsa_snoop.Parser.Ring.{read_ring_dwords, PageCache, classify_dir}

abbrev pub sdma_window : ℕ
sdma_window = 16

-- The display name of a copy.
unfoldable pub copy_name : Version → ℕ → Text
unfolding header_sub_op header_broadcast copy_sub_op_name
copy_name version dw0 =
    let name = codes "copy_" ++ copy_sub_op_name version (header_sub_op dw0) in
    if header_broadcast dw0 then name ++ codes "_broadcast" else name

-- A record without copy fields.
unfoldable pub plain_record : QueueState → ℕ → Text → ℕ → SdmaRecord
unfolding header_op header_sub_op
plain_record s dw0 name now = record {
  queue_uid = s.info.uid;
  seq = s.sdma_seq;
  opcode = header_op dw0;
  sub_opcode = header_sub_op dw0;
  sdma_version = s.info.sdma_version;
  op_name = name;
  bytes = 0;
  src_addr = 0;
  dst_addr = 0;
  dir = CopyDir.unknown;
  submit_ts = now;
  complete_ts = 0;
  completed = false;
}

-- `dws[lo] | (uint64_t(dws[lo + 1]) << 32)`, the two halves having no bit in common.
abbrev pub join_halves : List ℕ → ℕ → ℕ
join_halves dws lo = get_or dws lo 0 + get_or dws (lo + 1) 0 * 2 ^ 32

-- The record of a linear copy, and the page cache afterwards.
unfoldable pub linear_record : Os → QueueState → List ℕ → ℕ → SdmaRecord × PageCache
unfolding plain_record copy_name classify_dir linear_copy_bytes
linear_record os s dws now =
    let dw0 = get_or dws 0 0 in
    let version = s.info.sdma_version in
    let src = join_halves dws 3 in
    let dst = join_halves dws 5 in
    let (dir, m) = classify_dir os s.info.pid s.page_host src dst in
    (
      record (plain_record s dw0 (copy_name version dw0) now) {
        bytes = linear_copy_bytes version (header_sub_op dw0) (get_or dws 1 0);
        src_addr = src;
        dst_addr = dst;
        dir = dir;
      },
      m,
    )

unfoldable pub sdma_record : Os → QueueState → List ℕ → ℕ → ℕ → SdmaRecord × PageCache
unfolding linear_record op_name is_linear_copy
sdma_record os s dws win now =
    let dw0 = get_or dws 0 0 in
    let version = s.info.sdma_version in
    if header_op dw0 == op_copy
    then (if is_linear_copy version (header_sub_op dw0) && leb 7 win
        then linear_record os s dws now
        else (plain_record s dw0 (copy_name version dw0) now, s.page_host))
    else (plain_record s dw0 (op_name version (header_op dw0)) now, s.page_host)

-- The packet of `len` dwords at `next_id` is entered under the dword behind it.
unfoldable pub accept_sdma : Os → QueueState → List ℕ → ℕ → ℕ → ℕ → QueueState
unfolding sdma_record
accept_sdma os s dws win len now =
    let (rec, m) = sdma_record os s dws win now in
    let end_dw = add64 s.next_id len in
    record s {
      sdma_seq = add64 s.sdma_seq 1;
      page_host = m;
      sdma_inflight = emplace end_dw rec s.sdma_inflight;
      next_id = end_dw;
    }

-- What follows from the length of the packet: the state, and whether the loop goes on.
unfoldable pub decode_sdma : Os → ℕ → ℕ → ℕ → QueueState → List ℕ → QueueState × Bool
unfolding accept_sdma packet_len_dwords
decode_sdma os wptr win now s dws =
    let avail = sub64 wptr s.next_id in
    let len = packet_len_dwords s.info.sdma_version dws win in
    if len == 0
    then (if ltb avail 4
        then (s, false)
        else (record s { dropped = add64 s.dropped avail; next_id = wptr }, false))
    else if ltb avail len
    then (s, false)
    else (accept_sdma os s dws win len now, true)

-- One round of the decoding loop.
unfoldable pub sdma_step : Os → ℕ → ℕ → QueueState → QueueState × Bool
unfolding decode_sdma
sdma_step os wptr now s =
    let win = min (sub64 wptr s.next_id) sdma_window in
    if not (ltb s.next_id wptr)
    then (s, false)
    else elim (read_ring_dwords (os.process s.info.pid) s.info s.next_id win) [
      | none ↦ (s, false)
      | some dws ↦ decode_sdma os wptr win now s dws
    ]

unfoldable pub sdma_loop : Os → ℕ → ℕ → ℕ → QueueState → QueueState
unfolding sdma_step
sdma_loop os wptr now zero s = s
sdma_loop os wptr now (suc fuel) s =
    let next = sdma_step os wptr now s in
    let rest = sdma_loop os wptr now fuel next.0 in if next.1 then rest else next.0

unfoldable pub complete_sdma : ℕ → SdmaRecord → SdmaRecord
complete_sdma now r = record r { complete_ts = now; completed = true }

unfoldable pub poll_sdma_packets : Os → ℕ → ℕ → ℕ → QueueState → QueueState × List SdmaRecord
unfolding sdma_loop skip_wrapped retire complete_sdma
poll_sdma_packets os wptr rptr now s =
    let s0 = skip_wrapped wptr (num_dwords s.info) s in
    let s1 = sdma_loop os wptr now (wptr - s0.next_id) s0 in
    let (out, rest) = retire (ltb rptr) (complete_sdma now) s1.sdma_inflight in
    (record s1 { sdma_inflight = rest; last_rptr = rptr }, out)

unfoldable pub poll_sdma_queue : Os → ℕ → QueueState → QueueState × List SdmaRecord
unfolding poll_sdma_packets poll_failed read_pointers prime
poll_sdma_queue os now s = elim (read_pointers (os.process s.info.pid) s.info) [
  | none ↦ (poll_failed s, [])
  | some (wptr_raw, rptr_raw) ↦
      let s' : QueueState = record s { read_fail_count = 0 } in
      let wptr = ring_bytes_to_dwords wptr_raw in
      let rptr = ring_bytes_to_dwords rptr_raw in
      if num_dwords s.info == 0
      then (s', [])
      else if not s.primed
      then (prime wptr rptr s', [])
      else poll_sdma_packets os wptr rptr now s'
]
