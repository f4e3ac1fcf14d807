-- ===== src/Tests/Log.antt =====
-- Lines of the dispatch log.
use native.Mathlib.Omega.{arith}
use hsa_snoop.Prelude.{Text, codes, ℕ, ◌≡◌, true, false, some, [], ◌∷◌, ◌++◌, arith}
use hsa_snoop.Sdma.Defs.{Version}
use hsa_snoop.Model.{PacketRecord, CopyDir, SdmaRecord}
use hsa_snoop.Aql.Packet.{PacketType}
use hsa_snoop.DispatchLog.Escape.{Mode, append_escaped, read_chars, read_string-append_escaped}
use hsa_snoop.DispatchLog.Lines.{Ctx, log_queue, log_dispatch, log_sdma}
use hsa_snoop.DispatchLog.Printable.{IsOneLine, log-IsOneLine}
use hsa_snoop.Tests.Data.{aql_queue}

-- A quote, a backslash and a control character.
abbrev awkward : Text
awkward = 34 ∷ 92 ∷ 7 ∷ 97 ∷ []

read_string-append_escaped_example :
    (text : Text) × (append_escaped (123 ∷ []) awkward ++ (58 ∷ []) ≡ 123 ∷ 34 ∷ text)
    × (read_chars Mode.plain text ≡ some (awkward, 58 ∷ []))
read_string-append_escaped_example =
    read_string-append_escaped awkward (58 ∷ []) (123 ∷ [])
      ((omega arith), (omega arith, (omega arith, (omega arith, tt))))

abbrev packet : PacketRecord
packet = record {
  queue_uid = 5;
  dispatch_id = 3;
  type = PacketType.kernel_dispatch;
  barrier = false;
  kernel_object = 5120;
  kernel_name = awkward;
  grid = record { x = 64; y = 1; z = 1 };
  wg = record { x = 64; y = 1; z = 1 };
  private_seg = 0;
  group_seg = 0;
  completion_signal = 0;
  kernarg_address = 0;
  submit_ts = 1000;
  complete_ts = 4500;
  completed = true;
}

abbrev copy : SdmaRecord
copy = record {
  queue_uid = 5;
  seq = 0;
  opcode = 1;
  sub_opcode = 0;
  sdma_version = Version.v4;
  op_name = codes "copy_linear";
  bytes = 5;
  src_addr = 0;
  dst_addr = 0;
  dir = CopyDir.host_to_host;
  submit_ts = 1000;
  complete_ts = 1000;
  completed = true;
}

abbrev context : Ctx
context = record { gpu_id = 1; pid = 7; comm = awkward }

abbrev date : ℕ → Text
date secs = codes "2026-01-01T00:00:00"

log-IsOneLine_example :
    IsOneLine (log_queue date 0 aql_queue (codes "aql"))
    × IsOneLine (log_dispatch date 0 packet context)
    × IsOneLine (log_sdma date 0 copy context)
log-IsOneLine_example = log-IsOneLine date 0 aql_queue (codes "aql") packet copy context
