-- ===== src/TraceWriter/EventMarks.antt =====
-- What is read of the track event that `WritePerfetto` of src/trace_writer.cpp writes for an AQL packet.
use native.Mathlib.Omega.{arith}
use hsa_snoop.Prelude.{
  length, IsU64, Text, codes, ℕ, ◌+◌, ◌%◌, ◌^◌, ◌≡◌, refl, sym, ap, ◌∙◌, inl, inr, Bool, true,
  false, some, List, [], ◌++◌, arith, ◌==◌, if◌then◌else◌, Bool-cases,
}
use hsa_snoop.Model.{QueueInfo, PacketRecord}
use hsa_snoop.Aql.Packet.{packet_type_name}
use hsa_snoop.TraceWriter.Pb.{varint_field, string_field, msg_field, debug_str, debug_uint}
use hsa_snoop.TraceWriter.Wire.{
  Value, append-nil, append_assoc, field_bytes, varint_field-field_bytes, string_field-field_bytes,
  msg_field-field_bytes,
}
use hsa_snoop.TraceWriter.Events.{Ev}
use hsa_snoop.TraceWriter.Perfetto.{
  queue_track_uuid, ring_phys_of, is_dispatch, dispatch_args, packet_event, trace_packet,
}
use hsa_snoop.TraceWriter.Marks.{
  Mark, number_field, read_name, read_event, read_packet, mark_of, number_field-field_bytes,
  bytes_field-field_bytes,
}

-- A message that begins with another.
abbrev Begins : List ℕ → List ℕ → Type 0
Begins a b = (rest : List ℕ) × (b ≡ a ++ rest)

Begins-msg_field :
    (a buf : List ℕ) (n : ℕ) (m : List ℕ) → Begins a buf → Begins a (msg_field buf n m)
Begins-msg_field a buf n m (rest, e) =
    let f = field_bytes (n, Value.bytes m) in
    (rest ++ f, msg_field-field_bytes buf n m ∙ ap (λ u. u ++ f) e ∙ append_assoc a rest f)

Begins-dispatch_args :
    (a te : List ℕ) (r : PacketRecord) → Begins a te → Begins a (dispatch_args te r)
unfolding dispatch_args
Begins-dispatch_args a te r h = Begins-msg_field a _ _ _ (
    Begins-msg_field a _ _ _ (
      Begins-msg_field a _ _ _
        (Begins-msg_field a _ _ _ (Begins-msg_field a _ _ _ (Begins-msg_field a _ _ _ h)))))

-- The track and the type, in front of what else an event has.
abbrev head_bytes : PacketRecord → ℕ → List ℕ
head_bytes r type =
    field_bytes (11, Value.number (queue_track_uuid r.queue_uid))
    ++ field_bytes (9, Value.number type)

abbrev name_bytes : PacketRecord → List ℕ
name_bytes r = field_bytes (23, Value.bytes r.kernel_name)

head_lem :
    (r : PacketRecord) (type : ℕ)
    → varint_field (varint_field [] 11 (queue_track_uuid r.queue_uid)) 9 type ≡ head_bytes r type
head_lem r type =
    varint_field-field_bytes (varint_field [] 11 (queue_track_uuid r.queue_uid)) 9 type
    ∙ ap (λ u. u ++ field_bytes (9, Value.number type))
        (varint_field-field_bytes [] 11 (queue_track_uuid r.queue_uid))

begin_head :
    (r : PacketRecord)
    → string_field
        (varint_field (varint_field [] 11 (queue_track_uuid r.queue_uid)) 9 1)
        23
        r.kernel_name
      ≡ head_bytes r 1 ++ name_bytes r
begin_head r =
    string_field-field_bytes (varint_field (varint_field [] 11 (queue_track_uuid r.queue_uid)) 9 1)
      23 r.kernel_name
    ∙ ap (λ u. u ++ name_bytes r) (head_lem r 1)

-- What may stand behind the name keeps the front as it is.
Begins-args :
    (a te m : List ℕ) (r : PacketRecord) (dispatch no_ring : Bool)
    → Begins a te
    → let args = if dispatch then dispatch_args te r else te in
      Begins a (if no_ring then args else msg_field args 4 m)
Begins-args a te m r true true h = Begins-dispatch_args a te r h
Begins-args a te m r false true h = h
Begins-args a te m r true false h = Begins-msg_field a _ 4 m (Begins-dispatch_args a te r h)
Begins-args a te m r false false h = Begins-msg_field a te 4 m h

packet_event-begin :
    (queues : List (ℕ × QueueInfo)) (e : Ev PacketRecord)
    → e.begin ≡ true
    → Begins (head_bytes e.r 1 ++ name_bytes e.r) (packet_event queues e)
unfolding packet_event
packet_event-begin queues e h =
    let a = head_bytes e.r 1 ++ name_bytes e.r in
    let named : Begins a _ = ([], begin_head e.r ∙ sym (append-nil a)) in
    let phys = ring_phys_of queues e.r.queue_uid in
    let four =
      Begins-msg_field a _ 4 (debug_uint (codes "dispatch_id") e.r.dispatch_id)
        (Begins-msg_field a _ 4 (debug_str (codes "type") (packet_type_name e.r.type)) named) in
    rw h (
      Begins-args a _ (debug_uint (codes "ring_phys") phys) e.r (is_dispatch e.r.type) (phys == 0)
        four)

packet_event-end :
    (queues : List (ℕ × QueueInfo)) (e : Ev PacketRecord)
    → e.begin ≡ false
    → packet_event queues e ≡ head_bytes e.r 2
unfolding packet_event
packet_event-end queues e h = rw h (head_lem e.r 2)

uuid_lem :
    (r : PacketRecord)
    → (queue_track_uuid r.queue_uid ≡ (0x51000000 + r.queue_uid) % 2 ^ 64)
      × IsU64 (queue_track_uuid r.queue_uid)
unfolding queue_track_uuid
uuid_lem r = (refl, omega arith)

-- The head of an event is read, whatever stands behind it.
read_event_head :
    (ts type : ℕ) (r : PacketRecord) (bs rest : List ℕ) (name : Text)
    → bs ≡ head_bytes r type ++ rest
    → IsU64 type
    → read_name type rest ≡ some name
    → read_event ts bs
      ≡ some (record {
        ts = ts;
        track = (0x51000000 + r.queue_uid) % 2 ^ 64;
        type = type;
        name = name;
      })
unfolding read_event
read_event_head ts type r bs rest name e h k =
    let u = queue_track_uuid r.queue_uid in
    let f9 = field_bytes (9, Value.number type) in
    let first : number_field 11 bs ≡ some (u, f9 ++ rest) =
      ap (number_field 11) (e ∙ append_assoc (field_bytes (11, Value.number u)) f9 rest)
      ∙ number_field-field_bytes 11 u (f9 ++ rest) (omega arith) (uuid_lem r).1 in
    let second = number_field-field_bytes 9 type rest (omega arith) h in
    rw (read_event, first, second, k)
      (ap (λ t. some (record { ts = ts; track = t; type = type; name = name })) (uuid_lem r).0)

read_name_begin :
    (name : Text) (rest : List ℕ)
    → IsU64 (length name)
    → read_name 1 (field_bytes (23, Value.bytes name) ++ rest) ≡ some name
unfolding read_name
read_name_begin name rest h =
    let e = bytes_field-field_bytes 23 name rest (omega arith) h in rw (read_name, e) refl

read_name_end : (rest : List ℕ) → read_name 2 rest ≡ some []
unfolding read_name
read_name_end rest = refl

-- The mark of an event whose side of the slice is known.
abbrev mark_as : Ev PacketRecord → Bool → Mark
mark_as e begin = record {
  ts = e.ts;
  track = (0x51000000 + e.r.queue_uid) % 2 ^ 64;
  type = if begin then 1 else 2;
  name = if begin then e.r.kernel_name else [];
}

pub read_event-packet_event :
    (queues : List (ℕ × QueueInfo)) (e : Ev PacketRecord)
    → IsU64 (length e.r.kernel_name)
    → read_event e.ts (packet_event queues e) ≡ some (mark_of e)
read_event-packet_event queues e h = elim (Bool-cases e.begin) [
  | inl b ↦
      let (rest, p) = packet_event-begin queues e b in
      read_event_head e.ts 1 e.r (packet_event queues e) (name_bytes e.r ++ rest) e.r.kernel_name
        (p ∙ append_assoc (head_bytes e.r 1) (name_bytes e.r) rest) (omega arith)
        (read_name_begin e.r.kernel_name rest h)
      ∙ ap (λ side. some (mark_as e side)) (sym b)
  | inr b ↦
      read_event_head e.ts 2 e.r (packet_event queues e) [] []
        (packet_event-end queues e b ∙ sym (append-nil (head_bytes e.r 2))) (omega arith)
        (read_name_end [])
      ∙ ap (λ side. some (mark_as e side)) (sym b)
]

trace_packet-field_bytes :
    (ts : ℕ) (te : List ℕ)
    → trace_packet ts te
      ≡ field_bytes (8, Value.number ts)
        ++ (field_bytes (11, Value.bytes te) ++ (field_bytes (10, Value.number 1) ++ []))
unfolding trace_packet
trace_packet-field_bytes ts te =
    let a = field_bytes (8, Value.number ts) in
    let b = field_bytes (11, Value.bytes te) in
    let c = field_bytes (10, Value.number 1) in
    varint_field-field_bytes (msg_field (varint_field [] 8 ts) 11 te) 10 1
    ∙ ap (λ u. u ++ c)
        (msg_field-field_bytes (varint_field [] 8 ts) 11 te
          ∙ ap (λ u. u ++ b) (varint_field-field_bytes [] 8 ts))
    ∙ append_assoc a b c
    ∙ ap (λ u. a ++ (b ++ u)) (sym (append-nil c))

pub read_packet-trace_packet :
    (ts : ℕ) (te : List ℕ)
    → IsU64 ts
    → IsU64 (length te)
    → read_packet (trace_packet ts te) ≡ read_event ts te
unfolding read_packet
read_packet-trace_packet ts te h k =
    let b = field_bytes (11, Value.bytes te) in
    let c = field_bytes (10, Value.number 1) in
    let first : number_field 8 (trace_packet ts te) ≡ some (ts, b ++ (c ++ [])) =
      ap (number_field 8) (trace_packet-field_bytes ts te)
      ∙ number_field-field_bytes 8 ts (b ++ (c ++ [])) (omega arith) h in
    let second = bytes_field-field_bytes 11 te (c ++ []) (omega arith) k in
    let third = number_field-field_bytes 10 1 [] (omega arith) (omega arith) in
    rw (read_packet, first, second, third) refl
