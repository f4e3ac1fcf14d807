-- ===== src/TraceWriter/Marks.antt =====
-- A reader of the traces that `WritePerfetto` of src/trace_writer.cpp writes: the times, tracks, types
-- and names of their track events.
use native.Mathlib.Omega.{arith}
use hsa_snoop.Prelude.{
  length, IsU64, Text, ℕ, zero, suc, ◌+◌, ◌%◌, ◌^◌, ◌<◌, ◌≡◌, Option, none, some, List, [], ◌∷◌,
  ◌++◌, arith, ◌==◌, if◌then◌else◌,
}
use hsa_snoop.Model.{PacketRecord}
use hsa_snoop.TraceWriter.Wire.{Value, read_field, field_bytes, read_field-field_bytes}
use hsa_snoop.TraceWriter.Events.{Ev}

-- What is read of a track event: its time in nanoseconds, its track, its type (1 begins a slice, 2
-- ends it), and the name of the slice that it begins.
pub record Mark : Type 0 where
  pub ts : ℕ
  pub track : ℕ
  pub type : ℕ
  pub name : Text

abbrev as_number : ℕ → ℕ × Value → List ℕ → Option (ℕ × List ℕ)
as_number n (k, Value.number v) rest = if k == n then some (v, rest) else none
as_number n (k, Value.bytes s) rest = none

abbrev as_bytes : ℕ → ℕ × Value → List ℕ → Option (List ℕ × List ℕ)
as_bytes n (k, Value.number v) rest = none
as_bytes n (k, Value.bytes s) rest = if k == n then some (s, rest) else none

-- The number of the field `n`, if that comes first in a message, and what follows it.
unfoldable pub number_field : ℕ → List ℕ → Option (ℕ × List ℕ)
unfolding read_field
number_field n bs = elim (read_field bs) [ none ↦ none | some (f, rest) ↦ as_number n f rest ]

-- The bytes of the field `n`, if that comes first, and what follows it.
unfoldable pub bytes_field : ℕ → List ℕ → Option (List ℕ × List ℕ)
unfolding read_field
bytes_field n bs = elim (read_field bs) [ none ↦ none | some (f, rest) ↦ as_bytes n f rest ]

-- The name of a slice is field 23 of the event that begins it.
unfoldable pub read_name : ℕ → List ℕ → Option Text
unfolding bytes_field
read_name type bs =
    let named : Option Text = elim (bytes_field 23 bs) [ none ↦ none | some (s, rest) ↦ some s ] in
    if type == 1 then named else some []

-- A `TrackEvent`: the track is field 11, the type field 9.
unfoldable pub read_event : ℕ → List ℕ → Option Mark
unfolding number_field read_name
read_event ts bs = elim (number_field 11 bs) [
  | none ↦ none
  | some (track, more) ↦ elim (number_field 9 more) [
    | none ↦ none
    | some (type, args) ↦ elim (read_name type args) [
      | none ↦ none
      | some name ↦ some (record { ts = ts; track = track; type = type; name = name })
    ]
  ]
]

-- A `TracePacket`: the timestamp is field 8, the event field 11, the sequence id 1 field 10.
unfoldable pub read_packet : List ℕ → Option Mark
unfolding number_field bytes_field read_event
read_packet bs = elim (number_field 8 bs) [
  | none ↦ none
  | some (ts, more) ↦ elim (bytes_field 11 more) [
    | none ↦ none
    | some (te, last) ↦ elim (number_field 10 last) [
      | none ↦ none
      | some (seq, rest) ↦ if seq == 1 then read_event ts te else none
    ]
  ]
]

-- A trace of at most `n` packets: each is field 1; `none` if it is not read to its end.
unfoldable pub read_trace : ℕ → List ℕ → Option (List Mark)
unfolding bytes_field read_packet
read_trace n [] = some []
read_trace zero (b ∷ bs) = none
read_trace (suc n) (b ∷ bs) = elim (bytes_field 1 (b ∷ bs)) [
  | none ↦ none
  | some (p, rest) ↦ elim (read_packet p) [
    | none ↦ none
    | some m ↦ elim (read_trace n rest) [ none ↦ none | some ms ↦ some (m ∷ ms) ]
  ]
]

-- What should be read of an event: the queue's track is 0x51000000 and the uid.
abbrev pub mark_of : Ev PacketRecord → Mark
mark_of e = record {
  ts = e.ts;
  track = (0x51000000 + e.r.queue_uid) % 2 ^ 64;
  type = if e.begin then 1 else 2;
  name = if e.begin then e.r.kernel_name else [];
}

abbrev pub marks_of : List (Ev PacketRecord) → List Mark
marks_of [] = []
marks_of (e ∷ es) = mark_of e ∷ marks_of es

pub number_field-field_bytes :
    (n v : ℕ) (rest : List ℕ)
    → n < 2 ^ 29
    → IsU64 v
    → number_field n (field_bytes (n, Value.number v) ++ rest) ≡ some (v, rest)
unfolding number_field
number_field-field_bytes n v rest h k =
    let e = read_field-field_bytes (n, Value.number v) rest (h, k) in
    rw (number_field, e) (ground arith)

pub bytes_field-field_bytes :
    (n : ℕ) (s rest : List ℕ)
    → n < 2 ^ 29
    → IsU64 (length s)
    → bytes_field n (field_bytes (n, Value.bytes s) ++ rest) ≡ some (s, rest)
unfolding bytes_field
bytes_field-field_bytes n s rest h k =
    let e = read_field-field_bytes (n, Value.bytes s) rest (h, k) in
    rw (bytes_field, e) (ground arith)
