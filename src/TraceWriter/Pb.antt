-- ===== src/TraceWriter/Pb.antt =====
-- `Pb` of src/trace_writer.cpp, the writer of protobuf messages. A message is its bytes so far.
use hsa_snoop.Prelude.{
  length, Text, ℕ, zero, suc, ◌+◌, ◌*◌, ◌/◌, ◌%◌, ◌^◌, List, [], ◌∷◌, ◌++◌, leb, if◌then◌else◌,
}

-- The loop of `Varint` with the rounds that are left.
unfoldable pub varint_loop : ℕ → ℕ → List ℕ
varint_loop zero v = []
varint_loop (suc n) v =
    let rest = varint_loop n (v / 2 ^ 7) in if leb 128 v then (v % 2 ^ 7 + 128) ∷ rest else v ∷ []

-- A 64-bit number takes at most 10 groups of 7 bits.
unfoldable pub varint : List ℕ → ℕ → List ℕ
unfolding varint_loop
varint buf v = buf ++ varint_loop 10 v

-- `(field << 3) | wire`, with a wire type below 8.
unfoldable pub tag : List ℕ → ℕ → ℕ → List ℕ
unfolding varint
tag buf field wire = varint buf (field * 2 ^ 3 + wire)

unfoldable pub varint_field : List ℕ → ℕ → ℕ → List ℕ
unfolding tag
varint_field buf field v = varint (tag buf field 0) v

unfoldable pub string_field : List ℕ → ℕ → Text → List ℕ
unfolding tag
string_field buf field s = varint (tag buf field 2) (length s) ++ s

unfoldable pub msg_field : List ℕ → ℕ → List ℕ → List ℕ
unfolding tag
msg_field buf field m = varint (tag buf field 2) (length m) ++ m

unfoldable pub debug_str : Text → Text → List ℕ
unfolding string_field
debug_str name val = string_field (string_field [] 10 name) 6 val

unfoldable pub debug_uint : Text → ℕ → List ℕ
unfolding string_field varint_field
debug_uint name val = varint_field (string_field [] 10 name) 4 val
