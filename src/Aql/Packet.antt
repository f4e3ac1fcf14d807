-- ===== src/Aql/Packet.antt =====
-- src/aql.h and src/aql.cpp: the packet header, and the dispatch packet as 64 bytes of memory.
use hsa_snoop.Prelude.{
  length, take, drop, IsU32, IsU64, Text, codes, le_number, ℕ, zero, suc, ◌/◌, ◌%◌, ◌^◌, ◌<◌, ◌≡◌,
  refl, Bool, not, List, [], ◌∷◌, ◌++◌, arith, ◌==◌, if◌then◌else◌,
}

abbrev pub packet_size : ℕ
packet_size = 64

-- `enum class PacketType : uint8_t`. A cast from a header byte can give a value that is none of the
-- enumerators: `other`.
pub data PacketType : Type 0 where
  vendor_specific invalid kernel_dispatch barrier_and agent_dispatch barrier_or : PacketType
  other : ℕ → PacketType

unfoldable pub packet_type_name : PacketType → Text
packet_type_name vendor_specific = codes "vendor_specific"
packet_type_name invalid = codes "invalid"
packet_type_name kernel_dispatch = codes "kernel_dispatch"
packet_type_name barrier_and = codes "barrier_and"
packet_type_name agent_dispatch = codes "agent_dispatch"
packet_type_name barrier_or = codes "barrier_or"
packet_type_name (other n) = codes "unknown"

-- `static_cast<PacketType>`.
unfoldable pub to_packet_type : ℕ → PacketType
to_packet_type n =
    if n == 0
    then vendor_specific
    else if n == 1
    then invalid
    else if n == 2
    then kernel_dispatch
    else if n == 3
    then barrier_and
    else if n == 4
    then agent_dispatch
    else if n == 5
    then barrier_or
    else other n

unfoldable pub header_type : ℕ → PacketType
unfolding to_packet_type
header_type header = to_packet_type (header % 256)

unfoldable pub header_barrier : ℕ → Bool
header_barrier header = not (header / 2 ^ 8 % 2 == 0)

pub record KernelDispatchPacket : Type 0 where
  pub header : ℕ
  pub setup : ℕ
  pub workgroup_size_x : ℕ
  pub workgroup_size_y : ℕ
  pub workgroup_size_z : ℕ
  pub reserved0 : ℕ
  pub grid_size_x : ℕ
  pub grid_size_y : ℕ
  pub grid_size_z : ℕ
  pub private_segment_size : ℕ
  pub group_segment_size : ℕ
  pub kernel_object : ℕ
  pub kernarg_address : ℕ
  pub reserved2 : ℕ
  pub completion_signal : ℕ

-- The little-endian field of `width` bytes at `offset`.
unfoldable pub field_at : ℕ → ℕ → List ℕ → ℕ
field_at offset width raw = le_number (take width (drop offset raw))

-- `memcpy(&p, raw, sizeof(p))` into the packed struct.
unfoldable pub to_kernel_dispatch_packet : List ℕ → KernelDispatchPacket
unfolding field_at
to_kernel_dispatch_packet raw = record {
  header = field_at 0 2 raw;
  setup = field_at 2 2 raw;
  workgroup_size_x = field_at 4 2 raw;
  workgroup_size_y = field_at 6 2 raw;
  workgroup_size_z = field_at 8 2 raw;
  reserved0 = field_at 10 2 raw;
  grid_size_x = field_at 12 4 raw;
  grid_size_y = field_at 16 4 raw;
  grid_size_z = field_at 20 4 raw;
  private_segment_size = field_at 24 4 raw;
  group_segment_size = field_at 28 4 raw;
  kernel_object = field_at 32 8 raw;
  kernarg_address = field_at 40 8 raw;
  reserved2 = field_at 48 8 raw;
  completion_signal = field_at 56 8 raw;
}

-- The memory image of a packet, as the queue's producer writes it.
unfoldable pub le_bytes : ℕ → ℕ → List ℕ
le_bytes zero n = []
le_bytes (suc w) n = (n % 256) ∷ le_bytes w (n / 256)

unfoldable pub packet_bytes : KernelDispatchPacket → List ℕ
unfolding le_bytes
packet_bytes p =
    le_bytes 2 p.header
    ++ (le_bytes 2 p.setup
        ++ (le_bytes 2 p.workgroup_size_x
            ++ (le_bytes 2 p.workgroup_size_y
                ++ (le_bytes 2 p.workgroup_size_z
                    ++ (le_bytes 2 p.reserved0
                        ++ (le_bytes 4 p.grid_size_x
                            ++ (le_bytes 4 p.grid_size_y
                                ++ (le_bytes 4 p.grid_size_z
                                    ++ (le_bytes 4 p.private_segment_size
                                        ++ (le_bytes 4 p.group_segment_size
                                            ++ (le_bytes 8 p.kernel_object
                                                ++ (le_bytes 8 p.kernarg_address
                                                    ++ (le_bytes 8 p.reserved2
                                                        ++ le_bytes 8
                                                            p.completion_signal)))))))))))))

-- Every field is in the range of its type.
pub record IsPacket (p : KernelDispatchPacket) : Type 0 where
  pub header_u16 : p.header < 2 ^ 16
  pub setup_u16 : p.setup < 2 ^ 16
  pub workgroup_x_u16 : p.workgroup_size_x < 2 ^ 16
  pub workgroup_y_u16 : p.workgroup_size_y < 2 ^ 16
  pub workgroup_z_u16 : p.workgroup_size_z < 2 ^ 16
  pub reserved0_u16 : p.reserved0 < 2 ^ 16
  pub grid_x_u32 : IsU32 p.grid_size_x
  pub grid_y_u32 : IsU32 p.grid_size_y
  pub grid_z_u32 : IsU32 p.grid_size_z
  pub private_u32 : IsU32 p.private_segment_size
  pub group_u32 : IsU32 p.group_segment_size
  pub object_u64 : IsU64 p.kernel_object
  pub kernarg_u64 : IsU64 p.kernarg_address
  pub reserved2_u64 : IsU64 p.reserved2
  pub signal_u64 : IsU64 p.completion_signal

le_number_2 : (n : ℕ) → n < 2 ^ 16 → le_number (le_bytes 2 n) ≡ n
unfolding le_number le_bytes
le_number_2 n h = omega arith

le_number_4 : (n : ℕ) → IsU32 n → le_number (le_bytes 4 n) ≡ n
unfolding le_number le_bytes
le_number_4 n h = omega arith

le_number_8 : (n : ℕ) → IsU64 n → le_number (le_bytes 8 n) ≡ n
unfolding le_number le_bytes
le_number_8 n h = omega arith

-- The 64-byte image of a dispatch packet whose fields are in range is read back as the same packet,
-- so the offsets and widths of all fifteen fields are those of the layout, and the image has the
-- 64 bytes of an AQL packet.
pub to_packet-bytes :
    (p : KernelDispatchPacket)
    → IsPacket p
    → (to_kernel_dispatch_packet (packet_bytes p) ≡ p) × (length (packet_bytes p) ≡ packet_size)
unfolding to_kernel_dispatch_packet packet_bytes
to_packet-bytes p v = (
  λ i. record {
    header = le_number_2 p.header v.header_u16 i;
    setup = le_number_2 p.setup v.setup_u16 i;
    workgroup_size_x = le_number_2 p.workgroup_size_x v.workgroup_x_u16 i;
    workgroup_size_y = le_number_2 p.workgroup_size_y v.workgroup_y_u16 i;
    workgroup_size_z = le_number_2 p.workgroup_size_z v.workgroup_z_u16 i;
    reserved0 = le_number_2 p.reserved0 v.reserved0_u16 i;
    grid_size_x = le_number_4 p.grid_size_x v.grid_x_u32 i;
    grid_size_y = le_number_4 p.grid_size_y v.grid_y_u32 i;
    grid_size_z = le_number_4 p.grid_size_z v.grid_z_u32 i;
    private_segment_size = le_number_4 p.private_segment_size v.private_u32 i;
    group_segment_size = le_number_4 p.group_segment_size v.group_u32 i;
    kernel_object = le_number_8 p.kernel_object v.object_u64 i;
    kernarg_address = le_number_8 p.kernarg_address v.kernarg_u64 i;
    reserved2 = le_number_8 p.reserved2 v.reserved2_u64 i;
    completion_signal = le_number_8 p.completion_signal v.signal_u64 i;
  },
  refl,
)
