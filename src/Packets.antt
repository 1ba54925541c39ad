-- ===== src/Packets.antt =====
-- Shared/include/Packets.h: the packets as bytes. The structs are packed and the machine is
-- little-endian; floats stand as their 32-bit patterns.
pub mod Codec
pub mod Entries
use ai_xr_project.Base.{
  ℕ, zero, suc, ◌+◌, ◌*◌, ◌/◌, ◌%◌, ◌^◌, List, [], ◌∷◌, ◌++◌, take, drop, Bool, true, false,
}
use ai_xr_project.Rudp.{Bytes}
use ai_xr_project.Session.{TransformState}

-- EPacketType.
abbrev pub pkt_join : ℕ
pkt_join = 0x01

abbrev pub pkt_leave : ℕ
pkt_leave = 0x02

abbrev pub pkt_transform : ℕ
pkt_transform = 0x03

abbrev pub pkt_era_change : ℕ
pkt_era_change = 0x04

abbrev pub pkt_heartbeat : ℕ
pkt_heartbeat = 0x05

abbrev pub pkt_ai_trigger : ℕ
pkt_ai_trigger = 0x06

abbrev pub pkt_ack : ℕ
pkt_ack = 0x07

abbrev pub pkt_server_state : ℕ
pkt_server_state = 0x08

abbrev pub pkt_world_state : ℕ
pkt_world_state = 0x09

-- EPacketFlags.
abbrev pub pkt_flag_none : ℕ
pkt_flag_none = 0x00

abbrev pub pkt_flag_reliable : ℕ
pkt_flag_reliable = 0x01

-- The sizes of the packed structs.
abbrev pub sizeof_header : ℕ
sizeof_header = 2 + 1 + 1 + 2 + 4 + 4 + 1

abbrev pub sizeof_join : ℕ
sizeof_join = sizeof_header + 4 + 4 + 16 + 4

abbrev pub sizeof_leave : ℕ
sizeof_leave = sizeof_header + 4 + 1

abbrev pub sizeof_transform : ℕ
sizeof_transform = sizeof_header + 4 + 4 + 4 + 8 + 3 * 4 + 4 * 4 + 3 * 4 + 1 + 1

abbrev pub sizeof_era_change : ℕ
sizeof_era_change = sizeof_header + 4 + 4 + 1 + 1 + 1 + 8

abbrev pub sizeof_heartbeat : ℕ
sizeof_heartbeat = sizeof_header + 4 + 8

abbrev pub sizeof_ai_trigger : ℕ
sizeof_ai_trigger = sizeof_header + 4 + 4 + 4 + 1 + 4

abbrev pub sizeof_ack : ℕ
sizeof_ack = sizeof_header + 4 + 4

abbrev pub sizeof_server_state : ℕ
sizeof_server_state = sizeof_header + 4 + 1 + 4 + 1

abbrev pub sizeof_world_state_entry : ℕ
sizeof_world_state_entry = 4 + 4 + 3 * 4 + 4 * 4 + 3 * 4 + 1 + 1

abbrev pub sizeof_world_state_body : ℕ
sizeof_world_state_body = 8 + 2 + 1 + 1

-- An unsigned integer in memory, lowest byte first, and what bytes stand for.
unfoldable pub le_bytes : ℕ → ℕ → Bytes
le_bytes zero x = []
le_bytes (suc n) x = (x % 256) ∷ le_bytes n (x / 256)

unfoldable pub le_value : Bytes → ℕ
le_value [] = 0
le_value (b ∷ bs) = b + 256 * le_value bs

-- The field of the given offset and size.
unfoldable pub field : ℕ → ℕ → Bytes → ℕ
field off size bytes = le_value (take size (drop off bytes))

-- FPacketHeader.
pub record PacketHeader : Type 0 where
  pub magic_0 : ℕ
  pub magic_1 : ℕ
  pub version : ℕ
  pub type : ℕ
  pub body_len : ℕ
  pub seq_num : ℕ
  pub ack_num : ℕ
  pub flags : ℕ

unfoldable pub header_bytes : PacketHeader → Bytes
header_bytes h =
    le_bytes 1 h.magic_0
    ++ (le_bytes 1 h.magic_1
        ++ (le_bytes 1 h.version
            ++ (le_bytes 1 h.type
                ++ (le_bytes 2 h.body_len
                    ++ (le_bytes 4 h.seq_num ++ (le_bytes 4 h.ack_num ++ le_bytes 1 h.flags))))))

-- The memcpy of a header out of a buffer.
unfoldable pub header_of : Bytes → PacketHeader
header_of bytes = record {
  magic_0 = field 0 1 bytes;
  magic_1 = field 1 1 bytes;
  version = field 2 1 bytes;
  type = field 3 1 bytes;
  body_len = field 4 2 bytes;
  seq_num = field 6 4 bytes;
  ack_num = field 10 4 bytes;
  flags = field 14 1 bytes;
}

-- FJoinPacket.UserId.
unfoldable pub join_user_id : Bytes → ℕ
join_user_id = field sizeof_header 4

-- What HandleTransform takes out of FSyncTransformPacket.
unfoldable pub transform_of : Bytes → TransformState
transform_of bytes = record {
  seq = field 23 4 bytes;
  pos_x = field 35 4 bytes;
  pos_y = field 39 4 bytes;
  pos_z = field 43 4 bytes;
  rot_x = field 47 4 bytes;
  rot_y = field 51 4 bytes;
  rot_z = field 55 4 bytes;
  rot_w = field 59 4 bytes;
  vel_x = field 63 4 bytes;
  vel_y = field 67 4 bytes;
  vel_z = field 71 4 bytes;
  era = field 75 1 bytes;
  flags = field 76 1 bytes;
}

-- FEraChangePacket.ToEra.
unfoldable pub era_change_to_era : Bytes → ℕ
era_change_to_era = field 24 1

-- FAckPacket.
unfoldable pub ack_bytes : PacketHeader → ℕ → ℕ → Bytes
ack_bytes h user_id ack_seq_num = header_bytes h ++ (le_bytes 4 user_id ++ le_bytes 4 ack_seq_num)

-- FWorldStateEntry of a user with the given transform.
unfoldable pub entry_bytes : ℕ × TransformState → Bytes
entry_bytes (user_id, t) =
    le_bytes 4 user_id
    ++ (le_bytes 4 t.seq
        ++ (le_bytes 4 t.pos_x
            ++ (le_bytes 4 t.pos_y
                ++ (le_bytes 4 t.pos_z
                    ++ (le_bytes 4 t.rot_x
                        ++ (le_bytes 4 t.rot_y
                            ++ (le_bytes 4 t.rot_z
                                ++ (le_bytes 4 t.rot_w
                                    ++ (le_bytes 4 t.vel_x
                                        ++ (le_bytes 4 t.vel_y
                                            ++ (le_bytes 4 t.vel_z
                                                ++ (le_bytes 1 t.era
                                                    ++ le_bytes 1 t.flags))))))))))))

-- FWorldStateBody.
pub record WorldStateBody : Type 0 where
  pub server_time_ms : ℕ
  pub entry_count : ℕ
  pub frag_index : ℕ
  pub frag_count : ℕ

unfoldable pub body_bytes : WorldStateBody → Bytes
body_bytes b =
    le_bytes 8 b.server_time_ms
    ++ (le_bytes 2 b.entry_count ++ (le_bytes 1 b.frag_index ++ le_bytes 1 b.frag_count))
