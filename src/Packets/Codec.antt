-- ===== src/Packets/Codec.antt =====
-- What is written into a buffer by the layouts of Shared/include/Packets.h is what is read back.
use ai_xr_project.Base.{ℕ, zero, suc, ◌^◌, ◌/◌, ◌<◌, ◌≡◌, refl, ap, ◌++◌, length, arith}
use ai_xr_project.Rudp.{Bytes}
use ai_xr_project.Packets.{
  le_bytes, le_value, field, PacketHeader, header_bytes, header_of, sizeof_header, entry_bytes,
  ack_bytes, body_bytes, WorldStateBody, sizeof_ack, sizeof_world_state_entry,
  sizeof_world_state_body,
}
use ai_xr_project.Session.{TransformState}

pub length-le_bytes : (n x : ℕ) → length (le_bytes n x) ≡ n
unfolding le_bytes
length-le_bytes zero x = refl
length-le_bytes (suc n) x = ap suc (length-le_bytes n (x / 256))

-- Read as numbers at the sizes that the layouts use.
pub le_value_1 : (x : ℕ) → x < 2 ^ 8 → le_value (le_bytes 1 x) ≡ x
unfolding le_value le_bytes
le_value_1 x h = omega arith

pub le_value_2 : (x : ℕ) → x < 2 ^ 16 → le_value (le_bytes 2 x) ≡ x
unfolding le_value le_bytes
le_value_2 x h = omega arith

pub le_value_4 : (x : ℕ) → x < 2 ^ 32 → le_value (le_bytes 4 x) ≡ x
unfolding le_value le_bytes
le_value_4 x h = omega arith

-- Every field in the range of its type.
pub record IsHeader (h : PacketHeader) : Type 0 where
  pub magic_0_byte : h.magic_0 < 2 ^ 8
  pub magic_1_byte : h.magic_1 < 2 ^ 8
  pub version_byte : h.version < 2 ^ 8
  pub type_byte : h.type < 2 ^ 8
  pub body_len_word : h.body_len < 2 ^ 16
  pub seq_num_word : h.seq_num < 2 ^ 32
  pub ack_num_word : h.ack_num < 2 ^ 32
  pub flags_byte : h.flags < 2 ^ 8

-- A header whose fields fit their types, written in front of any bytes, is read back as it was.
pub header_of-header_bytes :
    (h : PacketHeader) (rest : Bytes) → IsHeader h → header_of (header_bytes h ++ rest) ≡ h
unfolding header_of header_bytes field le_bytes
header_of-header_bytes h rest v = λ i. record {
  magic_0 = le_value_1 h.magic_0 v.magic_0_byte i;
  magic_1 = le_value_1 h.magic_1 v.magic_1_byte i;
  version = le_value_1 h.version v.version_byte i;
  type = le_value_1 h.type v.type_byte i;
  body_len = le_value_2 h.body_len v.body_len_word i;
  seq_num = le_value_4 h.seq_num v.seq_num_word i;
  ack_num = le_value_4 h.ack_num v.ack_num_word i;
  flags = le_value_1 h.flags v.flags_byte i;
}

pub length-header_bytes : (h : PacketHeader) → length (header_bytes h) ≡ sizeof_header
unfolding header_bytes le_bytes
length-header_bytes h = refl

pub length-ack_bytes : (h : PacketHeader) (u a : ℕ) → length (ack_bytes h u a) ≡ sizeof_ack
unfolding ack_bytes header_bytes le_bytes
length-ack_bytes h u a = refl

-- The body of an ACK is read back as it was written.
pub ack_bytes-fields :
    (h : PacketHeader) (u a : ℕ)
    → u < 2 ^ 32
    → a < 2 ^ 32
    → (field 15 4 (ack_bytes h u a) ≡ u) × (field 19 4 (ack_bytes h u a) ≡ a)
unfolding ack_bytes header_bytes field le_bytes
ack_bytes-fields h u a hu ha = (le_value_4 u hu, le_value_4 a ha)

pub length-entry_bytes :
    (e : ℕ × TransformState) → length (entry_bytes e) ≡ sizeof_world_state_entry
unfolding entry_bytes le_bytes
length-entry_bytes (u, t) = refl

pub length-body_bytes : (b : WorldStateBody) → length (body_bytes b) ≡ sizeof_world_state_body
unfolding body_bytes le_bytes
length-body_bytes b = refl
