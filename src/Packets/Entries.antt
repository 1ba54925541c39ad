-- ===== src/Packets/Entries.antt =====
-- FWorldStateEntry of Shared/include/Packets.h, read back from the bytes.
use ai_xr_project.Base.{ℕ, ◌^◌, ◌<◌, ◌≡◌, refl, ◌++◌, drop}
use ai_xr_project.Rudp.{Bytes}
use ai_xr_project.Session.{TransformState}
use ai_xr_project.Packets.{le_bytes, field, entry_bytes}
use ai_xr_project.Packets.Codec.{le_value_1, le_value_4}

-- UserId and the transform, at the offsets of the layout.
unfoldable pub entry_of : Bytes → ℕ × TransformState
entry_of b = (
  field 0 4 b,
  record {
    seq = field 4 4 b;
    pos_x = field 8 4 b;
    pos_y = field 12 4 b;
    pos_z = field 16 4 b;
    rot_x = field 20 4 b;
    rot_y = field 24 4 b;
    rot_z = field 28 4 b;
    rot_w = field 32 4 b;
    vel_x = field 36 4 b;
    vel_y = field 40 4 b;
    vel_z = field 44 4 b;
    era = field 48 1 b;
    flags = field 49 1 b;
  },
)

-- Every field in the range of its type.
pub record IsTransform (t : TransformState) : Type 0 where
  pub seq_word : t.seq < 2 ^ 32
  pub pos_x_word : t.pos_x < 2 ^ 32
  pub pos_y_word : t.pos_y < 2 ^ 32
  pub pos_z_word : t.pos_z < 2 ^ 32
  pub rot_x_word : t.rot_x < 2 ^ 32
  pub rot_y_word : t.rot_y < 2 ^ 32
  pub rot_z_word : t.rot_z < 2 ^ 32
  pub rot_w_word : t.rot_w < 2 ^ 32
  pub vel_x_word : t.vel_x < 2 ^ 32
  pub vel_y_word : t.vel_y < 2 ^ 32
  pub vel_z_word : t.vel_z < 2 ^ 32
  pub era_byte : t.era < 2 ^ 8
  pub flags_byte : t.flags < 2 ^ 8

abbrev pub IsEntry : ℕ × TransformState → Type 0
IsEntry (u, t) = (u < 2 ^ 32) × IsTransform t

-- An entry whose fields fit their types, written in front of any bytes, is read back as it was.
pub entry_of-entry_bytes :
    (e : ℕ × TransformState) (rest : Bytes)
    → IsEntry e
    → (entry_of (entry_bytes e ++ rest) ≡ e) × (drop 50 (entry_bytes e ++ rest) ≡ rest)
unfolding entry_of entry_bytes field le_bytes
entry_of-entry_bytes (u, t) rest (hu, h) = (
  λ i. (
    le_value_4 u hu i,
    record {
      seq = le_value_4 t.seq h.seq_word i;
      pos_x = le_value_4 t.pos_x h.pos_x_word i;
      pos_y = le_value_4 t.pos_y h.pos_y_word i;
      pos_z = le_value_4 t.pos_z h.pos_z_word i;
      rot_x = le_value_4 t.rot_x h.rot_x_word i;
      rot_y = le_value_4 t.rot_y h.rot_y_word i;
      rot_z = le_value_4 t.rot_z h.rot_z_word i;
      rot_w = le_value_4 t.rot_w h.rot_w_word i;
      vel_x = le_value_4 t.vel_x h.vel_x_word i;
      vel_y = le_value_4 t.vel_y h.vel_y_word i;
      vel_z = le_value_4 t.vel_z h.vel_z_word i;
      era = le_value_1 t.era h.era_byte i;
      flags = le_value_1 t.flags h.flags_byte i;
    },
  ),
  refl,
)
