-- ===== src/Session.antt =====
-- Server_Core/Network/Session.h: the state of one client's logical connection. Floats are only
-- copied here and stand as their 32-bit patterns. An address is the pair that SOCKADDR_IN holds.
-- The owner thread alone changes the transform; a step of another thread sees the transform between
-- two such changes, which is what Session/Seqlock and its children look into.
pub mod Seqlock
use ai_xr_project.Base.{ℕ, ◌+◌, ◌-◌, List, [], ◌∷◌}
use ai_xr_project.Rudp.{RudpChannel, new_channel}

-- SOCKADDR_IN: sin_addr.s_addr and sin_port.
pub record SockAddr : Type 0 where
  pub s_addr : ℕ
  pub sin_port : ℕ

-- Session::FTransformState.
pub record TransformState : Type 0 where
  pub seq : ℕ
  pub pos_x : ℕ
  pub pos_y : ℕ
  pub pos_z : ℕ
  pub rot_x : ℕ
  pub rot_y : ℕ
  pub rot_z : ℕ
  pub rot_w : ℕ
  pub vel_x : ℕ
  pub vel_y : ℕ
  pub vel_z : ℕ
  pub era : ℕ
  pub flags : ℕ

-- The bit pattern of 1.0f.
abbrev pub float_one : ℕ
float_one = 0x3f80_0000

-- The member initialisers of FTransformState.
abbrev pub no_transform : TransformState
no_transform = record {
  seq = 0;
  pos_x = 0;
  pos_y = 0;
  pos_z = 0;
  rot_x = 0;
  rot_y = 0;
  rot_z = 0;
  rot_w = float_one;
  vel_x = 0;
  vel_y = 0;
  vel_z = 0;
  era = 0;
  flags = 0;
}

pub record Session : Type 0 where
  pub session_id : ℕ
  pub user_id : ℕ
  pub remote_addr : SockAddr
  pub last_recv_ms : ℕ
  pub transform : TransformState
  pub rudp : RudpChannel

-- The constructor, at the time `now`: it calls Touch.
unfoldable pub new_session : ℕ → ℕ → SockAddr → ℕ → Session
new_session session_id user_id addr now = record {
  session_id = session_id;
  user_id = user_id;
  remote_addr = addr;
  last_recv_ms = now;
  transform = no_transform;
  rudp = new_channel;
}

-- Touch.
unfoldable pub touch : Session → ℕ → Session
touch s now = record s { last_recv_ms = now }

-- IdleMs. The clock is monotonic, so the difference is not negative.
unfoldable pub idle_ms : Session → ℕ → ℕ
idle_ms s now = now - s.last_recv_ms

-- PublishTransform, as one step.
unfoldable pub publish_transform : Session → TransformState → Session
publish_transform s t = record s { transform = t }

-- SetEra, as one step.
unfoldable pub set_era : Session → ℕ → Session
set_era s era = record s { transform = record (s.transform) { era = era } }

-- GetEra.
unfoldable pub get_era : Session → ℕ
get_era s = s.transform.era
