-- ===== src/Server/Sweep.antt =====
-- The main thread of Server_Core/Network/IOCPServer.cpp: RetransmitSweep and the loop of RunRecvLoop.
use ai_xr_project.Base.{ℕ, ◌+◌, List, [], ◌∷◌, ◌++◌, Bool, ltb, if◌then◌else◌}
use ai_xr_project.Rudp.{Bytes, collect_retransmits}
use ai_xr_project.Session.{SockAddr}
use ai_xr_project.SessionManager.{each_session, remove_by_user_id, remove_timed_out}
use ai_xr_project.Server.{Server, session_at, update_rudp, send_to}

abbrev pub session_timeout_ms : ℕ
session_timeout_ms = 10000

abbrev pub rudp_retrans_timeout_ms : ℕ
rudp_retrans_timeout_ms = 200

abbrev pub rudp_max_retries : ℕ
rudp_max_retries = 10

-- The sends of one session's packets.
unfoldable pub send_all : (ℕ → Bool) → Server → SockAddr → List Bytes → Server
send_all accepts sv to [] = sv
send_all accepts sv to (b ∷ bs) = send_all accepts (send_to accepts sv to b).0 to bs

-- The callback of RetransmitSweep for the session at p: the server, and the users to remove.
unfoldable pub retransmit_session : (ℕ → Bool) → Server → ℕ → ℕ → Server × List ℕ
retransmit_session accepts sv p now =
    let r =
      collect_retransmits (session_at sv p).rudp now rudp_retrans_timeout_ms rudp_max_retries in
    (
      send_all accepts (update_rudp sv p r.0) (session_at sv p).remote_addr r.1,
      elim r.2 [ [] ↦ [] | _ ∷ _ ↦ (session_at sv p).user_id ∷ [] ],
    )

-- ForEach with that callback.
unfoldable pub retransmit_each : (ℕ → Bool) → Server → List ℕ → ℕ → Server × List ℕ
retransmit_each accepts sv [] now = (sv, [])
retransmit_each accepts sv (p ∷ ps) now =
    let r = retransmit_session accepts sv p now in
    let rest = retransmit_each accepts r.0 ps now in (rest.0, r.1 ++ rest.1)

-- The last loop of RetransmitSweep.
unfoldable pub remove_users : Server → List ℕ → Server
remove_users sv [] = sv
remove_users sv (u ∷ us) =
    remove_users (record sv { manager = (remove_by_user_id sv.manager u).0 }) us

-- RetransmitSweep.
unfoldable pub retransmit_sweep : (ℕ → Bool) → Server → ℕ → Server
retransmit_sweep accepts sv now =
    let r = retransmit_each accepts sv (each_session sv.manager) now in remove_users r.0 r.1

-- A round of the loop of RunRecvLoop after its sleep: the server and lastTimeoutSweepMs. `clock p` is
-- the time when the session at p is looked at.
unfoldable pub recv_round : (ℕ → Bool) → Server → ℕ → ℕ → (ℕ → ℕ) → Server × ℕ
recv_round accepts sv last now clock =
    let sv' = retransmit_sweep accepts sv now in
    if ltb now (last + 1000)
    then (sv', last)
    else (record sv' { manager = (remove_timed_out sv'.manager clock session_timeout_ms).0 }, now)
