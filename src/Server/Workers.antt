-- ===== src/Server/Workers.antt =====
-- DispatchPacket of Server_Core/Network/IOCPServer.cpp on several I/O workers: between two steps of
-- one worker the others may take steps. A step ends where the code releases a lock, so that looking
-- up the session, Touch, each method of the channel, each Push and each SendTo are steps.
pub mod Reordered
pub mod Alone
use ai_xr_project.Base.{
  ℕ, zero, suc, ◌+◌, ◌%◌, ◌<◌, ◌≡◌, refl, ap, sym, ◌∙◌, List, [], ◌∷◌, ◌++◌, none, some, Bool, true,
  Bool-cases, inl, inr, false, not, ◌==◌, ltb, if◌then◌else◌, length, arith, append_assoc, ap₂,
}
use ai_xr_project.Base.Dict.{find}
use ai_xr_project.Rudp.{
  Bytes, RudpChannel, new_channel, drain, drop_acked, on_reliable_received, on_ack_received,
  get_cumulative_ack, accept_unreliable,
}
use ai_xr_project.Session.{Session, SockAddr, touch}
use ai_xr_project.SessionManager.{make_key, find_by_addr, create_or_get}
use ai_xr_project.LogicQueue.{LogicQueue}
use ai_xr_project.Packets.{header_of, join_user_id, pkt_join, pkt_transform, sizeof_join}
use ai_xr_project.Server.{
  Server, LogicWorkItem, session_at, push_at, update_session, update_rudp, enqueue_logic, send_ack,
  is_well_formed,
}
use ai_xr_project.Server.App.{queue_at}
use ai_xr_project.Server.Invariant.{length-modify}
use ai_xr_project.Server.Dispatch.{
  IsReliable, inbound, touched, deref-modify_here, lane_of, reliable-is_well_formed,
}
use ai_xr_project.Server.Delivery.{queue_at-push_at}

-- How far a worker is in DispatchPacket, with the local variables that it still needs.
pub data Stage : Type 0 where
  idle : Stage
  got : Bytes → SockAddr → Stage
  resolved : ℕ → Bytes → Stage
  renewed : ℕ → Bytes → Stage
  acknowledged : ℕ → Bytes → Stage
  pushing : ℕ → Bool → List Bytes → Stage
  answering : ℕ → ℕ → Stage

-- Part 7: the session of a packet that passed the checks.
unfoldable pub resolve : Server → Bytes → SockAddr → ℕ → Server × Stage
resolve sv bytes sender now =
    if (header_of bytes).type == pkt_join
    then (if ltb (length bytes) sizeof_join
        then (sv, idle)
        else (let r = create_or_get sv.manager (join_user_id bytes) sender now in
            (record sv { manager = r.0 }, resolved r.1 bytes)))
    else (elim (find_by_addr sv.manager sender) [
      | none ↦ (sv, idle)
      | some p ↦ (sv, resolved p bytes)
    ])

-- Part 9 up to the first Push.
unfoldable pub receive : Server → ℕ → Bytes → Server × Stage
receive sv p bytes =
    let header = header_of bytes in
    if header.flags % 2 == 1
    then (let r = on_reliable_received (session_at sv p).rudp header.seq_num bytes in
        (update_rudp sv p r.0, pushing p true r.1))
    else if header.type == pkt_transform
    then (let r = accept_unreliable (session_at sv p).rudp header.seq_num in
        (update_rudp sv p r.0, (if r.1 then pushing p false (bytes ∷ []) else idle)))
    else (sv, pushing p false (bytes ∷ []))

-- The next step of a worker. The second argument of `pushing` tells whether an ACK follows.
unfoldable pub work : (ℕ → Bool) → Server → ℕ → Stage → Server × Stage
work accepts sv now idle = (sv, idle)
work accepts sv now (got bytes sender) =
    if not (is_well_formed bytes) then (sv, idle) else resolve sv bytes sender now
work accepts sv now (resolved p bytes) = (update_session sv p (λ s. touch s now), renewed p bytes)
work accepts sv now (renewed p bytes) = (
  update_rudp sv p (on_ack_received (session_at sv p).rudp (header_of bytes).ack_num),
  acknowledged p bytes,
)
work accepts sv now (acknowledged p bytes) = receive sv p bytes
work accepts sv now (pushing p acks (b ∷ bs)) = (enqueue_logic sv p b, pushing p acks bs)
work accepts sv now (pushing p true []) =
    (sv, answering p (get_cumulative_ack (session_at sv p).rudp))
work accepts sv now (pushing p false []) = (sv, idle)
work accepts sv now (answering p ack) = (send_ack accepts sv p ack, idle)

-- A step of the worker with this index, and a schedule: which worker makes a step, and when.
unfoldable pub work_on : (ℕ → Bool) → ℕ → ℕ → Server → List Stage → Server × List Stage
work_on accepts now w sv [] = (sv, [])
work_on accepts now zero sv (stage ∷ stages) =
    let r = work accepts sv now stage in (r.0, r.1 ∷ stages)
work_on accepts now (suc w) sv (stage ∷ stages) =
    let r = work_on accepts now w sv stages in (r.0, stage ∷ r.1)

unfoldable pub workers : (ℕ → Bool) → List (ℕ × ℕ) → Server → List Stage → Server × List Stage
workers accepts [] sv stages = (sv, stages)
workers accepts ((w, now) ∷ rest) sv stages =
    let r = work_on accepts now w sv stages in workers accepts rest r.0 r.1
