-- ===== src/Server/App.antt =====
-- The logic threads of Server_Core/Network/IOCPServer.cpp: LogicThread, DispatchApp and the
-- handlers. A handler that only writes a log line changes nothing.
use ai_xr_project.Base.{
  ℕ, zero, suc, List, [], ◌∷◌, Option, none, some, ltb, ◌==◌, if◌then◌else◌, length,
}
use ai_xr_project.Rudp.{Bytes}
use ai_xr_project.Session.{publish_transform, set_era}
use ai_xr_project.SessionManager.{remove_by_user_id}
use ai_xr_project.LogicQueue
use ai_xr_project.LogicQueue.{LogicQueue, Popped, waits, finished, popped}
use ai_xr_project.Packets.{
  header_of, transform_of, era_change_to_era, pkt_join, pkt_leave, pkt_transform, pkt_era_change,
  pkt_heartbeat, pkt_ai_trigger, pkt_ack, pkt_server_state, sizeof_join, sizeof_leave,
  sizeof_transform, sizeof_era_change, sizeof_heartbeat, sizeof_ai_trigger, sizeof_ack,
  sizeof_server_state,
}
use ai_xr_project.Server.{Server, LogicWorkItem, session_at, update_session}

-- HandleLeave.
unfoldable pub handle_leave : Server → ℕ → Server
handle_leave sv p = record sv {
  manager = (remove_by_user_id sv.manager (session_at sv p).user_id).0;
}

-- HandleTransform.
unfoldable pub handle_transform : Server → ℕ → Bytes → Server
handle_transform sv p packet = update_session sv p (λ s. publish_transform s (transform_of packet))

-- HandleEraChange.
unfoldable pub handle_era_change : Server → ℕ → Bytes → Server
handle_era_change sv p packet = update_session sv p (λ s. set_era s (era_change_to_era packet))

-- HandleJoin, HandleHeartbeat, HandleAiTrigger, HandleAck and HandleServerState.
unfoldable pub handle_logged : Server → Server
handle_logged sv = sv

-- DispatchApp, for the session at p: each case wants the size of its packet.
unfoldable pub dispatch_app : Server → ℕ → Bytes → Server
dispatch_app sv p packet =
    let type = (header_of packet).type in
    let size = length packet in
    if type == pkt_join
    then (if ltb size sizeof_join then sv else handle_logged sv)
    else if type == pkt_leave
    then (if ltb size sizeof_leave then sv else handle_leave sv p)
    else if type == pkt_transform
    then (if ltb size sizeof_transform then sv else handle_transform sv p packet)
    else if type == pkt_era_change
    then (if ltb size sizeof_era_change then sv else handle_era_change sv p packet)
    else if type == pkt_heartbeat
    then (if ltb size sizeof_heartbeat then sv else handle_logged sv)
    else if type == pkt_ai_trigger
    then (if ltb size sizeof_ai_trigger then sv else handle_logged sv)
    else if type == pkt_ack
    then (if ltb size sizeof_ack then sv else handle_logged sv)
    else if type == pkt_server_state
    then (if ltb size sizeof_server_state then sv else handle_logged sv)
    else sv

unfoldable pub queue_at : ℕ → List (LogicQueue LogicWorkItem) → Option (LogicQueue LogicWorkItem)
queue_at i [] = none
queue_at zero (q ∷ qs) = some q
queue_at (suc i) (q ∷ qs) = queue_at i qs

unfoldable pub set_queue :
    ℕ → LogicQueue LogicWorkItem → List (LogicQueue LogicWorkItem) → List (LogicQueue LogicWorkItem)
set_queue i q' [] = []
set_queue zero q' (q ∷ qs) = q' ∷ qs
set_queue (suc i) q' (q ∷ qs) = q ∷ set_queue i q' qs

-- One round of LogicThread on the queue of an index. A thread that waits or has ended does nothing.
unfoldable pub logic_round : Server → ℕ → Server
logic_round sv i = elim (queue_at i sv.logic_queues) [
  | none ↦ sv
  | some q ↦ elim (LogicQueue.pop q) [
    | waits ↦ sv
    | finished ↦ sv
    | popped item q' ↦
        dispatch_app (record sv { logic_queues = set_queue i q' sv.logic_queues }) item.session_ref
          item.packet
  ]
]
