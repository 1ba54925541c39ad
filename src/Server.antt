-- ===== src/Server.antt =====
-- Server_Core/Network/IOCPServer.h and IOCPServer.cpp: the server's state, sending, and the packet
-- dispatcher of the I/O workers. Each function is one step of one thread. Winsock is a parameter:
-- `accepts n` tells whether the n-th WSASendTo is queued (immediate completion or WSA_IO_PENDING).
-- `sent` lists what was queued, `calls` counts the calls; both are only for statements. A time is an
-- argument, one reading of the clock for each step. Log lines are left out.
pub mod App
pub mod Reliable
pub mod Sweep
pub mod Fragments
pub mod Reassembly
pub mod Broadcast
pub mod Ticks
pub mod Invariant
pub mod Steps
pub mod AppSteps
pub mod Runs
pub mod Dispatch
pub mod Handled
pub mod Delivery
pub mod Workers
pub mod Acks
pub mod Leave
pub mod LogicThread
use ai_xr_project.Base.{
  ℕ, zero, suc, ◌+◌, ◌-◌, ◌%◌, List, [], ◌∷◌, ◌++◌, map, Option, none, some, Bool, true, false, not,
  ◌&&◌, ◌||◌, ltb, leb, ◌==◌, if◌then◌else◌, length,
}
use ai_xr_project.Rudp.{
  Bytes, RudpChannel, on_reliable_received, get_cumulative_ack, accept_unreliable, on_ack_received,
}
use ai_xr_project.Session.{Session, SockAddr, touch}
use ai_xr_project.SessionManager.{SessionManager, new_manager, deref, find_by_addr, create_or_get}
use ai_xr_project.LogicQueue
use ai_xr_project.LogicQueue.{LogicQueue, new_queue}
use ai_xr_project.SendPool
use ai_xr_project.SendPool.{SendPool, init_send_pool}
use ai_xr_project.Packets.{
  PacketHeader, header_of, join_user_id, ack_bytes, pkt_join, pkt_transform, pkt_ack, pkt_flag_none,
  sizeof_header, sizeof_join, sizeof_ack,
}

abbrev pub max_udp_payload : ℕ
max_udp_payload = 1472

abbrev pub logic_thread_count : ℕ
logic_thread_count = 4

abbrev pub magic_byte_0 : ℕ
magic_byte_0 = 0x41

abbrev pub magic_byte_1 : ℕ
magic_byte_1 = 0x52

-- FLogicWorkItem.
pub record LogicWorkItem : Type 0 where
  pub session_ref : ℕ
  pub packet : Bytes

pub record Server : Type 0 where
  pub running : Bool
  pub manager : SessionManager
  pub logic_queues : List (LogicQueue LogicWorkItem)
  pub pool : SendPool
  pub calls : ℕ
  pub sent : List (SockAddr × Bytes)

-- The state when Start has returned true.
unfoldable pub started : Server
unfolding init_send_pool
started = record {
  running = true;
  manager = new_manager;
  logic_queues = new_queue ∷ new_queue ∷ new_queue ∷ new_queue ∷ [];
  pool = init_send_pool;
  calls = 0;
  sent = [];
}

-- A change of the session at a pointer.
unfoldable pub modify : (Session → Session) → ℕ → List Session → List Session
modify f p [] = []
modify f zero (s ∷ ss) = f s ∷ ss
modify f (suc p) (s ∷ ss) = s ∷ modify f p ss

abbrev pub session_at : Server → ℕ → Session
session_at sv p = deref sv.manager.objects p

unfoldable pub update_session : Server → ℕ → (Session → Session) → Server
update_session sv p f = record sv {
  manager = record (sv.manager) { objects = modify f p sv.manager.objects };
}

abbrev pub update_rudp : Server → ℕ → RudpChannel → Server
update_rudp sv p c = update_session sv p (λ s. record s { rudp = c })

-- SendTo.
unfoldable pub send_to : (ℕ → Bool) → Server → SockAddr → Bytes → Server × Bool
send_to accepts sv to bytes =
    if length bytes == 0 || ltb max_udp_payload (length bytes)
    then (sv, false)
    else if not sv.running
    then (sv, false)
    else (let (pool, buffer) = SendPool.acquire sv.pool in
        if accepts sv.calls
        then (
          record sv { pool = pool; calls = suc sv.calls; sent = sv.sent ++ (to, bytes) ∷ [] },
          true,
        )
        else (record sv { pool = SendPool.release pool buffer; calls = suc sv.calls }, false))

-- OnSendCompleted.
unfoldable pub on_send_completed : Server → ℕ → Server
on_send_completed sv buffer = record sv { pool = SendPool.release sv.pool buffer }

-- The packet of SendAck.
unfoldable pub ack_packet : ℕ → ℕ → Bytes
ack_packet user_id cumulative_ack =
    ack_bytes
      (record {
        magic_0 = magic_byte_0;
        magic_1 = magic_byte_1;
        version = 0x01;
        type = pkt_ack;
        body_len = sizeof_ack - sizeof_header;
        seq_num = 0;
        ack_num = cumulative_ack;
        flags = pkt_flag_none;
      })
      user_id cumulative_ack

-- SendAck.
unfoldable pub send_ack : (ℕ → Bool) → Server → ℕ → ℕ → Server
send_ack accepts sv p cumulative_ack =
    (send_to accepts sv (session_at sv p).remote_addr
      (ack_packet (session_at sv p).user_id cumulative_ack)).0

-- Push on the queue of an index.
unfoldable pub push_at :
    ℕ → LogicWorkItem → List (LogicQueue LogicWorkItem) → List (LogicQueue LogicWorkItem)
push_at i item [] = []
push_at zero item (q ∷ qs) = LogicQueue.push q item ∷ qs
push_at (suc i) item (q ∷ qs) = q ∷ push_at i item qs

-- EnqueueLogic.
unfoldable pub enqueue_logic : Server → ℕ → Bytes → Server
enqueue_logic sv p packet = record sv {
  logic_queues =
      push_at ((session_at sv p).session_id % logic_thread_count)
        (record { session_ref = p; packet = packet }) sv.logic_queues;
}

unfoldable pub enqueue_all : Server → ℕ → List Bytes → Server
enqueue_all sv p [] = sv
enqueue_all sv p (b ∷ bs) = enqueue_all (enqueue_logic sv p b) p bs

-- Shutdown: the exchange of m_bRunning, which only the first call passes.
unfoldable pub stop_running : Server → Server × Bool
stop_running sv = if sv.running then (record sv { running = false }, true) else (sv, false)

-- Shutdown: the signal to all queues.
unfoldable pub stop_queues : Server → Server
stop_queues sv = record sv { logic_queues = map LogicQueue.shutdown sv.logic_queues }

-- Part 9 of DispatchPacket, reliable packets.
unfoldable pub route_reliable : (ℕ → Bool) → Server → ℕ → PacketHeader → Bytes → Server
route_reliable accepts sv p header bytes =
    let r = on_reliable_received (session_at sv p).rudp header.seq_num bytes in
    let sv' = enqueue_all (update_rudp sv p r.0) p r.1 in
    send_ack accepts sv' p (get_cumulative_ack (session_at sv' p).rudp)

-- Part 9 of DispatchPacket, unreliable packets.
unfoldable pub route_unreliable : Server → ℕ → PacketHeader → Bytes → Server
route_unreliable sv p header bytes =
    if header.type == pkt_transform
    then (let r = accept_unreliable (session_at sv p).rudp header.seq_num in
        if r.1 then enqueue_logic (update_rudp sv p r.0) p bytes else update_rudp sv p r.0)
    else enqueue_logic sv p bytes

-- DispatchPacket from Touch on, for the session at p. PKT_FLAG_RELIABLE is the lowest bit of Flags.
unfoldable pub route : (ℕ → Bool) → Server → ℕ → PacketHeader → Bytes → ℕ → Server
route accepts sv p header bytes now =
    let sv' =
      update_session sv p
        (λ s. record (touch s now) { rudp = on_ack_received s.rudp header.ack_num }) in
    if header.flags % 2 == 1
    then route_reliable accepts sv' p header bytes
    else route_unreliable sv' p header bytes

-- Parts 1 to 5 of DispatchPacket.
unfoldable pub is_well_formed : Bytes → Bool
is_well_formed bytes =
    let header = header_of bytes in
    not (ltb (length bytes) sizeof_header)
    && (header.magic_0 == magic_byte_0
        && (header.magic_1 == magic_byte_1
            && (header.version == 0x01
                && not (ltb (length bytes) (sizeof_header + header.body_len)))))

-- DispatchPacket, with no other worker in between. Workers cuts it at its locks.
unfoldable pub dispatch_packet : (ℕ → Bool) → Server → Bytes → SockAddr → ℕ → Server
dispatch_packet accepts sv bytes sender now =
    let header = header_of bytes in
    if not (is_well_formed bytes)
    then sv
    else if header.type == pkt_join
    then (if ltb (length bytes) sizeof_join
        then sv
        else (let r = create_or_get sv.manager (join_user_id bytes) sender now in
            route accepts (record sv { manager = r.0 }) r.1 header bytes now))
    else (elim (find_by_addr sv.manager sender) [
      | none ↦ sv
      | some p ↦ route accepts sv p header bytes now
    ])
