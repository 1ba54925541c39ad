-- ===== src/Server/Runs.antt =====
-- Whole runs of the server of Server_Core/Network/IOCPServer.cpp: any interleaving of the steps of
-- its I/O workers, logic threads, main thread and broadcast thread.
use mathlib.Core.List.{Mem}
use ai_xr_project.Base.{
  ℕ, suc, ◌+◌, List, [], ◌∷◌, ◌++◌, map, Bool, ltb, length, Bool-cases, inl, inr,
}
use ai_xr_project.Rudp.{
  Bytes, assign_send_seq, on_reliable_sent, get_cumulative_ack, collect_retransmits,
}
use ai_xr_project.Session.{Session, SockAddr}
use ai_xr_project.SessionManager.{remove_by_user_id, remove_timed_out, each_session}
use ai_xr_project.SessionManager.Consistent.{new_manager-IsConsistent}
use ai_xr_project.SessionManager.Timeout.{remove_timed_out-IsConsistent}
use ai_xr_project.LogicQueue
use ai_xr_project.LogicQueue.{LogicQueue, waits, finished, popped, Popped}
use ai_xr_project.SendPool.{release-IsPool, init_send_pool-IsPool}
use ai_xr_project.Packets.{header_bytes, sizeof_header}
use ai_xr_project.Server.{
  Server, LogicWorkItem, started, session_at, update_rudp, send_to, on_send_completed, stop_running,
  stop_queues, max_udp_payload, dispatch_packet,
}
use ai_xr_project.Server.App.{logic_round}
use ai_xr_project.Server.Reliable.{reliable_header, send_reliable_to_session}
use ai_xr_project.Server.Sweep.{
  send_all, retransmit_session, retransmit_each, remove_users, retransmit_sweep, recv_round,
  session_timeout_ms, rudp_retrans_timeout_ms, rudp_max_retries,
}
use ai_xr_project.Server.Fragments.{Entry, frags, frag_count, frag_packet}
use ai_xr_project.Server.Broadcast.{
  Peer, peers_of, entries_for, send_frags, broadcast_to, broadcast_tick,
}
use ai_xr_project.Server.Invariant.{Lanes, IsServer}
use ai_xr_project.Server.AppSteps.{remove_user-Step, logic_round-Step}
use ai_xr_project.Server.Steps.{
  Step, Step-refl, Step-trans, manager-Step, update_rudp-Step, send_to-Step, dispatch_packet-Step,
  SameIds-refl,
}

send_all-Step :
    (accepts : ℕ → Bool) (sv : Server) (to : SockAddr) (bs : List Bytes)
    → IsServer sv
    → Step sv (send_all accepts sv to bs)
unfolding send_all
send_all-Step accepts sv to [] v = Step-refl sv v
send_all-Step accepts sv to (b ∷ bs) v =
    let s = send_to-Step accepts sv to b v in
    Step-trans sv (send_to accepts sv to b).0 _ s
      (send_all-Step accepts (send_to accepts sv to b).0 to bs s.valid)

retransmit_session-Step :
    (accepts : ℕ → Bool) (sv : Server) (p now : ℕ)
    → IsServer sv
    → Step sv (retransmit_session accepts sv p now).0
unfolding retransmit_session
retransmit_session-Step accepts sv p now v =
    let r =
      collect_retransmits (session_at sv p).rudp now rudp_retrans_timeout_ms rudp_max_retries in
    let s = update_rudp-Step sv p r.0 v in
    Step-trans sv (update_rudp sv p r.0) _ s
      (send_all-Step accepts (update_rudp sv p r.0) (session_at sv p).remote_addr r.1 s.valid)

retransmit_each-Step :
    (accepts : ℕ → Bool) (sv : Server) (ps : List ℕ) (now : ℕ)
    → IsServer sv
    → Step sv (retransmit_each accepts sv ps now).0
unfolding retransmit_each
retransmit_each-Step accepts sv [] now v = Step-refl sv v
retransmit_each-Step accepts sv (p ∷ ps) now v =
    let s = retransmit_session-Step accepts sv p now v in
    Step-trans sv (retransmit_session accepts sv p now).0 _ s
      (retransmit_each-Step accepts (retransmit_session accepts sv p now).0 ps now s.valid)

remove_users-Step : (sv : Server) (us : List ℕ) → IsServer sv → Step sv (remove_users sv us)
unfolding remove_users
remove_users-Step sv [] v = Step-refl sv v
remove_users-Step sv (u ∷ us) v =
    let s = remove_user-Step sv u v in
    Step-trans sv (record sv { manager = (remove_by_user_id sv.manager u).0 }) _ s
      (remove_users-Step (record sv { manager = (remove_by_user_id sv.manager u).0 }) us s.valid)

retransmit_sweep-Step :
    (accepts : ℕ → Bool) (sv : Server) (now : ℕ)
    → IsServer sv
    → Step sv (retransmit_sweep accepts sv now)
unfolding retransmit_sweep
retransmit_sweep-Step accepts sv now v =
    let r = retransmit_each accepts sv (each_session sv.manager) now in
    let s = retransmit_each-Step accepts sv (each_session sv.manager) now v in
    Step-trans sv r.0 _ s (remove_users-Step r.0 r.1 s.valid)

pub recv_round-Step :
    (accepts : ℕ → Bool) (sv : Server) (last now : ℕ) (clock : ℕ → ℕ)
    → IsServer sv
    → Step sv (recv_round accepts sv last now clock).0
unfolding recv_round remove_timed_out
recv_round-Step accepts sv last now clock v =
    let sv1 = retransmit_sweep accepts sv now in
    let s = retransmit_sweep-Step accepts sv now v in
    elim (Bool-cases (ltb now (last + 1000))) [
      | inl early ↦ rw (early, recv_round) s
      | inr late ↦
          rw (late, recv_round)
            (Step-trans sv sv1 _ s (
              manager-Step sv1 (remove_timed_out sv1.manager clock session_timeout_ms).0 s.valid
                (SameIds-refl sv1.manager.objects)
                (remove_timed_out-IsConsistent sv1.manager clock session_timeout_ms
                  s.valid.indexes)))
    ]

send_frags-Step :
    (accepts : ℕ → Bool) (sv : Server) (me : Peer) (tick_ms count : ℕ) (fs : List (ℕ × List Entry))
    → IsServer sv
    → Step sv (send_frags accepts sv me tick_ms count fs)
unfolding send_frags
send_frags-Step accepts sv me tick_ms count [] v = Step-refl sv v
send_frags-Step accepts sv me tick_ms count (f ∷ fs) v =
    let b = frag_packet me.ack tick_ms count f in
    let s = send_to-Step accepts sv me.addr b v in
    Step-trans sv (send_to accepts sv me.addr b).0 _ s
      (send_frags-Step accepts (send_to accepts sv me.addr b).0 me tick_ms count fs s.valid)

broadcast_to-Step :
    (accepts : ℕ → Bool) (sv : Server) (receivers peers : List Peer) (tick_ms : ℕ)
    → IsServer sv
    → Step sv (broadcast_to accepts sv receivers peers tick_ms)
unfolding broadcast_to
broadcast_to-Step accepts sv [] peers tick_ms v = Step-refl sv v
broadcast_to-Step accepts sv (me ∷ rest) peers tick_ms v =
    let es = entries_for me peers in
    let s = send_frags-Step accepts sv me tick_ms (frag_count (length es)) (frags es) v in
    let sv1 = send_frags accepts sv me tick_ms (frag_count (length es)) (frags es) in
    Step-trans sv sv1 _ s (broadcast_to-Step accepts sv1 rest peers tick_ms s.valid)

broadcast_tick-Step :
    (accepts : ℕ → Bool) (sv : Server) (now : ℕ)
    → IsServer sv
    → Step sv (broadcast_tick accepts sv now)
unfolding broadcast_tick
broadcast_tick-Step accepts sv now v =
    broadcast_to-Step accepts sv (peers_of sv) (peers_of sv) now v

send_reliable_to_session-Step :
    (accepts : ℕ → Bool) (sv : Server) (p type : ℕ) (body : Bytes) (now : ℕ)
    → IsServer sv
    → Step sv (send_reliable_to_session accepts sv p type body now).0
unfolding send_reliable_to_session
send_reliable_to_session-Step accepts sv p type body now v =
    elim (Bool-cases (ltb max_udp_payload (sizeof_header + length body))) [
      | inl big ↦ rw (big, send_reliable_to_session) (Step-refl sv v)
      | inr fits ↦
          let r = assign_send_seq (session_at sv p).rudp in
          let packet =
            header_bytes (reliable_header type (length body) r.1 (get_cumulative_ack r.0))
            ++ body in
          let c = on_reliable_sent r.0 r.1 packet now in
          let s = update_rudp-Step sv p c v in
          rw (fits, send_reliable_to_session)
            (Step-trans sv (update_rudp sv p c) _ s (
              send_to-Step accepts (update_rudp sv p c) (session_at sv p).remote_addr packet
                s.valid))
    ]

map-shutdown-Lanes :
    (objects : List Session) (n : ℕ) (qs : List (LogicQueue LogicWorkItem))
    → Lanes objects n qs
    → Lanes objects n (map LogicQueue.shutdown qs)
unfolding LogicQueue.shutdown
map-shutdown-Lanes objects n [] v = tt
map-shutdown-Lanes objects n (q ∷ qs) v = (v.0, map-shutdown-Lanes objects (suc n) qs v.1)

stop_running-IsServer : (sv : Server) → IsServer sv → IsServer (stop_running sv).0
unfolding stop_running
stop_running-IsServer sv v = elim (Bool-cases sv.running) [
  | inl up ↦
      rw (up, stop_running) (record { indexes = v.indexes; buffers = v.buffers; lanes = v.lanes })
  | inr down ↦
      rw (down, stop_running) (record { indexes = v.indexes; buffers = v.buffers; lanes = v.lanes })
]

-- The servers that the threads can reach from the start, when each step runs alone. A completion is
-- of a buffer that is in flight.
pub data Reachable (accepts : ℕ → Bool) : Server → Type 0 where
  start : Reachable accepts started
  arrival :
      (sv : Server) (bytes : Bytes) (sender : SockAddr) (now : ℕ)
      → Reachable accepts sv
      → Reachable accepts (dispatch_packet accepts sv bytes sender now)
  completion :
      (sv : Server) (buffer : ℕ)
      → Mem buffer sv.pool.in_flight
      → Reachable accepts sv
      → Reachable accepts (on_send_completed sv buffer)
  logic : (sv : Server) (i : ℕ) → Reachable accepts sv → Reachable accepts (logic_round sv i)
  main :
      (sv : Server) (last now : ℕ) (clock : ℕ → ℕ)
      → Reachable accepts sv
      → Reachable accepts (recv_round accepts sv last now clock).0
  broadcast :
      (sv : Server) (now : ℕ)
      → Reachable accepts sv
      → Reachable accepts (broadcast_tick accepts sv now)
  reliable_send :
      (sv : Server) (p type : ℕ) (body : Bytes) (now : ℕ)
      → Reachable accepts sv
      → Reachable accepts (send_reliable_to_session accepts sv p type body now).0
  stopping : (sv : Server) → Reachable accepts sv → Reachable accepts (stop_running sv).0
  queues_stopping : (sv : Server) → Reachable accepts sv → Reachable accepts (stop_queues sv)

-- Whatever packets arrive and however the steps of the threads interleave, the server's invariant
-- holds: the two session indexes are consistent, every send buffer is free or in flight and never
-- both, and each queued work item belongs to a session that was made and waits on the queue of
-- that session's SessionId modulo the number of logic threads.
pub Reachable-IsServer : (accepts : ℕ → Bool) (sv : Server) → Reachable accepts sv → IsServer sv
unfolding on_send_completed started stop_queues
Reachable-IsServer accepts sv start = record {
  indexes = new_manager-IsConsistent;
  buffers = init_send_pool-IsPool;
  lanes = (tt, (tt, (tt, (tt, tt))));
}
Reachable-IsServer accepts sv (arrival sv1 bytes sender now r) =
    (dispatch_packet-Step accepts sv1 bytes sender now (Reachable-IsServer accepts sv1 r)).valid
Reachable-IsServer accepts sv (completion sv1 buffer m r) =
    let v = Reachable-IsServer accepts sv1 r in
    record {
      indexes = v.indexes;
      buffers = release-IsPool sv1.pool buffer v.buffers m;
      lanes = v.lanes;
    }
Reachable-IsServer accepts sv (logic sv1 i r) =
    (logic_round-Step sv1 i (Reachable-IsServer accepts sv1 r)).valid
Reachable-IsServer accepts sv (main sv1 last now clock r) =
    (recv_round-Step accepts sv1 last now clock (Reachable-IsServer accepts sv1 r)).valid
Reachable-IsServer accepts sv (broadcast sv1 now r) =
    (broadcast_tick-Step accepts sv1 now (Reachable-IsServer accepts sv1 r)).valid
Reachable-IsServer accepts sv (reliable_send sv1 p type body now r) =
    (send_reliable_to_session-Step accepts sv1 p type body now
      (Reachable-IsServer accepts sv1 r)).valid
Reachable-IsServer accepts sv (stopping sv1 r) =
    stop_running-IsServer sv1 (Reachable-IsServer accepts sv1 r)
Reachable-IsServer accepts sv (queues_stopping sv1 r) =
    let v = Reachable-IsServer accepts sv1 r in
    record {
      indexes = v.indexes;
      buffers = v.buffers;
      lanes = map-shutdown-Lanes sv1.manager.objects 0 sv1.logic_queues v.lanes;
    }
