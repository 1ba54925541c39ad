-- ===== src/Tests/Threads.antt =====
-- Runs of the theorems about the server, with the packets of a client.
use ai_xr_project.Base.{
  ℕ, ◌+◌, ◌-◌, ◌%◌, ◌^◌, ◌<◌, ◌≡◌, refl, ap, ◌∙◌, List, [], ◌∷◌, ◌++◌, none, some, Bool, true,
  false, arith, if◌then◌else◌, ◌==◌, length, length-append,
}
use ai_xr_project.Base.Dict.{find, erase, put}
use ai_xr_project.Rudp.{Bytes}
use ai_xr_project.Rudp.Drain.{seq_max}
use ai_xr_project.Session.{no_transform, SockAddr, new_session}
use ai_xr_project.SessionManager.{
  new_manager, deref, make_key, find_by_addr, create_or_get, register, drop_stale,
}
use ai_xr_project.SessionManager.Consistent.{
  IsConsistent, new_manager-IsConsistent, create_or_get-IsConsistent,
}
use ai_xr_project.LogicQueue.{new_queue}
use ai_xr_project.Packets.{header_of, header_bytes, PacketHeader, pkt_heartbeat}
use ai_xr_project.Packets.Entries.{IsTransform}
use ai_xr_project.Packets.Codec.{header_of-header_bytes, length-header_bytes}
use ai_xr_project.Server.{
  Server, LogicWorkItem, started, session_at, dispatch_packet, update_session, modify,
}
use ai_xr_project.Server.App.{queue_at, set_queue, handle_leave}
use ai_xr_project.Server.Reliable.{reliable_header}
use ai_xr_project.Server.Dispatch.{too_short, IsReliable, lane_of, dispatch_packet_refused}
use ai_xr_project.Server.Handled.{Handled, dispatch_packet_reliable}
use ai_xr_project.Server.Acks.{IsAck, dispatch_packet_acked}
use ai_xr_project.Server.Workers.{got, workers}
use ai_xr_project.Server.Workers.Reordered.{overtaking, workers-reordered}
use ai_xr_project.Server.LogicThread.{logic_rounds, handled, with_queues, logic_rounds-handled}
use ai_xr_project.Server.Leave.{find-handle_leave}
use ai_xr_project.Server.Broadcast.{broadcast_tick}
use ai_xr_project.Server.Ticks.{Tick, Fitting, broadcast_tick_sent}
use ai_xr_project.Server.Invariant.{IsServer}
use ai_xr_project.Server.Runs.{start, arrival, Reachable-IsServer}

abbrev always : ℕ → Bool
always n = true

abbrev at_home : SockAddr
at_home = record { s_addr = 0x0a00_0001; sin_port = 5000 }

-- The server after user 7 joined from home at time 100.
abbrev with_session : Server
unfolding started create_or_get register drop_stale find put erase
with_session = record started { manager = (create_or_get new_manager 7 at_home 100).0 }

-- The client's reliable heartbeats, with 12 bytes of body.
abbrev body : Bytes
body = 7 ∷ 0 ∷ 0 ∷ 0 ∷ 0 ∷ 0 ∷ 0 ∷ 0 ∷ 0 ∷ 0 ∷ 0 ∷ 0 ∷ []

abbrev heartbeat_header : ℕ → PacketHeader
unfolding reliable_header
heartbeat_header s = reliable_header pkt_heartbeat 12 s 0

unfoldable heartbeat : ℕ → Bytes
heartbeat s = header_bytes (heartbeat_header s) ++ body

heartbeat-header : (s : ℕ) → s < seq_max → header_of (heartbeat s) ≡ heartbeat_header s
unfolding heartbeat heartbeat_header
heartbeat-header s h = header_of-header_bytes (heartbeat_header s) body (record {
  magic_0_byte = omega arith;
  magic_1_byte = omega arith;
  version_byte = omega arith;
  type_byte = omega arith;
  body_len_word = omega arith;
  seq_num_word = omega arith;
  ack_num_word = omega arith;
  flags_byte = omega arith;
})

length-heartbeat : (s : ℕ) → length (heartbeat s) ≡ 27
unfolding heartbeat
length-heartbeat s =
    length-append (header_bytes (heartbeat_header s)) body
    ∙ ap (λ n. n + 12) (length-header_bytes (heartbeat_header s))

heartbeat-IsReliable : (s : ℕ) → s < seq_max → IsReliable (heartbeat s)
unfolding heartbeat_header
heartbeat-IsReliable s h = record {
  whole = rw (heartbeat-header s h, length-heartbeat s) (omega arith);
  ours_0 = rw (heartbeat-header s h);
  ours_1 = rw (heartbeat-header s h);
  first_version = rw (heartbeat-header s h);
  long_join = rw (heartbeat-header s h) (λ e. omega arith);
  flagged = rw (heartbeat-header s h) refl;
}

dispatch_packet_reliable_example :
    Handled with_session
      (dispatch_packet always with_session (heartbeat 1) at_home 120)
      0
      (heartbeat 1)
      120
unfolding with_session started find_by_addr find make_key
dispatch_packet_reliable_example =
    dispatch_packet_reliable always with_session (heartbeat 1) at_home 120 0
      (heartbeat-IsReliable 1 (omega arith)) refl (omega arith)

dispatch_packet_acked_example :
    let sv' = dispatch_packet always with_session (heartbeat 1) at_home 120 in
    (b : Bytes) × (sv'.sent
      ≡ with_session.sent ++ ((session_at with_session 0).remote_addr, b) ∷ [])
    × IsAck
        (session_at with_session 0).user_id
        (((session_at sv' 0).rudp.recv_next_seq + 2 ^ 32 - 1) % 2 ^ 32)
        b
unfolding with_session started find_by_addr find make_key deref new_session
dispatch_packet_acked_example =
    dispatch_packet_acked always (λ n. refl) with_session (heartbeat 1) at_home 120 0
      (heartbeat-IsReliable 1 (omega arith)) refl (omega arith) refl (omega arith)

workers-reordered_example :
    queue_at
      (lane_of with_session 0)
      (workers always
        (overtaking 120)
        with_session
        (got (heartbeat 1) at_home ∷ got (heartbeat 2) at_home ∷ [])).0.logic_queues
    ≡ some (record {
      items =
          []
          ++ record { session_ref = 0; packet = heartbeat 2 }
            ∷ record { session_ref = 0; packet = heartbeat 1 }
            ∷ [];
      shut = false;
    })
unfolding with_session started find_by_addr find make_key deref new_session queue_at
    heartbeat_header
workers-reordered_example =
    workers-reordered always with_session (heartbeat 1) (heartbeat 2) at_home 120 0 new_queue
      (heartbeat-IsReliable 1 (omega arith)) (heartbeat-IsReliable 2 (omega arith))
      (ap (λ (x : PacketHeader). x.seq_num) (heartbeat-header 1 (omega arith)))
      (ap (λ (x : PacketHeader). x.seq_num) (heartbeat-header 2 (omega arith))) refl (omega arith)
      refl refl refl

dispatch_packet_refused_example :
    dispatch_packet always with_session (0x41 ∷ 0x52 ∷ []) at_home 120 ≡ with_session
dispatch_packet_refused_example =
    dispatch_packet_refused always with_session (0x41 ∷ 0x52 ∷ []) at_home 120
      (too_short (omega arith))

abbrev reached : Server
reached = dispatch_packet always started (heartbeat 1) at_home 120

Reachable-IsServer_example : IsServer reached
Reachable-IsServer_example =
    Reachable-IsServer always reached (arrival started (heartbeat 1) at_home 120 start)

abbrev item : ℕ → LogicWorkItem
item s = record { session_ref = 0; packet = heartbeat s }

abbrev with_items : Server
unfolding with_session started
with_items = record with_session {
  logic_queues =
      new_queue ∷ record { items = item 1 ∷ item 2 ∷ []; shut = true } ∷ new_queue ∷ new_queue ∷ [];
}

logic_rounds-handled_example :
    logic_rounds 2 with_items 1
    ≡ with_queues
        (set_queue 1 (record { items = []; shut = true }) with_items.logic_queues)
        (handled with_items (item 1 ∷ item 2 ∷ []))
unfolding with_items queue_at
logic_rounds-handled_example = logic_rounds-handled with_items 1 (item 1 ∷ item 2 ∷ []) true refl

abbrev elsewhere : SockAddr
elsewhere = record { s_addr = 0x0a00_0002; sin_port = 6000 }

-- User 7 has joined again from elsewhere, so the first session is stale.
abbrev joined_again : Server
unfolding with_session started create_or_get register drop_stale find put erase make_key deref
joined_again = record with_session {
  manager = (create_or_get with_session.manager 7 elsewhere 200).0;
}

joined_again-IsConsistent : IsConsistent joined_again.manager
unfolding joined_again with_session started
joined_again-IsConsistent =
    create_or_get-IsConsistent with_session.manager 7 elsewhere 200
      (create_or_get-IsConsistent new_manager 7 at_home 100 new_manager-IsConsistent)

find-handle_leave_example : find_by_addr (handle_leave joined_again 0).manager elsewhere ≡ (
    if (session_at joined_again 1).user_id == (session_at joined_again 0).user_id
    then none
    else some 1)
unfolding joined_again with_session started find_by_addr find make_key
find-handle_leave_example =
    find-handle_leave joined_again 0 1 elsewhere joined_again-IsConsistent refl

-- User 8 has joined from elsewhere and sent a transform.
abbrev two_sessions : Server
unfolding with_session started create_or_get register drop_stale find put erase make_key deref
two_sessions = record with_session {
  manager = (create_or_get with_session.manager 8 elsewhere 200).0;
}

abbrev both_placed : Server
unfolding two_sessions modify
both_placed =
    update_session two_sessions 1 (λ s. record s { transform = record (s.transform) { seq = 4 } })

placed-IsTransform : (n : ℕ) → n < 9 → IsTransform (record no_transform { seq = n })
placed-IsTransform n h = record {
  seq_word = omega arith;
  pos_x_word = omega arith;
  pos_y_word = omega arith;
  pos_z_word = omega arith;
  rot_x_word = omega arith;
  rot_y_word = omega arith;
  rot_z_word = omega arith;
  rot_w_word = omega arith;
  vel_x_word = omega arith;
  vel_y_word = omega arith;
  vel_z_word = omega arith;
  era_byte = omega arith;
  flags_byte = omega arith;
}

both_placed-fit : Fitting both_placed both_placed.manager.by_addr
unfolding both_placed update_session two_sessions with_session started
both_placed-fit = (
  (omega arith, placed-IsTransform 0 (omega arith)),
  ((omega arith, placed-IsTransform 4 (omega arith)), tt),
)

broadcast_tick_sent_example :
    (out : List (SockAddr × Bytes)) × ((broadcast_tick always both_placed 1000).sent
      ≡ both_placed.sent ++ out)
    × Tick both_placed both_placed.manager.by_addr out
unfolding both_placed update_session two_sessions with_session started
broadcast_tick_sent_example =
    broadcast_tick_sent always both_placed 1000 (λ n. refl) refl (omega arith) both_placed-fit
