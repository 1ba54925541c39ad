-- ===== src/Server/Dispatch.antt =====
-- DispatchPacket of Server_Core/Network/IOCPServer.cpp: what is refused, and what a reliable packet
-- of a known session does.
use ai_xr_project.Base.{
  ℕ, zero, suc, ◌+◌, ◌%◌, ◌≤◌, ◌<◌, ◌≡◌, ◌≢◌, refl, ap, ◌∙◌, List, [], ◌∷◌, map, none, some, Bool,
  true, false, not, ◌||◌, arith, ltb, ◌==◌, length, Bool-cases, inl, inr, ◌⊎◌,
}
use ai_xr_project.Rudp.{
  Bytes, RudpChannel, on_reliable_received, on_ack_received, get_cumulative_ack,
}
use ai_xr_project.Session.{Session, SockAddr, touch}
use ai_xr_project.SessionManager.{SessionManager, deref, find_by_addr, create_or_get}
use ai_xr_project.LogicQueue.{LogicQueue}
use ai_xr_project.Server.Invariant.{length-modify}
use ai_xr_project.Packets.{PacketHeader, header_of, pkt_join, sizeof_header, sizeof_join}
use ai_xr_project.Server.{
  Server, LogicWorkItem, logic_thread_count, magic_byte_0, magic_byte_1, max_udp_payload, modify,
  session_at, update_session, update_rudp, send_to, ack_packet, send_ack, push_at, enqueue_logic,
  enqueue_all, route_reliable, route, is_well_formed, dispatch_packet,
}

-- The reasons for which a packet from this sender is dropped.
pub data IsRefused (sv : Server) (bytes : Bytes) (sender : SockAddr) : Type 0 where
  too_short : length bytes < sizeof_header → IsRefused sv bytes sender
  cut_off : length bytes < sizeof_header + (header_of bytes).body_len → IsRefused sv bytes sender
  not_ours :
      ((header_of bytes).magic_0 ≢ magic_byte_0)
        ⊎ ((header_of bytes).magic_1 ≢ magic_byte_1)
        ⊎ ((header_of bytes).version ≢ 1)
      → IsRefused sv bytes sender
  short_join :
      (header_of bytes).type ≡ pkt_join → length bytes < sizeof_join → IsRefused sv bytes sender
  stranger :
      (header_of bytes).type ≢ pkt_join
      → find_by_addr sv.manager sender ≡ none
      → IsRefused sv bytes sender

malformed :
    (accepts : ℕ → Bool) (sv : Server) (bytes : Bytes) (sender : SockAddr) (now : ℕ)
    → is_well_formed bytes ≡ false
    → dispatch_packet accepts sv bytes sender now ≡ sv
unfolding dispatch_packet
malformed accepts sv bytes sender now e = rw (e, dispatch_packet)

unwelcome :
    (accepts : ℕ → Bool) (sv : Server) (bytes : Bytes) (sender : SockAddr) (now : ℕ)
    (join short : Bool)
    → ((header_of bytes).type == pkt_join) ≡ join
    → ltb (length bytes) sizeof_join ≡ short
    → (join ≡ true) × (short ≡ true) ⊎ (join ≡ false) × (find_by_addr sv.manager sender ≡ none)
    → dispatch_packet accepts sv bytes sender now ≡ sv
unfolding dispatch_packet
unwelcome accepts sv bytes sender now join short ej es why =
    elim (Bool-cases (is_well_formed bytes)) [
      | inr bad ↦ malformed accepts sv bytes sender now bad
      | inl good ↦ elim why [
        | inl (j, s) ↦ rw (good, ej ∙ j, es ∙ s, dispatch_packet)
        | inr (j, s) ↦ rw (good, ej ∙ j, s, dispatch_packet)
      ]
    ]

-- A packet that is shorter than its header or than the header announces, that has another magic
-- number or version, that is a cut-off JOIN, or that is no JOIN and comes from an address without a
-- session, changes nothing and is not answered.
pub dispatch_packet_refused :
    (accepts : ℕ → Bool) (sv : Server) (bytes : Bytes) (sender : SockAddr) (now : ℕ)
    → IsRefused sv bytes sender
    → dispatch_packet accepts sv bytes sender now ≡ sv
unfolding is_well_formed
dispatch_packet_refused accepts sv bytes sender now (too_short h) =
    malformed accepts sv bytes sender now (ground arith)
dispatch_packet_refused accepts sv bytes sender now (cut_off h) =
    malformed accepts sv bytes sender now (ground arith)
dispatch_packet_refused accepts sv bytes sender now (not_ours h) =
    malformed accepts sv bytes sender now (ground arith)
dispatch_packet_refused accepts sv bytes sender now (short_join j s) =
    unwelcome accepts sv bytes sender now true true (ground arith) (ground arith) (inl (refl, refl))
dispatch_packet_refused accepts sv bytes sender now (stranger j e) =
    unwelcome accepts sv bytes sender now false _ (ground arith) refl (inr (refl, e))

-- The work items of delivered packets.
abbrev pub items : ℕ → List Bytes → List LogicWorkItem
items p = map λ b. record { session_ref = p; packet = b }

abbrev pub push_items :
    ℕ → List LogicWorkItem → List (LogicQueue LogicWorkItem) → List (LogicQueue LogicWorkItem)
push_items i [] qs = qs
push_items i (x ∷ xs) qs = push_items i xs (push_at i x qs)

abbrev pub lane_of : Server → ℕ → ℕ
lane_of sv p = (session_at sv p).session_id % logic_thread_count

pub enqueue_all_lem :
    (sv : Server) (p : ℕ) (bs : List Bytes)
    → enqueue_all sv p bs
      ≡ record sv { logic_queues = push_items (lane_of sv p) (items p bs) sv.logic_queues }
unfolding enqueue_all enqueue_logic
enqueue_all_lem sv p [] = refl
enqueue_all_lem sv p (b ∷ bs) = enqueue_all_lem (enqueue_logic sv p b) p bs

send_to_rest :
    (accepts : ℕ → Bool) (sv : Server) (to : SockAddr) (b : Bytes)
    → ((send_to accepts sv to b).0.manager ≡ sv.manager)
      × ((send_to accepts sv to b).0.logic_queues ≡ sv.logic_queues)
unfolding send_to
send_to_rest accepts sv to b = elim (Bool-cases (length b == 0 || ltb max_udp_payload (length b))) [
  | inl bad ↦ rw (bad, send_to) (refl, refl)
  | inr good ↦ elim (Bool-cases (not sv.running)) [
    | inl down ↦ rw (good, down, send_to) (refl, refl)
    | inr up ↦ elim (Bool-cases (accepts sv.calls)) [
      | inl queued ↦ rw (good, up, queued, send_to) (refl, refl)
      | inr failed ↦ rw (good, up, failed, send_to) (refl, refl)
    ]
  ]
]

pub deref-modify_here :
    (f : Session → Session) (p : ℕ) (ss : List Session)
    → p < length ss
    → deref (modify f p ss) p ≡ f (deref ss p)
unfolding modify deref
deref-modify_here f p [] h = absurd (omega arith)
deref-modify_here f zero (s ∷ ss) h = refl
deref-modify_here f (suc p) (s ∷ ss) h = deref-modify_here f p ss (omega arith)

-- What the channel of the session at p makes of a reliable packet.
abbrev pub inbound : Server → ℕ → Bytes → RudpChannel × List Bytes × Bool
inbound sv p bytes =
    on_reliable_received (on_ack_received (session_at sv p).rudp (header_of bytes).ack_num)
      (header_of bytes).seq_num bytes

-- From sv to sv' the session at p becomes s', and the delivered packets are queued on its lane.
pub record Routed (sv sv' : Server) (p : ℕ) (s' : Session) (delivered : List Bytes) : Type 0 where
  pub session : session_at sv' p ≡ s'
  pub queues : sv'.logic_queues ≡ push_items (lane_of sv p) (items p delivered) sv.logic_queues
  pub same_index : sv'.manager.by_addr ≡ sv.manager.by_addr
  pub same_objects : length sv'.manager.objects ≡ length sv.manager.objects

-- A packet as long as its header says, with the project's magic number and version and the lowest
-- flag bit set; a JOIN is also long enough for its fields.
pub record IsReliable (bytes : Bytes) : Type 0 where
  pub whole : sizeof_header + (header_of bytes).body_len ≤ length bytes
  pub ours_0 : (header_of bytes).magic_0 ≡ 0x41
  pub ours_1 : (header_of bytes).magic_1 ≡ 0x52
  pub first_version : (header_of bytes).version ≡ 1
  pub long_join : (header_of bytes).type ≡ pkt_join → sizeof_join ≤ length bytes
  pub flagged : (header_of bytes).flags % 2 ≡ 1

pub reliable-is_well_formed : (bytes : Bytes) → IsReliable bytes → is_well_formed bytes ≡ true
unfolding is_well_formed
reliable-is_well_formed bytes ok = ground (arith, ok.whole, ok.ours_0, ok.ours_1, ok.first_version)

-- A JOIN from a known address finds its session, so that it is routed like any other packet.
pub dispatch_packet_known :
    (accepts : ℕ → Bool) (sv : Server) (bytes : Bytes) (sender : SockAddr) (now p : ℕ)
    → IsReliable bytes
    → find_by_addr sv.manager sender ≡ some p
    → dispatch_packet accepts sv bytes sender now ≡ route accepts sv p (header_of bytes) bytes now
unfolding dispatch_packet create_or_get find_by_addr
dispatch_packet_known accepts sv bytes sender now p ok known =
    let good = reliable-is_well_formed bytes ok in
    elim (Bool-cases ((header_of bytes).type == pkt_join)) [
      | inl join ↦
          let long : ltb (length bytes) sizeof_join ≡ false = ground (arith, ok.long_join) in
          rw (good, join, long, known, dispatch_packet, create_or_get)
      | inr other ↦ rw (good, other, known, dispatch_packet)
    ]

-- What OnReliableReceived makes of the session.
abbrev on_session : Session → ℕ → Bytes → Session
on_session s seq bytes = record s { rudp = (on_reliable_received s.rudp seq bytes).0 }

route_reliable_lem :
    (accepts : ℕ → Bool) (sv : Server) (p : ℕ) (header : PacketHeader) (bytes : Bytes)
    → p < length sv.manager.objects
    → Routed sv
        (route_reliable accepts sv p header bytes)
        p
        (on_session (session_at sv p) header.seq_num bytes)
        (on_reliable_received (session_at sv p).rudp header.seq_num bytes).1
unfolding route_reliable send_ack update_session
route_reliable_lem accepts sv p header bytes made =
    let r = on_reliable_received (session_at sv p).rudp header.seq_num bytes in
    let f : Session → Session = λ s. record s { rudp = r.0 } in
    let sv1 = update_rudp sv p r.0 in
    let sv2 = enqueue_all sv1 p r.1 in
    let queued = enqueue_all_lem sv1 p r.1 in
    let acked =
      send_to_rest accepts sv2 (session_at sv2 p).remote_addr
        (ack_packet (session_at sv2 p).user_id (get_cumulative_ack (session_at sv2 p).rudp)) in
    let manager = acked.0 ∙ ap (λ (x : Server). x.manager) queued in
    let here = deref-modify_here f p sv.manager.objects made in
    record {
      session = ap (λ (m : SessionManager). deref m.objects p) manager ∙ here;
      queues =
          acked.1
          ∙ ap (λ (x : Server). x.logic_queues) queued
          ∙ ap
              (λ (s : Session).
                push_items (s.session_id % logic_thread_count) (items p r.1) sv.logic_queues)
              here;
      same_index = ap (λ (m : SessionManager). m.by_addr) manager;
      same_objects =
          ap (λ (m : SessionManager). length m.objects) manager
          ∙ length-modify f p sv.manager.objects;
    }

-- Receiving a packet, as the session sees it: Touch, then the acknowledgement, then the packet.
abbrev pub touched : Session → Bytes → ℕ → Session
touched s bytes now = record (touch s now) {
  rudp = on_ack_received s.rudp (header_of bytes).ack_num;
}

route_lem :
    (accepts : ℕ → Bool) (sv : Server) (bytes : Bytes) (now p : ℕ)
    → (header_of bytes).flags % 2 ≡ 1
    → p < length sv.manager.objects
    → Routed sv
        (route accepts sv p (header_of bytes) bytes now)
        p
        (record (touch (session_at sv p) now) { rudp = (inbound sv p bytes).0 })
        (inbound sv p bytes).1
unfolding route update_session touch
route_lem accepts sv bytes now p flagged made =
    let header = header_of bytes in
    let f : Session → Session = λ s. touched s bytes now in
    let sv1 = update_session sv p f in
    let here : session_at sv1 p ≡ f (session_at sv p) =
      deref-modify_here f p sv.manager.objects made in
    let flag : (header.flags % 2 == 1) ≡ true = ground arith in
    let r =
      route_reliable_lem accepts sv1 p header bytes
        (omega (arith, made, length-modify f p sv.manager.objects)) in
    rw (flag, route)
      (record {
        session = r.session ∙ ap (λ (s : Session). on_session s header.seq_num bytes) here;
        queues =
            r.queues
            ∙ ap
                (λ (s : Session).
                  push_items (s.session_id % logic_thread_count)
                    (items p (on_reliable_received s.rudp header.seq_num bytes).1) sv.logic_queues)
                here;
        same_index = r.same_index;
        same_objects = r.same_objects ∙ length-modify f p sv.manager.objects;
      })

-- What a reliable packet of a known session does, by the methods of its channel.
pub dispatch_packet_reliable_lem :
    (accepts : ℕ → Bool) (sv : Server) (bytes : Bytes) (sender : SockAddr) (now p : ℕ)
    → IsReliable bytes
    → find_by_addr sv.manager sender ≡ some p
    → p < length sv.manager.objects
    → Routed sv
        (dispatch_packet accepts sv bytes sender now)
        p
        (record (touch (session_at sv p) now) { rudp = (inbound sv p bytes).0 })
        (inbound sv p bytes).1
dispatch_packet_reliable_lem accepts sv bytes sender now p ok known made =
    rw (dispatch_packet_known accepts sv bytes sender now p ok known)
      (route_lem accepts sv bytes now p ok.flagged made)
