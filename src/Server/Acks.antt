-- ===== src/Server/Acks.antt =====
-- What DispatchPacket of Server_Core/Network/IOCPServer.cpp answers to a reliable packet.
use ai_xr_project.Base.{
  ℕ, ◌%◌, ◌<◌, ◌≡◌, ap, ◌∙◌, [], ◌∷◌, ◌++◌, some, Bool, true, arith, ◌==◌, length, ◌+◌, ◌-◌, ◌^◌,
  sym, subst,
}
use ai_xr_project.Rudp.{Bytes, RudpChannel, on_reliable_received, get_cumulative_ack}
use ai_xr_project.Session.{Session, SockAddr, touch}
use ai_xr_project.SessionManager.{find_by_addr}
use ai_xr_project.Packets.{
  PacketHeader, header_of, sizeof_ack, sizeof_header, pkt_ack, pkt_flag_none, ack_bytes, field,
  le_bytes,
}
use ai_xr_project.Packets.Codec.{length-ack_bytes, ack_bytes-fields, header_of-header_bytes}
use ai_xr_project.Server.{
  Server, session_at, update_session, update_rudp, send_to, ack_packet, send_ack, enqueue_all,
  route_reliable, route, dispatch_packet, magic_byte_0, magic_byte_1,
}
use ai_xr_project.Server.Invariant.{length-modify}
use ai_xr_project.Server.Dispatch.{
  IsReliable, inbound, touched, deref-modify_here, enqueue_all_lem, dispatch_packet_known,
  dispatch_packet_reliable_lem,
}

length-ack_packet : (u a : ℕ) → length (ack_packet u a) ≡ sizeof_ack
unfolding ack_packet
length-ack_packet u a = length-ack_bytes _ u a

-- The bytes are an FAckPacket of the project's protocol for this user, with this number.
pub record IsAck (user_id ack : ℕ) (b : Bytes) : Type 0 where
  pub size : length b ≡ 23
  pub ours_0 : (header_of b).magic_0 ≡ 0x41
  pub ours_1 : (header_of b).magic_1 ≡ 0x52
  pub first_version : (header_of b).version ≡ 1
  pub is_ack : (header_of b).type ≡ 0x07
  pub body_len : (header_of b).body_len ≡ 8
  pub unnumbered : (header_of b).seq_num ≡ 0
  pub header_number : (header_of b).ack_num ≡ ack
  pub unflagged : (header_of b).flags ≡ 0
  pub user : field 15 4 b ≡ user_id
  pub number : field 19 4 b ≡ ack

ack_packet-IsAck : (u a : ℕ) → u < 2 ^ 32 → a < 2 ^ 32 → IsAck u a (ack_packet u a)
unfolding ack_packet ack_bytes
ack_packet-IsAck u a hu ha =
    let h : PacketHeader = record {
      magic_0 = magic_byte_0;
      magic_1 = magic_byte_1;
      version = 0x01;
      type = pkt_ack;
      body_len = sizeof_ack - sizeof_header;
      seq_num = 0;
      ack_num = a;
      flags = pkt_flag_none;
    } in
    let read = header_of-header_bytes h (le_bytes 4 u ++ le_bytes 4 a) (record {
      magic_0_byte = omega arith;
      magic_1_byte = omega arith;
      version_byte = omega arith;
      type_byte = omega arith;
      body_len_word = omega arith;
      seq_num_word = omega arith;
      ack_num_word = ha;
      flags_byte = omega arith;
    }) in
    let body = ack_bytes-fields h u a hu ha in
    record {
      size = length-ack_bytes h u a;
      ours_0 = ap (λ (x : PacketHeader). x.magic_0) read;
      ours_1 = ap (λ (x : PacketHeader). x.magic_1) read;
      first_version = ap (λ (x : PacketHeader). x.version) read;
      is_ack = ap (λ (x : PacketHeader). x.type) read;
      body_len = ap (λ (x : PacketHeader). x.body_len) read;
      unnumbered = ap (λ (x : PacketHeader). x.seq_num) read;
      header_number = ap (λ (x : PacketHeader). x.ack_num) read;
      unflagged = ap (λ (x : PacketHeader). x.flags) read;
      user = body.0;
      number = body.1;
    }

module _ (accepts : ℕ → Bool) (takes : (n : ℕ) → accepts n ≡ true) where
  send_to-ack_packet :
      (sv : Server) (to : SockAddr) (u a : ℕ)
      → sv.running ≡ true
      → (send_to accepts sv to (ack_packet u a)).0.sent ≡ sv.sent ++ (to, ack_packet u a) ∷ []
  unfolding send_to
  send_to-ack_packet sv to u a up = rw (length-ack_packet u a, up, takes sv.calls, send_to)

  route_reliable_acked :
      (sv : Server) (p : ℕ) (header : PacketHeader) (bytes : Bytes)
      → p < length sv.manager.objects
      → sv.running ≡ true
      → (route_reliable accepts sv p header bytes).sent
        ≡ sv.sent
          ++ (
            (session_at sv p).remote_addr,
            ack_packet (session_at sv p).user_id (
                get_cumulative_ack
                  (on_reliable_received (session_at sv p).rudp header.seq_num bytes).0),
          )
            ∷ []
  unfolding route_reliable send_ack update_session
  route_reliable_acked sv p header bytes made up =
      let r = on_reliable_received (session_at sv p).rudp header.seq_num bytes in
      let f : Session → Session = λ s. record s { rudp = r.0 } in
      let sv1 = update_rudp sv p r.0 in
      let sv2 = enqueue_all sv1 p r.1 in
      let queued = enqueue_all_lem sv1 p r.1 in
      let here : session_at sv2 p ≡ f (session_at sv p) =
        ap (λ (x : Server). session_at x p) queued
        ∙ deref-modify_here f p sv.manager.objects made in
      send_to-ack_packet sv2 (session_at sv2 p).remote_addr (session_at sv2 p).user_id
        (get_cumulative_ack (session_at sv2 p).rudp) (ap (λ (x : Server). x.running) queued ∙ up)
      ∙ ap
          (λ (x : Server).
            x.sent
            ++ (
              (session_at sv2 p).remote_addr,
              ack_packet (session_at sv2 p).user_id (get_cumulative_ack (session_at sv2 p).rudp),
            )
              ∷ [])
          queued
      ∙ ap
          (λ (s : Session).
            sv.sent ++ (s.remote_addr, ack_packet s.user_id (get_cumulative_ack s.rudp)) ∷ [])
          here

  dispatch_packet_acked_lem :
      (sv : Server) (bytes : Bytes) (sender : SockAddr) (now p : ℕ)
      → IsReliable bytes
      → find_by_addr sv.manager sender ≡ some p
      → p < length sv.manager.objects
      → sv.running ≡ true
      → (dispatch_packet accepts sv bytes sender now).sent
        ≡ sv.sent
          ++ (
            (session_at sv p).remote_addr,
            ack_packet (session_at sv p).user_id (get_cumulative_ack (inbound sv p bytes).0),
          )
            ∷ []
  unfolding route update_session touch
  dispatch_packet_acked_lem sv bytes sender now p ok known made up =
      let header = header_of bytes in
      let f : Session → Session = λ s. touched s bytes now in
      let sv1 = update_session sv p f in
      let here : session_at sv1 p ≡ f (session_at sv p) =
        deref-modify_here f p sv.manager.objects made in
      let flag : (header.flags % 2 == 1) ≡ true = ground (arith, ok.flagged) in
      rw (dispatch_packet_known accepts sv bytes sender now p ok known, flag, route)
        (route_reliable_acked sv1 p header bytes
            (omega (arith, made, length-modify f p sv.manager.objects)) up
          ∙ ap
              (λ (s : Session).
                sv.sent
                ++ (
                  s.remote_addr,
                  ack_packet s.user_id
                      (get_cumulative_ack (on_reliable_received s.rudp header.seq_num bytes).0),
                )
                  ∷ [])
              here)

  get_cumulative_ack_word : (c : RudpChannel) → get_cumulative_ack c < 2 ^ 32
  unfolding get_cumulative_ack
  get_cumulative_ack_word c = omega arith

  -- A running server whose sends are taken answers every reliable packet, a JOIN or another, that
  -- comes from an address with a session, also one that it has had before or drops, with exactly one
  -- ACK to the address of the session. Its header and its AckSeqNum both carry the number before the
  -- one that the session's channel expects after the packet (in 32 bits), and it names the user. No
  -- other worker handles a packet meanwhile.
  pub dispatch_packet_acked :
      (sv : Server) (bytes : Bytes) (sender : SockAddr) (now p : ℕ)
      → IsReliable bytes
      → find_by_addr sv.manager sender ≡ some p
      → p < length sv.manager.objects
      → sv.running ≡ true
      → (session_at sv p).user_id < 2 ^ 32
      → let sv' = dispatch_packet accepts sv bytes sender now in
        (b : Bytes) × (sv'.sent ≡ sv.sent ++ ((session_at sv p).remote_addr, b) ∷ [])
        × IsAck
            (session_at sv p).user_id
            (((session_at sv' p).rudp.recv_next_seq + 2 ^ 32 - 1) % 2 ^ 32)
            b
  unfolding get_cumulative_ack
  dispatch_packet_acked sv bytes sender now p ok known made up word =
      let c = (inbound sv p bytes).0 in
      let r = dispatch_packet_reliable_lem accepts sv bytes sender now p ok known made in
      let after : get_cumulative_ack c
          ≡ ((session_at (dispatch_packet accepts sv bytes sender now) p).rudp.recv_next_seq
              + 2 ^ 32
              - 1)
            % 2 ^ 32 =
        sym (ap (λ (s : Session). (s.rudp.recv_next_seq + 2 ^ 32 - 1) % 2 ^ 32) r.session) in
      (
        ack_packet (session_at sv p).user_id (get_cumulative_ack c),
        dispatch_packet_acked_lem sv bytes sender now p ok known made up,
        subst
            (λ n.
              IsAck (session_at sv p).user_id n
                (ack_packet (session_at sv p).user_id (get_cumulative_ack c)))
            after
            (ack_packet-IsAck (session_at sv p).user_id (get_cumulative_ack c) word
              (get_cumulative_ack_word c)),
      )
