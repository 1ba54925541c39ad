-- ===== src/Server/Reliable.antt =====
-- SendReliableToSession of Server_Core/Network/IOCPServer.cpp.
use ai_xr_project.Base.{ℕ, ◌+◌, ◌++◌, Bool, false, ltb, if◌then◌else◌, length}
use ai_xr_project.Rudp.{Bytes, assign_send_seq, get_cumulative_ack, on_reliable_sent}
use ai_xr_project.Packets.{PacketHeader, header_bytes, pkt_flag_reliable, sizeof_header}
use ai_xr_project.Server.{
  Server, session_at, update_rudp, send_to, max_udp_payload, magic_byte_0, magic_byte_1,
}

-- The header that SendReliableToSession fills in.
unfoldable pub reliable_header : ℕ → ℕ → ℕ → ℕ → PacketHeader
reliable_header type body_len seq ack = record {
  magic_0 = magic_byte_0;
  magic_1 = magic_byte_1;
  version = 0x01;
  type = type;
  body_len = body_len;
  seq_num = seq;
  ack_num = ack;
  flags = pkt_flag_reliable;
}

-- SendReliableToSession. A length is not negative here; the copy is queued before the send, whose
-- failure does not take it back.
unfoldable pub send_reliable_to_session : (ℕ → Bool) → Server → ℕ → ℕ → Bytes → ℕ → Server × Bool
send_reliable_to_session accepts sv p type body now =
    if ltb max_udp_payload (sizeof_header + length body)
    then (sv, false)
    else (let r = assign_send_seq (session_at sv p).rudp in
        let packet =
          header_bytes (reliable_header type (length body) r.1 (get_cumulative_ack r.0)) ++ body in
        let sv' = update_rudp sv p (on_reliable_sent r.0 r.1 packet now) in
        send_to accepts sv' (session_at sv p).remote_addr packet)
