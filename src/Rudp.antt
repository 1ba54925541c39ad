-- ===== src/Rudp.antt =====
-- Server_Core/Network/RudpChannel.h and RudpChannel.cpp: the reliable-UDP state of one session.
-- The mutex makes every public method one step, so a method is a function from the channel to the
-- new channel and its results. A packet's bytes are a list of numbers; std::map is a list with
-- ascending keys. What a method appends to an output vector is returned as a list.
-- Sequence numbers wrap at 2^32 where the code increments them. Times are the milliseconds of a
-- monotonic clock, unbounded and not negative.
pub mod Drain
pub mod Receive
pub mod Stream
pub mod Unreliable
pub mod Outbound
pub mod Lifetime
use ai_xr_project.Base.{
  ℕ, zero, suc, ◌+◌, ◌-◌, ◌%◌, Bool, true, false, ◌&&◌, not, List, [], ◌∷◌, Option, none, some, ltb,
  leb, ◌==◌, if◌then◌else◌, incr32, u32_mod, length,
}
use ai_xr_project.Base.Dict.{find, erase, insert}

abbrev pub Bytes : Type 0
Bytes = List ℕ

-- RudpChannel::FPendingPacket.
pub record PendingPacket : Type 0 where
  pub bytes : Bytes
  pub last_sent_ms : ℕ
  pub retry_count : ℕ

-- RudpChannel without its mutex.
pub record RudpChannel : Type 0 where
  pub recv_next_seq : ℕ
  pub reasm : List (ℕ × Bytes)
  pub has_unreliable : Bool
  pub unreliable_high : ℕ
  pub send_next_seq : ℕ
  pub retrans_q : List (ℕ × PendingPacket)

-- The member initialisers.
abbrev pub new_channel : RudpChannel
new_channel = record {
  recv_next_seq = 1;
  reasm = [];
  has_unreliable = false;
  unreliable_high = 0;
  send_next_seq = 1;
  retrans_q = [];
}

abbrev pub reasm_max_entries : ℕ
reasm_max_entries = 1024

-- The while loop of OnReliableReceived: the next number, the buffer and what is delivered. Each
-- round erases an entry, so the buffer's size is fuel enough (`drain_ends`).
unfoldable pub drain : ℕ → ℕ → List (ℕ × Bytes) → ℕ × List (ℕ × Bytes) × List Bytes
drain zero next m = (next, m, [])
drain (suc fuel) next m = elim (find next m) [
  | none ↦ (next, m, [])
  | some b ↦ let rest = drain fuel (incr32 next) (erase next m) in (rest.0, rest.1, b ∷ rest.2)
]

-- OnReliableReceived: the channel, what is delivered, and the returned Boolean.
unfoldable pub on_reliable_received : RudpChannel → ℕ → Bytes → RudpChannel × List Bytes × Bool
on_reliable_received c seq bytes =
    if ltb seq c.recv_next_seq
    then (c, [], false)
    else if seq == c.recv_next_seq
    then (let rest = drain (length c.reasm) (incr32 c.recv_next_seq) c.reasm in
        (record c { recv_next_seq = rest.0; reasm = rest.1 }, bytes ∷ rest.2, true))
    else (elim (find seq c.reasm) [
      | some _ ↦ (c, [], true)
      | none ↦
          (if ltb (length c.reasm) reasm_max_entries
            then (record c { reasm = insert seq bytes c.reasm }, [], true)
            else (c, [], true))
    ])

-- GetCumulativeAck: m_RecvNextSeq - 1 in uint32_t.
unfoldable pub get_cumulative_ack : RudpChannel → ℕ
get_cumulative_ack c = (c.recv_next_seq + u32_mod - 1) % u32_mod

-- AcceptUnreliable.
unfoldable pub accept_unreliable : RudpChannel → ℕ → RudpChannel × Bool
accept_unreliable c seq =
    if not c.has_unreliable
    then (record c { has_unreliable = true; unreliable_high = seq }, true)
    else if leb seq c.unreliable_high
    then (c, false)
    else (record c { unreliable_high = seq }, true)

-- AssignSendSeq.
unfoldable pub assign_send_seq : RudpChannel → RudpChannel × ℕ
assign_send_seq c = (record c { send_next_seq = incr32 c.send_next_seq }, c.send_next_seq)

-- OnReliableSent.
unfoldable pub on_reliable_sent : RudpChannel → ℕ → Bytes → ℕ → RudpChannel
on_reliable_sent c seq bytes now = record c {
  retrans_q =
      insert seq (record { bytes = bytes; last_sent_ms = now; retry_count = 0 }) c.retrans_q;
}

-- The for loop of OnAckReceived: it erases from the front while the key is acknowledged.
unfoldable pub drop_acked : ℕ → List (ℕ × PendingPacket) → List (ℕ × PendingPacket)
drop_acked ack [] = []
drop_acked ack ((k, p) ∷ q) = let rest = drop_acked ack q in if leb k ack then rest else (k, p) ∷ q

-- OnAckReceived.
unfoldable pub on_ack_received : RudpChannel → ℕ → RudpChannel
on_ack_received c ack = record c { retrans_q = drop_acked ack c.retrans_q }

-- What the loop body of CollectRetransmits does with one entry.
pub data Fate : Type 0 where
  wait : Fate
  dead : Fate
  resend : PendingPacket → Fate

unfoldable pub fate : ℕ → ℕ → ℕ → PendingPacket → Fate
fate now timeout max_retries p =
    if ltb now (p.last_sent_ms + timeout)
    then wait
    else if leb max_retries p.retry_count
    then dead
    else resend (record p { last_sent_ms = now; retry_count = incr32 p.retry_count })

-- The for loop of CollectRetransmits: the queue, outResend and outDeadSeqs.
unfoldable pub collect :
    ℕ → ℕ → ℕ → List (ℕ × PendingPacket) → List (ℕ × PendingPacket) × List Bytes × List ℕ
collect now timeout max_retries [] = ([], [], [])
collect now timeout max_retries ((k, p) ∷ q) =
    let rest = collect now timeout max_retries q in
    elim (fate now timeout max_retries p) [
      | wait ↦ ((k, p) ∷ rest.0, rest.1, rest.2)
      | dead ↦ (rest.0, rest.1, k ∷ rest.2)
      | resend p' ↦ ((k, p') ∷ rest.0, p.bytes ∷ rest.1, rest.2)
    ]

-- CollectRetransmits.
unfoldable pub collect_retransmits : RudpChannel → ℕ → ℕ → ℕ → RudpChannel × List Bytes × List ℕ
collect_retransmits c now timeout max_retries =
    let r = collect now timeout max_retries c.retrans_q in (record c { retrans_q = r.0 }, r.1, r.2)

-- PendingCount.
unfoldable pub pending_count : RudpChannel → ℕ
pending_count c = length c.retrans_q
