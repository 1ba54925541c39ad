-- ===== src/Server/Ticks.antt =====
-- BroadcastTick of Server_Core/Network/IOCPServer.cpp as the receivers see it: which datagrams go to
-- whom, and what is in them, in terms of the sessions.
use mathlib.Core.List.{map-map}
use ai_xr_project.Base.{
  ℕ, ◌+◌, ◌-◌, ◌*◌, ◌%◌, ◌^◌, ◌≤◌, ◌<◌, ◌≡◌, refl, ap, sym, ◌∙◌, List, [], ◌∷◌, ◌++◌, map, some,
  Bool, true, ◌==◌, if◌then◌else◌, length, All, arith, Bool-cases, inl, inr, subst,
}
use ai_xr_project.Rudp.{Bytes, get_cumulative_ack}
use ai_xr_project.Session.{SockAddr}
use ai_xr_project.SessionManager.{each_session, values}
use ai_xr_project.Packets.{PacketHeader, header_of}
use ai_xr_project.Packets.Entries.{IsEntry}
use ai_xr_project.Server.{Server, session_at}
use ai_xr_project.Server.Fragments.{
  Entry, frags, frag_count, frag_packet, frag_header, max_entries, header_of-frag_packet,
}
use ai_xr_project.Server.Reassembly.{reassemble, packets, reassemble-packets}
use ai_xr_project.Server.Broadcast.{
  peer_of, peers_of, is_skipped, entries_for, outgoing, all_outgoing, broadcast_tick,
  broadcast_tick_sent_lem,
}

-- What the session at p is told of the sessions of an index: those of other users that have sent a
-- transform and are in its era.
abbrev pub told_of : Server → ℕ → List (ℕ × ℕ) → List Entry
told_of sv p [] = []
told_of sv p ((k, q) ∷ index) =
    let me = session_at sv p in
    let other = session_at sv q in
    let rest = told_of sv p index in
    if other.user_id == me.user_id
    then rest
    else if other.transform.seq == 0
    then rest
    else if other.transform.era == me.transform.era
    then (other.user_id, other.transform) ∷ rest
    else rest

-- The datagrams tell the session at p of its neighbours, and acknowledge what it has sent.
pub record Told (sv : Server) (p : ℕ) (bs : List Bytes) : Type 0 where
  pub entries : reassemble bs ≡ some (told_of sv p sv.manager.by_addr)
  pub headers :
      All
        (λ b.
          ((header_of b).type ≡ 0x09)
          × ((header_of b).ack_num ≡ ((session_at sv p).rudp.recv_next_seq + 2 ^ 32 - 1) % 2 ^ 32))
        bs

abbrev pub addressed : SockAddr → Bytes → SockAddr × Bytes
addressed to b = (to, b)

-- The datagrams go to the sessions of the index, one session after the other.
pub data Tick (sv : Server) : List (ℕ × ℕ) → List (SockAddr × Bytes) → Type 0 where
  finished : Tick sv [] []
  told :
      (k p : ℕ) (index : List (ℕ × ℕ)) (bs : List Bytes) (rest : List (SockAddr × Bytes))
      → Told sv p bs
      → Tick sv index rest
      → Tick sv ((k, p) ∷ index) (map (addressed (session_at sv p).remote_addr) bs ++ rest)

entries_for-told_of :
    (sv : Server) (p : ℕ) (index : List (ℕ × ℕ))
    → entries_for (peer_of sv p) (map (peer_of sv) (values index)) ≡ told_of sv p index
unfolding entries_for peer_of is_skipped values
entries_for-told_of sv p [] = refl
entries_for-told_of sv p ((k, q) ∷ index) = ground (arith, entries_for-told_of sv p index)

length-told_of :
    (sv : Server) (p : ℕ) (index : List (ℕ × ℕ)) → length (told_of sv p index) ≤ length index
length-told_of sv p [] = omega arith
length-told_of sv p ((k, q) ∷ index) = ground (arith, length-told_of sv p index)

-- The user and the transform of every session of the index fit their types.
abbrev pub Fitting : Server → List (ℕ × ℕ) → Type 0
Fitting sv index =
    All (λ (e : ℕ × ℕ). IsEntry ((session_at sv e.1).user_id, (session_at sv e.1).transform)) index

told_of-IsEntry :
    (sv : Server) (p : ℕ) (index : List (ℕ × ℕ))
    → Fitting sv index
    → All IsEntry (told_of sv p index)
told_of-IsEntry sv p [] fit = tt
told_of-IsEntry sv p ((k, q) ∷ index) fit =
    let rest = told_of-IsEntry sv p index fit.1 in
    let me = session_at sv p in
    let other = session_at sv q in
    elim (Bool-cases (other.user_id == me.user_id)) [
      | inl own ↦ rw own rest
      | inr another ↦ elim (Bool-cases (other.transform.seq == 0)) [
        | inl unplaced ↦ rw (another, unplaced) rest
        | inr placed ↦ elim (Bool-cases (other.transform.era == me.transform.era)) [
          | inl same ↦ rw (another, placed, same) (fit.0, rest)
          | inr away ↦ rw (another, placed, away) rest
        ]
      ]
    ]

frag_packet-headers :
    (ack now total : ℕ) (fs : List (ℕ × List Entry))
    → ack < 2 ^ 32
    → All
        (λ b. ((header_of b).type ≡ 0x09) × ((header_of b).ack_num ≡ ack))
        (map (λ f. frag_packet ack now total f) fs)
unfolding frag_header
frag_packet-headers ack now total [] h = tt
frag_packet-headers ack now total ((i, es) ∷ fs) h =
    let read = header_of-frag_packet ack now total i es h in
    (
      (ap (λ (x : PacketHeader). x.type) read, ap (λ (x : PacketHeader). x.ack_num) read),
      frag_packet-headers ack now total fs h,
    )

outgoing-Told :
    (sv : Server) (p now : ℕ)
    → length sv.manager.by_addr ≤ 255 * max_entries
    → Fitting sv sv.manager.by_addr
    → Told sv p
        (packets (get_cumulative_ack (session_at sv p).rudp) now (told_of sv p sv.manager.by_addr))
unfolding get_cumulative_ack
outgoing-Told sv p now few fit =
    let es = told_of sv p sv.manager.by_addr in
    let ack = get_cumulative_ack (session_at sv p).rudp in
    record {
      entries =
          reassemble-packets ack now es (omega (arith, few, length-told_of sv p sv.manager.by_addr))
            (told_of-IsEntry sv p sv.manager.by_addr fit);
      headers = frag_packet-headers ack now (frag_count (length es)) (frags es) (omega arith);
    }

all_outgoing-Tick :
    (sv : Server) (now : ℕ) (index : List (ℕ × ℕ))
    → length sv.manager.by_addr ≤ 255 * max_entries
    → Fitting sv sv.manager.by_addr
    → Tick sv index (
        all_outgoing
          (map (peer_of sv) (values index))
          (map (peer_of sv) (values sv.manager.by_addr))
          now)
unfolding values peer_of
all_outgoing-Tick sv now [] few fit = finished
all_outgoing-Tick sv now ((k, p) ∷ index) few fit =
    let peers = map (peer_of sv) (values sv.manager.by_addr) in
    let ack = get_cumulative_ack (session_at sv p).rudp in
    let to = (session_at sv p).remote_addr in
    let rest = all_outgoing (map (peer_of sv) (values index)) peers now in
    let es = told_of sv p sv.manager.by_addr in
    let same : map (addressed to) (packets ack now es) ≡ outgoing (peer_of sv p) peers now =
      map-map (addressed to) (λ f. frag_packet ack now (frag_count (length es)) f) (frags es)
      ∙ ap (λ l. map (λ f. addressed to (frag_packet ack now (frag_count (length l)) f)) (frags l))
          (sym (entries_for-told_of sv p sv.manager.by_addr)) in
    subst (λ l. Tick sv ((k, p) ∷ index) (l ++ rest)) same
      (told k p index (packets ack now es) rest (outgoing-Told sv p now few fit)
        (all_outgoing-Tick sv now index few fit))

-- On a running server whose sends are all taken and that has at most 255 * 28 sessions, whose
-- user ids and transforms fit their types, a tick sends
-- every session of the address index, one after the other and nothing to anyone else, world states
-- that acknowledge the number before the one that its channel expects (in 32 bits). By their
-- FragCount, FragIndex and EntryCount they give the receiver exactly the other users of the index that have sent
-- a transform and are in its era, each with its user id and its last transform.
pub broadcast_tick_sent :
    (accepts : ℕ → Bool) (sv : Server) (now : ℕ)
    → ((n : ℕ) → accepts n ≡ true)
    → sv.running ≡ true
    → length sv.manager.by_addr ≤ 255 * max_entries
    → Fitting sv sv.manager.by_addr
    → (out : List (SockAddr × Bytes)) × ((broadcast_tick accepts sv now).sent ≡ sv.sent ++ out)
      × Tick sv sv.manager.by_addr out
unfolding peers_of each_session
broadcast_tick_sent accepts sv now takes up few fit = (
  all_outgoing (peers_of sv) (peers_of sv) now,
  broadcast_tick_sent_lem accepts takes sv now up,
  all_outgoing-Tick sv now sv.manager.by_addr few fit,
)
