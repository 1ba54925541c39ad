-- ===== src/Server/Handled.antt =====
-- DispatchPacket of Server_Core/Network/IOCPServer.cpp: what one reliable packet of a known session
-- does to the session and to the queue of its lane, in terms of their fields.
use ai_xr_project.Base.{
  ℕ, zero, suc, ◌+◌, ◌%◌, ◌^◌, ◌<◌, ◌≡◌, refl, ap, sym, ◌∙◌, List, [], ◌∷◌, ◌++◌, none, some, Bool,
  arith, ltb, length, Bool-cases, Option-cases, inl, inr, append_assoc, append-nil, subst,
  if◌then◌else◌, ltb→lt, ltb→ge, compare_cases, ge→ltb, ==_refl, ◌≤◌, true, incr32, false,
}
use ai_xr_project.Base.Dict.{find, erase, insert}
use ai_xr_project.Rudp.{
  Bytes, RudpChannel, drain, drop_acked, on_reliable_received, on_ack_received,
}
use ai_xr_project.Rudp.Receive.{received_old, received_buffered, received_full, received_future}
use ai_xr_project.Session.{Session, SockAddr, touch}
use ai_xr_project.SessionManager.{find_by_addr}
use ai_xr_project.LogicQueue
use ai_xr_project.LogicQueue.{LogicQueue}
use ai_xr_project.Packets.{header_of}
use ai_xr_project.Server.{Server, LogicWorkItem, session_at, push_at, dispatch_packet}
use ai_xr_project.Server.Dispatch.{
  IsReliable, items, push_items, inbound, dispatch_packet_reliable_lem,
}

-- What the packet numbered x does to a channel c, by the number n that c expects: an older one
-- does nothing; a later one waits in the buffer if there is room for it, and nothing is delivered;
-- the expected one is delivered, alone if the next one does not wait in the buffer, else with it.
pub data Inbound (c : RudpChannel) (x : ℕ) (bytes : Bytes) (c' : RudpChannel)
    (delivered : List Bytes) : Type 0 where
  older :
      x < c.recv_next_seq
      → delivered ≡ []
      → c'.recv_next_seq ≡ c.recv_next_seq
      → c'.reasm ≡ c.reasm
      → Inbound c x bytes c' delivered
  waits :
      c.recv_next_seq < x
      → delivered ≡ []
      → c'.recv_next_seq ≡ c.recv_next_seq
      → find x c.reasm ≡ none
      → length c.reasm < 1024
      → c'.reasm ≡ insert x bytes c.reasm
      → Inbound c x bytes c' delivered
  held :
      (b : Bytes)
      → c.recv_next_seq < x
      → delivered ≡ []
      → c'.recv_next_seq ≡ c.recv_next_seq
      → find x c.reasm ≡ some b
      → c'.reasm ≡ c.reasm
      → Inbound c x bytes c' delivered
  no_room :
      c.recv_next_seq < x
      → delivered ≡ []
      → c'.recv_next_seq ≡ c.recv_next_seq
      → find x c.reasm ≡ none
      → 1024 ≤ length c.reasm
      → c'.reasm ≡ c.reasm
      → Inbound c x bytes c' delivered
  alone :
      x ≡ c.recv_next_seq
      → find ((x + 1) % 2 ^ 32) c.reasm ≡ none
      → delivered ≡ bytes ∷ []
      → c'.recv_next_seq ≡ (x + 1) % 2 ^ 32
      → c'.reasm ≡ c.reasm
      → Inbound c x bytes c' delivered
  with_next :
      (b : Bytes) (more : List Bytes)
      → x ≡ c.recv_next_seq
      → find ((x + 1) % 2 ^ 32) c.reasm ≡ some b
      → delivered ≡ bytes ∷ b ∷ more
      → Inbound c x bytes c' delivered

drain-none :
    (fuel next : ℕ) (m : List (ℕ × Bytes)) → find next m ≡ none → drain fuel next m ≡ (next, m, [])
unfolding drain
drain-none zero next m e = refl
drain-none (suc fuel) next m e = rw (e, drain)

drain-some :
    (next : ℕ) (m : List (ℕ × Bytes)) (b : Bytes)
    → find next m ≡ some b
    → (more : List Bytes) × ((drain (length m) next m).2 ≡ b ∷ more)
unfolding drain find
drain-some next [] b e = absurd (ground arith)
drain-some next (x ∷ m) b e =
    ((drain (length m) (incr32 next) (erase next (x ∷ m))).2, rw (e, drain))

on_reliable_received_next :
    (c : RudpChannel) (x : ℕ) (bytes : Bytes)
    → x ≡ c.recv_next_seq
    → on_reliable_received c x bytes ≡ (
        let rest = drain (length c.reasm) ((x + 1) % 2 ^ 32) c.reasm in
        (record c { recv_next_seq = rest.0; reasm = rest.1 }, bytes ∷ rest.2, true))
unfolding on_reliable_received
on_reliable_received_next c x bytes h = rw (sym h, ge→ltb x x (omega arith), ==_refl x)

on_reliable_received-Inbound :
    (c : RudpChannel) (x : ℕ) (bytes : Bytes)
    → let r = on_reliable_received c x bytes in Inbound c x bytes r.0 r.1
on_reliable_received-Inbound c x bytes = elim (compare_cases x c.recv_next_seq) [
  | inl old ↦ rw (received_old c x bytes old) (older old refl refl refl)
  | inr (inl now) ↦ elim (Option-cases (find ((x + 1) % 2 ^ 32) c.reasm)) [
    | inl absent ↦
        rw
          (
            on_reliable_received_next c x bytes now,
            drain-none (length c.reasm) ((x + 1) % 2 ^ 32) c.reasm absent,
          )
          (alone now absent refl refl refl)
    | inr (b, there) ↦
        let (more, drained) = drain-some ((x + 1) % 2 ^ 32) c.reasm b there in
        rw (on_reliable_received_next c x bytes now)
          (with_next b more now there (ap (◌∷◌ bytes) drained))
  ]
  | inr (inr new) ↦ elim (Option-cases (find x c.reasm)) [
    | inr (b, there) ↦
        rw (received_buffered c x bytes b new there) (held b new refl refl there refl)
    | inl absent ↦ elim (Bool-cases (ltb (length c.reasm) 1024)) [
      | inl room ↦
          rw (received_future c x bytes new absent (ltb→lt (length c.reasm) 1024 room))
            (waits new refl refl absent (ltb→lt (length c.reasm) 1024 room) refl)
      | inr full ↦
          rw (received_full c x bytes new absent (ltb→ge (length c.reasm) 1024 full))
            (no_room new refl refl absent (ltb→ge (length c.reasm) 1024 full) refl)
    ]
  ]
]

received-retrans_q :
    (c : RudpChannel) (x : ℕ) (bytes : Bytes)
    → (on_reliable_received c x bytes).0.retrans_q ≡ c.retrans_q
received-retrans_q c x bytes = elim (compare_cases x c.recv_next_seq) [
  | inl old ↦ rw (received_old c x bytes old)
  | inr (inl now) ↦ rw (on_reliable_received_next c x bytes now)
  | inr (inr new) ↦ elim (Option-cases (find x c.reasm)) [
    | inr (b, there) ↦ rw (received_buffered c x bytes b new there)
    | inl absent ↦ elim (Bool-cases (ltb (length c.reasm) 1024)) [
      | inl room ↦ rw (received_future c x bytes new absent (ltb→lt (length c.reasm) 1024 room))
      | inr full ↦ rw (received_full c x bytes new absent (ltb→ge (length c.reasm) 1024 full))
    ]
  ]
]

-- The queues after items came to the end of the one with this index, unless it is shut down.
abbrev pub queued :
    ℕ → List LogicWorkItem → List (LogicQueue LogicWorkItem) → List (LogicQueue LogicWorkItem)
queued i new [] = []
queued zero new (q ∷ qs) =
    (if q.shut then q else record { items = q.items ++ new; shut = false }) ∷ qs
queued (suc i) new (q ∷ qs) = q ∷ queued i new qs

queued-nil : (i : ℕ) (qs : List (LogicQueue LogicWorkItem)) → qs ≡ queued i [] qs
queued-nil i [] = refl
queued-nil zero (q ∷ qs) = elim (Bool-cases q.shut) [
  | inl shut ↦ rw shut
  | inr up ↦ rw up (
      ap (λ (y : LogicQueue LogicWorkItem). y ∷ qs)
        (λ j. record { items = sym (append-nil q.items) j; shut = false }))
]
queued-nil (suc i) (q ∷ qs) = ap (◌∷◌ q) (queued-nil i qs)

queued-push_at :
    (i : ℕ) (x : LogicWorkItem) (new : List LogicWorkItem) (qs : List (LogicQueue LogicWorkItem))
    → queued i new (push_at i x qs) ≡ queued i (x ∷ new) qs
unfolding push_at LogicQueue.push
queued-push_at i x new [] = refl
queued-push_at zero x new (q ∷ qs) = elim (Bool-cases q.shut) [
  | inl shut ↦ rw (shut, LogicQueue.push)
  | inr up ↦ rw (up, LogicQueue.push, append_assoc q.items (x ∷ []) new)
]
queued-push_at (suc i) x new (q ∷ qs) = ap (◌∷◌ q) (queued-push_at i x new qs)

push_items-queued :
    (i : ℕ) (new : List LogicWorkItem) (qs : List (LogicQueue LogicWorkItem))
    → push_items i new qs ≡ queued i new qs
push_items-queued i [] qs = queued-nil i qs
push_items-queued i (x ∷ new) qs =
    push_items-queued i new (push_at i x qs) ∙ queued-push_at i x new qs

-- From sv to sv' the session at p has received this packet at the time `now`.
pub record Handled (sv sv' : Server) (p : ℕ) (bytes : Bytes) (now : ℕ) : Type 0 where
  pub delivered : List Bytes
  pub contact : (session_at sv' p).last_recv_ms ≡ now
  pub same_id : (session_at sv' p).session_id ≡ (session_at sv p).session_id
  pub same_user : (session_at sv' p).user_id ≡ (session_at sv p).user_id
  pub same_addr : (session_at sv' p).remote_addr ≡ (session_at sv p).remote_addr
  pub same_transform : (session_at sv' p).transform ≡ (session_at sv p).transform
  pub acknowledged :
      (session_at sv' p).rudp.retrans_q
      ≡ drop_acked (header_of bytes).ack_num (session_at sv p).rudp.retrans_q
  pub received :
      Inbound
        (session_at sv p).rudp
        (header_of bytes).seq_num
        bytes
        (session_at sv' p).rudp
        delivered
  pub queues :
      sv'.logic_queues
      ≡ queued ((session_at sv p).session_id % 4) (items p delivered) sv.logic_queues
  pub same_index : sv'.manager.by_addr ≡ sv.manager.by_addr
  pub same_objects : length sv'.manager.objects ≡ length sv.manager.objects

-- The channel that the packet meets is the session's, but for the acknowledged packets.
inbound-Inbound :
    (sv : Server) (p : ℕ) (bytes : Bytes)
    → Inbound
        (session_at sv p).rudp
        (header_of bytes).seq_num
        bytes
        (inbound sv p bytes).0
        (inbound sv p bytes).1
unfolding on_ack_received
inbound-Inbound sv p bytes =
    elim (on_reliable_received-Inbound
      (on_ack_received (session_at sv p).rudp (header_of bytes).ack_num) (header_of bytes).seq_num
      bytes) [
        | older a b c d ↦ older a b c d
        | waits a b c d e f ↦ waits a b c d e f
        | held x a b c d e ↦ held x a b c d e
        | no_room a b c d e f ↦ no_room a b c d e f
        | alone a b c d e ↦ alone a b c d e
        | with_next x more a b c ↦ with_next x more a b c
      ]

-- What a reliable packet does, a JOIN or another, that comes from an address with a session, when no
-- other worker handles a packet meanwhile. The session's time of last contact is set, and its other
-- fields but the channel stay; the packets that the header acknowledges leave the retransmission
-- queue. An older number is dropped, a later one waits if there is room, and the expected one is
-- delivered: alone if the next one does not wait in the buffer, else followed by it. What is
-- delivered comes to the end of the queue with the index of the session's id modulo 4, and the other
-- queues stay. No session is made, and the addresses stay as they are.
pub dispatch_packet_reliable :
    (accepts : ℕ → Bool) (sv : Server) (bytes : Bytes) (sender : SockAddr) (now p : ℕ)
    → IsReliable bytes
    → find_by_addr sv.manager sender ≡ some p
    → p < length sv.manager.objects
    → Handled sv (dispatch_packet accepts sv bytes sender now) p bytes now
unfolding touch on_ack_received
dispatch_packet_reliable accepts sv bytes sender now p ok known made =
    let r = dispatch_packet_reliable_lem accepts sv bytes sender now p ok known made in
    let c = on_ack_received (session_at sv p).rudp (header_of bytes).ack_num in
    record {
      delivered = (inbound sv p bytes).1;
      contact = ap (λ (s : Session). s.last_recv_ms) r.session;
      same_id = ap (λ (s : Session). s.session_id) r.session;
      same_user = ap (λ (s : Session). s.user_id) r.session;
      same_addr = ap (λ (s : Session). s.remote_addr) r.session;
      same_transform = ap (λ (s : Session). s.transform) r.session;
      acknowledged =
          ap (λ (s : Session). s.rudp.retrans_q) r.session
          ∙ received-retrans_q c (header_of bytes).seq_num bytes;
      received =
          subst
            (λ (d : RudpChannel).
              Inbound (session_at sv p).rudp (header_of bytes).seq_num bytes d
                (inbound sv p bytes).1)
            (sym (ap (λ (s : Session). s.rudp) r.session)) (inbound-Inbound sv p bytes);
      queues =
          r.queues
          ∙ push_items-queued ((session_at sv p).session_id % 4) (items p (inbound sv p bytes).1)
              sv.logic_queues;
      same_index = r.same_index;
      same_objects = r.same_objects;
    }
