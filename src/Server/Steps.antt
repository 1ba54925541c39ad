-- ===== src/Server/Steps.antt =====
-- The steps of Server_Core/Network/IOCPServer.cpp that keep the server's invariant: sending, routing
-- a packet, DispatchPacket, and one round of a logic thread.
use ai_xr_project.Base.{
  ℕ, suc, ◌%◌, ◌<◌, ◌≡◌, refl, ◌∙◌, List, [], ◌∷◌, ◌++◌, Bool, not, ◌||◌, arith, ltb, ◌==◌, length,
  length-append, Bool-cases, Option-cases, inl, inr,
}
use ai_xr_project.Base.Dict.{find}
use ai_xr_project.Rudp.{
  Bytes, RudpChannel, on_reliable_received, get_cumulative_ack, accept_unreliable, on_ack_received,
}
use ai_xr_project.Session.{Session, SockAddr, touch, new_session}
use ai_xr_project.SessionManager.{
  SessionManager, find_by_addr, make_key, create_or_get, register, drop_stale,
}
use ai_xr_project.SessionManager.Consistent.{IsConsistent, create_or_get-IsConsistent}
use ai_xr_project.SendPool
use ai_xr_project.SendPool.{SendPool, IsPool, acquire-IsPool, acquire-release-IsPool}
use ai_xr_project.Packets.{
  PacketHeader, header_of, join_user_id, pkt_join, pkt_transform, sizeof_join,
}
use ai_xr_project.Server.{
  Server, logic_thread_count, max_udp_payload, modify, session_at, update_session, update_rudp,
  send_to, ack_packet, send_ack, enqueue_logic, enqueue_all, route_reliable, route_unreliable,
  route, is_well_formed, dispatch_packet,
}
use ai_xr_project.Server.Invariant.{
  SameIds, Keeps, modify-SameIds, append-SameIds, SameIds-IsConsistent, Lanes-SameIds,
  push_at-Lanes, IsServer,
}

-- From sv to sv' the sessions keep their identities, and the invariant holds in the end.
pub record Step (sv sv' : Server) : Type 0 where
  pub ids : SameIds sv.manager.objects sv'.manager.objects
  pub valid : IsServer sv'

pub SameIds-refl : (ss : List Session) → SameIds ss ss
SameIds-refl ss = record {
  longer = omega arith;
  same_id = λ q h. refl;
  same_user = λ q h. refl;
  same_addr = λ q h. refl;
}

SameIds-trans : (a b c : List Session) → SameIds a b → SameIds b c → SameIds a c
SameIds-trans a b c f g = record {
  longer = omega (arith, f.longer, g.longer);
  same_id = λ q h. g.same_id q (omega (arith, f.longer)) ∙ f.same_id q h;
  same_user = λ q h. g.same_user q (omega (arith, f.longer)) ∙ f.same_user q h;
  same_addr = λ q h. g.same_addr q (omega (arith, f.longer)) ∙ f.same_addr q h;
}

pub Step-refl : (sv : Server) → IsServer sv → Step sv sv
Step-refl sv v = record { ids = SameIds-refl sv.manager.objects; valid = v }

pub Step-trans : (a b c : Server) → Step a b → Step b c → Step a c
Step-trans a b c f g = record {
  ids = SameIds-trans a.manager.objects b.manager.objects c.manager.objects f.ids g.ids;
  valid = g.valid;
}

-- The session at p exists.
abbrev pub IsMade : Server → ℕ → Type 0
IsMade sv p = p < length sv.manager.objects

pub IsMade-Step : (sv sv' : Server) (p : ℕ) → Step sv sv' → IsMade sv p → IsMade sv' p
IsMade-Step sv sv' p s h = omega (arith, s.ids.longer)

-- A new manager whose sessions keep their identities.
pub manager-Step :
    (sv : Server) (m : SessionManager)
    → IsServer sv
    → SameIds sv.manager.objects m.objects
    → IsConsistent m
    → Step sv (record sv { manager = m })
manager-Step sv m v s c = record {
  ids = s;
  valid = record {
    indexes = c;
    buffers = v.buffers;
    lanes = Lanes-SameIds sv.manager.objects m.objects 0 sv.logic_queues s v.lanes;
  };
}

pub update_session-Step :
    (sv : Server) (p : ℕ) (f : Session → Session)
    → IsServer sv
    → Keeps f
    → Step sv (update_session sv p f)
unfolding update_session
update_session-Step sv p f v k =
    let s = modify-SameIds f p sv.manager.objects k in
    manager-Step sv (record (sv.manager) { objects = modify f p sv.manager.objects }) v s
      (SameIds-IsConsistent sv.manager (modify f p sv.manager.objects) s v.indexes)

pub update_rudp-Step :
    (sv : Server) (p : ℕ) (c : RudpChannel) → IsServer sv → Step sv (update_rudp sv p c)
update_rudp-Step sv p c v =
    update_session-Step sv p (λ s. record s { rudp = c }) v
      (record { id = λ s. refl; user = λ s. refl; addr = λ s. refl })

-- A send touches the buffers only.
pool-Step :
    (sv : Server) (pool : SendPool) (calls : ℕ) (sent : List (SockAddr × Bytes))
    → IsServer sv
    → IsPool pool
    → Step sv (record sv { pool = pool; calls = calls; sent = sent })
pool-Step sv pool calls sent v b = record {
  ids = SameIds-refl sv.manager.objects;
  valid = record { indexes = v.indexes; buffers = b; lanes = v.lanes };
}

pub send_to-Step :
    (accepts : ℕ → Bool) (sv : Server) (to : SockAddr) (b : Bytes)
    → IsServer sv
    → Step sv (send_to accepts sv to b).0
unfolding send_to
send_to-Step accepts sv to b v =
    elim (Bool-cases (length b == 0 || ltb max_udp_payload (length b))) [
      | inl bad ↦ rw (bad, send_to) (Step-refl sv v)
      | inr good ↦ elim (Bool-cases (not sv.running)) [
        | inl down ↦ rw (good, down, send_to) (Step-refl sv v)
        | inr up ↦ elim (Bool-cases (accepts sv.calls)) [
          | inl queued ↦
              rw (good, up, queued, send_to)
                (pool-Step sv (SendPool.acquire sv.pool).0 (suc sv.calls) (sv.sent ++ (to, b) ∷ [])
                  v (acquire-IsPool sv.pool v.buffers))
          | inr failed ↦
              rw (good, up, failed, send_to)
                (pool-Step sv
                  (SendPool.release (SendPool.acquire sv.pool).0 (SendPool.acquire sv.pool).1)
                  (suc sv.calls) sv.sent v (acquire-release-IsPool sv.pool v.buffers))
        ]
      ]
    ]

pub enqueue_logic-Step :
    (sv : Server) (p : ℕ) (b : Bytes) → IsServer sv → IsMade sv p → Step sv (enqueue_logic sv p b)
unfolding enqueue_logic
enqueue_logic-Step sv p b v h = record {
  ids = SameIds-refl sv.manager.objects;
  valid = record {
    indexes = v.indexes;
    buffers = v.buffers;
    lanes =
        push_at-Lanes sv.manager.objects 0 ((session_at sv p).session_id % logic_thread_count)
          (record { session_ref = p; packet = b }) sv.logic_queues
          (record { made = h; lane = omega arith }) v.lanes;
  };
}

pub enqueue_all-Step :
    (sv : Server) (p : ℕ) (bs : List Bytes)
    → IsServer sv
    → IsMade sv p
    → Step sv (enqueue_all sv p bs)
unfolding enqueue_all
enqueue_all-Step sv p [] v h = Step-refl sv v
enqueue_all-Step sv p (b ∷ bs) v h =
    let first = enqueue_logic-Step sv p b v h in
    Step-trans sv (enqueue_logic sv p b) (enqueue_all (enqueue_logic sv p b) p bs) first (
      enqueue_all-Step (enqueue_logic sv p b) p bs first.valid
        (IsMade-Step sv (enqueue_logic sv p b) p first h))

route_reliable-Step :
    (accepts : ℕ → Bool) (sv : Server) (p : ℕ) (header : PacketHeader) (b : Bytes)
    → IsServer sv
    → IsMade sv p
    → Step sv (route_reliable accepts sv p header b)
unfolding route_reliable send_ack
route_reliable-Step accepts sv p header b v h =
    let r = on_reliable_received (session_at sv p).rudp header.seq_num b in
    let sv1 = update_rudp sv p r.0 in
    let sv2 = enqueue_all sv1 p r.1 in
    let s1 = update_rudp-Step sv p r.0 v in
    let s2 = enqueue_all-Step sv1 p r.1 s1.valid (IsMade-Step sv sv1 p s1 h) in
    let bytes =
      ack_packet (session_at sv2 p).user_id (get_cumulative_ack (session_at sv2 p).rudp) in
    Step-trans sv sv1 _ s1 (
      Step-trans sv1 sv2 _ s2
        (send_to-Step accepts sv2 (session_at sv2 p).remote_addr bytes s2.valid))

route_unreliable-Step :
    (sv : Server) (p : ℕ) (header : PacketHeader) (b : Bytes)
    → IsServer sv
    → IsMade sv p
    → Step sv (route_unreliable sv p header b)
unfolding route_unreliable
route_unreliable-Step sv p header b v h =
    let r = accept_unreliable (session_at sv p).rudp header.seq_num in
    let sv1 = update_rudp sv p r.0 in
    let s1 = update_rudp-Step sv p r.0 v in
    elim (Bool-cases (header.type == pkt_transform)) [
      | inr other ↦ rw (other, route_unreliable) (enqueue_logic-Step sv p b v h)
      | inl here ↦ elim (Bool-cases r.1) [
        | inr old ↦ rw (here, old, route_unreliable) s1
        | inl new ↦
            rw (here, new, route_unreliable)
              (Step-trans sv sv1 _ s1
                (enqueue_logic-Step sv1 p b s1.valid (IsMade-Step sv sv1 p s1 h)))
      ]
    ]

pub route-Step :
    (accepts : ℕ → Bool) (sv : Server) (p : ℕ) (header : PacketHeader) (b : Bytes) (now : ℕ)
    → IsServer sv
    → IsMade sv p
    → Step sv (route accepts sv p header b now)
unfolding route touch
route-Step accepts sv p header b now v h =
    let f : Session → Session =
      λ s. record (touch s now) { rudp = on_ack_received s.rudp header.ack_num } in
    let sv1 = update_session sv p f in
    let s1 =
      update_session-Step sv p f v
        (record { id = λ s. refl; user = λ s. refl; addr = λ s. refl }) in
    let h1 = IsMade-Step sv sv1 p s1 h in
    elim (Bool-cases (header.flags % 2 == 1)) [
      | inl reliable ↦
          rw (reliable, route)
            (Step-trans sv sv1 _ s1 (route_reliable-Step accepts sv1 p header b s1.valid h1))
      | inr unreliable ↦
          rw (unreliable, route)
            (Step-trans sv sv1 _ s1 (route_unreliable-Step sv1 p header b s1.valid h1))
    ]

drop_stale-objects : (m : SessionManager) (user : ℕ) → (drop_stale m user).objects ≡ m.objects
unfolding drop_stale
drop_stale-objects m user = elim (Option-cases (find user m.by_user_id)) [
  | inl e ↦ rw (e, drop_stale)
  | inr (p, e) ↦ rw (e, drop_stale)
]

create_or_get-SameIds :
    (m : SessionManager) (user : ℕ) (addr : SockAddr) (now : ℕ)
    → IsConsistent m
    → SameIds m.objects (create_or_get m user addr now).0.objects
      × ((create_or_get m user addr now).1 < length (create_or_get m user addr now).0.objects)
unfolding create_or_get register
create_or_get-SameIds m user addr now v = elim (Option-cases (find (make_key addr) m.by_addr)) [
  | inr (p, e) ↦ rw (e, create_or_get) (SameIds-refl m.objects, (v.from_addr (make_key addr) p e).0)
  | inl e ↦
      let new = new_session (drop_stale m user).next_session_id user addr now ∷ [] in
      rw (e, create_or_get, drop_stale-objects m user)
        (append-SameIds m.objects new, omega (arith, length-append m.objects new))
]

pub dispatch_packet-Step :
    (accepts : ℕ → Bool) (sv : Server) (b : Bytes) (sender : SockAddr) (now : ℕ)
    → IsServer sv
    → Step sv (dispatch_packet accepts sv b sender now)
unfolding dispatch_packet find_by_addr
dispatch_packet-Step accepts sv b sender now v = elim (Bool-cases (not (is_well_formed b))) [
  | inl bad ↦ rw (bad, dispatch_packet) (Step-refl sv v)
  | inr good ↦ elim (Bool-cases ((header_of b).type == pkt_join)) [
    | inl join ↦ elim (Bool-cases (ltb (length b) sizeof_join)) [
      | inl short ↦ rw (good, join, short, dispatch_packet) (Step-refl sv v)
      | inr long ↦
          let r = create_or_get sv.manager (join_user_id b) sender now in
          let kept = create_or_get-SameIds sv.manager (join_user_id b) sender now v.indexes in
          let s1 =
            manager-Step sv r.0 v kept.0
              (create_or_get-IsConsistent sv.manager (join_user_id b) sender now v.indexes) in
          rw (good, join, long, dispatch_packet)
            (Step-trans sv (record sv { manager = r.0 }) _ s1
              (route-Step accepts (record sv { manager = r.0 }) r.1 (header_of b) b now s1.valid
                kept.1))
    ]
    | inr other ↦ elim (Option-cases (find (make_key sender) sv.manager.by_addr)) [
      | inl e ↦ rw (good, other, e, dispatch_packet, find_by_addr) (Step-refl sv v)
      | inr (p, e) ↦
          rw (good, other, e, dispatch_packet, find_by_addr)
            (route-Step accepts sv p (header_of b) b now v
              (v.indexes.from_addr (make_key sender) p e).0)
    ]
  ]
]
