-- ===== src/Server/Delivery.antt =====
-- From the socket to the logic thread in Server_Core/Network/IOCPServer.cpp: what reaches the queue
-- of a session when the packets of one sender arrive in any order, with repetitions and gaps, and are
-- dispatched one after another. Server/Workers is about several workers.
use ai_xr_project.Base.{
  ℕ, zero, suc, ◌+◌, ◌-◌, ◌%◌, ◌≤◌, ◌<◌, ◌≡◌, refl, ap, sym, subst, ◌∙◌, List, [], ◌∷◌, ◌++◌, some,
  Bool, false, arith, length, All, All-map, ap₂, append_assoc, append-nil,
}
use ai_xr_project.Base.Dict.{find}
use ai_xr_project.Rudp.{
  Bytes, RudpChannel, new_channel, on_reliable_received, on_ack_received, get_cumulative_ack,
}
use ai_xr_project.Rudp.Drain.{seq_max, stream, stream-append}
use ai_xr_project.Rudp.Receive.{Tracks, Receives, on_reliable_received-Receives}
use ai_xr_project.Rudp.Stream.{new_channel-Tracks, ack_lem}
use ai_xr_project.Session.{Session, SockAddr, touch}
use ai_xr_project.SessionManager.{make_key, find_by_addr}
use ai_xr_project.LogicQueue
use ai_xr_project.LogicQueue.{LogicQueue}
use ai_xr_project.Packets.{header_of}
use ai_xr_project.Server.{
  Server, LogicWorkItem, logic_thread_count, session_at, push_at, dispatch_packet,
}
use ai_xr_project.Server.App.{queue_at}
use ai_xr_project.Server.Dispatch.{
  IsReliable, dispatch_packet_reliable_lem, items, push_items, lane_of, inbound,
}

-- The packets of the sender `f` with these numbers arrive at these times.
unfoldable pub arrive : (ℕ → Bool) → Server → SockAddr → (ℕ → Bytes) → List (ℕ × ℕ) → Server
arrive accepts sv sender f [] = sv
arrive accepts sv sender f ((seq, now) ∷ ps) =
    arrive accepts (dispatch_packet accepts sv (f seq) sender now) sender f ps

-- The sender numbers its reliable packets itself, so a packet is the same whenever it is sent.
pub record IsSender (f : ℕ → Bytes) : Type 0 where
  pub reliable : (s : ℕ) → s < seq_max → IsReliable (f s)
  pub numbered : (s : ℕ) → s < seq_max → (header_of (f s)).seq_num ≡ s

push_items-append :
    (i p : ℕ) (xs ys : List Bytes) (qs : List (LogicQueue LogicWorkItem))
    → push_items i (items p (xs ++ ys)) qs
      ≡ push_items i (items p ys) (push_items i (items p xs) qs)
push_items-append i p [] ys qs = refl
push_items-append i p (x ∷ xs) ys qs =
    push_items-append i p xs ys (push_at i (record { session_ref = p; packet = x }) qs)

-- A run of arrivals for the session at p.
record Served (f : ℕ → Bytes) (top p : ℕ) (sv sv' : Server) : Type 0 where
  count : ℕ
  advanced : (session_at sv' p).rudp.recv_next_seq ≡ (session_at sv p).rudp.recv_next_seq + count
  queues :
      sv'.logic_queues
      ≡ push_items
          (lane_of sv p)
          (items p (stream f (session_at sv p).rudp.recv_next_seq count))
          sv.logic_queues
  tracks : Tracks f top (session_at sv' p).rudp

Served-step :
    (f : ℕ → Bytes) (top p : ℕ) (sv sv1 sv' : Server) (n : ℕ)
    → (session_at sv1 p).rudp.recv_next_seq ≡ (session_at sv p).rudp.recv_next_seq + n
    → lane_of sv1 p ≡ lane_of sv p
    → sv1.logic_queues
      ≡ push_items
          (lane_of sv p)
          (items p (stream f (session_at sv p).rudp.recv_next_seq n))
          sv.logic_queues
    → Served f top p sv1 sv'
    → Served f top p sv sv'
Served-step f top p sv sv1 sv' n next lane queues rest =
    let start = (session_at sv p).rudp.recv_next_seq in
    let i = lane_of sv p in
    record {
      count = n + rest.count;
      advanced = omega (arith, rest.advanced, next);
      queues =
          rest.queues
          ∙ ap
              (λ l.
                push_items l (items p (stream f (session_at sv1 p).rudp.recv_next_seq rest.count))
                  sv1.logic_queues)
              lane
          ∙ ap (λ s. push_items i (items p (stream f s rest.count)) sv1.logic_queues) next
          ∙ ap (push_items i (items p (stream f (start + n) rest.count))) queues
          ∙ sym (
              push_items-append i p (stream f start n) (stream f (start + n) rest.count)
                sv.logic_queues)
          ∙ ap (λ l. push_items i (items p l) sv.logic_queues) (stream-append f start n rest.count);
      tracks = rest.tracks;
    }

acked-Tracks :
    (f : ℕ → Bytes) (top ack : ℕ) (c : RudpChannel)
    → Tracks f top c
    → Tracks f top (on_ack_received c ack)
unfolding on_ack_received
acked-Tracks f top ack c v = record {
  started = v.started;
  in_range = v.in_range;
  buffer = v.buffer;
}

module _ (accepts : ℕ → Bool) (sender : SockAddr) (f : ℕ → Bytes) (top p : ℕ) (fits : top < seq_max)
    (ok : IsSender f) where
  inbound-Receives :
      (sv : Server) (s : ℕ)
      → Tracks f top (session_at sv p).rudp
      → s ≤ top
      → Receives f top
          (on_ack_received (session_at sv p).rudp (header_of (f s)).ack_num)
          (inbound sv p (f s))
  inbound-Receives sv s v h =
      let c = on_ack_received (session_at sv p).rudp (header_of (f s)).ack_num in
      subst (λ n. Receives f top c (on_reliable_received c n (f s)))
        (sym (ok.numbered s (omega arith)))
        (on_reliable_received-Receives f top c s fits
          (acked-Tracks f top (header_of (f s)).ack_num (session_at sv p).rudp v) h)

  arrive-Served :
      (sv : Server) (ps : List (ℕ × ℕ))
      → find_by_addr sv.manager sender ≡ some p
      → p < length sv.manager.objects
      → Tracks f top (session_at sv p).rudp
      → All (λ (a : ℕ × ℕ). a.0 ≤ top) ps
      → Served f top p sv (arrive accepts sv sender f ps)
  unfolding arrive find_by_addr touch on_ack_received
  arrive-Served sv [] known made v h = record {
    count = 0;
    advanced = omega arith;
    queues = refl;
    tracks = v;
  }
  arrive-Served sv ((s, now) ∷ ps) known made v h =
      let sv1 = dispatch_packet accepts sv (f s) sender now in
      let one = inbound-Receives sv s v h.0 in
      let r =
        dispatch_packet_reliable_lem accepts sv (f s) sender now p
          (ok.reliable s (omega (arith, h.0, fits))) known made in
      let channel : (session_at sv1 p).rudp ≡ (inbound sv p (f s)).0 =
        ap (λ (x : Session). x.rudp) r.session in
      let lane : lane_of sv1 p ≡ lane_of sv p =
        ap (λ (x : Session). x.session_id % logic_thread_count) r.session in
      let rest =
        arrive-Served sv1 ps (ap (find (make_key sender)) r.same_index ∙ known)
          (omega (arith, r.same_objects)) (subst (Tracks f top) (sym channel) one.tracks) h.1 in
      let next : (session_at sv1 p).rudp.recv_next_seq
          ≡ (session_at sv p).rudp.recv_next_seq + one.count =
        ap (λ (c : RudpChannel). c.recv_next_seq) channel ∙ one.advanced in
      Served-step f top p sv sv1 (arrive accepts sv1 sender f ps) one.count next lane
        (r.queues ∙ ap (λ l. push_items (lane_of sv p) (items p l) sv.logic_queues) one.delivered)
        rest

pub queue_at-push_at :
    (i : ℕ) (item : LogicWorkItem) (q : LogicQueue LogicWorkItem)
    (qs : List (LogicQueue LogicWorkItem))
    → q.shut ≡ false
    → queue_at i qs ≡ some q
    → queue_at i (push_at i item qs) ≡ some (record { items = q.items ++ item ∷ []; shut = false })
unfolding queue_at push_at LogicQueue.push
queue_at-push_at i item q [] up e = absurd (ground arith)
queue_at-push_at zero item q (x ∷ qs) up e =
    let same : x ≡ q = ground arith in
    ap (λ (y : LogicQueue LogicWorkItem). some (LogicQueue.push y item)) same
    ∙ rw (up, LogicQueue.push)
queue_at-push_at (suc i) item q (x ∷ qs) up e = queue_at-push_at i item q qs up e

queue_at-push_items :
    (i p : ℕ) (bs : List Bytes) (q : LogicQueue LogicWorkItem)
    (qs : List (LogicQueue LogicWorkItem))
    → queue_at i qs ≡ some q
    → q.shut ≡ false
    → queue_at i (push_items i (items p bs) qs)
      ≡ some (record { items = q.items ++ items p bs; shut = false })
queue_at-push_items i p [] q qs e up =
    e ∙ ap some (λ j. record { items = sym (append-nil q.items) j; shut = up j })
queue_at-push_items i p (b ∷ bs) q qs e up =
    let item : LogicWorkItem = record { session_ref = p; packet = b } in
    let q' : LogicQueue LogicWorkItem = record { items = q.items ++ item ∷ []; shut = false } in
    queue_at-push_items i p bs q' (push_at i item qs) (queue_at-push_at i item q qs up e) refl
    ∙ ap (λ l. some (record { items = l; shut = false }))
        (append_assoc q.items (item ∷ []) (items p bs))

-- The reliable packets of a sender arrive at the server in any order, with repetitions and gaps, and
-- each is dispatched before the next; the session's channel has received nothing yet, its logic queue
-- is not shut down, and the numbers stay below 2^32 - 1. Then exactly the sender's packets 1, 2, ...
-- up to the session's cumulative acknowledgement are added to that queue, each once and in order.
pub arrive-stream :
    (accepts : ℕ → Bool) (sender : SockAddr) (f : ℕ → Bytes) (sv : Server) (p : ℕ)
    (q : LogicQueue LogicWorkItem) (ps : List (ℕ × ℕ))
    → IsSender f
    → find_by_addr sv.manager sender ≡ some p
    → p < length sv.manager.objects
    → (session_at sv p).rudp ≡ new_channel
    → queue_at (lane_of sv p) sv.logic_queues ≡ some q
    → q.shut ≡ false
    → All (λ (a : ℕ × ℕ). a.0 < seq_max) ps
    → queue_at (lane_of sv p) (arrive accepts sv sender f ps).logic_queues
      ≡ some (record {
        items =
            q.items
            ++ items p (
                stream f 1
                  (get_cumulative_ack (session_at (arrive accepts sv sender f ps) p).rudp));
        shut = false;
      })
arrive-stream accepts sender f sv p q ps ok known made new e up h =
    let top = seq_max - 1 in
    let sv' = arrive accepts sv sender f ps in
    let r =
      arrive-Served accepts sender f top p (omega arith) ok sv ps known made
        (subst (Tracks f top) (sym new) (new_channel-Tracks f top))
        (All-map (λ (a : ℕ × ℕ). a.0 < seq_max) (λ (a : ℕ × ℕ). a.0 ≤ top) ps (λ a k. omega arith)
          h) in
    let first : (session_at sv p).rudp.recv_next_seq ≡ 1 =
      ap (λ (c : RudpChannel). c.recv_next_seq) new in
    let counted : r.count ≡ get_cumulative_ack (session_at sv' p).rudp =
      omega
        (arith, r.advanced, first, ack_lem f top (session_at sv' p).rudp (omega arith) r.tracks) in
    ap (queue_at (lane_of sv p)) r.queues
    ∙ queue_at-push_items (lane_of sv p) p (stream f (session_at sv p).rudp.recv_next_seq r.count) q
        sv.logic_queues e up
    ∙ ap₂ (λ a n. some (record { items = q.items ++ items p (stream f a n); shut = false })) first
        counted
