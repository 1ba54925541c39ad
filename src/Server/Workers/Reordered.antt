-- ===== src/Server/Workers/Reordered.antt =====
-- DispatchPacket of Server_Core/Network/IOCPServer.cpp on two I/O workers: one worker overtakes
-- another between OnReliableReceived and Push.
use ai_xr_project.Base.{
  ℕ, ◌%◌, ◌<◌, ◌≡◌, refl, ap, ◌∙◌, List, [], ◌∷◌, ◌++◌, some, Bool, true, Bool-cases, inl, inr,
  false, ◌==◌, ltb, length, arith, append_assoc, ap₂,
}
use ai_xr_project.Base.Dict.{find}
use ai_xr_project.Rudp.{
  Bytes, RudpChannel, new_channel, drain, drop_acked, on_reliable_received, on_ack_received,
}
use ai_xr_project.Session.{Session, SockAddr, touch}
use ai_xr_project.SessionManager.{make_key, find_by_addr, create_or_get}
use ai_xr_project.LogicQueue.{LogicQueue}
use ai_xr_project.Packets.{header_of, pkt_join, sizeof_join}
use ai_xr_project.Server.{
  Server, LogicWorkItem, session_at, push_at, update_session, update_rudp, enqueue_logic,
}
use ai_xr_project.Server.App.{queue_at}
use ai_xr_project.Server.Invariant.{length-modify}
use ai_xr_project.Server.Dispatch.{
  IsReliable, inbound, deref-modify_here, lane_of, reliable-is_well_formed,
}
use ai_xr_project.Server.Delivery.{queue_at-push_at}
use ai_xr_project.Server.Workers.{
  Stage, got, resolved, acknowledged, pushing, work, work_on, workers, resolve, receive,
}

-- After the session is found: Touch, OnAckReceived and OnReliableReceived of one worker.
abbrev pub renew : Server → ℕ → ℕ → Server
renew sv p now = update_session sv p (λ s. touch s now)

abbrev pub acknowledge : Server → ℕ → Bytes → Server
acknowledge sv p bytes =
    update_rudp sv p (on_ack_received (session_at sv p).rudp (header_of bytes).ack_num)

abbrev pub outcome : Server → ℕ → Bytes → RudpChannel × List Bytes × Bool
outcome sv p bytes = on_reliable_received (session_at sv p).rudp (header_of bytes).seq_num bytes

abbrev pub accept : Server → ℕ → Bytes → Server
accept sv p bytes = update_rudp sv p (outcome sv p bytes).0

unfoldable pub begun : Server → ℕ → Bytes → ℕ → Server × Stage
begun sv p bytes now =
    let sv' = acknowledge (renew sv p now) p bytes in
    (accept sv' p bytes, pushing p true (outcome sv' p bytes).1)

-- What a worker has done when it is about to push.
record Prepared (sv : Server) (p : ℕ) (bytes : Bytes) (now : ℕ) : Type 0 where
  stage : (begun sv p bytes now).1 ≡ pushing p true (inbound sv p bytes).1
  session :
      session_at (begun sv p bytes now).0 p
      ≡ record (touch (session_at sv p) now) { rudp = (inbound sv p bytes).0 }
  queues : (begun sv p bytes now).0.logic_queues ≡ sv.logic_queues
  index : (begun sv p bytes now).0.manager.by_addr ≡ sv.manager.by_addr
  objects : length (begun sv p bytes now).0.manager.objects ≡ length sv.manager.objects

update_session_here :
    (sv : Server) (p : ℕ) (f : Session → Session)
    → p < length sv.manager.objects
    → (session_at (update_session sv p f) p ≡ f (session_at sv p))
      × (length (update_session sv p f).manager.objects ≡ length sv.manager.objects)
unfolding update_session
update_session_here sv p f made =
    (deref-modify_here f p sv.manager.objects made, length-modify f p sv.manager.objects)

begun-Prepared :
    (sv : Server) (p : ℕ) (bytes : Bytes) (now : ℕ)
    → p < length sv.manager.objects
    → Prepared sv p bytes now
unfolding begun touch update_session
begun-Prepared sv p bytes now made =
    let ack = (header_of bytes).ack_num in
    let seq = (header_of bytes).seq_num in
    let sv1 = renew sv p now in
    let sv2 = acknowledge sv1 p bytes in
    let (s1, l1) = update_session_here sv p (λ s. touch s now) made in
    let (s2, l2) =
      update_session_here sv1 p
        (λ s. record s { rudp = on_ack_received (session_at sv1 p).rudp ack })
        (omega (arith, made, l1)) in
    let (s3, l3) =
      update_session_here sv2 p (λ s. record s { rudp = (outcome sv2 p bytes).0 })
        (omega (arith, made, l1, l2)) in
    let met : session_at sv2 p ≡ record (touch (session_at sv p) now) {
      rudp = on_ack_received (session_at sv p).rudp ack;
    } =
      s2 ∙ ap (λ (s : Session). record s { rudp = on_ack_received s.rudp ack }) s1 in
    record {
      stage = ap (λ (s : Session). pushing p true (on_reliable_received s.rudp seq bytes).1) met;
      session =
          s3
          ∙ ap (λ (s : Session). record s { rudp = (on_reliable_received s.rudp seq bytes).0 }) met;
      queues = refl;
      index = refl;
      objects = l3 ∙ l2 ∙ l1;
    }

work_got :
    (accepts : ℕ → Bool) (sv : Server) (bytes : Bytes) (sender : SockAddr) (now p : ℕ)
    → IsReliable bytes
    → find_by_addr sv.manager sender ≡ some p
    → work accepts sv now (got bytes sender) ≡ (sv, resolved p bytes)
unfolding work resolve create_or_get find_by_addr
work_got accepts sv bytes sender now p ok known =
    let good = reliable-is_well_formed bytes ok in
    elim (Bool-cases ((header_of bytes).type == pkt_join)) [
      | inl join ↦
          let long : ltb (length bytes) sizeof_join ≡ false = ground (arith, ok.long_join) in
          rw (good, join, long, known, resolve, create_or_get)
      | inr other ↦ rw (good, other, known, resolve)
    ]

work_acknowledged :
    (accepts : ℕ → Bool) (sv : Server) (bytes : Bytes) (now p : ℕ)
    → IsReliable bytes
    → work accepts sv now (acknowledged p bytes)
      ≡ (accept sv p bytes, pushing p true (outcome sv p bytes).1)
unfolding work receive
work_acknowledged accepts sv bytes now p ok =
    let flag : ((header_of bytes).flags % 2 == 1) ≡ true = ground (arith, ok.flagged) in
    rw (flag, receive)

-- Four steps of one worker.
abbrev pub four : ℕ → ℕ → List (ℕ × ℕ) → List (ℕ × ℕ)
four w now rest = (w, now) ∷ (w, now) ∷ (w, now) ∷ (w, now) ∷ rest

pub first_begins :
    (accepts : ℕ → Bool) (sv : Server) (bytes : Bytes) (sender : SockAddr) (now p : ℕ)
    (stages : List Stage) (rest : List (ℕ × ℕ))
    → IsReliable bytes
    → find_by_addr sv.manager sender ≡ some p
    → workers accepts (four 0 now rest) sv (got bytes sender ∷ stages)
      ≡ workers accepts rest (begun sv p bytes now).0 ((begun sv p bytes now).1 ∷ stages)
unfolding workers work_on begun work
first_begins accepts sv bytes sender now p stages rest ok known =
    let w : ℕ = 0 in
    let sv2 = acknowledge (renew sv p now) p bytes in
    ap
      (λ (r : Server × Stage).
        workers accepts ((w, now) ∷ (w, now) ∷ (w, now) ∷ rest) r.0 (r.1 ∷ stages))
      (work_got accepts sv bytes sender now p ok known)
    ∙ ap (λ (r : Server × Stage). workers accepts rest r.0 (r.1 ∷ stages))
        (work_acknowledged accepts sv2 bytes now p ok)

second_begins :
    (accepts : ℕ → Bool) (sv : Server) (bytes : Bytes) (sender : SockAddr) (now p : ℕ)
    (stage : Stage) (rest : List (ℕ × ℕ))
    → IsReliable bytes
    → find_by_addr sv.manager sender ≡ some p
    → workers accepts (four 1 now rest) sv (stage ∷ got bytes sender ∷ [])
      ≡ workers accepts rest (begun sv p bytes now).0 (stage ∷ (begun sv p bytes now).1 ∷ [])
unfolding workers work_on begun work
second_begins accepts sv bytes sender now p stage rest ok known =
    let w : ℕ = 1 in
    let sv2 = acknowledge (renew sv p now) p bytes in
    ap
      (λ (r : Server × Stage).
        workers accepts ((w, now) ∷ (w, now) ∷ (w, now) ∷ rest) r.0 (stage ∷ r.1 ∷ []))
      (work_got accepts sv bytes sender now p ok known)
    ∙ ap (λ (r : Server × Stage). workers accepts rest r.0 (stage ∷ r.1 ∷ []))
        (work_acknowledged accepts sv2 bytes now p ok)

-- A channel that has delivered the numbers below n, with nothing in its buffer.
abbrev expecting : ℕ → RudpChannel
expecting n = record new_channel { recv_next_seq = n }

first_received :
    (ack : ℕ) (b : Bytes)
    → on_reliable_received (on_ack_received new_channel ack) 1 b ≡ (expecting 2, b ∷ [], true)
unfolding on_reliable_received on_ack_received drop_acked drain
first_received ack b = refl

second_received :
    (ack : ℕ) (b : Bytes)
    → on_reliable_received (on_ack_received (expecting 2) ack) 2 b ≡ (expecting 3, b ∷ [], true)
unfolding on_reliable_received on_ack_received drop_acked drain
second_received ack b = refl

-- Worker 0 takes the first packet up to its Push, worker 1 the second one past its Push, and then
-- worker 0 pushes.
abbrev pub overtaking : ℕ → List (ℕ × ℕ)
overtaking now = four 0 now (four 1 now ((1, now) ∷ (0, now) ∷ []))

abbrev item : ℕ → Bytes → LogicWorkItem
item p b = record { session_ref = p; packet = b }

pushed_last :
    (accepts : ℕ → Bool) (sv : Server) (p now i : ℕ) (b1 b2 : Bytes) (q : LogicQueue LogicWorkItem)
    → lane_of sv p ≡ i
    → queue_at i sv.logic_queues ≡ some q
    → q.shut ≡ false
    → queue_at i
        (workers accepts
          ((1, now) ∷ (0, now) ∷ [])
          sv
          (pushing p true (b1 ∷ []) ∷ pushing p true (b2 ∷ []) ∷ [])).0.logic_queues
      ≡ some (record { items = q.items ++ item p b2 ∷ item p b1 ∷ []; shut = false })
unfolding workers work_on work enqueue_logic
pushed_last accepts sv p now i b1 b2 q lane e up =
    let once = queue_at-push_at i (item p b2) q sv.logic_queues up e in
    ap (λ l. queue_at i (push_at l (item p b1) (push_at l (item p b2) sv.logic_queues))) lane
    ∙ queue_at-push_at i (item p b1) (record { items = q.items ++ item p b2 ∷ []; shut = false })
        (push_at i (item p b2) sv.logic_queues) refl once
    ∙ ap (λ l. some (record { items = l; shut = false }))
        (append_assoc q.items (item p b2 ∷ []) (item p b1 ∷ []))

-- The reliable packets 1 and 2 of one sender arrive in this order, for a session whose channel has
-- received nothing yet and whose logic queue is not shut down; two workers handle them, each taking
-- its steps in the order of the code. There is a schedule after which the queue holds packet 2
-- before packet 1: the lock of the channel is released before the packets that it has put in order
-- are pushed.
pub workers-reordered :
    (accepts : ℕ → Bool) (sv : Server) (b1 b2 : Bytes) (sender : SockAddr) (now p : ℕ)
    (q : LogicQueue LogicWorkItem)
    → IsReliable b1
    → IsReliable b2
    → (header_of b1).seq_num ≡ 1
    → (header_of b2).seq_num ≡ 2
    → find_by_addr sv.manager sender ≡ some p
    → p < length sv.manager.objects
    → (session_at sv p).rudp ≡ new_channel
    → queue_at (lane_of sv p) sv.logic_queues ≡ some q
    → q.shut ≡ false
    → queue_at
        (lane_of sv p)
        (workers accepts (overtaking now) sv (got b1 sender ∷ got b2 sender ∷ [])).0.logic_queues
      ≡ some (record { items = q.items ++ item p b2 ∷ item p b1 ∷ []; shut = false })
unfolding find_by_addr touch
workers-reordered accepts sv b1 b2 sender now p q ok1 ok2 n1 n2 known made new e up =
    let a = begun sv p b1 now in
    let b = begun a.0 p b2 now in
    let ra = begun-Prepared sv p b1 now made in
    let rb = begun-Prepared a.0 p b2 now (omega (arith, made, ra.objects)) in
    let one : inbound sv p b1 ≡ (expecting 2, b1 ∷ [], true) =
      ap₂ (λ c n. on_reliable_received (on_ack_received c (header_of b1).ack_num) n b1) new n1
      ∙ first_received (header_of b1).ack_num b1 in
    let channel : (session_at a.0 p).rudp ≡ expecting 2 =
      ap (λ (s : Session). s.rudp) ra.session
      ∙ ap (λ (r : RudpChannel × List Bytes × Bool). r.0) one in
    let two : inbound a.0 p b2 ≡ (expecting 3, b2 ∷ [], true) =
      ap₂ (λ c n. on_reliable_received (on_ack_received c (header_of b2).ack_num) n b2) channel n2
      ∙ second_received (header_of b2).ack_num b2 in
    let holds1 : a.1 ≡ pushing p true (b1 ∷ []) =
      ra.stage ∙ ap (λ (r : RudpChannel × List Bytes × Bool). pushing p true r.1) one in
    let holds2 : b.1 ≡ pushing p true (b2 ∷ []) =
      rb.stage ∙ ap (λ (r : RudpChannel × List Bytes × Bool). pushing p true r.1) two in
    let lane : lane_of b.0 p ≡ lane_of sv p =
      ap (λ (s : Session). s.session_id % 4) rb.session
      ∙ ap (λ (s : Session). s.session_id % 4) ra.session in
    ap (λ (r : Server × List Stage). queue_at (lane_of sv p) r.0.logic_queues)
      (first_begins accepts sv b1 sender now p (got b2 sender ∷ [])
          (four 1 now ((1, now) ∷ (0, now) ∷ [])) ok1 known
        ∙ second_begins accepts a.0 b2 sender now p a.1 ((1, now) ∷ (0, now) ∷ []) ok2
            (ap (find (make_key sender)) ra.index ∙ known)
        ∙ ap₂ (λ s1 s2. workers accepts ((1, now) ∷ (0, now) ∷ []) b.0 (s1 ∷ s2 ∷ [])) holds1
            holds2)
    ∙ pushed_last accepts b.0 p now (lane_of sv p) b1 b2 q lane
        (ap (queue_at (lane_of sv p)) (rb.queues ∙ ra.queues) ∙ e) up
