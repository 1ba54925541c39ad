-- ===== src/Rudp/Outbound.antt =====
-- The outbound reliable stream of Server_Core/Network/RudpChannel.cpp: OnReliableSent,
-- OnAckReceived and CollectRetransmits.
use ai_xr_project.Base.{
  ℕ, ◌≤◌, ◌≡◌, refl, Bool, true, false, ◌||◌, List, [], ◌∷◌, Option, none, some, arith, leb, ◌==◌,
  if◌then◌else◌, ◌+◌, ◌%◌, ◌^◌, ◌∙◌, ltb, not, ◌&&◌,
}
use ai_xr_project.Base.Dict.{find, Above, find-Above, insert, insert-Above, Above-mono}
use ai_xr_project.Rudp.{
  Bytes, RudpChannel, PendingPacket, drop_acked, on_ack_received, on_reliable_sent, Fate, wait,
  dead, resend, fate, collect, collect_retransmits,
}

-- std::map keeps the keys ascending: the queue's, above a bound.
abbrev pub IsQueue : List (ℕ × PendingPacket) → Type 0
IsQueue [] = Unit
IsQueue ((k, p) ∷ q) = Above k q

find-drop_acked :
    (ack k : ℕ) (q : List (ℕ × PendingPacket))
    → IsQueue q
    → find k (drop_acked ack q) ≡ (if leb k ack then none else find k q)
unfolding drop_acked find
find-drop_acked ack k [] v = ground arith
find-drop_acked ack k ((j, p) ∷ []) v = ground arith
find-drop_acked ack k ((j, p) ∷ (i, p') ∷ q) v =
    ground (arith, find-drop_acked ack k ((i, p') ∷ q) v.1, find-Above j k ((i, p') ∷ q) v)

-- A cumulative acknowledgement takes exactly the packets up to its number out of the
-- retransmission queue, and leaves every other entry as it was.
pub find-on_ack_received :
    (c : RudpChannel) (ack k : ℕ)
    → IsQueue c.retrans_q
    → find k (on_ack_received c ack).retrans_q ≡ (if leb k ack then none else find k c.retrans_q)
unfolding on_ack_received
find-on_ack_received c ack k v = find-drop_acked ack k c.retrans_q v

-- What becomes of a queued packet in a sweep.
abbrev pub after : Fate → PendingPacket → Option PendingPacket
after wait p = some p
after dead p = none
after (resend p') p = some p'

abbrev pub swept : ℕ → ℕ → ℕ → Option PendingPacket → Option PendingPacket
swept now timeout max_retries none = none
swept now timeout max_retries (some p) = after (fate now timeout max_retries p) p

abbrev pub is_dead : Fate → Bool
is_dead wait = false
is_dead dead = true
is_dead (resend p) = false

-- The number is in the list.
abbrev pub contains : ℕ → List ℕ → Bool
contains k [] = false
contains k (x ∷ xs) = x == k || contains k xs

-- The parameters of a sweep.
module _ (now timeout max_retries : ℕ) where
  collect-Above :
      (n : ℕ) (q : List (ℕ × PendingPacket))
      → Above n q
      → Above n (collect now timeout max_retries q).0
  unfolding collect
  collect-Above n [] v = tt
  collect-Above n ((k, p) ∷ q) v = ground (
    arith,
    collect-Above k q v.1,
    Above-mono {a = n} {b = k} (collect now timeout max_retries q).0,
  )

  find-collect :
      (k : ℕ) (q : List (ℕ × PendingPacket))
      → IsQueue q
      → find k (collect now timeout max_retries q).0 ≡ swept now timeout max_retries (find k q)
  unfolding collect find
  find-collect k [] v = refl
  find-collect k ((j, p) ∷ []) v = ground arith
  find-collect k ((j, p) ∷ (i, p') ∷ q) v = ground (
    arith,
    find-collect k ((i, p') ∷ q) v.1,
    find-Above j k (collect now timeout max_retries ((i, p') ∷ q)).0
        (collect-Above j ((i, p') ∷ q) v),
    find-Above j k ((i, p') ∷ q) v,
  )

  abbrev pub gives_up : Option PendingPacket → Bool
  gives_up none = false
  gives_up (some p) = is_dead (fate now timeout max_retries p)

  contains-Above :
      (n k : ℕ) (q : List (ℕ × PendingPacket))
      → Above n q
      → k ≤ n
      → contains k (collect now timeout max_retries q).2 ≡ false
  unfolding collect
  contains-Above n k [] v h = refl
  contains-Above n k ((j, p) ∷ q) v h = ground (arith, contains-Above j k q v.1)

  contains-collect :
      (k : ℕ) (q : List (ℕ × PendingPacket))
      → IsQueue q
      → contains k (collect now timeout max_retries q).2 ≡ gives_up (find k q)
  unfolding collect find
  contains-collect k [] v = refl
  contains-collect k ((j, p) ∷ []) v = ground arith
  contains-collect k ((j, p) ∷ (i, p') ∷ q) v =
      ground (arith, contains-collect k ((i, p') ∷ q) v.1, contains-Above j k ((i, p') ∷ q) v)

  -- What a sweep leaves under a number, and which numbers it reports, by the code's loop body.
  pub find-collect_retransmits_lem :
      (c : RudpChannel) (k : ℕ)
      → IsQueue c.retrans_q
      → (find k (collect_retransmits c now timeout max_retries).0.retrans_q
          ≡ swept now timeout max_retries (find k c.retrans_q))
        × (contains k (collect_retransmits c now timeout max_retries).2
            ≡ gives_up (find k c.retrans_q))
  unfolding collect_retransmits
  find-collect_retransmits_lem c k v =
      (find-collect k c.retrans_q v, contains-collect k c.retrans_q v)

  -- A queued packet after a sweep, in terms of its fields.
  abbrev pub left_queued : Option PendingPacket → Option PendingPacket
  left_queued none = none
  left_queued (some p) =
      if ltb now (p.last_sent_ms + timeout)
      then some p
      else if ltb p.retry_count max_retries
      then some (record {
        bytes = p.bytes;
        last_sent_ms = now;
        retry_count = (p.retry_count + 1) % 2 ^ 32;
      })
      else none

  -- The packet was queued, its time is over, and it has had all its retries.
  abbrev pub is_reported : Option PendingPacket → Bool
  is_reported none = false
  is_reported (some p) =
      not (ltb now (p.last_sent_ms + timeout)) && not (ltb p.retry_count max_retries)

  swept-left_queued : (e : Option PendingPacket) → swept now timeout max_retries e ≡ left_queued e
  unfolding fate
  swept-left_queued none = refl
  swept-left_queued (some p) = ground arith

  gives_up-is_reported : (e : Option PendingPacket) → gives_up e ≡ is_reported e
  unfolding fate
  gives_up-is_reported none = refl
  gives_up-is_reported (some p) = ground arith

  -- A sweep of the retransmission queue, for each number k: a packet that was sent less than the
  -- timeout ago stays as it is; one that was sent earlier and has retries left stays with its bytes,
  -- its send time set to now and its retry count one higher (in 32 bits); one that was sent earlier
  -- and has none left leaves the queue; and no number is added. The numbers reported dead are
  -- exactly those of the packets that leave it so.
  pub find-collect_retransmits :
      (c : RudpChannel) (k : ℕ)
      → IsQueue c.retrans_q
      → (find k (collect_retransmits c now timeout max_retries).0.retrans_q
          ≡ left_queued (find k c.retrans_q))
        × (contains k (collect_retransmits c now timeout max_retries).2
            ≡ is_reported (find k c.retrans_q))
  find-collect_retransmits c k v =
      let (left, reported) = find-collect_retransmits_lem c k v in
      (
        left ∙ swept-left_queued (find k c.retrans_q),
        reported ∙ gives_up-is_reported (find k c.retrans_q),
      )

-- The order of the queue is kept by every operation on it.
insert-IsQueue :
    (k : ℕ) (p : PendingPacket) (q : List (ℕ × PendingPacket)) → IsQueue q → IsQueue (insert k p q)
unfolding insert
insert-IsQueue k p [] v = tt
insert-IsQueue k p ((j, p') ∷ q) v =
    ground (arith, insert-Above j k p q, Above-mono {a = k} {b = j} q)

IsQueue-tail : (k : ℕ) (q : List (ℕ × PendingPacket)) → Above k q → IsQueue q
IsQueue-tail k [] v = tt
IsQueue-tail k ((j, p) ∷ q) v = v.1

drop_acked-IsQueue :
    (ack : ℕ) (q : List (ℕ × PendingPacket)) → IsQueue q → IsQueue (drop_acked ack q)
unfolding drop_acked
drop_acked-IsQueue ack [] v = tt
drop_acked-IsQueue ack ((k, p) ∷ q) v =
    ground (arith, drop_acked-IsQueue ack q (IsQueue-tail k q v))

collect-IsQueue :
    (now timeout max_retries : ℕ) (q : List (ℕ × PendingPacket))
    → IsQueue q
    → IsQueue (collect now timeout max_retries q).0
unfolding collect
collect-IsQueue now timeout max_retries [] v = tt
collect-IsQueue now timeout max_retries ((k, p) ∷ q) v = ground (
  arith,
  collect-Above now timeout max_retries k q v,
  IsQueue-tail k (collect now timeout max_retries q).0,
)

pub collect_retransmits-IsQueue :
    (now timeout max_retries : ℕ) (c : RudpChannel)
    → IsQueue c.retrans_q
    → IsQueue (collect_retransmits c now timeout max_retries).0.retrans_q
unfolding collect_retransmits
collect_retransmits-IsQueue now timeout max_retries c v =
    collect-IsQueue now timeout max_retries c.retrans_q v

pub on_reliable_sent-IsQueue :
    (c : RudpChannel) (seq : ℕ) (b : Bytes) (now : ℕ)
    → IsQueue c.retrans_q
    → IsQueue (on_reliable_sent c seq b now).retrans_q
unfolding on_reliable_sent
on_reliable_sent-IsQueue c seq b now v =
    insert-IsQueue seq (record { bytes = b; last_sent_ms = now; retry_count = 0 }) c.retrans_q v

pub on_ack_received-IsQueue :
    (c : RudpChannel) (ack : ℕ) → IsQueue c.retrans_q → IsQueue (on_ack_received c ack).retrans_q
unfolding on_ack_received
on_ack_received-IsQueue c ack v = drop_acked-IsQueue ack c.retrans_q v
