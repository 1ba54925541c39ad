-- ===== src/Rudp/Lifetime.antt =====
-- How long a packet stays in the retransmission queue of Server_Core/Network/RudpChannel.cpp when
-- no acknowledgement comes.
use ai_xr_project.Base.{
  ℕ, suc, ◌+◌, ◌≤◌, ◌<◌, ◌≡◌, ap, ◌∙◌, List, [], ◌∷◌, none, some, arith, length, true, u32_mod,
  ge→ltb,
}
use ai_xr_project.Base.Dict.{find, find-insert}
use ai_xr_project.Rudp.{
  Bytes, RudpChannel, PendingPacket, on_reliable_sent, fate, collect_retransmits, dead, resend,
}
use ai_xr_project.Rudp.Outbound.{
  IsQueue, swept, after, contains, gives_up, is_dead, find-collect_retransmits_lem,
  collect_retransmits-IsQueue, on_reliable_sent-IsQueue,
}

module _ (timeout max_retries : ℕ) where
  -- Sweeps at the given times, with nothing between them.
  unfoldable pub sweeps : RudpChannel → List ℕ → RudpChannel
  sweeps c [] = c
  sweeps c (t ∷ ts) = sweeps (collect_retransmits c t timeout max_retries).0 ts

  -- The times start at least a timeout after `since` and are at least a timeout apart.
  abbrev pub Spaced : ℕ → List ℕ → Type 0
  Spaced since [] = Unit
  Spaced since (t ∷ ts) = (since + timeout ≤ t) × Spaced t ts

  abbrev pub last : ℕ → List ℕ → ℕ
  last since [] = since
  last since (t ∷ ts) = last t ts

  abbrev pub aged : Bytes → ℕ → ℕ → PendingPacket
  aged b r t = record { bytes = b; last_sent_ms = t; retry_count = r }

  fate_due :
      (b : Bytes) (r since t : ℕ)
      → r < max_retries
      → max_retries < u32_mod
      → since + timeout ≤ t
      → fate t timeout max_retries (aged b r since) ≡ resend (aged b (suc r) t)
  unfolding fate
  fate_due b r since t h w s = rw (ge→ltb t (since + timeout) s) (ground arith)

  sweeps-find :
      (c : RudpChannel) (k : ℕ) (b : Bytes) (r since : ℕ) (ts : List ℕ)
      → IsQueue c.retrans_q
      → find k c.retrans_q ≡ some (aged b r since)
      → r + length ts ≤ max_retries
      → max_retries < u32_mod
      → Spaced since ts
      → find k (sweeps c ts).retrans_q ≡ some (aged b (r + length ts) (last since ts))
  unfolding sweeps
  sweeps-find c k b r since [] q e h w s = e ∙ ap (λ n. some (aged b n since)) (omega arith)
  sweeps-find c k b r since (t ∷ ts) q e h w s =
      sweeps-find (collect_retransmits c t timeout max_retries).0 k b (suc r) t ts
        (collect_retransmits-IsQueue t timeout max_retries c q) resent (omega arith) w s.1
      ∙ ap (λ n. some (aged b n (last t ts))) (omega arith)
    where
      resent :
          find k (collect_retransmits c t timeout max_retries).0.retrans_q ≡ some (aged b (suc r) t)
      resent =
          (find-collect_retransmits_lem t timeout max_retries c k q).0
          ∙ ap (swept t timeout max_retries) e
          ∙ ap (λ x. after x (aged b r since)) (fate_due b r since t (omega arith) w s.0)

  sweeps-IsQueue :
      (c : RudpChannel) (ts : List ℕ) → IsQueue c.retrans_q → IsQueue (sweeps c ts).retrans_q
  unfolding sweeps
  sweeps-IsQueue c [] q = q
  sweeps-IsQueue c (t ∷ ts) q =
      sweeps-IsQueue (collect_retransmits c t timeout max_retries).0 ts
        (collect_retransmits-IsQueue t timeout max_retries c q)

  sent_entry :
      (c : RudpChannel) (k : ℕ) (b : Bytes) (t : ℕ)
      → find k (on_reliable_sent c k b t).retrans_q ≡ some (aged b 0 t)
  unfolding on_reliable_sent
  sent_entry c k b t = ground (arith, find-insert k k (aged b 0 t) c.retrans_q)

  -- A packet that is sent at time t and never acknowledged, under sweeps that each come at least a
  -- timeout after the one before: it stays queued with its bytes through the first max_retries
  -- sweeps, its retry count being the number of sweeps so far.
  pub sweeps_keep :
      (c : RudpChannel) (k : ℕ) (b : Bytes) (t : ℕ) (ts : List ℕ)
      → IsQueue c.retrans_q
      → length ts ≤ max_retries
      → max_retries < u32_mod
      → Spaced t ts
      → find k (sweeps (on_reliable_sent c k b t) ts).retrans_q
        ≡ some (aged b (length ts) (last t ts))
  sweeps_keep c k b t ts q h w s =
      sweeps-find (on_reliable_sent c k b t) k b 0 t ts (on_reliable_sent-IsQueue c k b t q)
        (sent_entry c k b t) (omega arith) w s
      ∙ ap (λ n. some (aged b n (last t ts))) (omega arith)

  fate_dead :
      (b : Bytes) (since t : ℕ)
      → since + timeout ≤ t
      → fate t timeout max_retries (aged b max_retries since) ≡ dead
  unfolding fate
  fate_dead b since t s = rw (ge→ltb t (since + timeout) s) (ground arith)

  -- The sweep after those max_retries sweeps, again at least a timeout later, takes the packet out
  -- of the queue and reports its number as dead.
  pub sweeps_give_up :
      (c : RudpChannel) (k : ℕ) (b : Bytes) (t : ℕ) (ts : List ℕ) (now : ℕ)
      → IsQueue c.retrans_q
      → length ts ≡ max_retries
      → max_retries < u32_mod
      → Spaced t ts
      → last t ts + timeout ≤ now
      → let r =
          collect_retransmits (sweeps (on_reliable_sent c k b t) ts) now timeout max_retries in
        (find k r.0.retrans_q ≡ none) × (contains k r.2 ≡ true)
  sweeps_give_up c k b t ts now q h w s due = (
    r.0 ∙ ap (swept now timeout max_retries) kept ∙ ap (λ x. after x old) lost,
    r.1 ∙ ap (gives_up now timeout max_retries) kept ∙ ap is_dead lost,
  )
    where
      old : PendingPacket
      old = aged b max_retries (last t ts)

      kept : find k (sweeps (on_reliable_sent c k b t) ts).retrans_q ≡ some old
      kept = sweeps_keep c k b t ts q (omega arith) w s ∙ ap (λ n. some (aged b n (last t ts))) h

      lost : fate now timeout max_retries old ≡ dead
      lost = fate_dead b (last t ts) now due

      r :
          (find k
              (collect_retransmits
                (sweeps (on_reliable_sent c k b t) ts)
                now
                timeout
                max_retries).0.retrans_q
            ≡ swept now timeout max_retries
                (find k (sweeps (on_reliable_sent c k b t) ts).retrans_q))
          × (contains k
                (collect_retransmits
                  (sweeps (on_reliable_sent c k b t) ts)
                  now
                  timeout
                  max_retries).2
              ≡ gives_up now timeout max_retries
                  (find k (sweeps (on_reliable_sent c k b t) ts).retrans_q))
      r =
          find-collect_retransmits_lem now timeout max_retries
            (sweeps (on_reliable_sent c k b t) ts) k
            (sweeps-IsQueue (on_reliable_sent c k b t) ts (on_reliable_sent-IsQueue c k b t q))
