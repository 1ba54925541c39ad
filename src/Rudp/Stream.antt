-- ===== src/Rudp/Stream.antt =====
-- The inbound reliable stream of Server_Core/Network/RudpChannel.cpp over whole runs of arrivals,
-- which come in any order, with repetitions and gaps.
use mathlib.Core.HLevel.{⊥_prop}
use mathlib.Core.List.{Mem, mem-cons, not-mem-nil}
use mathlib.Core.Logic.Or
use ai_xr_project.Base.{
  ℕ, suc, ◌+◌, ◌-◌, ◌≤◌, ◌<◌, ◌≡◌, refl, ap, sym, subst, inl, inr, Bool, List, [], ◌∷◌, ◌++◌, arith,
  All, All-map, map, compare_cases,
}
use ai_xr_project.Base.Dict.{find-Above}
use ai_xr_project.Rudp.{
  Bytes, RudpChannel, new_channel, reasm_max_entries, on_reliable_received, get_cumulative_ack,
}
use ai_xr_project.Rudp.Drain.{seq_max, stream, stream-append}
use ai_xr_project.Rudp.Receive.{
  Tracks, Covered, Receives, on_reliable_received-Receives, on_reliable_received-Covered,
}

-- A run of packets, with all that is delivered.
unfoldable pub receive_all : RudpChannel → List (ℕ × Bytes) → RudpChannel × List Bytes
receive_all c [] = (c, [])
receive_all c ((seq, bytes) ∷ ps) =
    let r = on_reliable_received c seq bytes in
    let rest = receive_all r.0 ps in (rest.0, r.1 ++ rest.1)

-- The packets of the sender `f` under these numbers.
abbrev pub packets : (ℕ → Bytes) → List ℕ → List (ℕ × Bytes)
packets f = map λ s. (s, f s)

-- A whole run: what it delivers, and what it still covers.
record Runs (f : ℕ → Bytes) (top : ℕ) (c : RudpChannel) (r : RudpChannel × List Bytes)
    : Type 0 where
  count : ℕ
  advanced : r.0.recv_next_seq ≡ c.recv_next_seq + count
  delivered : r.1 ≡ stream f c.recv_next_seq count
  tracks : Tracks f top r.0
  covered : (s : ℕ) → Covered c s → Covered r.0 s

Runs-step :
    (f : ℕ → Bytes) (top : ℕ) (c : RudpChannel) (r : RudpChannel × List Bytes × Bool)
    (q : RudpChannel × List Bytes)
    → Receives f top c r
    → Runs f top r.0 q
    → Runs f top c (q.0, r.1 ++ q.1)
Runs-step f top c r q a b = record {
  count = a.count + b.count;
  advanced = omega (arith, a.advanced, b.advanced);
  delivered =
      rw (a.delivered, b.delivered, a.advanced) (stream-append f c.recv_next_seq a.count b.count);
  tracks = b.tracks;
  covered = λ s p. b.covered s (a.covered s p);
}

receive_all-Runs :
    (f : ℕ → Bytes) (top : ℕ) (c : RudpChannel) (ss : List ℕ)
    → top < seq_max
    → Tracks f top c
    → All (λ s. s ≤ top) ss
    → Runs f top c (receive_all c (packets f ss))
unfolding receive_all
receive_all-Runs f top c [] fits v h = record {
  count = 0;
  advanced = omega arith;
  delivered = refl;
  tracks = v;
  covered = λ s p. p;
}
receive_all-Runs f top c (s ∷ ss) fits v h =
    let r = on_reliable_received-Receives f top c s fits v h.0 in
    Runs-step f top c (on_reliable_received c s (f s))
      (receive_all (on_reliable_received c s (f s)).0 (packets f ss)) r
      (receive_all-Runs f top (on_reliable_received c s (f s)).0 ss fits r.tracks h.1)

pub new_channel-Tracks : (f : ℕ → Bytes) (top : ℕ) → Tracks f top new_channel
new_channel-Tracks f top = record {
  started = omega arith;
  in_range = omega arith;
  buffer = record { ahead = tt; below = tt; sent = tt };
}

pub ack_lem :
    (f : ℕ → Bytes) (top : ℕ) (c : RudpChannel)
    → top < seq_max
    → Tracks f top c
    → get_cumulative_ack c + 1 ≡ c.recv_next_seq
unfolding get_cumulative_ack
ack_lem f top c fits v = omega arith

-- Whatever the order, the repetitions and the gaps in which the sender's packets arrive, as long
-- as their numbers stay below 2^32 - 1, the packets delivered since the channel was new are exactly
-- packets 1, 2, ... up to the cumulative acknowledgement, each once and in order.
pub receive_all-stream :
    (f : ℕ → Bytes) (ss : List ℕ)
    → All (λ s. s < seq_max) ss
    → (receive_all new_channel (packets f ss)).1
      ≡ stream f 1 (get_cumulative_ack (receive_all new_channel (packets f ss)).0)
receive_all-stream f ss h =
    let c = (receive_all new_channel (packets f ss)).0 in
    let r =
      receive_all-Runs f (seq_max - 1) new_channel ss (omega arith)
        (new_channel-Tracks f (seq_max - 1))
        (All-map (λ s. s < seq_max) (λ s. s ≤ seq_max - 1) ss (λ s p. omega arith) h) in
    rw r.delivered (
      ap (stream f 1) (omega (arith, r.advanced, ack_lem f (seq_max - 1) c (omega arith) r.tracks)))

-- Every packet of a run is covered in the end.
receive_all-Covered :
    (f : ℕ → Bytes) (top : ℕ) (c : RudpChannel) (ss : List ℕ)
    → top ≤ reasm_max_entries
    → Tracks f top c
    → All (λ s. s ≤ top) ss
    → All (λ s. Covered (receive_all c (packets f ss)).0 s) ss
unfolding receive_all
receive_all-Covered f top c [] room v h = tt
receive_all-Covered f top c (s ∷ ss) room v h =
    let fits : top < seq_max = omega arith in
    let c' = (on_reliable_received c s (f s)).0 in
    let v' = (on_reliable_received-Receives f top c s fits v h.0).tracks in
    (
      (receive_all-Runs f top c' ss fits v' h.1).covered s
          (on_reliable_received-Covered f top c s room fits v h.0),
      receive_all-Covered f top c' ss room v' h.1,
    )

not-Covered_next :
    (f : ℕ → Bytes) (top : ℕ) (c : RudpChannel) → Tracks f top c → ¬ Covered c c.recv_next_seq
not-Covered_next f top c v (inl h) = omega arith
not-Covered_next f top c v (inr h) =
    h (find-Above c.recv_next_seq c.recv_next_seq c.reasm v.buffer.ahead (omega arith))

All-mem-absurd : (P : ℕ → Type 0) {x : ℕ} (xs : List ℕ) → All P xs → ¬ P x → Mem x xs → ⊥
All-mem-absurd P [] h n m = not-mem-nil m
All-mem-absurd P {x} (y ∷ xs) h n m =
    Or.elim ⊥_prop (mem-cons.0 m) (λ e. n (subst P (sym e) h.0)) (All-mem-absurd P xs h.1 n)

-- Packets 1 to n of the sender, at most 1024 of them, arrive in any order and any number of times,
-- each at least once, and nothing else but the number 0 arrives: then all n are delivered, each
-- once and in order, and n is the cumulative acknowledgement.
pub receive_all_complete :
    (f : ℕ → Bytes) (n : ℕ) (ss : List ℕ)
    → n ≤ reasm_max_entries
    → All (λ s. s ≤ n) ss
    → ((s : ℕ) → 1 ≤ s → s ≤ n → Mem s ss)
    → ((receive_all new_channel (packets f ss)).1 ≡ stream f 1 n)
      × (get_cumulative_ack (receive_all new_channel (packets f ss)).0 ≡ n)
receive_all_complete f n ss room h each = (
  rw r.delivered (ap (stream f 1) (omega (arith, r.advanced, all))),
  omega (arith, all, ack_lem f n c fits r.tracks),
)
  where
    fits : n < seq_max
    fits = omega arith

    c : RudpChannel
    c = (receive_all new_channel (packets f ss)).0

    r : Runs f n new_channel (receive_all new_channel (packets f ss))
    r = receive_all-Runs f n new_channel ss fits (new_channel-Tracks f n) h

    missing : c.recv_next_seq ≤ n → ⊥
    missing le =
        All-mem-absurd (Covered c) ss
          (receive_all-Covered f n new_channel ss room (new_channel-Tracks f n) h)
          (not-Covered_next f n c r.tracks) (each c.recv_next_seq r.tracks.started le)

    all : c.recv_next_seq ≡ suc n
    all = elim (compare_cases c.recv_next_seq (suc n)) [
      | inl low ↦ absurd (missing (omega arith))
      | inr (inl eq) ↦ eq
      | inr (inr high) ↦ absurd (omega (arith, r.tracks.in_range))
    ]
