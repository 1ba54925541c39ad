-- ===== src/Rudp/Receive.antt =====
-- OnReliableReceived of Server_Core/Network/RudpChannel.cpp, one call, branch by branch.
use ai_xr_project.Base.{
  ℕ, suc, ◌+◌, ◌≤◌, ◌<◌, ◌≡◌, refl, ap, sym, subst, inl, inr, Bool, true, false, List, [], ◌∷◌,
  none, some, arith, ltb, length, Bool-cases, ltb→lt, ltb→ge, lt→ltb, ge→ltb, ==_refl, ==_ne,
  compare_cases, Option-cases,
}
use ai_xr_project.Base.Dict.{find, insert, find-insert, insert-Above, length-Above, All-insert}
use ai_xr_project.Rudp.{Bytes, RudpChannel, reasm_max_entries, drain, on_reliable_received}
use ai_xr_project.Rudp.Drain.{seq_max, stream, Buffered, Has, Drains, drain-Drains, incr32_lem}

-- The inbound half of a channel, when every packet so far came from the sender `f`.
pub record Tracks (f : ℕ → Bytes) (top : ℕ) (c : RudpChannel) : Type 0 where
  pub started : 1 ≤ c.recv_next_seq
  pub in_range : c.recv_next_seq ≤ suc top
  pub buffer : Buffered f top c.recv_next_seq c.reasm

abbrev pub Covered : RudpChannel → ℕ → Type 0
Covered c s = Has c.recv_next_seq c.reasm s

-- One call, from `c` to the channel and the packets of `r`.
pub record Receives (f : ℕ → Bytes) (top : ℕ) (c : RudpChannel)
    (r : RudpChannel × List Bytes × Bool) : Type 0 where
  pub count : ℕ
  pub advanced : r.0.recv_next_seq ≡ c.recv_next_seq + count
  pub delivered : r.1 ≡ stream f c.recv_next_seq count
  pub tracks : Tracks f top r.0
  pub covered : (s : ℕ) → Covered c s → Covered r.0 s

stays :
    (f : ℕ → Bytes) (top : ℕ) (c : RudpChannel) (b : Bool)
    → Tracks f top c
    → Receives f top c (c, [], b)
stays f top c b v = record {
  count = 0;
  advanced = omega arith;
  delivered = refl;
  tracks = v;
  covered = λ s p. p;
}

-- Branch (b): the expected number.
expected-Receives :
    (f : ℕ → Bytes) (top : ℕ) (c : RudpChannel) (r : ℕ × List (ℕ × Bytes) × List Bytes)
    → Drains f top c.recv_next_seq c.reasm r
    → Receives f top c
        (record c { recv_next_seq = r.0; reasm = r.1 }, f c.recv_next_seq ∷ r.2, true)
expected-Receives f top c r d = record {
  count = suc d.count;
  advanced = omega (arith, d.advanced);
  delivered = ap (◌∷◌ (f c.recv_next_seq)) d.delivered;
  tracks = record { started = omega (arith, d.advanced); in_range = d.in_range; buffer = d.kept };
  covered = λ s p. d.covered s (Has-suc s p);
}
  where
    Has-suc : (s : ℕ) → Covered c s → Has (suc c.recv_next_seq) c.reasm s
    Has-suc s (inl h) = inl (omega arith)
    Has-suc s (inr h) = inr h

-- Branch (c), with room in the buffer.
future-Receives :
    (f : ℕ → Bytes) (top : ℕ) (c : RudpChannel) (seq : ℕ)
    → Tracks f top c
    → c.recv_next_seq < seq
    → seq ≤ top
    → Receives f top c (record c { reasm = insert seq (f seq) c.reasm }, [], true)
future-Receives f top c seq v h k = record {
  count = 0;
  advanced = omega arith;
  delivered = refl;
  tracks = record {
    started = v.started;
    in_range = v.in_range;
    buffer = record {
      ahead = insert-Above c.recv_next_seq seq (f seq) c.reasm h v.buffer.ahead;
      below = All-insert (λ e. e.0 ≤ top) seq (f seq) c.reasm k v.buffer.below;
      sent = All-insert (λ e. e.1 ≡ f e.0) seq (f seq) c.reasm refl v.buffer.sent;
    };
  };
  covered = λ s p. Has-insert s p;
}
  where
    Has-insert : (s : ℕ) → Covered c s → Has c.recv_next_seq (insert seq (f seq) c.reasm) s
    Has-insert s (inl p) = inl p
    Has-insert s (inr p) = inr (ground (arith, find-insert seq s (f seq) c.reasm))

module _ (c : RudpChannel) (seq : ℕ) (b : Bytes) where
  pub received_old : seq < c.recv_next_seq → on_reliable_received c seq b ≡ (c, [], false)
  unfolding on_reliable_received
  received_old h = rw (lt→ltb seq c.recv_next_seq h)

  pub received_buffered :
      (b' : Bytes)
      → c.recv_next_seq < seq
      → find seq c.reasm ≡ some b'
      → on_reliable_received c seq b ≡ (c, [], true)
  unfolding on_reliable_received
  received_buffered b' h e =
      rw (ge→ltb seq c.recv_next_seq (omega arith), ==_ne seq c.recv_next_seq (omega arith), e)

  pub received_full :
      c.recv_next_seq < seq
      → find seq c.reasm ≡ none
      → reasm_max_entries ≤ length c.reasm
      → on_reliable_received c seq b ≡ (c, [], true)
  unfolding on_reliable_received
  received_full h e full = rw (
    ge→ltb seq c.recv_next_seq (omega arith),
    ==_ne seq c.recv_next_seq (omega arith),
    e,
    ge→ltb (length c.reasm) reasm_max_entries full,
  )

  pub received_future :
      c.recv_next_seq < seq
      → find seq c.reasm ≡ none
      → length c.reasm < reasm_max_entries
      → on_reliable_received c seq b ≡ (record c { reasm = insert seq b c.reasm }, [], true)
  unfolding on_reliable_received
  received_future h e room = rw (
    ge→ltb seq c.recv_next_seq (omega arith),
    ==_ne seq c.recv_next_seq (omega arith),
    e,
    lt→ltb (length c.reasm) reasm_max_entries room,
  )

received_expected :
    (c : RudpChannel) (b : Bytes)
    → c.recv_next_seq < seq_max
    → on_reliable_received c c.recv_next_seq b ≡ (
        let rest = drain (length c.reasm) (suc c.recv_next_seq) c.reasm in
        (record c { recv_next_seq = rest.0; reasm = rest.1 }, b ∷ rest.2, true))
unfolding on_reliable_received
received_expected c b h = rw (
  ge→ltb c.recv_next_seq c.recv_next_seq (omega arith),
  ==_refl c.recv_next_seq,
  incr32_lem c.recv_next_seq h,
)

pub on_reliable_received-Receives :
    (f : ℕ → Bytes) (top : ℕ) (c : RudpChannel) (seq : ℕ)
    → top < seq_max
    → Tracks f top c
    → seq ≤ top
    → Receives f top c (on_reliable_received c seq (f seq))
on_reliable_received-Receives f top c seq fits v k = elim (compare_cases seq c.recv_next_seq) [
  | inl old ↦ rw (received_old c seq (f seq) old) (stays f top c false v)
  | inr (inl eq) ↦
      subst (λ s. Receives f top c (on_reliable_received c s (f s))) (sym eq)
        (rw (received_expected c (f c.recv_next_seq) (omega arith)) (
          expected-Receives f top c (drain (length c.reasm) (suc c.recv_next_seq) c.reasm) (
            drain-Drains f top (length c.reasm) c.recv_next_seq c.reasm fits (omega arith)
              (omega arith) v.buffer)))
  | inr (inr new) ↦ elim (Option-cases (find seq c.reasm)) [
    | inr (b, e) ↦ rw (received_buffered c seq (f seq) b new e) (stays f top c true v)
    | inl e ↦ elim (Bool-cases (ltb (length c.reasm) reasm_max_entries)) [
      | inl room ↦
          rw (received_future c seq (f seq) new e (ltb→lt _ _ room))
            (future-Receives f top c seq v new k)
      | inr full ↦ rw (received_full c seq (f seq) new e (ltb→ge _ _ full)) (stays f top c true v)
    ]
  ]
]

-- With room for all that can still come, the packet of the call is delivered or buffered.
pub on_reliable_received-Covered :
    (f : ℕ → Bytes) (top : ℕ) (c : RudpChannel) (seq : ℕ)
    → top ≤ reasm_max_entries
    → top < seq_max
    → Tracks f top c
    → seq ≤ top
    → Covered (on_reliable_received c seq (f seq)).0 seq
on_reliable_received-Covered f top c seq room fits v k = elim (compare_cases seq c.recv_next_seq) [
  | inl old ↦ rw (received_old c seq (f seq) old) (inl old)
  | inr (inl eq) ↦
      subst (λ s. Covered (on_reliable_received c s (f s)).0 s) (sym eq)
        (rw (received_expected c (f c.recv_next_seq) (omega arith)) (
          inl (
            omega (
              arith,
              (drain-Drains f top (length c.reasm) c.recv_next_seq c.reasm fits (omega arith)
                  (omega arith) v.buffer).advanced,
            ))))
  | inr (inr new) ↦ elim (Option-cases (find seq c.reasm)) [
    | inr (b, e) ↦ rw (received_buffered c seq (f seq) b new e) (inr (ground arith))
    | inl e ↦
        rw
          (received_future c seq (f seq) new e
            (omega (arith, length-Above c.recv_next_seq top c.reasm v.buffer.ahead v.buffer.below)))
          (inr (ground (arith, find-insert seq seq (f seq) c.reasm)))
  ]
]
