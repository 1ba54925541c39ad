-- ===== src/Server/Broadcast.antt =====
-- BroadcastTick of Server_Core/Network/IOCPServer.cpp: the snapshot of the sessions and what each
-- receiver is sent about the others.
use mathlib.Core.List.{Mem, Mem-prop, mem-cons, mem-cons_self, mem-cons_of_mem, not-mem-nil}
use mathlib.Core.Logic.Or
use mathlib.Core.Logic.{∥∥₁_map, ∥∥₁_elim}
use ai_xr_project.Base.{
  ℕ, ◌<◌, ◌^◌, ◌≡◌, ◌≢◌, ◌↔◌, ap, sym, subst, ◌∙◌, List, [], ◌∷◌, ◌++◌, map, Bool, true, false, not,
  ◌||◌, ◌==◌, if◌then◌else◌, length, All, arith, Bool-cases, inl, inr, append_assoc, append-nil,
}
use ai_xr_project.Rudp.{Bytes, get_cumulative_ack}
use ai_xr_project.Session.{SockAddr, TransformState}
use ai_xr_project.SessionManager.{each_session}
use ai_xr_project.Server.{Server, session_at, send_to}
use ai_xr_project.Server.Fragments.{
  Entry, frags, frag_count, frag_packet, IsSendable, frags-IsSendable,
}

-- FPeer.
pub record Peer : Type 0 where
  pub user_id : ℕ
  pub addr : SockAddr
  pub ack : ℕ
  pub t : TransformState

unfoldable pub peer_of : Server → ℕ → Peer
peer_of sv p = record {
  user_id = (session_at sv p).user_id;
  addr = (session_at sv p).remote_addr;
  ack = get_cumulative_ack (session_at sv p).rudp;
  t = (session_at sv p).transform;
}

-- Part 1 of BroadcastTick.
unfoldable pub peers_of : Server → List Peer
peers_of sv = map (peer_of sv) (each_session sv.manager)

-- The three tests of the loop over the others.
unfoldable pub is_skipped : Peer → Peer → Bool
is_skipped me other =
    other.user_id == me.user_id || (other.t.seq == 0 || not (other.t.era == me.t.era))

-- The loop over the others: the entries for one receiver.
unfoldable pub entries_for : Peer → List Peer → List Entry
entries_for me [] = []
entries_for me (other ∷ os) =
    let rest = entries_for me os in
    if is_skipped me other then rest else (other.user_id, other.t) ∷ rest

-- The sends to one receiver.
unfoldable pub send_frags : (ℕ → Bool) → Server → Peer → ℕ → ℕ → List (ℕ × List Entry) → Server
send_frags accepts sv me tick_ms count [] = sv
send_frags accepts sv me tick_ms count (f ∷ fs) =
    send_frags accepts (send_to accepts sv me.addr (frag_packet me.ack tick_ms count f)).0 me
      tick_ms count fs

-- Part 2 of BroadcastTick, for the receivers of the first list.
unfoldable pub broadcast_to : (ℕ → Bool) → Server → List Peer → List Peer → ℕ → Server
broadcast_to accepts sv [] peers tick_ms = sv
broadcast_to accepts sv (me ∷ rest) peers tick_ms =
    broadcast_to accepts
      (send_frags accepts sv me tick_ms (frag_count (length (entries_for me peers)))
        (frags (entries_for me peers)))
      rest peers tick_ms

-- BroadcastTick. With no peers it returns early, as the loop over none would.
unfoldable pub broadcast_tick : (ℕ → Bool) → Server → ℕ → Server
broadcast_tick accepts sv now = broadcast_to accepts sv (peers_of sv) (peers_of sv) now

-- Another user, who has sent a transform and is in the receiver's era.
pub record IsNeighbour (me other : Peer) : Type 0 where
  pub another : other.user_id ≢ me.user_id
  pub placed : other.t.seq ≢ 0
  pub same_era : other.t.era ≡ me.t.era

is_skipped-false : (me other : Peer) → is_skipped me other ≡ false → IsNeighbour me other
unfolding is_skipped
is_skipped-false me other h = record {
  another = λ e. ground arith;
  placed = λ e. ground arith;
  same_era = ground arith;
}

is_skipped-true : (me other : Peer) → is_skipped me other ≡ true → ¬ IsNeighbour me other
unfolding is_skipped
is_skipped-true me other h n = ground (arith, n.another, n.placed, n.same_era)

-- The entry is that of a neighbour among the peers.
abbrev pub IsShown : Peer → List Peer → Entry → Type 0
IsShown me peers e =
    ∥ ((other : Peer) × Mem other peers × IsNeighbour me other × (e ≡ (other.user_id, other.t))) ∥₁

IsShown-cons :
    (me other : Peer) (os : List Peer) (e : Entry) → IsShown me os e → IsShown me (other ∷ os) e
IsShown-cons me other os e shown = ∥∥₁_map shown λ s. (s.0, mem-cons_of_mem other s.1, s.2, s.3)

entries_for-IsShown :
    (me : Peer) (peers : List Peer) (e : Entry) → Mem e (entries_for me peers) → IsShown me peers e
unfolding entries_for
entries_for-IsShown me [] e m = absurd (not-mem-nil m)
entries_for-IsShown me (o ∷ os) e m = elim (Bool-cases (is_skipped me o)) [
  | inl out ↦ IsShown-cons me o os e (entries_for-IsShown me os e (rw out at m))
  | inr shown ↦
      Or.elim squash₁ (mem-cons.0 (rw shown at m))
        (λ here. ∣ (o, mem-cons_self, is_skipped-false me o shown, here) ∣₁)
        (λ there. IsShown-cons me o os e (entries_for-IsShown me os e there))
]

mem-entries_for_neighbour :
    (me other : Peer) (peers : List Peer)
    → Mem other peers
    → IsNeighbour me other
    → Mem (other.user_id, other.t) (entries_for me peers)
unfolding entries_for
mem-entries_for_neighbour me other [] m n = absurd (not-mem-nil m)
mem-entries_for_neighbour me other (o ∷ os) m n = elim (Bool-cases (is_skipped me o)) [
  | inl out ↦ rw out (
      Or.elim Mem-prop (mem-cons.0 m)
        (λ here. absurd (is_skipped-true me o out (subst (IsNeighbour me) here n)))
        (λ there. mem-entries_for_neighbour me other os there n))
  | inr shown ↦ rw shown (
      Or.elim Mem-prop (mem-cons.0 m)
        (λ here.
          subst (λ x. Mem (x.user_id, x.t) ((o.user_id, o.t) ∷ entries_for me os)) (sym here)
            mem-cons_self)
        (λ there. mem-cons_of_mem (o.user_id, o.t) (mem-entries_for_neighbour me other os there n)))
]

-- A receiver is told of exactly its neighbours: those other users that have sent a transform and are
-- in its era, each with its last transform.
pub mem-entries_for :
    (me : Peer) (peers : List Peer) (e : Entry) → Mem e (entries_for me peers) ↔ IsShown me peers e
mem-entries_for me peers e = (
  entries_for-IsShown me peers e,
  λ shown. ∥∥₁_elim shown Mem-prop λ s.
      subst (λ x. Mem x (entries_for me peers)) (sym s.3)
        (mem-entries_for_neighbour me s.0 peers s.1 s.2),
)

-- What a tick sends, if the network takes it all: to each receiver the fragments of its entries.
abbrev pub outgoing : Peer → List Peer → ℕ → List (SockAddr × Bytes)
outgoing me peers now =
    map (λ f. (me.addr, frag_packet me.ack now (frag_count (length (entries_for me peers))) f))
      (frags (entries_for me peers))

abbrev pub all_outgoing : List Peer → List Peer → ℕ → List (SockAddr × Bytes)
all_outgoing [] peers now = []
all_outgoing (me ∷ rest) peers now = outgoing me peers now ++ all_outgoing rest peers now

module _ (accepts : ℕ → Bool) (takes : (n : ℕ) → accepts n ≡ true) where
  send_to_sent :
      (sv : Server) (to : SockAddr) (b : Bytes)
      → sv.running ≡ true
      → IsSendable b
      → ((send_to accepts sv to b).0.sent ≡ sv.sent ++ (to, b) ∷ [])
        × ((send_to accepts sv to b).0.running ≡ true)
  unfolding send_to
  send_to_sent sv to b up ok = ground (arith, takes sv.calls, ok.0, ok.1)

  send_frags_sent :
      (sv : Server) (me : Peer) (now count : ℕ) (fs : List (ℕ × List Entry))
      → sv.running ≡ true
      → All (λ f. IsSendable (frag_packet me.ack now count f)) fs
      → ((send_frags accepts sv me now count fs).sent
          ≡ sv.sent ++ map (λ f. (me.addr, frag_packet me.ack now count f)) fs)
        × ((send_frags accepts sv me now count fs).running ≡ true)
  unfolding send_frags
  send_frags_sent sv me now count [] up ok = (sym (append-nil sv.sent), up)
  send_frags_sent sv me now count (f ∷ fs) up ok =
      let b = frag_packet me.ack now count f in
      let (first, up') = send_to_sent sv me.addr b up ok.0 in
      let (later, up'') =
        send_frags_sent (send_to accepts sv me.addr b).0 me now count fs up' ok.1 in
      (
        later
            ∙ ap (λ l. l ++ map (λ f. (me.addr, frag_packet me.ack now count f)) fs) first
            ∙ append_assoc sv.sent ((me.addr, b) ∷ [])
                (map (λ f. (me.addr, frag_packet me.ack now count f)) fs),
        up'',
      )

  broadcast_to_sent :
      (sv : Server) (receivers peers : List Peer) (now : ℕ)
      → sv.running ≡ true
      → All (λ p. p.ack < 2 ^ 32) receivers
      → (broadcast_to accepts sv receivers peers now).sent
        ≡ sv.sent ++ all_outgoing receivers peers now
  unfolding broadcast_to
  broadcast_to_sent sv [] peers now up ok = sym (append-nil sv.sent)
  broadcast_to_sent sv (me ∷ rest) peers now up ok =
      let es = entries_for me peers in
      let (first, up') =
        send_frags_sent sv me now (frag_count (length es)) (frags es) up
          (frags-IsSendable me.ack now es ok.0) in
      broadcast_to_sent (send_frags accepts sv me now (frag_count (length es)) (frags es)) rest
        peers now up' ok.1
      ∙ ap (λ l. l ++ all_outgoing rest peers now) first
      ∙ append_assoc sv.sent (outgoing me peers now) (all_outgoing rest peers now)

  peers-ack : (sv : Server) (ps : List ℕ) → All (λ p. p.ack < 2 ^ 32) (map (peer_of sv) ps)
  unfolding peer_of get_cumulative_ack
  peers-ack sv [] = tt
  peers-ack sv (p ∷ ps) = (omega arith, peers-ack sv ps)

  -- A tick sends what its two loops make of the snapshot.
  pub broadcast_tick_sent_lem :
      (sv : Server) (now : ℕ)
      → sv.running ≡ true
      → (broadcast_tick accepts sv now).sent
        ≡ sv.sent ++ all_outgoing (peers_of sv) (peers_of sv) now
  unfolding broadcast_tick peers_of
  broadcast_tick_sent_lem sv now up =
      broadcast_to_sent sv (peers_of sv) (peers_of sv) now up
        (peers-ack sv (each_session sv.manager))
