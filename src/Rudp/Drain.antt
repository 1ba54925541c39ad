-- ===== src/Rudp/Drain.antt =====
-- The while loop of OnReliableReceived in Server_Core/Network/RudpChannel.cpp, on a buffer that
-- holds packets of a sender `f`, which gives the number s to the packet `f s`.
use mathlib.Core.Path.{ap₂}
use native.Mathlib.Nat.{suc-add}
use ai_xr_project.Base.{
  ℕ, zero, suc, ◌+◌, ◌-◌, ◌^◌, ◌≤◌, ◌<◌, ◌≡◌, ◌≢◌, refl, ap, ◌⊎◌, inl, inr, List, [], ◌∷◌, ◌++◌,
  none, some, arith, incr32, length, All, Option-cases,
}
use ai_xr_project.Base.Dict.{
  find, erase, Above, find-erase, erase-Above, length-erase-lt, All-find, All-erase,
}
use ai_xr_project.Rudp.{Bytes, drain}

-- The loop ends by its test, never by the fuel.
pub drain_ends :
    (fuel next : ℕ) (m : List (ℕ × Bytes))
    → length m ≤ fuel
    → find (drain fuel next m).0 (drain fuel next m).1 ≡ none
unfolding drain find
drain_ends zero next [] h = refl
drain_ends zero next (e ∷ m) h = absurd (omega arith)
drain_ends (suc fuel) next m h = elim (Option-cases (find next m)) [
  | inl e ↦ rw (e, drain) e
  | inr (b, e) ↦
      rw (e, drain)
        (drain_ends fuel (incr32 next) (erase next m) (omega (arith, length-erase-lt next b m e)))
]

-- The packets lo, lo + 1, ... of the sender, n of them.
abbrev pub stream : (ℕ → Bytes) → ℕ → ℕ → List Bytes
stream f lo zero = []
stream f lo (suc n) = f lo ∷ stream f (suc lo) n

add_suc_shift : (lo n : ℕ) → lo + suc n ≡ suc lo + n
add_suc_shift lo n = omega arith

pub stream-append :
    (f : ℕ → Bytes) (lo n k : ℕ) → stream f lo n ++ stream f (lo + n) k ≡ stream f lo (n + k)
stream-append f lo zero k = ap₂ (stream f) (omega arith) (omega arith)
stream-append f lo (suc n) k =
    rw (suc-add n k, add_suc_shift lo n) (ap (◌∷◌ (f lo)) (stream-append f (suc lo) n k))

-- The largest uint32_t: a sender that stays below it never wraps.
abbrev pub seq_max : ℕ
seq_max = 2 ^ 32 - 1

-- What is buffered: ascending numbers above a bound, below `seq_max`, with the sender's packets.
pub record Buffered (f : ℕ → Bytes) (top : ℕ) (bound : ℕ) (m : List (ℕ × Bytes)) : Type 0 where
  pub ahead : Above bound m
  pub below : All (λ e. e.0 ≤ top) m
  pub sent : All (λ e. e.1 ≡ f e.0) m

-- The number is delivered or buffered.
abbrev pub Has : ℕ → List (ℕ × Bytes) → ℕ → Type 0
Has next m s = (s < next) ⊎ (find s m ≢ none)

Above-next : (k : ℕ) (m : List (ℕ × Bytes)) → Above k m → find (suc k) m ≡ none → Above (suc k) m
unfolding find
Above-next k [] a h = tt
Above-next k ((j, b) ∷ m) a h = ground arith

erase-Buffered :
    (f : ℕ → Bytes) (top : ℕ) (k : ℕ) (m : List (ℕ × Bytes))
    → Buffered f top k m
    → Buffered f top (suc k) (erase (suc k) m)
erase-Buffered f top k m v = record {
  ahead =
      Above-next k (erase (suc k) m) (erase-Above k (suc k) m v.ahead)
        (ground (arith, find-erase (suc k) (suc k) m));
  below = All-erase (λ e. e.0 ≤ top) (suc k) m v.below;
  sent = All-erase (λ e. e.1 ≡ f e.0) (suc k) m v.sent;
}

-- What the loop does, from the number suc k: it delivers the next n packets, the rest stays.
pub record Drains (f : ℕ → Bytes) (top : ℕ) (k : ℕ) (m : List (ℕ × Bytes))
    (r : ℕ × List (ℕ × Bytes) × List Bytes) : Type 0 where
  pub count : ℕ
  pub advanced : r.0 ≡ suc k + count
  pub in_range : r.0 ≤ suc top
  pub delivered : r.2 ≡ stream f (suc k) count
  pub kept : Buffered f top r.0 r.1
  pub covered : (s : ℕ) → Has (suc k) m s → Has r.0 r.1 s

pub incr32_lem : (k : ℕ) → k < seq_max → incr32 k ≡ suc k
incr32_lem k h = omega arith

Has-erase :
    (k : ℕ) (m : List (ℕ × Bytes)) (s : ℕ) → Has (suc k) m s → Has (suc (suc k)) (erase (suc k) m) s
Has-erase k m s h = ground (arith, find-erase (suc k) s m)

Drains-next :
    (f : ℕ → Bytes) (top : ℕ) (k : ℕ) (m : List (ℕ × Bytes)) (b : Bytes)
    (r : ℕ × List (ℕ × Bytes) × List Bytes)
    → Buffered f top k m
    → find (suc k) m ≡ some b
    → Drains f top (suc k) (erase (suc k) m) r
    → Drains f top k m (r.0, r.1, b ∷ r.2)
Drains-next f top k m b r v e d = record {
  count = suc d.count;
  advanced = omega (arith, d.advanced);
  in_range = d.in_range;
  delivered = ap₂ ◌∷◌ (All-find (λ e. e.1 ≡ f e.0) (suc k) b m v.sent e) d.delivered;
  kept = d.kept;
  covered = λ s p. d.covered s (Has-erase k m s p);
}

pub drain-Drains :
    (f : ℕ → Bytes) (top : ℕ) (fuel k : ℕ) (m : List (ℕ × Bytes))
    → top < seq_max
    → length m ≤ fuel
    → suc k ≤ suc top
    → Buffered f top k m
    → Drains f top k m (drain fuel (suc k) m)
unfolding drain
drain-Drains f top zero k [] fits h r v = record {
  count = 0;
  advanced = omega arith;
  in_range = r;
  delivered = refl;
  kept = record { ahead = tt; below = tt; sent = tt };
  covered = λ s p. p;
}
drain-Drains f top zero k (e ∷ m) fits h r v = absurd (omega arith)
drain-Drains f top (suc fuel) k m fits h r v = elim (Option-cases (find (suc k) m)) [
  | inl e ↦
      rw (e, drain)
        (record {
          count = 0;
          advanced = omega arith;
          in_range = r;
          delivered = refl;
          kept = record { ahead = Above-next k m v.ahead e; below = v.below; sent = v.sent };
          covered = λ s p. p;
        })
  | inr (b, e) ↦
      rw (e, drain)
        (Drains-next f top k m b (drain fuel (incr32 (suc k)) (erase (suc k) m)) v e (
          rw (incr32_lem (suc k) (omega (arith, All-find (λ e. e.0 ≤ top) (suc k) b m v.below e))) (
            drain-Drains f top fuel (suc k) (erase (suc k) m) fits
              (omega (arith, length-erase-lt (suc k) b m e))
              (omega (arith, All-find (λ e. e.0 ≤ top) (suc k) b m v.below e))
              (erase-Buffered f top k m v))))
]
