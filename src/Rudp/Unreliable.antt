-- ===== src/Rudp/Unreliable.antt =====
-- The inbound unreliable stream of Server_Core/Network/RudpChannel.cpp: AcceptUnreliable.
use ai_xr_project.Base.{ℕ, ◌≡◌, refl, Bool, true, ◌&&◌, List, [], ◌∷◌, arith, ltb, if◌then◌else◌}
use ai_xr_project.Rudp.{RudpChannel, new_channel, accept_unreliable}

-- The numbers that a run of calls accepts.
unfoldable pub accepted : RudpChannel → List ℕ → List ℕ
accepted c [] = []
accepted c (s ∷ ss) =
    let r = accept_unreliable c s in let rest = accepted r.0 ss in if r.1 then s ∷ rest else rest

-- The number exceeds all of the list.
abbrev pub exceeds : ℕ → List ℕ → Bool
exceeds s [] = true
exceeds s (x ∷ xs) = ltb x s && exceeds s xs

-- The specification: a packet is kept if its number exceeds those of all packets before it, kept or
-- not. `seen` are those before the list.
unfoldable pub maxima : List ℕ → List ℕ → List ℕ
maxima seen [] = []
maxima seen (s ∷ ss) = let rest = maxima (s ∷ seen) ss in if exceeds s seen then s ∷ rest else rest

abbrev Remembers : RudpChannel → List ℕ → Type 0
Remembers c seen =
    (s : ℕ) → exceeds s seen ≡ (if c.has_unreliable then ltb c.unreliable_high s else true)

accept-Remembers :
    (c : RudpChannel) (seen : List ℕ) (s : ℕ)
    → Remembers c seen
    → Remembers (accept_unreliable c s).0 (s ∷ seen)
unfolding accept_unreliable
accept-Remembers c seen s h t = ground (arith, h t, h s)

accepted-maxima :
    (c : RudpChannel) (seen ss : List ℕ) → Remembers c seen → accepted c ss ≡ maxima seen ss
unfolding accepted maxima accept_unreliable
accepted-maxima c seen [] h = refl
accepted-maxima c seen (s ∷ ss) h = ground (
  arith,
  h s,
  accepted-maxima (accept_unreliable c s).0 (s ∷ seen) ss (accept-Remembers c seen s h),
)

-- On a new channel, the unreliable packets that are accepted are exactly those whose number exceeds
-- the numbers of all packets that arrived before, accepted or dropped.
pub accepted-new_channel : (ss : List ℕ) → accepted new_channel ss ≡ maxima [] ss
accepted-new_channel ss = accepted-maxima new_channel [] ss (λ s. refl)
