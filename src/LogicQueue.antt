-- ===== src/LogicQueue.antt =====
-- Server_Core/Network/LogicQueue.h. The mutex makes each method one step. A consumer that would
-- block on the condition variable makes no step: `pop` answers `waits`.
use ai_xr_project.Base.{
  ℕ, ◌≡◌, refl, ap, sym, ◌∙◌, List, [], ◌∷◌, ◌++◌, Bool, true, false, if◌then◌else◌, length,
  Bool-cases, inl, inr, append_assoc, append-nil,
}

pub record LogicQueue {ℓ} (A : Type ℓ) : Type ℓ where
  pub items : List A
  pub shut : Bool

pub data Popped {ℓ} (A : Type ℓ) : Type ℓ where
  waits : Popped A
  finished : Popped A
  popped : A → LogicQueue A → Popped A

pub data Call {ℓ} (A : Type ℓ) : Type ℓ where
  push_call : A → Call A
  pop_call : Call A
  shutdown_call : Call A

module _ {ℓ} {A : Type ℓ} where
  abbrev pub new_queue : LogicQueue A
  new_queue = record { items = []; shut = false }

  -- Push.
  unfoldable pub push : LogicQueue A → A → LogicQueue A
  push q a = if q.shut then q else record q { items = q.items ++ a ∷ [] }

  -- Pop: true with an item, or false (`finished`).
  unfoldable pub pop : LogicQueue A → Popped A
  pop q = elim q.items [
    | [] ↦ (if q.shut then finished else waits)
    | a ∷ rest ↦ popped a (record q { items = rest })
  ]

  -- Shutdown.
  unfoldable pub shutdown : LogicQueue A → LogicQueue A
  shutdown q = record q { shut = true }

  -- Size.
  unfoldable pub size : LogicQueue A → ℕ
  size q = length q.items

  -- The queue after a call, and the item that it hands out.
  abbrev pub after_pop : LogicQueue A → Popped A → LogicQueue A × List A
  after_pop q waits = (q, [])
  after_pop q finished = (q, [])
  after_pop q (popped a q') = (q', a ∷ [])

  unfoldable pub serve : LogicQueue A → Call A → LogicQueue A × List A
  serve q (push_call a) = (push q a, [])
  serve q pop_call = after_pop q (pop q)
  serve q shutdown_call = (shutdown q, [])

  unfoldable pub serve_all : LogicQueue A → List (Call A) → LogicQueue A × List A
  serve_all q [] = (q, [])
  serve_all q (c ∷ cs) = let r = serve q c in let rest = serve_all r.0 cs in (rest.0, r.1 ++ rest.1)

  -- The specification: what is pushed before the first shutdown.
  unfoldable pub accepted_pushes : Bool → List (Call A) → List A
  accepted_pushes shut [] = []
  accepted_pushes shut (push_call a ∷ cs) =
      let rest = accepted_pushes shut cs in if shut then rest else a ∷ rest
  accepted_pushes shut (pop_call ∷ cs) = accepted_pushes shut cs
  accepted_pushes shut (shutdown_call ∷ cs) = accepted_pushes true cs

  pop-fifo :
      (q : LogicQueue A) (is : List A) (cs : List (Call A))
      → q.items ≡ is
      → (serve q pop_call).1
          ++ ((serve q pop_call).0.items ++ accepted_pushes (serve q pop_call).0.shut cs)
        ≡ q.items ++ accepted_pushes q.shut cs
  unfolding serve pop
  pop-fifo q [] cs e = elim (Bool-cases q.shut) [
    | inl shut ↦ rw (e, shut, pop)
    | inr open' ↦ rw (e, open', pop)
  ]
  pop-fifo q (a ∷ is) cs e = rw (e, pop)

  serve-fifo :
      (q : LogicQueue A) (c : Call A) (cs : List (Call A))
      → (serve q c).1 ++ ((serve q c).0.items ++ accepted_pushes (serve q c).0.shut cs)
        ≡ q.items ++ accepted_pushes q.shut (c ∷ cs)
  unfolding serve push shutdown accepted_pushes
  serve-fifo q (push_call a) cs = elim (Bool-cases q.shut) [
    | inl shut ↦ rw (shut, push)
    | inr open' ↦ rw (open', push) (append_assoc q.items (a ∷ []) (accepted_pushes false cs))
  ]
  serve-fifo q pop_call cs = pop-fifo q q.items cs refl
  serve-fifo q shutdown_call cs = refl

  -- In any run of the producers, the consumers and the shutdown, what was handed out, followed by
  -- what still waits, is what waited at the start followed by what was pushed before the shutdown:
  -- nothing is lost, repeated or reordered, and nothing is taken in after the shutdown.
  pub serve_all-fifo :
      (q : LogicQueue A) (cs : List (Call A))
      → (serve_all q cs).1 ++ (serve_all q cs).0.items ≡ q.items ++ accepted_pushes q.shut cs
  unfolding serve_all accepted_pushes
  serve_all-fifo q [] = sym (append-nil q.items)
  serve_all-fifo q (c ∷ cs) =
      append_assoc (serve q c).1 (serve_all (serve q c).0 cs).1 (serve_all (serve q c).0 cs).0.items
      ∙ ap (λ l. (serve q c).1 ++ l) (serve_all-fifo (serve q c).0 cs)
      ∙ serve-fifo q c cs
