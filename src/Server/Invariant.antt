-- ===== src/Server/Invariant.antt =====
-- What every step of the server of Server_Core/Network/IOCPServer.cpp keeps: the session indexes are
-- consistent, the send buffers are accounted for, and the packets of a session wait in the queue of
-- its own logic thread only.
use ai_xr_project.Base.{
  ℕ, zero, suc, ◌+◌, ◌%◌, ◌≤◌, ◌<◌, ◌≡◌, refl, ap, ◌∙◌, List, [], ◌∷◌, ◌++◌, arith, length,
  length-append, All, All-append, All-map, Bool-cases, inl, inr,
}
use ai_xr_project.Base.Dict.{find}
use ai_xr_project.Session.{Session}
use ai_xr_project.SessionManager.{SessionManager, deref, make_key}
use ai_xr_project.SessionManager.Consistent.{IsConsistent, deref-append}
use ai_xr_project.LogicQueue
use ai_xr_project.LogicQueue.{LogicQueue}
use ai_xr_project.SendPool.{IsPool}
use ai_xr_project.Server.{Server, LogicWorkItem, logic_thread_count, modify, push_at}

-- The new list has all sessions of the old one, with their identities.
pub record SameIds (old new : List Session) : Type 0 where
  pub longer : length old ≤ length new
  pub same_id : (q : ℕ) → q < length old → (deref new q).session_id ≡ (deref old q).session_id
  pub same_user : (q : ℕ) → q < length old → (deref new q).user_id ≡ (deref old q).user_id
  pub same_addr : (q : ℕ) → q < length old → (deref new q).remote_addr ≡ (deref old q).remote_addr

-- The change leaves the identity of a session alone.
pub record Keeps (f : Session → Session) : Type 0 where
  pub id : (s : Session) → (f s).session_id ≡ s.session_id
  pub user : (s : Session) → (f s).user_id ≡ s.user_id
  pub addr : (s : Session) → (f s).remote_addr ≡ s.remote_addr

pub length-modify :
    (f : Session → Session) (p : ℕ) (ss : List Session) → length (modify f p ss) ≡ length ss
unfolding modify
length-modify f p [] = refl
length-modify f zero (s ∷ ss) = refl
length-modify f (suc p) (s ∷ ss) = ap suc (length-modify f p ss)

-- What f leaves alone, `modify f` leaves alone everywhere.
deref-modify {ℓ} :
    {A : Type ℓ} (g : Session → A) (f : Session → Session) (p q : ℕ) (ss : List Session)
    → ((s : Session) → g (f s) ≡ g s)
    → g (deref (modify f p ss) q) ≡ g (deref ss q)
unfolding modify deref
deref-modify g f p q [] h = refl
deref-modify g f zero zero (s ∷ ss) h = h s
deref-modify g f zero (suc q) (s ∷ ss) h = refl
deref-modify g f (suc p) zero (s ∷ ss) h = refl
deref-modify g f (suc p) (suc q) (s ∷ ss) h = deref-modify g f p q ss h

pub modify-SameIds :
    (f : Session → Session) (p : ℕ) (ss : List Session) → Keeps f → SameIds ss (modify f p ss)
modify-SameIds f p ss k = record {
  longer = omega (arith, length-modify f p ss);
  same_id = λ q h. deref-modify (λ s. s.session_id) f p q ss k.id;
  same_user = λ q h. deref-modify (λ s. s.user_id) f p q ss k.user;
  same_addr = λ q h. deref-modify (λ s. s.remote_addr) f p q ss k.addr;
}

pub append-SameIds : (ss ts : List Session) → SameIds ss (ss ++ ts)
append-SameIds ss ts = record {
  longer = omega (arith, length-append ss ts);
  same_id = λ q h. ap (λ s. s.session_id) (deref-append ss ts q h);
  same_user = λ q h. ap (λ s. s.user_id) (deref-append ss ts q h);
  same_addr = λ q h. ap (λ s. s.remote_addr) (deref-append ss ts q h);
}

pub SameIds-IsConsistent :
    (m : SessionManager) (new : List Session)
    → SameIds m.objects new
    → IsConsistent m
    → IsConsistent (record m { objects = new })
SameIds-IsConsistent m new s v = record {
  from_addr = λ k p e.
      let entry = v.from_addr k p e in
      (
        omega (arith, entry.0, s.longer),
        ap make_key (s.same_addr p entry.0) ∙ entry.1,
        ap (λ u. find u m.by_user_id) (s.same_user p entry.0) ∙ entry.2,
      );
  from_user = λ u p e.
      let entry = v.from_user u p e in
      (
        omega (arith, entry.0, s.longer),
        s.same_user p entry.0 ∙ entry.1,
        ap (λ a. find (make_key a) m.by_addr) (s.same_addr p entry.0) ∙ entry.2,
      );
  distinct = v.distinct;
}

-- The item's session exists and its SessionId belongs to the queue of this index.
pub record OnLane (objects : List Session) (i : ℕ) (item : LogicWorkItem) : Type 0 where
  pub made : item.session_ref < length objects
  pub lane : (deref objects item.session_ref).session_id % logic_thread_count ≡ i

abbrev pub Lanes : List Session → ℕ → List (LogicQueue LogicWorkItem) → Type 0
Lanes objects i [] = Unit
Lanes objects i (q ∷ qs) = All (OnLane objects i) q.items × Lanes objects (suc i) qs

pub Lanes-SameIds :
    (old new : List Session) (i : ℕ) (qs : List (LogicQueue LogicWorkItem))
    → SameIds old new
    → Lanes old i qs
    → Lanes new i qs
Lanes-SameIds old new i [] s v = tt
Lanes-SameIds old new i (q ∷ qs) s v = (
  All-map (OnLane old i) (OnLane new i) q.items
      (λ item on. record {
        made = omega (arith, on.made, s.longer);
        lane = ap (λ n. n % logic_thread_count) (s.same_id item.session_ref on.made) ∙ on.lane;
      })
      v.0,
  Lanes-SameIds old new (suc i) qs s v.1,
)

push-All :
    (P : LogicWorkItem → Type 0) (q : LogicQueue LogicWorkItem) (item : LogicWorkItem)
    → P item
    → All P q.items
    → All P (LogicQueue.push q item).items
push-All P q item h v = elim (Bool-cases q.shut) [
  | inl shut ↦ unfold LogicQueue.push in (rw shut v)
  | inr up ↦ unfold LogicQueue.push in (rw up (All-append P q.items (item ∷ []) v (h, tt)))
]

pub push_at-Lanes :
    (objects : List Session) (i k : ℕ) (item : LogicWorkItem) (qs : List (LogicQueue LogicWorkItem))
    → OnLane objects (i + k) item
    → Lanes objects i qs
    → Lanes objects i (push_at k item qs)
unfolding push_at
push_at-Lanes objects i k item [] on v = tt
push_at-Lanes objects i zero item (q ∷ qs) on v = (
  push-All (OnLane objects i) q item (record { made = on.made; lane = omega (arith, on.lane) }) v.0,
  v.1,
)
push_at-Lanes objects i (suc k) item (q ∷ qs) on v = (
  v.0,
  push_at-Lanes objects (suc i) k item qs (record { made = on.made; lane = omega (arith, on.lane) })
      v.1,
)

pub record IsServer (sv : Server) : Type 0 where
  pub indexes : IsConsistent sv.manager
  pub buffers : IsPool sv.pool
  pub lanes : Lanes sv.manager.objects 0 sv.logic_queues
