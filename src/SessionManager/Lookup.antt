-- ===== src/SessionManager/Lookup.antt =====
-- What the lookups of Server_Core/Network/SessionManager.cpp find after its methods.
use ai_xr_project.Base.{
  ℕ, ◌^◌, ◌<◌, ◌≡◌, ap, ◌∙◌, List, [], ◌∷◌, Option, none, some, Bool, false, arith, ◌==◌,
  if◌then◌else◌, length, Option-cases, inl, inr,
}
use ai_xr_project.Base.Dict.{find, find-erase, find-put}
use ai_xr_project.Session.{SockAddr, new_session}
use ai_xr_project.SessionManager.{
  SessionManager, new_manager, deref, make_key, key_of, user_of, find_by_user_id, drop_stale,
  register, create_or_get, remove_by_addr, remove_by_user_id, remove_timed_out,
}
use ai_xr_project.SessionManager.Consistent.{
  IsConsistent, new_manager-IsConsistent, create_or_get-IsConsistent, remove_by_addr-IsConsistent,
  remove_by_user_id-IsConsistent, deref-length,
}
use ai_xr_project.SessionManager.Timeout.{remove_timed_out-IsConsistent}

-- Endpoints have different keys.
pub make_key_injective :
    (a b : SockAddr) → a.sin_port < 2 ^ 16 → b.sin_port < 2 ^ 16 → make_key a ≡ make_key b → a ≡ b
unfolding make_key
make_key_injective a b ha hb e = ground arith

-- The session at a pointer belongs to the user.
abbrev pub belongs : SessionManager → ℕ → Option ℕ → Bool
belongs m user none = false
belongs m user (some p) = user_of m p == user

find-drop_stale :
    (m : SessionManager) (user j : ℕ)
    → IsConsistent m
    → find j (drop_stale m user).by_addr
      ≡ (if belongs m user (find j m.by_addr) then none else find j m.by_addr)
unfolding drop_stale
find-drop_stale m user j v = elim (Option-cases (find user m.by_user_id)) [
  | inl e ↦ elim (Option-cases (find j m.by_addr)) [
    | inl h ↦ rw (e, drop_stale) (ground arith)
    | inr (q, h) ↦ rw (e, drop_stale) (ground (arith, v.from_addr j q h))
  ]
  | inr (p, e) ↦ elim (Option-cases (find j m.by_addr)) [
    | inl h ↦ rw (e, drop_stale) (ground (arith, find-erase (key_of m p) j m.by_addr))
    | inr (q, h) ↦
        rw (e, drop_stale)
          (ground
            (arith, find-erase (key_of m p) j m.by_addr, v.from_addr j q h, v.from_user user p e))
  ]
]

drop_stale_objects : (m : SessionManager) (user : ℕ) → (drop_stale m user).objects ≡ m.objects
unfolding drop_stale
drop_stale_objects m user = elim (Option-cases (find user m.by_user_id)) [
  | inl e ↦ rw (e, drop_stale)
  | inr (p, e) ↦ rw (e, drop_stale)
]

drop_stale_next :
    (m : SessionManager) (user : ℕ) → (drop_stale m user).next_session_id ≡ m.next_session_id
unfolding drop_stale
drop_stale_next m user = elim (Option-cases (find user m.by_user_id)) [
  | inl e ↦ rw (e, drop_stale)
  | inr (p, e) ↦ rw (e, drop_stale)
]

-- At an address without a session, CreateOrGet makes one for the user and the address that were
-- given, and afterwards every key has: the new session at the address's own key, nothing where the
-- user's earlier session was, and what was there before elsewhere.
pub find-create_or_get :
    (m : SessionManager) (user : ℕ) (addr : SockAddr) (now j : ℕ)
    → IsConsistent m
    → find (make_key addr) m.by_addr ≡ none
    → let r = create_or_get m user addr now in
      (deref r.0.objects r.1 ≡ new_session m.next_session_id user addr now)
      × (find j r.0.by_addr ≡ (
          if make_key addr == j
          then some r.1
          else if belongs m user (find j m.by_addr)
          then none
          else find j m.by_addr))
unfolding create_or_get register
find-create_or_get m user addr now j v e =
    rw (e, create_or_get)
      (
        deref-length (drop_stale m user).objects
              (new_session (drop_stale m user).next_session_id user addr now)
            ∙ ap (λ n. new_session n user addr now) (drop_stale_next m user),
        find-put (make_key addr) j (length (drop_stale m user).objects) (drop_stale m user).by_addr
            ∙ ap (λ o. if make_key addr == j then some (length (drop_stale m user).objects) else o)
                (find-drop_stale m user j v),
      )

-- RemoveByUserId takes the user's session, and no other, out of the address index.
pub find-remove_by_user_id :
    (m : SessionManager) (user j : ℕ)
    → IsConsistent m
    → find j (remove_by_user_id m user).0.by_addr
      ≡ (if belongs m user (find j m.by_addr) then none else find j m.by_addr)
unfolding remove_by_user_id
find-remove_by_user_id m user j v = elim (Option-cases (find user m.by_user_id)) [
  | inl e ↦ elim (Option-cases (find j m.by_addr)) [
    | inl h ↦ rw (e, remove_by_user_id) (ground arith)
    | inr (q, h) ↦ rw (e, remove_by_user_id) (ground (arith, v.from_addr j q h))
  ]
  | inr (p, e) ↦ elim (Option-cases (find j m.by_addr)) [
    | inl h ↦ rw (e, remove_by_user_id) (ground (arith, find-erase (key_of m p) j m.by_addr))
    | inr (q, h) ↦
        rw (e, remove_by_user_id)
          (ground
            (arith, find-erase (key_of m p) j m.by_addr, v.from_addr j q h, v.from_user user p e))
  ]
]

-- The changes that callers make.
pub data Request : Type 0 where
  create : ℕ → SockAddr → ℕ → Request
  remove_addr : SockAddr → Request
  remove_user : ℕ → Request
  remove_idle : (ℕ → ℕ) → ℕ → Request

unfoldable pub apply : SessionManager → Request → SessionManager
apply m (create user addr now) = (create_or_get m user addr now).0
apply m (remove_addr addr) = (remove_by_addr m addr).0
apply m (remove_user user) = (remove_by_user_id m user).0
apply m (remove_idle now timeout) = (remove_timed_out m now timeout).0

unfoldable pub apply_all : SessionManager → List Request → SessionManager
apply_all m [] = m
apply_all m (q ∷ qs) = apply_all (apply m q) qs

apply-IsConsistent : (m : SessionManager) (q : Request) → IsConsistent m → IsConsistent (apply m q)
unfolding apply
apply-IsConsistent m (create user addr now) v = create_or_get-IsConsistent m user addr now v
apply-IsConsistent m (remove_addr addr) v = remove_by_addr-IsConsistent m addr v
apply-IsConsistent m (remove_user user) v = remove_by_user_id-IsConsistent m user v
apply-IsConsistent m (remove_idle now timeout) v = remove_timed_out-IsConsistent m now timeout v

-- Every method of the manager keeps the two indexes consistent, so they are after any sequence of
-- calls on a new manager.
pub apply_all-IsConsistent :
    (m : SessionManager) (qs : List Request) → IsConsistent m → IsConsistent (apply_all m qs)
unfolding apply_all
apply_all-IsConsistent m [] v = v
apply_all-IsConsistent m (q ∷ qs) v =
    apply_all-IsConsistent (apply m q) qs (apply-IsConsistent m q v)

-- After any sequence of calls on a new manager, no user has two sessions: entries of the address
-- index for the same user are the same entry, and the user index has it too.
pub one_session_per_user :
    (qs : List Request) (j k p q : ℕ)
    → find j (apply_all new_manager qs).by_addr ≡ some p
    → find k (apply_all new_manager qs).by_addr ≡ some q
    → user_of (apply_all new_manager qs) p ≡ user_of (apply_all new_manager qs) q
    → (p ≡ q)
      × (j ≡ k)
      × (find_by_user_id (apply_all new_manager qs) (user_of (apply_all new_manager qs) p) ≡ some p)
unfolding find_by_user_id
one_session_per_user qs j k p q e h same =
    let m = apply_all new_manager qs in
    let v = apply_all-IsConsistent new_manager qs new_manager-IsConsistent in
    ground (arith, v.from_addr j p e, v.from_addr k q h)
