-- ===== src/SessionManager/Consistent.antt =====
-- The two indexes of Server_Core/Network/SessionManager.cpp belong together, after every method.
use ai_xr_project.Base.{
  ℕ, zero, suc, ◌≤◌, ◌<◌, ◌≡◌, refl, List, [], ◌∷◌, ◌++◌, none, some, arith, ◌==◌, length,
  length-append, Option-cases, Bool-cases, inl, inr,
}
use ai_xr_project.Base.Dict.{
  find, erase, put, find-erase, find-put, Distinct, erase-Distinct, put-Distinct,
}
use ai_xr_project.Session.{Session, SockAddr, new_session}
use ai_xr_project.SessionManager.{
  SessionManager, new_manager, deref, make_key, key_of, user_of, drop_stale, register,
  create_or_get, remove_by_addr, remove_by_user_id,
}

-- An entry of m_ByAddr is a session that was made, under its own address, and m_ByUserId has it
-- under its own user; and the other way round.
pub record IsConsistent (m : SessionManager) : Type 0 where
  pub from_addr :
      (k p : ℕ)
      → find k m.by_addr ≡ some p
      → (p < length m.objects) × (key_of m p ≡ k) × (find (user_of m p) m.by_user_id ≡ some p)
  pub from_user :
      (u p : ℕ)
      → find u m.by_user_id ≡ some p
      → (p < length m.objects) × (user_of m p ≡ u) × (find (key_of m p) m.by_addr ≡ some p)
  pub distinct : Distinct m.by_addr

pub new_manager-IsConsistent : IsConsistent new_manager
unfolding find
new_manager-IsConsistent = record {
  from_addr = λ k p e. ground arith;
  from_user = λ u p e. ground arith;
  distinct = tt;
}

-- Taking the session at `p` out of both indexes.
abbrev without : SessionManager → ℕ → ℕ → SessionManager
without m k u = record m { by_addr = erase k m.by_addr; by_user_id = erase u m.by_user_id }

without-IsConsistent :
    (m : SessionManager) (k u p : ℕ)
    → IsConsistent m
    → find k m.by_addr ≡ some p
    → find u m.by_user_id ≡ some p
    → IsConsistent (without m k u)
without-IsConsistent m k u p v ek eu = record {
  from_addr = λ j q e. addr j q e (kept_key j q e);
  from_user = λ j q e. user j q e (kept_user j q e);
  distinct = erase-Distinct k m.by_addr v.distinct;
}
  where
    kept_key : (j q : ℕ) → find j (erase k m.by_addr) ≡ some q → find j m.by_addr ≡ some q
    kept_key j q e = ground (arith, find-erase k j m.by_addr)

    kept_user : (j q : ℕ) → find j (erase u m.by_user_id) ≡ some q → find j m.by_user_id ≡ some q
    kept_user j q e = ground (arith, find-erase u j m.by_user_id)

    addr :
        (j q : ℕ)
        → find j (erase k m.by_addr) ≡ some q
        → find j m.by_addr ≡ some q
        → (q < length m.objects)
          × (key_of m q ≡ j)
          × (find (user_of m q) (erase u m.by_user_id) ≡ some q)
    addr j q e h = (
      (v.from_addr j q h).0,
      (v.from_addr j q h).1,
      ground (
        arith,
        find-erase k j m.by_addr,
        find-erase u (user_of m q) m.by_user_id,
        v.from_addr j q h,
        v.from_addr k p ek,
      ),
    )

    user :
        (j q : ℕ)
        → find j (erase u m.by_user_id) ≡ some q
        → find j m.by_user_id ≡ some q
        → (q < length m.objects)
          × (user_of m q ≡ j)
          × (find (key_of m q) (erase k m.by_addr) ≡ some q)
    user j q e h = (
      (v.from_user j q h).0,
      (v.from_user j q h).1,
      ground (
        arith,
        find-erase u j m.by_user_id,
        find-erase k (key_of m q) m.by_addr,
        v.from_user j q h,
        v.from_user u p eu,
      ),
    )

drop_stale-IsConsistent :
    (m : SessionManager) (user : ℕ) → IsConsistent m → IsConsistent (drop_stale m user)
unfolding drop_stale
drop_stale-IsConsistent m user v = elim (Option-cases (find user m.by_user_id)) [
  | inl e ↦ rw (e, drop_stale) v
  | inr (p, e) ↦
      rw (e, drop_stale) (without-IsConsistent m (key_of m p) user p v (v.from_user user p e).2 e)
]

-- Objects are only added, so what a pointer refers to stays.
pub deref-append : (ss ts : List Session) (p : ℕ) → p < length ss → deref (ss ++ ts) p ≡ deref ss p
unfolding deref
deref-append [] ts p h = absurd (omega arith)
deref-append (s ∷ ss) ts zero h = refl
deref-append (s ∷ ss) ts (suc p) h = deref-append ss ts p (omega arith)

pub deref-length : (ss : List Session) (s : Session) → deref (ss ++ s ∷ []) (length ss) ≡ s
unfolding deref
deref-length [] s = refl
deref-length (x ∷ ss) s = deref-length ss s

pub find-drop_stale_key :
    (m : SessionManager) (user j : ℕ)
    → find j m.by_addr ≡ none
    → find j (drop_stale m user).by_addr ≡ none
unfolding drop_stale
find-drop_stale_key m user j e = elim (Option-cases (find user m.by_user_id)) [
  | inl h ↦ rw (h, drop_stale) e
  | inr (p, h) ↦ rw (h, drop_stale) (ground (arith, find-erase (key_of m p) j m.by_addr))
]

pub find-drop_stale_user :
    (m : SessionManager) (user : ℕ) → find user (drop_stale m user).by_user_id ≡ none
unfolding drop_stale
find-drop_stale_user m user = elim (Option-cases (find user m.by_user_id)) [
  | inl h ↦ rw (h, drop_stale) h
  | inr (p, h) ↦ rw (h, drop_stale) (ground (arith, find-erase user user m.by_user_id))
]

module _ (m : SessionManager) (user : ℕ) (addr : SockAddr) (now : ℕ) (v : IsConsistent m)
    (ea : find (make_key addr) m.by_addr ≡ none) (eu : find user m.by_user_id ≡ none) where
  made : Session
  made = new_session m.next_session_id user addr now

  abbrev grown : List Session
  grown = m.objects ++ made ∷ []

  in_range : (p : ℕ) → p ≤ length m.objects → p < length grown
  in_range p h = omega (arith, length-append m.objects (made ∷ []))

  newest : deref grown (length m.objects) ≡ made
  newest = deref-length m.objects made

  register_addr :
      (k p : ℕ)
      → find k (put (make_key addr) (length m.objects) m.by_addr) ≡ some p
      → (p < length grown)
        × (make_key (deref grown p).remote_addr ≡ k)
        × (find (deref grown p).user_id (put user (length m.objects) m.by_user_id) ≡ some p)
  unfolding made new_session
  register_addr k p e = elim (Bool-cases (make_key addr == k)) [
    | inl same ↦
        let here : p ≡ length m.objects =
          ground (arith, find-put (make_key addr) k (length m.objects) m.by_addr) in
        (
          in_range p (omega arith),
          ground (arith, newest),
          ground (arith, newest, find-put user user (length m.objects) m.by_user_id),
        )
    | inr other ↦
        let old : find k m.by_addr ≡ some p =
          ground (arith, find-put (make_key addr) k (length m.objects) m.by_addr) in
        let entry = v.from_addr k p old in
        let same_object : deref grown p ≡ deref m.objects p =
          deref-append m.objects (made ∷ []) p entry.0 in
        (
          in_range p (omega (arith, entry.0)),
          ground (arith, same_object, entry.1),
          ground (
            arith,
            same_object,
            entry.2,
            find-put user (user_of m p) (length m.objects) m.by_user_id,
          ),
        )
  ]

  register_user :
      (u p : ℕ)
      → find u (put user (length m.objects) m.by_user_id) ≡ some p
      → (p < length grown)
        × ((deref grown p).user_id ≡ u)
        × (find
              (make_key (deref grown p).remote_addr)
              (put (make_key addr) (length m.objects) m.by_addr)
            ≡ some p)
  unfolding made new_session
  register_user u p e = elim (Bool-cases (user == u)) [
    | inl same ↦
        let here : p ≡ length m.objects =
          ground (arith, find-put user u (length m.objects) m.by_user_id) in
        (
          in_range p (omega arith),
          ground (arith, newest),
          ground (
            arith,
            newest,
            find-put (make_key addr) (make_key addr) (length m.objects) m.by_addr,
          ),
        )
    | inr other ↦
        let old : find u m.by_user_id ≡ some p =
          ground (arith, find-put user u (length m.objects) m.by_user_id) in
        let entry = v.from_user u p old in
        let same_object : deref grown p ≡ deref m.objects p =
          deref-append m.objects (made ∷ []) p entry.0 in
        (
          in_range p (omega (arith, entry.0)),
          ground (arith, same_object, entry.1),
          ground (
            arith,
            same_object,
            entry.2,
            find-put (make_key addr) (key_of m p) (length m.objects) m.by_addr,
          ),
        )
  ]

  register-IsConsistent : IsConsistent (register m user addr now).0
  unfolding register made
  register-IsConsistent = record {
    from_addr = register_addr;
    from_user = register_user;
    distinct = put-Distinct (make_key addr) (length m.objects) m.by_addr v.distinct;
  }

pub create_or_get-IsConsistent :
    (m : SessionManager) (user : ℕ) (addr : SockAddr) (now : ℕ)
    → IsConsistent m
    → IsConsistent (create_or_get m user addr now).0
unfolding create_or_get
create_or_get-IsConsistent m user addr now v =
    elim (Option-cases (find (make_key addr) m.by_addr)) [
      | inr (p, e) ↦ rw (e, create_or_get) v
      | inl e ↦
          rw (e, create_or_get)
            (register-IsConsistent (drop_stale m user) user addr now
              (drop_stale-IsConsistent m user v) (find-drop_stale_key m user (make_key addr) e)
              (find-drop_stale_user m user))
    ]

pub remove_by_addr-IsConsistent :
    (m : SessionManager) (addr : SockAddr) → IsConsistent m → IsConsistent (remove_by_addr m addr).0
unfolding remove_by_addr
remove_by_addr-IsConsistent m addr v = elim (Option-cases (find (make_key addr) m.by_addr)) [
  | inl e ↦ rw (e, remove_by_addr) v
  | inr (p, e) ↦
      rw (e, remove_by_addr)
        (without-IsConsistent m (make_key addr) (user_of m p) p v e
          (v.from_addr (make_key addr) p e).2)
]

pub remove_by_user_id-IsConsistent :
    (m : SessionManager) (user : ℕ) → IsConsistent m → IsConsistent (remove_by_user_id m user).0
unfolding remove_by_user_id
remove_by_user_id-IsConsistent m user v = elim (Option-cases (find user m.by_user_id)) [
  | inl e ↦ rw (e, remove_by_user_id) v
  | inr (p, e) ↦
      rw (e, remove_by_user_id)
        (without-IsConsistent m (key_of m p) user p v (v.from_user user p e).2 e)
]
