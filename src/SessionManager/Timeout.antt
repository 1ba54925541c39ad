-- ===== src/SessionManager/Timeout.antt =====
-- RemoveTimedOut of Server_Core/Network/SessionManager.cpp.
use ai_xr_project.Base.{
  ℕ, ◌<◌, ◌≡◌, refl, sym, ◌∙◌, List, [], ◌∷◌, Option, none, some, Bool, true, false, ◌&&◌, ◌||◌,
  arith, ◌==◌, if◌then◌else◌, length, Option-cases, Bool-cases, inl, inr,
}
use ai_xr_project.Base.Dict.{find, erase, find-erase, Distinct}
use ai_xr_project.Session.{Session}
use ai_xr_project.SessionManager.{
  SessionManager, deref, key_of, user_of, timed_out, sweep, remove_timed_out,
}
use ai_xr_project.SessionManager.Consistent.{IsConsistent}

module _ (objects : List Session) (now : ℕ → ℕ) (timeout : ℕ) where
  -- What becomes of an entry of an index.
  abbrev pub survives : Option ℕ → Option ℕ
  survives none = none
  survives (some p) = if timed_out objects now timeout p then none else some p

  find-sweep :
      (j : ℕ) (m users : List (ℕ × ℕ))
      → Distinct m
      → find j (sweep objects now timeout m users).0 ≡ survives (find j m)
  unfolding find sweep
  find-sweep j [] users d = refl
  find-sweep j ((k, p) ∷ m) users d = ground (
    arith,
    find-sweep j m
        (if timed_out objects now timeout p then erase (deref objects p).user_id users else users)
        d.1,
  )

  -- Some session of the index that timed out has this user.
  dropped : ℕ → List (ℕ × ℕ) → Bool
  dropped u [] = false
  dropped u ((k, p) ∷ m) =
      (timed_out objects now timeout p && ((deref objects p).user_id == u)) || dropped u m

  find-sweep_user :
      (u : ℕ) (m users : List (ℕ × ℕ))
      → find u (sweep objects now timeout m users).1 ≡ (if dropped u m then none else find u users)
  unfolding sweep dropped
  find-sweep_user u [] users = refl
  find-sweep_user u ((k, p) ∷ m) users = ground (
    arith,
    find-sweep_user u m
        (if timed_out objects now timeout p then erase (deref objects p).user_id users else users),
    find-erase (deref objects p).user_id u users,
  )

  find-dropped :
      (u k p : ℕ) (m : List (ℕ × ℕ))
      → find k m ≡ some p
      → timed_out objects now timeout p ≡ true
      → (deref objects p).user_id ≡ u
      → dropped u m ≡ true
  unfolding find dropped
  find-dropped u k p [] e t h = absurd (ground arith)
  find-dropped u k p ((j, q) ∷ m) e t h = ground (arith, find-dropped u k p m)

  dropped-find :
      (u : ℕ) (m : List (ℕ × ℕ))
      → Distinct m
      → dropped u m ≡ true
      → (k : ℕ) × (p : ℕ) × (find k m ≡ some p)
        × (timed_out objects now timeout p ≡ true)
        × ((deref objects p).user_id ≡ u)
  unfolding find dropped
  dropped-find u [] d h = absurd (ground arith)
  dropped-find u ((j, q) ∷ m) d h =
      elim (Bool-cases (timed_out objects now timeout q && ((deref objects q).user_id == u))) [
        | inl here ↦ (j, q, ground arith, ground arith, ground arith)
        | inr not_here ↦
            let (k, p, e, t, o) = dropped-find u m d.1 (ground arith) in (k, p, ground arith, t, o)
      ]

module _ (m : SessionManager) (now : ℕ → ℕ) (timeout : ℕ) (v : IsConsistent m) where
  dropped_iff :
      (u : ℕ)
      → (if dropped m.objects now timeout u m.by_addr then none else find u m.by_user_id)
        ≡ survives m.objects now timeout (find u m.by_user_id)
  dropped_iff u = elim (Bool-cases (dropped m.objects now timeout u m.by_addr)) [
    | inl yes' ↦
        let (k, p, e, t, o) = dropped-find m.objects now timeout u m.by_addr v.distinct yes' in
        ground (arith, v.from_addr k p e)
    | inr no' ↦ elim (Option-cases (find u m.by_user_id)) [
      | inl e ↦ ground arith
      | inr (p, e) ↦
          ground (
            arith,
            v.from_user u p e,
            find-dropped m.objects now timeout u (key_of m p) p m.by_addr,
          )
    ]
  ]

  -- On consistent indexes RemoveTimedOut takes exactly the sessions that were idle for longer than
  -- the timeout out of both indexes, and leaves all other entries of both as they were.
  pub find-remove_timed_out :
      (j u : ℕ)
      → (find j (remove_timed_out m now timeout).0.by_addr
          ≡ survives m.objects now timeout (find j m.by_addr))
        × (find u (remove_timed_out m now timeout).0.by_user_id
            ≡ survives m.objects now timeout (find u m.by_user_id))
  unfolding remove_timed_out
  find-remove_timed_out j u = (
    find-sweep m.objects now timeout j m.by_addr m.by_user_id v.distinct,
    find-sweep_user m.objects now timeout u m.by_addr m.by_user_id ∙ dropped_iff u,
  )

  sweep-Distinct :
      (es users : List (ℕ × ℕ)) → Distinct es → Distinct (sweep m.objects now timeout es users).0
  unfolding sweep
  sweep-Distinct [] users d = tt
  sweep-Distinct ((k, p) ∷ es) users d =
      let users' =
        if timed_out m.objects now timeout p
        then erase (deref m.objects p).user_id users
        else users in
      ground (arith, sweep-Distinct es users' d.1, find-sweep m.objects now timeout k es users' d.1)

  pub remove_timed_out-IsConsistent : IsConsistent (remove_timed_out m now timeout).0
  unfolding remove_timed_out
  remove_timed_out-IsConsistent = record {
    from_addr = λ k p e.
        from_addr k p
          (sym (find-sweep m.objects now timeout k m.by_addr m.by_user_id v.distinct) ∙ e);
    from_user = λ u p e.
        from_user u p (
          sym (find-sweep_user m.objects now timeout u m.by_addr m.by_user_id ∙ dropped_iff u) ∙ e);
    distinct = sweep-Distinct m.by_addr m.by_user_id v.distinct;
  }
    where
      from_addr :
          (k p : ℕ)
          → survives m.objects now timeout (find k m.by_addr) ≡ some p
          → (p < length m.objects)
            × (key_of m p ≡ k)
            × (find (user_of m p) (remove_timed_out m now timeout).0.by_user_id ≡ some p)
      from_addr k p e =
          let old : find k m.by_addr ≡ some p = ground arith in
          let entry = v.from_addr k p old in
          (entry.0, entry.1, (find-remove_timed_out k (user_of m p)).1 ∙ ground (arith, entry.2))

      from_user :
          (u p : ℕ)
          → survives m.objects now timeout (find u m.by_user_id) ≡ some p
          → (p < length m.objects)
            × (user_of m p ≡ u)
            × (find (key_of m p) (remove_timed_out m now timeout).0.by_addr ≡ some p)
      from_user u p e =
          let old : find u m.by_user_id ≡ some p = ground arith in
          let entry = v.from_user u p old in
          (entry.0, entry.1, (find-remove_timed_out (key_of m p) u).0 ∙ ground (arith, entry.2))
