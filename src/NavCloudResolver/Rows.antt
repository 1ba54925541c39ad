-- ===== src/NavCloudResolver/Rows.antt =====
-- The rows of a list of anchors in TimeMachineAR/Source/TimeMachineAR/NavCloudResolver.cpp keep the bounds.
use mathlib.Core.Path.{subst}
use ai_xr_project.Base.{
  ℕ, zero, suc, ◌≡◌, refl, ap, sym, List, [], ◌∷◌, ◌++◌, some, Bool, true, false, ◌==◌,
  if◌then◌else◌, arith, All, All-append, Bool-cases, Option-cases, inl, inr,
}
use ai_xr_project.NavCloudResolver.{
  Engine, Entry, Frame, Resolver, is_in_flight, release_cloud_pin, flights,
}
use ai_xr_project.NavCloudResolver.Attempts.{entry_at, change_at}
use ai_xr_project.NavCloudResolver.Anchors.{
  contains, AnchorRow, index_of, new_entry, take_row, forget_attempts, drop_entry, rehost_entry,
  update_entry, apply_row, apply_rows, drop_unseen,
}
use ai_xr_project.NavCloudResolver.Load.{
  one_flight, flights-change_at, flights-change_at_le, load, release_cloud_pin-Released,
}
use ai_xr_project.NavCloudResolver.Listed.{
  IsSettled, IsKept, IsKept-trans, IsKept-refl, All-change_at, All-entry_at, release_entry_lem,
  lose_reference-IsKept, drop_entry-IsKept, flights-append,
}

module _ (E : Engine) where
  forgotten_lem :
      (row : AnchorRow E) (e : Entry E) → one_flight E (forget_attempts E (take_row E row e)) ≡ 0
  unfolding forget_attempts is_in_flight
  forgotten_lem row e = refl

  forgotten-IsSettled :
      (f : Frame E) (row : AnchorRow E) (e : Entry E)
      → IsSettled E f (forget_attempts E (take_row E row e))
  unfolding forget_attempts
  forgotten-IsSettled f row e p hr hp = absurd (ground arith)

  rehost_entry-IsKept :
      (f : Frame E) (s : Resolver E) (row : AnchorRow E) (i : ℕ) (e : Entry E)
      → entry_at i s.entries ≡ some e
      → All (IsSettled E f) s.entries
      → IsKept E f s (rehost_entry E f s row i e)
  unfolding rehost_entry load
  rehost_entry-IsKept f s row i e he h =
      let g : Entry E → Entry E = λ x. forget_attempts E (take_row E row x) in
      let kept = release_cloud_pin-Released E f s e.pin in
      let orphans = release_entry_lem E f s e (All-entry_at E (IsSettled E f) i s.entries e h he) in
      let t = (release_cloud_pin E f s e.pin).0 in
      let same : flights E (change_at i g t.entries) ≡ flights E (change_at i g s.entries) =
        ap (λ l. flights E (change_at i g l)) kept.0 in
      (
        omega (arith, same, flights-change_at E i g s.entries e he, forgotten_lem row e, orphans),
        (
          kept.1.0,
          subst (λ l. All (IsSettled E f) (change_at i g l)) (sym kept.0)
              (All-change_at E (IsSettled E f) i g s.entries (λ x hx. forgotten-IsSettled f row x)
                h),
        ),
      )

  take_row-IsKept :
      (f : Frame E) (s : Resolver E) (row : AnchorRow E) (i : ℕ)
      → All (IsSettled E f) s.entries
      → IsKept E f s (record s { entries = change_at i (take_row E row) s.entries })
  unfolding load take_row is_in_flight
  take_row-IsKept f s row i h = (
    omega (arith, flights-change_at_le E i (take_row E row) s.entries (λ x. omega arith)),
    (refl, All-change_at E (IsSettled E f) i (take_row E row) s.entries (λ x hx. hx) h),
  )

  update_entry-IsKept :
      (f : Frame E) (s : Resolver E) (row : AnchorRow E) (i : ℕ)
      → All (IsSettled E f) s.entries
      → IsKept E f s (update_entry E f s row i)
  unfolding update_entry
  update_entry-IsKept f s row i h = elim (Option-cases (entry_at i s.entries)) [
    | inl n ↦ rw (n, update_entry) (IsKept-refl E f s h)
    | inr (e, he) ↦ elim (Bool-cases (e.cloud_id == row.cloud_id)) [
      | inl same ↦ rw (he, same, update_entry) (take_row-IsKept f s row i h)
      | inr new ↦
          rw (he, new, update_entry)
            (lose_reference-IsKept E f s (rehost_entry E f s row i e) row.point_no
              (rehost_entry-IsKept f s row i e he h))
    ]
  ]

  add_entry-IsKept :
      (f : Frame E) (s : Resolver E) (row : AnchorRow E)
      → All (IsSettled E f) s.entries
      → IsKept E f s (record s { entries = s.entries ++ new_entry E row ∷ [] })
  unfolding load new_entry is_in_flight
  add_entry-IsKept f s row h = (
    omega (arith, flights-append E s.entries (new_entry E row)),
    (
      refl,
      All-append (IsSettled E f) s.entries (new_entry E row ∷ []) h
          ((λ p hr hp. absurd (ground arith)), tt),
    ),
  )

  pub IsKept-if :
      (f : Frame E) (s t u : Resolver E) (b : Bool)
      → IsKept E f s t
      → IsKept E f s u
      → IsKept E f s (if b then t else u)
  IsKept-if f s t u true ht hu = ht
  IsKept-if f s t u false ht hu = hu

  apply_row-IsKept :
      (f : Frame E) (s : Resolver E) (row : AnchorRow E)
      → All (IsSettled E f) s.entries
      → IsKept E f s (apply_row E f s row)
  unfolding apply_row
  apply_row-IsKept f s row h = elim (Option-cases (index_of E row.point_no 0 s.entries)) [
    | inl n ↦
        let t = record s { entries = s.entries ++ new_entry E row ∷ [] } in
        rw (n, apply_row)
          (IsKept-if f s s t row.is_asset (IsKept-refl E f s h) (add_entry-IsKept f s row h))
    | inr (i, n) ↦
        rw (n, apply_row)
          (IsKept-if f s (drop_entry E f s i) (update_entry E f s row i) row.is_asset
            (drop_entry-IsKept E f s i h) (update_entry-IsKept f s row i h))
  ]

  pub apply_rows-IsKept :
      (f : Frame E) (s : Resolver E) (rows : List (AnchorRow E))
      → All (IsSettled E f) s.entries
      → IsKept E f s (apply_rows E f s rows)
  unfolding apply_rows
  apply_rows-IsKept f s [] h = IsKept-refl E f s h
  apply_rows-IsKept f s (row ∷ rows) h =
      let t = apply_row E f s row in
      let now = apply_row-IsKept f s row h in
      IsKept-trans E f s t (apply_rows E f t rows) now (apply_rows-IsKept f t rows now.1.1)

  pub drop_unseen-IsKept :
      (f : Frame E) (seen : List ℕ) (n : ℕ) (s : Resolver E)
      → All (IsSettled E f) s.entries
      → IsKept E f s (drop_unseen E f seen n s)
  unfolding drop_unseen
  drop_unseen-IsKept f seen zero s h = IsKept-refl E f s h
  drop_unseen-IsKept f seen (suc n) s h = elim (Option-cases (entry_at n s.entries)) [
    | inl e ↦ rw (e, drop_unseen) (drop_unseen-IsKept f seen n s h)
    | inr (e, he) ↦
        let t = if contains e.point_no seen then s else drop_entry E f s n in
        let now =
          IsKept-if f s s (drop_entry E f s n) (contains e.point_no seen) (IsKept-refl E f s h)
            (drop_entry-IsKept E f s n h) in
        rw (he, drop_unseen)
          (IsKept-trans E f s t (drop_unseen E f seen n t) now
            (drop_unseen-IsKept f seen n t now.1.1))
  ]
