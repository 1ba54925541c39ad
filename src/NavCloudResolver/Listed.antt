-- ===== src/NavCloudResolver/Listed.antt =====
-- A new list of anchors in TimeMachineAR/Source/TimeMachineAR/NavCloudResolver.cpp: what
-- becomes of one entry.
use mathlib.Core.Path.{subst}
use ai_xr_project.Base.{
  ℕ, zero, suc, ◌+◌, ◌≤◌, ◌≡◌, refl, ap, sym, ◌∙◌, List, [], ◌∷◌, ◌++◌, none, some, true, false,
  ◌==◌, length, arith, All, Bool-cases, Option-cases, inl, inr,
}
use ai_xr_project.NavCloudResolver.{
  Engine, Entry, Frame, Resolver, is_in_flight, release_cloud_pin, flights,
}
use ai_xr_project.NavCloudResolver.Attempts.{entry_at, change_at}
use ai_xr_project.NavCloudResolver.Poll.{lose_reference}
use ai_xr_project.NavCloudResolver.Anchors.{remove_at, drop_entry, insert_entry, sort_entries}
use ai_xr_project.NavCloudResolver.Load.{one_flight, load, release_cloud_pin-Released}
use ai_xr_project.NavCloudResolver.Quiet.{release_ended}

module _ (E : Engine) where
  -- A pin whose anchor is recognised is not pending.
  abbrev pub IsSettled : Frame E → Entry E → Type 0
  IsSettled f e = (p : ℕ) → e.recognized ≡ true → e.pin ≡ some p → f.pending p ≡ false

  -- No more attempts, the same requests, and settled entries.
  abbrev pub IsKept : Frame E → Resolver E → Resolver E → Type 0
  IsKept f s t = (load E t ≤ load E s) × ((t.recent ≡ s.recent) × All (IsSettled f) t.entries)

  pub IsKept-trans : (f : Frame E) (s t u : Resolver E) → IsKept f s t → IsKept f t u → IsKept f s u
  IsKept-trans f s t u a b = (omega (arith, a.0, b.0), (b.1.0 ∙ a.1.0, b.1.1))

  pub IsKept-refl : (f : Frame E) (s : Resolver E) → All (IsSettled f) s.entries → IsKept f s s
  IsKept-refl f s h = (omega arith, (refl, h))

  pub All-change_at :
      (P : Entry E → Type 0) (i : ℕ) (g : Entry E → Entry E) (es : List (Entry E))
      → ((e : Entry E) → P e → P (g e))
      → All P es
      → All P (change_at i g es)
  unfolding change_at
  All-change_at P i g [] hg h = tt
  All-change_at P zero g (e ∷ es) hg h = (hg e h.0, h.1)
  All-change_at P (suc i) g (e ∷ es) hg h = (h.0, All-change_at P i g es hg h.1)

  All-remove_at :
      (P : Entry E → Type 0) (i : ℕ) (es : List (Entry E)) → All P es → All P (remove_at i es)
  unfolding remove_at
  All-remove_at P i [] h = tt
  All-remove_at P zero (e ∷ es) h = h.1
  All-remove_at P (suc i) (e ∷ es) h = (h.0, All-remove_at P i es h.1)

  pub All-entry_at :
      (P : Entry E → Type 0) (i : ℕ) (es : List (Entry E)) (e : Entry E)
      → All P es
      → entry_at i es ≡ some e
      → P e
  unfolding entry_at
  All-entry_at P i [] e h he = absurd (ground arith)
  All-entry_at P zero (x ∷ xs) e h he = subst P (ap (λ o. elim o [ none ↦ x | some y ↦ y ]) he) h.0
  All-entry_at P (suc i) (x ∷ xs) e h he = All-entry_at P i xs e h.1 he

  flights-remove_at :
      (i : ℕ) (es : List (Entry E)) (e : Entry E)
      → entry_at i es ≡ some e
      → flights E (remove_at i es) + one_flight E e ≡ flights E es
  unfolding flights entry_at remove_at
  flights-remove_at i [] e h = ground arith
  flights-remove_at zero (x ∷ xs) e h = ground arith
  flights-remove_at (suc i) (x ∷ xs) e h = ground (arith, flights-remove_at i xs e)

  flying_lem : (e : Entry E) (p : ℕ) → e.pin ≡ some p → e.recognized ≡ false → one_flight E e ≡ 1
  unfolding is_in_flight
  flying_lem e p hp hr = rw (hp, hr) refl

  -- The release of a settled entry leaves at most as many orphans more as it has attempts.
  pub release_entry_lem :
      (f : Frame E) (s : Resolver E) (e : Entry E)
      → IsSettled f e
      → length (release_cloud_pin E f s e.pin).0.orphans ≤ length s.orphans + one_flight E e
  release_entry_lem f s e h = elim (Bool-cases e.recognized) [
    | inl r ↦ omega (arith, ap length (release_ended E f s e.pin (λ p hp. h p r hp)))
    | inr r ↦ elim (Option-cases e.pin) [
      | inl n ↦
          omega
            (arith, ap length (release_ended E f s e.pin (λ p hp. absurd (ground (arith, n, hp)))))
      | inr (p, hp) ↦
          omega (arith, flying_lem e p hp r, (release_cloud_pin-Released E f s e.pin).1.1.0)
    ]
  ]

  pub lose_reference-IsKept :
      (f : Frame E) (s t : Resolver E) (point : ℕ)
      → IsKept f s t
      → IsKept f s (lose_reference E point t)
  unfolding lose_reference load
  lose_reference-IsKept f s t point h = elim (Bool-cases (t.ref_point == point)) [
    | inl e ↦ rw (e, lose_reference) h
    | inr e ↦ rw (e, lose_reference) h
  ]

  drop_entry_lem :
      (f : Frame E) (s : Resolver E) (i : ℕ) (e : Entry E)
      → entry_at i s.entries ≡ some e
      → All (IsSettled f) s.entries
      → (let t = (release_cloud_pin E f s e.pin).0 in
          IsKept f s (record t { entries = remove_at i t.entries }))
  unfolding load
  drop_entry_lem f s i e he h =
      let kept = release_cloud_pin-Released E f s e.pin in
      let orphans = release_entry_lem f s e (All-entry_at (IsSettled f) i s.entries e h he) in
      let t = (release_cloud_pin E f s e.pin).0 in
      let same : flights E (remove_at i t.entries) ≡ flights E (remove_at i s.entries) =
        ap (λ l. flights E (remove_at i l)) kept.0 in
      (
        omega (arith, same, flights-remove_at i s.entries e he, orphans),
        (
          kept.1.0,
          subst (λ l. All (IsSettled f) (remove_at i l)) (sym kept.0)
              (All-remove_at (IsSettled f) i s.entries h),
        ),
      )

  pub drop_entry-IsKept :
      (f : Frame E) (s : Resolver E) (i : ℕ)
      → All (IsSettled f) s.entries
      → IsKept f s (drop_entry E f s i)
  unfolding drop_entry
  drop_entry-IsKept f s i h = elim (Option-cases (entry_at i s.entries)) [
    | inl n ↦ rw (n, drop_entry) (IsKept-refl f s h)
    | inr (e, he) ↦
        let t = (release_cloud_pin E f s e.pin).0 in
        rw (he, drop_entry)
          (lose_reference-IsKept f s (record t { entries = remove_at i t.entries }) e.point_no
            (drop_entry_lem f s i e he h))
  ]

  flights-insert_entry :
      (e : Entry E) (es : List (Entry E))
      → flights E (insert_entry E e es) ≡ one_flight E e + flights E es
  unfolding flights insert_entry
  flights-insert_entry e [] = ground arith
  flights-insert_entry e (x ∷ xs) = ground (arith, flights-insert_entry e xs)

  pub flights-sort_entries : (es : List (Entry E)) → flights E (sort_entries E es) ≡ flights E es
  unfolding flights sort_entries
  flights-sort_entries [] = refl
  flights-sort_entries (e ∷ es) =
      ground (arith, flights-insert_entry e (sort_entries E es), flights-sort_entries es)

  pub flights-append :
      (es : List (Entry E)) (e : Entry E) → flights E (es ++ e ∷ []) ≡ flights E es + one_flight E e
  unfolding flights
  flights-append [] e = ground arith
  flights-append (x ∷ xs) e = ground (arith, flights-append xs e)
