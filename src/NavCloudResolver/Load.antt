-- ===== src/NavCloudResolver/Load.antt =====
-- How many cloud anchors TimeMachineAR/Source/TimeMachineAR/NavCloudResolver.cpp resolves at a time, under
-- changes of one entry and under the release of a pin.
use ai_xr_project.Base.{
  ℕ, zero, suc, ◌+◌, ◌≤◌, ◌≡◌, refl, List, [], ◌∷◌, Option, none, some, Bool, true, false, ◌==◌,
  if◌then◌else◌, length, arith, All, Bool-cases, inl, inr,
}
use ai_xr_project.NavCloudResolver.{
  Engine, Entry, Frame, Resolver, is_in_flight, add_unique, try_cancel_pending_pin,
  release_cloud_pin, swap_in_last, poll_orphans_loop, flights, pendings,
}
use ai_xr_project.NavCloudResolver.Attempts.{entry_at, change_at}

pub entry_at-change_at {ℓ} :
    {A : Type ℓ} (k i : ℕ) (g : A → A) (xs : List A)
    → entry_at k (change_at i g xs) ≡ (
        if k == i
        then elim (entry_at k xs) [ none ↦ none | some x ↦ some (g x) ]
        else entry_at k xs)
unfolding entry_at change_at
entry_at-change_at k i g [] = ground arith
entry_at-change_at zero zero g (x ∷ xs) = refl
entry_at-change_at zero (suc i) g (x ∷ xs) = ground arith
entry_at-change_at (suc k) zero g (x ∷ xs) = ground arith
entry_at-change_at (suc k) (suc i) g (x ∷ xs) = ground (arith, entry_at-change_at k i g xs)

module _ (E : Engine) where
  -- One for an entry whose resolve runs.
  abbrev pub one_flight : Entry E → ℕ
  one_flight e = if is_in_flight E e then 1 else 0

  pub flights-change_at :
      (i : ℕ) (g : Entry E → Entry E) (es : List (Entry E)) (e : Entry E)
      → entry_at i es ≡ some e
      → flights E (change_at i g es) + one_flight e ≡ flights E es + one_flight (g e)
  unfolding flights entry_at change_at
  flights-change_at i g [] e h = ground arith
  flights-change_at zero g (x ∷ xs) e h = ground arith
  flights-change_at (suc i) g (x ∷ xs) e h = ground (arith, flights-change_at i g xs e)

  pub flights-change_at_le :
      (i : ℕ) (g : Entry E → Entry E) (es : List (Entry E))
      → ((e : Entry E) → one_flight (g e) ≤ one_flight e)
      → flights E (change_at i g es) ≤ flights E es
  unfolding flights change_at
  flights-change_at_le i g [] h = omega arith
  flights-change_at_le zero g (x ∷ xs) h = ground (arith, h x)
  flights-change_at_le (suc i) g (x ∷ xs) h = ground (arith, flights-change_at_le i g xs h)

  -- The attempts that run and the orphans.
  unfoldable pub load : Resolver E → ℕ
  load s = flights E s.entries + length s.orphans

  abbrev pub ArePending : Frame E → List ℕ → Type 0
  ArePending f ps = All (λ p. f.pending p ≡ true) ps

  pub pendings-length : (f : Frame E) (ps : List ℕ) → ArePending f ps → pendings E f ps ≡ length ps
  unfolding pendings
  pendings-length f [] h = refl
  pendings-length f (p ∷ ps) h = ground (arith, pendings-length f ps h.1, h.0)

  add_unique-length : (p : ℕ) (ps : List ℕ) → length (add_unique E p ps) ≤ suc (length ps)
  unfolding add_unique
  add_unique-length p [] = omega arith
  add_unique-length p (q ∷ qs) = ground (arith, add_unique-length p qs)

  add_unique-ArePending :
      (f : Frame E) (p : ℕ) (ps : List ℕ)
      → f.pending p ≡ true
      → ArePending f ps
      → ArePending f (add_unique E p ps)
  unfolding add_unique
  add_unique-ArePending f p [] hp h = (hp, tt)
  add_unique-ArePending f p (q ∷ qs) hp h =
      ground (arith, add_unique-ArePending f p qs hp h.1, h.0, h.1)

  -- What the release of a pin keeps, and what it adds to the orphans.
  abbrev pub Released : Frame E → Resolver E → Option ℕ → Resolver E × Bool → Type 0
  Released f s p r =
      (r.0.entries ≡ s.entries)
      × ((r.0.recent ≡ s.recent)
          × ((length r.0.orphans ≤ suc (length s.orphans))
              × ((r.1 ≡ true → length r.0.orphans ≤ length s.orphans)
                  × (ArePending f s.orphans → ArePending f r.0.orphans))))

  pub release_cloud_pin-Released :
      (f : Frame E) (s : Resolver E) (p : Option ℕ) → Released f s p (release_cloud_pin E f s p)
  unfolding release_cloud_pin
  release_cloud_pin-Released f s none =
      (refl, (refl, (omega arith, ((λ h. omega arith), (λ h. h)))))
  release_cloud_pin-Released f s (some p) = elim (Bool-cases (f.pending p)) [
    | inr e ↦ rw e (refl, (refl, (omega arith, ((λ h. omega arith), (λ h. h)))))
    | inl e ↦ elim (Bool-cases (try_cancel_pending_pin E f p)) [
      | inl c ↦ rw (e, c) (refl, (refl, (omega arith, ((λ h. omega arith), (λ h. h)))))
      | inr c ↦
          rw (e, c)
            (
              refl,
              (
                refl,
                (
                  add_unique-length p s.orphans,
                  ((λ h. absurd (ground arith)), add_unique-ArePending f p s.orphans e),
                ),
              ),
            )
    ]
  ]

  -- A pin that is not pending leaves no orphan.
  pub release_settled :
      (f : Frame E) (s : Resolver E) (p : ℕ)
      → f.pending p ≡ false
      → (release_cloud_pin E f s (some p)).0.orphans ≡ s.orphans
  unfolding release_cloud_pin
  release_settled f s p h = ground arith

  length-swap_in_last : (ps : List ℕ) → length (swap_in_last E ps) ≡ length ps
  unfolding swap_in_last
  length-swap_in_last [] = refl
  length-swap_in_last (p ∷ []) = refl
  length-swap_in_last (p ∷ q ∷ qs) = ground (arith, length-swap_in_last (q ∷ qs))

  swap_in_last-ArePending :
      (f : Frame E) (ps : List ℕ) → ArePending f ps → ArePending f (swap_in_last E ps)
  unfolding swap_in_last
  swap_in_last-ArePending f [] h = tt
  swap_in_last-ArePending f (p ∷ []) h = h
  swap_in_last-ArePending f (p ∷ q ∷ qs) h =
      ground (arith, swap_in_last-ArePending f (q ∷ qs) h.1, h.0)

  -- The orphans that are kept are pending, and not more than before.
  pub poll_orphans_loop-ArePending :
      (f : Frame E) (ps : List ℕ)
      → ArePending f (poll_orphans_loop E f ps) × (length (poll_orphans_loop E f ps) ≤ length ps)
  unfolding poll_orphans_loop
  poll_orphans_loop-ArePending f [] = (tt, omega arith)
  poll_orphans_loop-ArePending f (p ∷ ps) =
      let rest = poll_orphans_loop-ArePending f ps in
      let kept = poll_orphans_loop E f ps in
      ground (arith, rest.0, rest.1, swap_in_last-ArePending f kept, length-swap_in_last kept)
