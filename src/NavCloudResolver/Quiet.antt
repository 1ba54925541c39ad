-- ===== src/NavCloudResolver/Quiet.antt =====
-- The operations of TimeMachineAR/Source/TimeMachineAR/NavCloudResolver.cpp that start no attempt.
use ai_xr_project.Base.{
  ℕ, suc, ◌≤◌, ◌≡◌, refl, ap, sym, ◌∙◌, Option, none, some, Bool, true, false, ◌==◌, if◌then◌else◌,
  length, arith, Bool-cases, inl, inr,
}
use ai_xr_project.NavCloudResolver.{
  Engine, Localizer, Entry, Frame, Resolver, is_cloud_error, is_in_flight, release_cloud_pin,
  flights,
}
use ai_xr_project.NavCloudResolver.Attempts.{change_at}
use ai_xr_project.NavCloudResolver.Poll.{
  back_to_queue, lose_reference, localize_at, try_localize, tracking_gap, note_tracked, relatched,
  sets_transform, relatch, lose_anchor, watch_tracked, watch_recognized_anchor,
}
use ai_xr_project.NavCloudResolver.Load.{
  one_flight, flights-change_at_le, load, ArePending, release_cloud_pin-Released, release_settled,
}

module _ (E : Engine) where
  -- No more attempts, the same requests, and only pending orphans if there were only such.
  abbrev pub IsQuiet : Frame E → Resolver E → Resolver E → Type 0
  IsQuiet f s t =
      (load E t ≤ load E s)
      × ((t.recent ≡ s.recent) × (ArePending E f s.orphans → ArePending E f t.orphans))

  pub IsQuiet-trans :
      (f : Frame E) (s t u : Resolver E) → IsQuiet f s t → IsQuiet f t u → IsQuiet f s u
  IsQuiet-trans f s t u a b = (omega (arith, a.0, b.0), (b.1.0 ∙ a.1.0, (λ h. b.1.1 (a.1.1 h))))

  -- A plug-in's pin that has failed is no longer pending.
  abbrev pub FailuresEnd : Frame E → Type 0
  FailuresEnd f = (p : ℕ) → is_cloud_error (f.cloud_state p) ≡ true → f.pending p ≡ false

  pub change_lem :
      (f : Frame E) (s t : Resolver E) (i : ℕ) (g : Entry E → Entry E)
      → ((e : Entry E) → one_flight E (g e) ≤ one_flight E e)
      → t.entries ≡ change_at i g s.entries
      → t.orphans ≡ s.orphans
      → t.recent ≡ s.recent
      → IsQuiet f s t
  unfolding load
  change_lem f s t i g hg he ho hr = (
    omega (arith, flights-change_at_le E i g s.entries hg, ap (flights E) he, ap length ho),
    (hr, (λ h. rw ho h)),
  )

  some-injective : (q p : ℕ) → ◌≡◌ {A = Option ℕ} (some q) (some p) → q ≡ p
  some-injective q p h = ground arith

  pub release_ended :
      (f : Frame E) (s : Resolver E) (o : Option ℕ)
      → ((p : ℕ) → o ≡ some p → f.pending p ≡ false)
      → (release_cloud_pin E f s o).0.orphans ≡ s.orphans
  unfolding release_cloud_pin
  release_ended f s none h = refl
  release_ended f s (some p) h = release_settled E f s p (h p refl)

  pub lose_reference-IsQuiet :
      (f : Frame E) (s t : Resolver E) (point : ℕ)
      → IsQuiet f s t
      → IsQuiet f s (lose_reference E point t)
  unfolding lose_reference load
  lose_reference-IsQuiet f s t point h = elim (Bool-cases (t.ref_point == point)) [
    | inl e ↦ rw (e, lose_reference) h
    | inr e ↦ rw (e, lose_reference) h
  ]

  pub IsQuiet-refl : (f : Frame E) (s : Resolver E) → IsQuiet f s s
  IsQuiet-refl f s = (omega arith, (refl, (λ h. h)))

  pub IsQuiet-if :
      (f : Frame E) (s t u : Resolver E) (b : Bool)
      → IsQuiet f s t
      → IsQuiet f s u
      → IsQuiet f s (if b then t else u)
  IsQuiet-if f s t u true ht hu = ht
  IsQuiet-if f s t u false ht hu = hu

  pub try_localize-IsQuiet :
      (f : Frame E) (s : Resolver E) (i point : ℕ) (o : Option Localizer)
      → IsQuiet f s (try_localize E f s i point o)
  unfolding try_localize localize_at is_in_flight
  try_localize-IsQuiet f s i point none = IsQuiet-refl f s
  try_localize-IsQuiet f s i point (some l) =
      IsQuiet-if f s s (localize_at E f s i point l) l.is_localized (IsQuiet-refl f s) (
        change_lem f s (localize_at E f s i point l) i (λ x. record x { localize_applied = true })
          (λ x. omega arith) refl refl refl)

  relatch-IsQuiet :
      (f : Frame E) (s : Resolver E) (i : ℕ) (e : Entry E) (gap : E.Real) (o : Option Localizer)
      → IsQuiet f s (relatch E s i e gap o)
  unfolding relatch relatched is_in_flight
  relatch-IsQuiet f s i e gap none = IsQuiet-refl f s
  relatch-IsQuiet f s i e gap (some l) =
      IsQuiet-if f s (relatched E s i l) s (sets_transform E s e gap l)
        (change_lem f s (relatched E s i l) i (λ y. record y { relatches = suc y.relatches })
          (λ y. omega arith) refl refl refl)
        (IsQuiet-refl f s)

  -- An entry without a flying attempt is set back after the release of its pin, which is not pending.
  lose_anchor-IsQuiet :
      (f : Frame E) (s : Resolver E) (i : ℕ) (e : Entry E)
      → ((p : ℕ) → e.pin ≡ some p → f.pending p ≡ false)
      → IsQuiet f s (lose_anchor E f s i e)
  unfolding lose_anchor back_to_queue is_in_flight
  lose_anchor-IsQuiet f s i e settled =
      let t = (release_cloud_pin E f s e.pin).0 in
      let kept = release_cloud_pin-Released E f s e.pin in
      let orphans : t.orphans ≡ s.orphans = release_ended f s e.pin settled in
      let u = record t { entries = change_at i (back_to_queue E) t.entries } in
      lose_reference-IsQuiet f s u e.point_no (
        change_lem f s u i (back_to_queue E) (λ x. omega arith)
          (ap (change_at i (back_to_queue E)) kept.0) orphans kept.1.0)

  watch_tracked-IsQuiet :
      (f : Frame E) (s : Resolver E) (i : ℕ) (e : Entry E) → IsQuiet f s (watch_tracked E f s i e)
  unfolding watch_tracked note_tracked is_in_flight
  watch_tracked-IsQuiet f s i e =
      let t = record s { entries = change_at i (note_tracked E f) s.entries } in
      IsQuiet-trans f s t (relatch E t i e (tracking_gap E f e) s.localizer)
        (change_lem f s t i (note_tracked E f) (λ x. ground arith) refl refl refl)
        (relatch-IsQuiet f t i e (tracking_gap E f e) s.localizer)

  pub watch-IsQuiet :
      (f : Frame E) (s : Resolver E) (i : ℕ) (e : Entry E) (o : Option ℕ)
      → e.pin ≡ o
      → FailuresEnd f
      → IsQuiet f s (watch_recognized_anchor E f s i e o)
  unfolding watch_recognized_anchor
  watch-IsQuiet f s i e none hp ends =
      lose_anchor-IsQuiet f s i e (λ q hq. absurd (ground (arith, hp, hq)))
  watch-IsQuiet f s i e (some p) hp ends = elim (Bool-cases (is_cloud_error (f.cloud_state p))) [
    | inl bad ↦
        rw (bad, watch_recognized_anchor)
          (lose_anchor-IsQuiet f s i e (λ q hq. rw (some-injective q p (sym hq ∙ hp)) (ends p bad)))
    | inr good ↦
        rw (good, watch_recognized_anchor)
          (IsQuiet-if f s (watch_tracked E f s i e) s (f.tracking p) (watch_tracked-IsQuiet f s i e)
            (IsQuiet-refl f s))
  ]
