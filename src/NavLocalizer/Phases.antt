-- ===== src/NavLocalizer/Phases.antt =====
-- What an observer of TimeMachineAR/Source/TimeMachineAR/NavLocalizer.h sees of a relocalization, and how
-- actions keep to it.
use ai_xr_project.Base.{
  List, [], ◌∷◌, ◌++◌, Option, none, some, ◌>>=◌, Bool, true, false, ◌≡◌, refl, sym, ◌∙◌, ap, inl,
  inr, Option-cases, if◌then◌else◌,
}
use ai_xr_project.NavLocalizer.{
  ArMath, LocState, localized, relocalizing, recovered, LocalizerState, Broadcast, on_localized,
  on_anchor_changed, on_relocalized, markers_requested, on_pose_updated, on_relocalization_started,
  on_lost, on_degraded, on_soft_hint, on_tracking_recovered, was_reset, Action, ◌▷◌, send, change,
  when,
}

-- The phases: no relocalization, one that runs, and one whose new pose was shown.
pub data Phase : Type 0 where
  calm running landing : Phase

abbrev pub phase_of : LocState → Phase
phase_of localized = calm
phase_of relocalizing = running
phase_of recovered = calm

module _ {M : ArMath} where
  -- What may be sent in a phase, and the phase after it.
  abbrev in_calm : Broadcast M → Option Phase
  in_calm (on_relocalization_started why) = some running
  in_calm (on_relocalized source) = none
  in_calm (on_localized code) = some calm
  in_calm (on_anchor_changed code) = some calm
  in_calm (markers_requested map) = some calm
  in_calm (on_pose_updated pose) = some calm
  in_calm on_lost = some calm
  in_calm on_degraded = some calm
  in_calm on_soft_hint = some calm
  in_calm on_tracking_recovered = some calm
  in_calm was_reset = some calm

  abbrev in_running : Broadcast M → Option Phase
  in_running (on_relocalization_started why) = none
  in_running (on_relocalized source) = some calm
  in_running (on_localized code) = some running
  in_running (on_anchor_changed code) = none
  in_running (markers_requested map) = some running
  in_running (on_pose_updated pose) = some landing
  in_running on_lost = some running
  in_running on_degraded = some running
  in_running on_soft_hint = none
  in_running on_tracking_recovered = some running
  in_running was_reset = some calm

  abbrev in_landing : Broadcast M → Option Phase
  in_landing (on_relocalized source) = some calm
  in_landing (on_relocalization_started why) = none
  in_landing (on_localized code) = none
  in_landing (on_anchor_changed code) = none
  in_landing (markers_requested map) = none
  in_landing (on_pose_updated pose) = none
  in_landing on_lost = none
  in_landing on_degraded = none
  in_landing on_soft_hint = none
  in_landing on_tracking_recovered = none
  in_landing was_reset = none

  abbrev pub after_event : Phase → Broadcast M → Option Phase
  after_event calm e = in_calm e
  after_event running e = in_running e
  after_event landing e = in_landing e

  abbrev pub phases : Phase → List (Broadcast M) → Option Phase
  phases p [] = some p
  phases p (e ∷ es) = after_event p e >>= λ q. phases q es

  phases-append :
      (p : Phase) (es fs : List (Broadcast M))
      → phases p (es ++ fs) ≡ (phases p es >>= λ q. phases q fs)
  phases-append p [] fs = refl
  phases-append p (e ∷ es) fs = elim (Option-cases (after_event p e)) [
    | inl refused ↦ rw refused
    | inr (q, allowed) ↦ rw allowed (phases-append q es fs)
  ]

  -- An action at a state sends what its phase allows, and ends in the phase of the state after it.
  abbrev pub KeepsAt : Action M → LocalizerState M → Type 0
  KeepsAt f s = phases (phase_of s.state) (f s).1 ≡ some (phase_of (f s).0.state)

  abbrev pub Keeps : Action M → Type 0
  Keeps f = (s : LocalizerState M) → KeepsAt f s

  pub then-KeepsAt :
      (f g : Action M) (s : LocalizerState M) → KeepsAt f s → KeepsAt g (f s).0 → KeepsAt (f ▷ g) s
  then-KeepsAt f g s kf kg =
      phases-append (phase_of s.state) (f s).1 (g (f s).0).1
      ∙ ap (λ o. o >>= λ q. phases q (g (f s).0).1) kf
      ∙ kg

  pub then-Keeps : (f g : Action M) → Keeps f → Keeps g → Keeps (f ▷ g)
  then-Keeps f g kf kg s = then-KeepsAt f g s (kf s) (kg (f s).0)

  pub if-KeepsAt :
      (b : Bool) (f g : Action M) (s : LocalizerState M)
      → (b ≡ true → KeepsAt f s)
      → (b ≡ false → KeepsAt g s)
      → phases (phase_of s.state) (if b then f s else g s).1
        ≡ some (phase_of (if b then f s else g s).0.state)
  if-KeepsAt true f g s kf kg = kf refl
  if-KeepsAt false f g s kf kg = kg refl

  pub when-KeepsAt :
      (b : Bool) (f : Action M) (s : LocalizerState M)
      → (b ≡ true → KeepsAt f s)
      → KeepsAt (when b f) s
  when-KeepsAt true f s kf = kf refl
  when-KeepsAt false f s kf = refl

  pub change-KeepsAt :
      (f : LocalizerState M → LocalizerState M) (s : LocalizerState M)
      → (f s).state ≡ s.state
      → KeepsAt (change f) s
  change-KeepsAt f s e = ap (λ x. some (phase_of x)) (sym e)

  pub if-state :
      (b : Bool) (s t u : LocalizerState M)
      → s.state ≡ u.state
      → t.state ≡ u.state
      → (if b then s else t).state ≡ u.state
  if-state true s t u e f = e
  if-state false s t u e f = f

  -- What may be sent at any time.
  abbrev pub IsQuiet : Broadcast M → Type 0
  IsQuiet e = (x : LocState) → after_event (phase_of x) e ≡ some (phase_of x)

  pub send-KeepsAt : (e : Broadcast M) (s : LocalizerState M) → IsQuiet e → KeepsAt (send e) s
  send-KeepsAt e s q = rw (q s.state)
