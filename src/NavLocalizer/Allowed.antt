-- ===== src/NavLocalizer/Allowed.antt =====
-- The parts of TimeMachineAR/Source/TimeMachineAR/NavLocalizer.cpp, as an observer sees them.
use ai_xr_project.Base.{
  Option, none, some, Bool, true, false, not, ◌||◌, ◌≡◌, refl, inl, inr, Bool-cases, ◌∙◌, ap, arith,
}
use ai_xr_project.NavLocalizer.{
  ArMath, LocState, localized, relocalizing, recovered, RelocReason, Camera, ArFrame,
  LocalizerSettings, LocalizerState, ◌▷◌, stay, send, send_of, change, when, on_relocalized,
  on_tracking_recovered,
}
use ai_xr_project.NavLocalizer.Relocation.{
  is_relocating, show_pose, update_current_pose, take_down, take_down_banners, enter, announce,
  request_relocalization, mark_recovered, enter_recovered, force_relocalization_recovered,
  hide_hint, note_anchor_observed, keep_source, note_relocalization_fix,
}
use ai_xr_project.NavLocalizer.Phases.{
  calm, running, phase_of, phases, KeepsAt, Keeps, then-KeepsAt, then-Keeps, if-KeepsAt,
  when-KeepsAt, if-state, IsQuiet, send-KeepsAt, change-KeepsAt,
}

module _ (M : ArMath) where
  pub stay-Keeps : Keeps {M = M} stay
  stay-Keeps s = refl

  pub on_tracking_recovered-IsQuiet : IsQuiet {M = M} on_tracking_recovered
  on_tracking_recovered-IsQuiet localized = refl
  on_tracking_recovered-IsQuiet relocalizing = refl
  on_tracking_recovered-IsQuiet recovered = refl

  show_pose-calm :
      (cfg : LocalizerSettings M) (camera : Option (Camera M)) (s : LocalizerState M)
      → phase_of s.state ≡ calm
      → KeepsAt (show_pose M cfg camera) s
  unfolding show_pose
  show_pose-calm cfg none s e = refl
  show_pose-calm cfg (some camera) s e = rw e

  pub calm_unless_relocalizing : (x : LocState) → is_relocating x ≡ false → phase_of x ≡ calm
  unfolding is_relocating
  calm_unless_relocalizing localized e = refl
  calm_unless_relocalizing recovered e = refl
  calm_unless_relocalizing relocalizing e = absurd (ground arith)

  pub running_if_relocalizing : (x : LocState) → is_relocating x ≡ true → x ≡ relocalizing
  unfolding is_relocating
  running_if_relocalizing relocalizing e = refl
  running_if_relocalizing localized e = absurd (ground arith)
  running_if_relocalizing recovered e = absurd (ground arith)

  pub update_current_pose-Keeps :
      (cfg : LocalizerSettings M) (frame : ArFrame M) → Keeps (update_current_pose M cfg frame)
  unfolding update_current_pose
  update_current_pose-Keeps cfg frame s =
      if-KeepsAt (is_relocating s.state) stay (show_pose M cfg frame.camera) s (λ _. refl)
        (λ e. show_pose-calm cfg frame.camera s (calm_unless_relocalizing s.state e))

  begin_relocalization-calm :
      (frame : ArFrame M) (why : RelocReason M) (s : LocalizerState M)
      → phase_of s.state ≡ calm
      → KeepsAt (change (enter M frame why) ▷ take_down_banners M ▷ announce M) s
  unfolding enter take_down_banners announce take_down
  begin_relocalization-calm frame why s e = elim (Bool-cases (s.is_degraded || s.soft_hint_shown)) [
    | inl shown ↦ rw (e, shown)
    | inr hidden ↦ rw (e, hidden)
  ]

  pub request_relocalization-Keeps :
      (frame : ArFrame M) (why : RelocReason M) → Keeps (request_relocalization M frame why)
  unfolding request_relocalization
  request_relocalization-Keeps frame why s =
      if-KeepsAt (is_relocating s.state) stay
        (change (enter M frame why) ▷ take_down_banners M ▷ announce M) s (λ _. refl)
        (λ e. begin_relocalization-calm frame why s (calm_unless_relocalizing s.state e))

  -- The end of a relocalization: the new pose, if there is one, and the broadcast.
  show_pose-running :
      (cfg : LocalizerSettings M) (camera : Option (Camera M)) (source : LocalizerState M → M.Code)
      (s : LocalizerState M)
      → phase_of s.state ≡ calm
      → phases running ((show_pose M cfg camera ▷ send_of (λ t. on_relocalized (source t))) s).1
        ≡ some (
            phase_of
              ((show_pose M cfg camera ▷ send_of (λ t. on_relocalized (source t))) s).0.state)
  unfolding show_pose
  show_pose-running cfg none source s e = rw e
  show_pose-running cfg (some camera) source s e = rw e

  finish-running :
      (b : Bool) (cfg : LocalizerSettings M) (frame : ArFrame M)
      (source : LocalizerState M → M.Code) (s : LocalizerState M)
      → s.state ≡ recovered
      → phases running
          ((when b (update_current_pose M cfg frame) ▷ send_of (λ t. on_relocalized (source t)))
            s).1
        ≡ some (
            phase_of
              ((when b (update_current_pose M cfg frame) ▷ send_of (λ t. on_relocalized (source t)))
                s).0.state)
  unfolding update_current_pose is_relocating
  finish-running false cfg frame source s e = rw e
  finish-running true cfg frame source s e =
      rw (ap is_relocating e) (show_pose-running cfg frame.camera source s (ap phase_of e))

  pub enter_recovered-running :
      (cfg : LocalizerSettings M) (frame : ArFrame M) (source : LocalizerState M → M.Code)
      (s : LocalizerState M)
      → s.state ≡ relocalizing
      → KeepsAt (enter_recovered M cfg frame source) s
  unfolding enter_recovered mark_recovered
  enter_recovered-running cfg frame source s e =
      ap (λ x. phases (phase_of x) (enter_recovered M cfg frame source s).1) e
      ∙ finish-running s.is_localized cfg frame source (mark_recovered M frame s) refl

  pub force_relocalization_recovered-Keeps :
      (cfg : LocalizerSettings M) (frame : ArFrame M) (source : M.Code)
      → Keeps (force_relocalization_recovered M cfg frame source)
  unfolding force_relocalization_recovered
  force_relocalization_recovered-Keeps cfg frame source s =
      if-KeepsAt (is_relocating s.state) (enter_recovered M cfg frame (λ t. source)) stay s
        (λ e. enter_recovered-running cfg frame (λ t. source) s (running_if_relocalizing s.state e))
        (λ _. refl)

  hide_hint-Keeps : Keeps (hide_hint M)
  unfolding hide_hint
  hide_hint-Keeps s =
      when-KeepsAt s.soft_hint_shown
        (change (λ t. record t { soft_hint_shown = false })
          ▷ when (not s.is_degraded) (send on_tracking_recovered))
        s
        (λ _.
          then-KeepsAt (change (λ t. record t { soft_hint_shown = false }))
            (when (not s.is_degraded) (send on_tracking_recovered)) s refl
            (when-KeepsAt (not s.is_degraded) (send on_tracking_recovered)
              (record s { soft_hint_shown = false })
              (λ _.
                send-KeepsAt on_tracking_recovered (record s { soft_hint_shown = false })
                  on_tracking_recovered-IsQuiet)))

  pub note_anchor_observed-Keeps : Keeps (note_anchor_observed M)
  unfolding note_anchor_observed
  note_anchor_observed-Keeps =
      then-Keeps (change (λ s. record s { soft_hint_seconds = M.literal 0 })) (hide_hint M)
        (λ s. refl) hide_hint-Keeps

  keep_source-Keeps : (source : M.Code) → Keeps (change (keep_source M source))
  unfolding keep_source
  keep_source-Keeps source s =
      change-KeepsAt (keep_source M source) s
        (if-state (is_relocating s.state) (record s { pending_source = source }) s s refl refl)

  pub note_relocalization_fix-Keeps : (source : M.Code) → Keeps (note_relocalization_fix M source)
  unfolding note_relocalization_fix
  note_relocalization_fix-Keeps source =
      then-Keeps (note_anchor_observed M) (change (keep_source M source)) note_anchor_observed-Keeps
        (keep_source-Keeps source)
