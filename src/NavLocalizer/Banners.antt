-- ===== src/NavLocalizer/Banners.antt =====
-- The banners of TimeMachineAR/Source/TimeMachineAR/NavLocalizer.cpp, as an observer sees them.
use ai_xr_project.Base.{[], ◌∷◌, true, false, not, ◌&&◌, ◌||◌, ◌≡◌, refl, arith, if◌then◌else◌}
use ai_xr_project.NavLocalizer.{
  ArMath, LocState, localized, relocalizing, recovered, ArFrame, LocalizerSettings, LocalizerState,
  on_degraded, on_soft_hint, on_tracking_recovered, stay,
}
use ai_xr_project.NavLocalizer.Relocation.{is_full}
use ai_xr_project.NavLocalizer.Tick.{
  is_calm, is_none_reason, count_poor, end_degraded, count_fine, monitor_tracking_quality,
  count_hint, show_hint,
}
use ai_xr_project.NavLocalizer.Phases.{
  calm, phase_of, KeepsAt, Keeps, if-KeepsAt, when-KeepsAt, IsQuiet, send-KeepsAt,
}
use ai_xr_project.NavLocalizer.Allowed.{on_tracking_recovered-IsQuiet}

module _ (M : ArMath) where
  on_degraded-IsQuiet : IsQuiet {M = M} on_degraded
  on_degraded-IsQuiet localized = refl
  on_degraded-IsQuiet relocalizing = refl
  on_degraded-IsQuiet recovered = refl

  count_poor-Keeps : (cfg : LocalizerSettings M) (dt : M.Real) → Keeps (count_poor M cfg dt)
  unfolding count_poor
  count_poor-Keeps cfg dt s =
      let counted : LocalizerState M = record s {
        poor_seconds = M.addf s.poor_seconds dt;
        good_seconds = M.literal 0;
      } in
      if-KeepsAt (not s.is_degraded && M.at_most cfg.poor_quality_hold (M.addf s.poor_seconds dt))
        (λ t. (record t { is_degraded = true }, on_degraded ∷ [])) stay counted
        (λ _. send-KeepsAt on_degraded counted on_degraded-IsQuiet) (λ _. refl)

  end_degraded-Keeps : Keeps (end_degraded M)
  unfolding end_degraded
  end_degraded-Keeps s =
      if-KeepsAt s.is_degraded (λ t. (record t { is_degraded = false }, on_tracking_recovered ∷ []))
        stay s (λ _. send-KeepsAt on_tracking_recovered s (on_tracking_recovered-IsQuiet M))
        (λ _. refl)

  count_fine-Keeps : (cfg : LocalizerSettings M) (dt : M.Real) → Keeps (count_fine M cfg dt)
  unfolding count_fine
  count_fine-Keeps cfg dt s =
      let counted : LocalizerState M = record s { good_seconds = M.addf s.good_seconds dt } in
      if-KeepsAt (M.at_most cfg.quality_recover (M.addf s.good_seconds dt))
        (λ t. end_degraded M (record t { poor_seconds = M.literal 0 })) stay counted
        (λ _. end_degraded-Keeps (record counted { poor_seconds = M.literal 0 })) (λ _. refl)

  pub monitor_tracking_quality-Keeps :
      (cfg : LocalizerSettings M) (frame : ArFrame M) (dt : M.Real)
      → Keeps (monitor_tracking_quality M cfg frame dt)
  unfolding monitor_tracking_quality
  monitor_tracking_quality-Keeps cfg frame dt s =
      elim (not (is_full frame.quality) || not (is_none_reason frame.quality_reason))
        as (λ b. KeepsAt (if b then count_poor M cfg dt else count_fine M cfg dt) s) [
          | true ↦ count_poor-Keeps cfg dt s
          | false ↦ count_fine-Keeps cfg dt s
        ]

  -- The hint is shown outside a relocalization only.
  calm_if : (x : LocState) → is_calm x ≡ true → phase_of x ≡ calm
  unfolding is_calm
  calm_if localized e = refl
  calm_if relocalizing e = absurd (ground arith)
  calm_if recovered e = refl

  count_hint-calm :
      (cfg : LocalizerSettings M) (dt : M.Real) (s : LocalizerState M)
      → phase_of s.state ≡ calm
      → KeepsAt (count_hint M cfg dt) s
  unfolding count_hint
  count_hint-calm cfg dt s e =
      let counted : LocalizerState M = record s {
        soft_hint_seconds = M.addf s.soft_hint_seconds dt;
      } in
      if-KeepsAt
        (not s.soft_hint_shown && M.at_most cfg.reloc_soft_hint (M.addf s.soft_hint_seconds dt))
        (λ t. (record t { soft_hint_shown = true }, on_soft_hint ∷ [])) stay counted (λ _. rw e)
        (λ _. refl)

  pub show_hint-Keeps : (cfg : LocalizerSettings M) (dt : M.Real) → Keeps (show_hint M cfg dt)
  unfolding show_hint
  show_hint-Keeps cfg dt s =
      when-KeepsAt (is_calm s.state && M.less (M.literal 0) cfg.reloc_soft_hint)
        (count_hint M cfg dt) s (λ e. count_hint-calm cfg dt s (calm_if s.state (ground arith)))
