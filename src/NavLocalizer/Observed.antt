-- ===== src/NavLocalizer/Observed.antt =====
-- Runs of the calls of TimeMachineAR/Source/TimeMachineAR/NavLocalizer.h, as an observer sees them.
use ai_xr_project.Base.{List, [], ◌∷◌, Option, none, some, true, not, ◌&&◌, ◌≡◌, refl, sym, ap}
use mathlib.Core.Option.{some-injective, none-ne-some}
use ai_xr_project.NavLocalizer.{
  ArMath, Image, Marker, ArFrame, LocalizerSettings, LocalizerState, on_localized, Action, ◌▷◌,
  send_of, change, when,
}
use ai_xr_project.NavLocalizer.Relocation.{
  reset_reloc_detection, update_current_pose, note_relocalization_fix,
}
use ai_xr_project.NavLocalizer.Monitor.{monitor_relocalization}
use ai_xr_project.NavLocalizer.Anchor.{
  solve_transform, known_image, anchor_on, first_known, try_localize_from, stop_scanning,
  handle_markers_received,
}
use ai_xr_project.NavLocalizer.Transition.{scan_anchors, tracked_anchor, relatch_or_count}
use ai_xr_project.NavLocalizer.Tick.{
  is_calm, monitor_tracking_quality, show_hint, first_fix, begin_localized, look_for_marker,
  tick_localized, tick_state, is_tickable, tick, handle_app_foreground, LocalizerCall, call_tick,
  call_start, call_rescan, call_stop_scanning, call_reset, call_note_observed, call_foreground,
  call_markers_failed, call_markers, call_cloud, call_blend, call_request, call_force,
  call_note_fix, make_call, make_calls,
}
use ai_xr_project.NavLocalizer.Phases.{
  phase_of, phases, KeepsAt, Keeps, then-KeepsAt, then-Keeps, if-KeepsAt, when-KeepsAt,
  change-KeepsAt, if-state, send-KeepsAt,
}
use ai_xr_project.NavLocalizer.Allowed.{
  update_current_pose-Keeps, note_anchor_observed-Keeps, note_relocalization_fix-Keeps,
  request_relocalization-Keeps, force_relocalization_recovered-Keeps,
}
use ai_xr_project.NavLocalizer.Watched.{monitor_relocalization-Keeps}
use ai_xr_project.NavLocalizer.Moved.{
  on_localized-IsQuiet, localize_from_cloud_anchor-Keeps, apply_cloud_blend_transform-Keeps,
  reset_localization-Keeps, start_localizing-Keeps, rescan_from_user-Keeps, scan_anchors-Keeps,
  relatch_or_count-Keeps,
}
use ai_xr_project.NavLocalizer.Banners.{monitor_tracking_quality-Keeps, show_hint-Keeps}

module _ (M : ArMath) where
  -- A first marker leaves the relocalization as it is.
  state-first_known :
      (cfg : LocalizerSettings M) (image : Image M) (o : Option (M.Code × Marker M))
      (s t : LocalizerState M) (later : Option (LocalizerState M))
      → (later ≡ some t → t.state ≡ s.state)
      → first_known M cfg image o s later ≡ some t
      → t.state ≡ s.state
  unfolding first_known anchor_on solve_transform
  state-first_known cfg image none s t later same e = same e
  state-first_known cfg image (some found) s t later same e =
      sym (ap (λ u. u.state) (some-injective (anchor_on M cfg image found s) t e))

  state-try_localize_from :
      (cfg : LocalizerSettings M) (images : List (Image M)) (s t : LocalizerState M)
      → try_localize_from M cfg images s ≡ some t
      → t.state ≡ s.state
  unfolding try_localize_from
  state-try_localize_from cfg [] s t e = absurd (none-ne-some t e)
  state-try_localize_from cfg (image ∷ rest) s t e =
      state-first_known cfg image (known_image M s image) s t (try_localize_from M cfg rest s)
        (state-try_localize_from cfg rest s t) e

  begin_localized-KeepsAt :
      (o : Option (LocalizerState M)) (s : LocalizerState M)
      → ((t : LocalizerState M) → o ≡ some t → t.state ≡ s.state)
      → KeepsAt (begin_localized M o) s
  unfolding begin_localized first_fix reset_reloc_detection
  begin_localized-KeepsAt none s same = refl
  begin_localized-KeepsAt (some t) s same =
      let found : Action M =
        change (λ u. first_fix M t) ▷ note_relocalization_fix M t.anchor_code in
      let there : LocalizerState M = (found s).0 in
      then-KeepsAt found (send_of (λ u. on_localized u.anchor_code)) s
        (then-KeepsAt (change (λ u. first_fix M t)) (note_relocalization_fix M t.anchor_code) s
          (ap (λ x. some (phase_of x)) (sym (same t refl)))
          (note_relocalization_fix-Keeps M t.anchor_code (first_fix M t)))
        (send-KeepsAt (on_localized there.anchor_code) there
          (on_localized-IsQuiet M there.anchor_code))

  look_for_marker-Keeps :
      (cfg : LocalizerSettings M) (frame : ArFrame M) → Keeps (look_for_marker M cfg frame)
  unfolding look_for_marker
  look_for_marker-Keeps cfg frame s =
      when-KeepsAt (s.is_scanning && s.markers_ready && not s.is_localized)
        (begin_localized M (try_localize_from M cfg frame.images s)) s
        (λ _.
          begin_localized-KeepsAt (try_localize_from M cfg frame.images s) s
            (λ t. state-try_localize_from cfg frame.images s t))

  -- Tick.
  tick_localized-Keeps :
      (cfg : LocalizerSettings M) (frame : ArFrame M) (dt : M.Real)
      → Keeps (tick_localized M cfg frame dt)
  unfolding tick_localized
  tick_localized-Keeps cfg frame dt =
      let scan : Action M = scan_anchors M cfg frame dt in
      let latch : Action M =
        λ s. relatch_or_count M cfg dt (tracked_anchor M s.anchor_image frame.images) s in
      let watch : Action M = monitor_relocalization M cfg frame dt in
      let pose : Action M = update_current_pose M cfg frame in
      let hint : Action M = show_hint M cfg dt in
      let latch-Keeps : Keeps latch =
        λ s. relatch_or_count-Keeps M cfg dt (tracked_anchor M s.anchor_image frame.images) s in
      then-Keeps (scan ▷ latch ▷ watch ▷ pose ▷ hint) (monitor_tracking_quality M cfg frame dt)
        (then-Keeps (scan ▷ latch ▷ watch ▷ pose) hint
          (then-Keeps (scan ▷ latch ▷ watch) pose
            (then-Keeps (scan ▷ latch) watch
              (then-Keeps scan latch (scan_anchors-Keeps M cfg frame dt) latch-Keeps)
              (monitor_relocalization-Keeps M cfg frame dt))
            (update_current_pose-Keeps M cfg frame))
          (show_hint-Keeps M cfg dt))
        (monitor_tracking_quality-Keeps M cfg frame dt)

  tick_state-Keeps :
      (cfg : LocalizerSettings M) (frame : ArFrame M) (dt : M.Real)
      → Keeps (tick_state M cfg frame dt)
  unfolding tick_state
  tick_state-Keeps cfg frame dt s =
      if-KeepsAt s.is_localized (tick_localized M cfg frame dt)
        (when (not (is_calm s.state)) (monitor_relocalization M cfg frame dt)) s
        (λ _. tick_localized-Keeps cfg frame dt s)
        (λ _.
          when-KeepsAt (not (is_calm s.state)) (monitor_relocalization M cfg frame dt) s
            (λ _. monitor_relocalization-Keeps M cfg frame dt s))

  tick-Keeps :
      (cfg : LocalizerSettings M) (frame : ArFrame M) (dt : M.Real) → Keeps (tick M cfg frame dt)
  unfolding tick
  tick-Keeps cfg frame dt s =
      when-KeepsAt (is_tickable M s) (look_for_marker M cfg frame ▷ tick_state M cfg frame dt) s
        (λ _.
          then-Keeps (look_for_marker M cfg frame) (tick_state M cfg frame dt)
            (look_for_marker-Keeps cfg frame) (tick_state-Keeps cfg frame dt) s)

  make_call-Keeps :
      (cfg : LocalizerSettings M) (frame : ArFrame M) (call : LocalizerCall M)
      → Keeps (make_call M cfg frame call)
  unfolding make_call stop_scanning handle_app_foreground handle_markers_received
  make_call-Keeps cfg frame (call_tick dt) s = tick-Keeps cfg frame dt s
  make_call-Keeps cfg frame (call_start has_client map) s =
      start_localizing-Keeps M has_client map s
  make_call-Keeps cfg frame (call_rescan has_client) s = rescan_from_user-Keeps M has_client s
  make_call-Keeps cfg frame call_stop_scanning s = refl
  make_call-Keeps cfg frame call_reset s = reset_localization-Keeps M s
  make_call-Keeps cfg frame call_note_observed s = note_anchor_observed-Keeps M s
  make_call-Keeps cfg frame call_foreground s = change-KeepsAt (handle_app_foreground M) s (
      if-state (not s.is_localized && is_calm s.state) s (record s { pending_resume = true }) s refl
        refl)
  make_call-Keeps cfg frame call_markers_failed s = refl
  make_call-Keeps cfg frame (call_markers markers) s = refl
  make_call-Keeps cfg frame (call_cloud source world marker) s =
      localize_from_cloud_anchor-Keeps M cfg frame source world marker s
  make_call-Keeps cfg frame (call_blend world) s = apply_cloud_blend_transform-Keeps M world s
  make_call-Keeps cfg frame (call_request why) s = request_relocalization-Keeps M frame why s
  make_call-Keeps cfg frame (call_force source) s =
      force_relocalization_recovered-Keeps M cfg frame source s
  make_call-Keeps cfg frame (call_note_fix source) s = note_relocalization_fix-Keeps M source s

  -- Whatever calls are made, with whatever the AR session shows at each, from whatever state: between
  -- OnRelocalizationStarted and the pose directly before the next OnRelocalized no pose and no change of
  -- the anchor is sent, and no hint; a second OnRelocalizationStarted comes only after OnRelocalized or a
  -- reset, OnRelocalized only after OnRelocalizationStarted, and in the end a relocalization is open for
  -- the observer when the state says so. What holds for the observer at the start is what the state says.
  pub phases-make_calls :
      (cfg : LocalizerSettings M) (calls : List (ArFrame M × LocalizerCall M))
      (s : LocalizerState M)
      → phases (phase_of s.state) (make_calls M cfg calls s).1
        ≡ some (phase_of (make_calls M cfg calls s).0.state)
  unfolding make_calls
  phases-make_calls cfg [] s = refl
  phases-make_calls cfg ((frame, call) ∷ rest) s =
      then-KeepsAt (make_call M cfg frame call) (make_calls M cfg rest) s
        (make_call-Keeps cfg frame call s)
        (phases-make_calls cfg rest (make_call M cfg frame call s).0)
