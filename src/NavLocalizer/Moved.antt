-- ===== src/NavLocalizer/Moved.antt =====
-- The changes of the anchor in TimeMachineAR/Source/TimeMachineAR/NavLocalizer.cpp, as an observer sees them.
use ai_xr_project.Base.{
  [], ◌∷◌, map, Option, none, some, Bool, true, false, not, ◌&&◌, ◌||◌, ◌≡◌, refl, ap, arith,
}
use ai_xr_project.NavLocalizer.{
  ArMath, LocState, localized, relocalizing, recovered, Marker, Image, ArFrame, LocalizerSettings,
  LocalizerState, on_localized, on_anchor_changed, on_lost, markers_requested, was_reset, Action,
  ◌▷◌, stay, send, change, when,
}
use ai_xr_project.NavLocalizer.Relocation.{
  is_relocating, is_recovered, update_current_pose, reset_reloc_detection, note_anchor_observed,
  note_relocalization_fix,
}
use ai_xr_project.NavLocalizer.Anchor.{
  solve_transform, anchor_on, anchor_on_cloud, report_anchor, localize_from_cloud_anchor,
  apply_cloud_blend_transform, clear, reset_localization, begin_scanning, start_localizing,
  rescan_from_user, find_marker,
}
use ai_xr_project.NavLocalizer.Transition.{
  tracked_known, image_of, is_there, tracked_anchor, decide_anchor_transition, move_to,
  move_unless_same, try_transition_anchor, scan_anchors, is_reacquired, is_reloc_relatch,
  solve_again, count_unseen, relatch_or_count,
}
use ai_xr_project.NavLocalizer.Phases.{
  calm, phase_of, after_event, Keeps, then-Keeps, if-KeepsAt, when-KeepsAt, change-KeepsAt,
  if-state, IsQuiet, send-KeepsAt,
}
use ai_xr_project.NavLocalizer.Allowed.{
  calm_unless_relocalizing, update_current_pose-Keeps, note_anchor_observed-Keeps,
  note_relocalization_fix-Keeps,
}

module _ (M : ArMath) where
  pub on_localized-IsQuiet : (code : M.Code) → IsQuiet {M = M} (on_localized code)
  on_localized-IsQuiet code localized = refl
  on_localized-IsQuiet code relocalizing = refl
  on_localized-IsQuiet code recovered = refl

  on_lost-IsQuiet : IsQuiet {M = M} on_lost
  on_lost-IsQuiet localized = refl
  on_lost-IsQuiet relocalizing = refl
  on_lost-IsQuiet recovered = refl

  markers_requested-IsQuiet : (map : M.Code) → IsQuiet {M = M} (markers_requested map)
  markers_requested-IsQuiet map localized = refl
  markers_requested-IsQuiet map relocalizing = refl
  markers_requested-IsQuiet map recovered = refl

  -- The change of the anchor is told outside a relocalization.
  tell_change-Keeps :
      (code : M.Code)
      → Keeps {M = M} (λ s. when (not (is_relocating s.state)) (send (on_anchor_changed code)) s)
  tell_change-Keeps code s =
      when-KeepsAt (not (is_relocating s.state)) (send (on_anchor_changed code)) s
        (λ e. rw (calm_unless_relocalizing M s.state (ground arith)))

  anchor_on_cloud-Keeps :
      (cfg : LocalizerSettings M) (source : M.Code) (world : M.Xform) (marker : Marker M)
      → Keeps (change (anchor_on_cloud M cfg source world marker))
  unfolding anchor_on_cloud solve_transform reset_reloc_detection
  anchor_on_cloud-Keeps cfg source world marker s = ap (λ x. some (phase_of x)) (ground arith)

  report_anchor-Keeps : (source : M.Code) (was : Bool) → Keeps (report_anchor M source was)
  unfolding report_anchor
  report_anchor-Keeps source was s =
      if-KeepsAt was (λ t. when (not (is_relocating t.state)) (send (on_anchor_changed source)) t)
        (send (on_localized source)) s (λ _. tell_change-Keeps source s)
        (λ _. send-KeepsAt (on_localized source) s (on_localized-IsQuiet source))

  pub localize_from_cloud_anchor-Keeps :
      (cfg : LocalizerSettings M) (frame : ArFrame M) (source : M.Code) (world : M.Xform)
      (marker : Marker M)
      → Keeps (localize_from_cloud_anchor M cfg frame source world marker)
  unfolding localize_from_cloud_anchor
  localize_from_cloud_anchor-Keeps cfg frame source world marker s =
      then-Keeps
        (change (anchor_on_cloud M cfg source world marker)
          ▷ note_relocalization_fix M source
          ▷ update_current_pose M cfg frame)
        (report_anchor M source s.is_localized)
        (then-Keeps
          (change (anchor_on_cloud M cfg source world marker) ▷ note_relocalization_fix M source)
          (update_current_pose M cfg frame)
          (then-Keeps (change (anchor_on_cloud M cfg source world marker))
            (note_relocalization_fix M source) (anchor_on_cloud-Keeps cfg source world marker)
            (note_relocalization_fix-Keeps M source))
          (update_current_pose-Keeps M cfg frame))
        (report_anchor-Keeps source s.is_localized) s

  pub apply_cloud_blend_transform-Keeps :
      (world : M.Xform) → Keeps (change (apply_cloud_blend_transform M world))
  unfolding apply_cloud_blend_transform
  apply_cloud_blend_transform-Keeps world s =
      change-KeepsAt (apply_cloud_blend_transform M world) s (
        if-state
          (not s.is_localized || not s.from_cloud || is_relocating s.state || is_recovered s.state)
          s (record s { map_to_world = world }) s refl refl)

  was_reset-calm : (x : LocState) → after_event {M = M} (phase_of x) was_reset ≡ some calm
  was_reset-calm localized = refl
  was_reset-calm relocalizing = refl
  was_reset-calm recovered = refl

  pub reset_localization-Keeps : Keeps (reset_localization M)
  unfolding reset_localization clear reset_reloc_detection
  reset_localization-Keeps s = rw (was_reset-calm s.state)

  begin_scanning-Keeps : (map : M.Code) → Keeps (begin_scanning M map)
  unfolding begin_scanning
  begin_scanning-Keeps map =
      then-Keeps (change (λ s. record s { is_scanning = true; last_map = map }))
        (λ s. when (not s.markers_ready) (send (markers_requested map)) s) (λ s. refl)
        (λ s.
          when-KeepsAt (not s.markers_ready) (send (markers_requested map)) s
            (λ _. send-KeepsAt (markers_requested map) s (markers_requested-IsQuiet map)))

  pub start_localizing-Keeps :
      (has_client : Bool) (map : M.Code) → Keeps (start_localizing M has_client map)
  unfolding start_localizing
  start_localizing-Keeps has_client map =
      then-Keeps (reset_localization M) (when has_client (begin_scanning M map))
        reset_localization-Keeps
        (λ s. when-KeepsAt has_client (begin_scanning M map) s (λ _. begin_scanning-Keeps map s))

  pub rescan_from_user-Keeps : (has_client : Bool) → Keeps (rescan_from_user M has_client)
  unfolding rescan_from_user
  rescan_from_user-Keeps has_client s = start_localizing-Keeps has_client s.last_map s

  -- The next marker.
  move_to-Keeps :
      (cfg : LocalizerSettings M) (code : M.Code) (image : Option (Image M))
      (marker : Option (Marker M))
      → Keeps (move_to M cfg code image marker)
  unfolding move_to anchor_on solve_transform
  move_to-Keeps cfg code none marker s = refl
  move_to-Keeps cfg code (some image) none s = refl
  move_to-Keeps cfg code (some image) (some marker) s =
      let step : Action M = change (λ t. record (anchor_on M cfg image (code, marker) t) {
        since_seen = M.literal 0;
        lost_reported = false;
      }) in
      then-Keeps (step ▷ note_relocalization_fix M code)
        (λ t. when (not (is_relocating t.state)) (send (on_anchor_changed code)) t)
        (then-Keeps step (note_relocalization_fix M code) (λ t. refl)
          (note_relocalization_fix-Keeps M code))
        (tell_change-Keeps code) s

  try_transition_anchor-Keeps :
      (cfg : LocalizerSettings M) (frame : ArFrame M) → Keeps (try_transition_anchor M cfg frame)
  unfolding try_transition_anchor move_unless_same
  try_transition_anchor-Keeps cfg frame s =
      let seen = tracked_known M s frame.images [] in
      let codes = map (λ e. e.0) seen in
      let tracking = is_there M (tracked_anchor M s.anchor_image frame.images) in
      let code = decide_anchor_transition M s.anchor_code tracking codes s.last_scan in
      let move : Action M =
        move_to M cfg code (image_of M code seen) (find_marker M code s.known_markers) in
      let scanned : LocalizerState M = record s { last_scan = codes } in
      if-KeepsAt (M.is_empty code || M.same_code code s.anchor_code) stay move scanned (λ _. refl)
        (λ _.
          move_to-Keeps cfg code (image_of M code seen) (find_marker M code s.known_markers)
            scanned)

  pub scan_anchors-Keeps :
      (cfg : LocalizerSettings M) (frame : ArFrame M) (dt : M.Real)
      → Keeps (scan_anchors M cfg frame dt)
  unfolding scan_anchors
  scan_anchors-Keeps cfg frame dt s =
      if-KeepsAt (M.at_most cfg.anchor_scan_interval (M.addf s.since_scan dt))
        (λ t. try_transition_anchor M cfg frame (record t { since_scan = M.literal 0 }))
        (change (λ t. record t { since_scan = M.addf s.since_scan dt })) s
        (λ _. try_transition_anchor-Keeps cfg frame (record s { since_scan = M.literal 0 }))
        (λ _. refl)

  -- The transform solved again, and the time without the anchor.
  solve_again-Keeps :
      (cfg : LocalizerSettings M) (image : Image M) → Keeps (solve_again M cfg image)
  unfolding solve_again solve_transform
  solve_again-Keeps cfg image s =
      let again = is_reacquired M cfg s || is_reloc_relatch M cfg s in
      let solve : Action M = change (solve_transform M cfg image.world) ▷ λ t.
      when again (note_relocalization_fix M t.anchor_code) t in
      let solve-Keeps : Keeps solve =
        then-Keeps (change (solve_transform M cfg image.world))
          (λ t. when again (note_relocalization_fix M t.anchor_code) t) (λ t. refl)
          (λ t.
            when-KeepsAt again (note_relocalization_fix M t.anchor_code) t
              (λ _. note_relocalization_fix-Keeps M t.anchor_code t)) in
      then-Keeps
        (when (cfg.continuous_relatch || again) solve
          ▷ change (λ t. record t { since_seen = M.literal 0; lost_reported = false }))
        (note_anchor_observed M)
        (then-Keeps (when (cfg.continuous_relatch || again) solve)
          (change (λ t. record t { since_seen = M.literal 0; lost_reported = false }))
          (λ t. when-KeepsAt (cfg.continuous_relatch || again) solve t (λ _. solve-Keeps t))
          (λ t. refl))
        (note_anchor_observed-Keeps M) s

  count_unseen-Keeps : (cfg : LocalizerSettings M) (dt : M.Real) → Keeps (count_unseen M cfg dt)
  unfolding count_unseen
  count_unseen-Keeps cfg dt s =
      let counted : LocalizerState M = record s { since_seen = M.addf s.since_seen dt } in
      if-KeepsAt
        (M.less (M.literal 0) cfg.lost_after
          && not s.lost_reported
          && M.less cfg.lost_after (M.addf s.since_seen dt))
        (λ t. (record t { lost_reported = true }, on_lost ∷ [])) stay counted
        (λ _. send-KeepsAt on_lost counted on_lost-IsQuiet) (λ _. refl)

  pub relatch_or_count-Keeps :
      (cfg : LocalizerSettings M) (dt : M.Real) (image : Option (Image M))
      → Keeps (relatch_or_count M cfg dt image)
  unfolding relatch_or_count
  relatch_or_count-Keeps cfg dt none = count_unseen-Keeps cfg dt
  relatch_or_count-Keeps cfg dt (some image) = solve_again-Keeps cfg image
