-- ===== src/NavLocalizer/Tick.antt =====
-- Tick of TimeMachineAR/Source/TimeMachineAR/NavLocalizer.cpp, and a run of the public calls in any order.
use ai_xr_project.Base.{
  List, [], ◌∷◌, Option, none, some, Bool, true, false, not, ◌&&◌, ◌||◌, if◌then◌else◌,
}
use ai_xr_project.NavLocalizer.{
  ArMath, LocState, localized, relocalizing, recovered, QualityReason, reason_none,
  excessive_motion, insufficient_light, insufficient_features, reason_other, RelocReason, Marker,
  ArFrame, LocalizerSettings, LocalizerState, on_localized, on_degraded, on_soft_hint,
  on_tracking_recovered, Action, ◌▷◌, stay, send_of, change, when,
}
use ai_xr_project.NavLocalizer.Relocation.{
  is_full, update_current_pose, reset_reloc_detection, request_relocalization,
  force_relocalization_recovered, note_relocalization_fix, note_anchor_observed,
}
use ai_xr_project.NavLocalizer.Monitor.{monitor_relocalization}
use ai_xr_project.NavLocalizer.Anchor.{
  try_localize_from, localize_from_cloud_anchor, apply_cloud_blend_transform, reset_localization,
  stop_scanning, start_localizing, rescan_from_user, handle_markers_received,
}
use ai_xr_project.NavLocalizer.Transition.{scan_anchors, tracked_anchor, relatch_or_count}

unfoldable pub is_calm : LocState → Bool
is_calm localized = true
is_calm relocalizing = false
is_calm recovered = false

unfoldable pub is_none_reason : QualityReason → Bool
is_none_reason reason_none = true
is_none_reason excessive_motion = false
is_none_reason insufficient_light = false
is_none_reason insufficient_features = false
is_none_reason reason_other = false

-- The calls.
pub data LocalizerCall (M : ArMath) : Type 0 where
  call_tick : M.Real → LocalizerCall M
  call_start : Bool → M.Code → LocalizerCall M
  call_rescan : Bool → LocalizerCall M
  call_stop_scanning call_reset call_note_observed call_foreground call_markers_failed :
      LocalizerCall M
  call_markers : List (M.Code × Marker M) → LocalizerCall M
  call_cloud : M.Code → M.Xform → Marker M → LocalizerCall M
  call_blend : M.Xform → LocalizerCall M
  call_request : RelocReason M → LocalizerCall M
  call_force call_note_fix : M.Code → LocalizerCall M

module _ (M : ArMath) where
  -- MonitorTrackingQuality.
  unfoldable pub count_poor : LocalizerSettings M → M.Real → Action M
  count_poor cfg dt s =
      let poor = M.addf s.poor_seconds dt in
      let counted = record s { poor_seconds = poor; good_seconds = M.literal 0 } in
      if not s.is_degraded && M.at_most cfg.poor_quality_hold poor
      then (record counted { is_degraded = true }, on_degraded ∷ [])
      else stay counted

  unfoldable pub end_degraded : Action M
  end_degraded s =
      if s.is_degraded
      then (record s { is_degraded = false }, on_tracking_recovered ∷ [])
      else stay s

  unfoldable pub count_fine : LocalizerSettings M → M.Real → Action M
  count_fine cfg dt s =
      let good = M.addf s.good_seconds dt in
      let counted = record s { good_seconds = good } in
      if M.at_most cfg.quality_recover good
      then end_degraded (record counted { poor_seconds = M.literal 0 })
      else stay counted

  unfoldable pub monitor_tracking_quality : LocalizerSettings M → ArFrame M → M.Real → Action M
  monitor_tracking_quality cfg frame dt =
      if not (is_full frame.quality) || not (is_none_reason frame.quality_reason)
      then count_poor cfg dt
      else count_fine cfg dt

  -- The banner when no anchor was near for long.
  unfoldable pub count_hint : LocalizerSettings M → M.Real → Action M
  count_hint cfg dt s =
      let seconds = M.addf s.soft_hint_seconds dt in
      let counted = record s { soft_hint_seconds = seconds } in
      if not s.soft_hint_shown && M.at_most cfg.reloc_soft_hint seconds
      then (record counted { soft_hint_shown = true }, on_soft_hint ∷ [])
      else stay counted

  unfoldable pub show_hint : LocalizerSettings M → M.Real → Action M
  show_hint cfg dt s =
      when (is_calm s.state && M.less (M.literal 0) cfg.reloc_soft_hint) (count_hint cfg dt) s

  -- The first localization.
  unfoldable pub first_fix : LocalizerState M → LocalizerState M
  first_fix s = reset_reloc_detection M (record s {
    is_scanning = false;
    is_localized = true;
    lost_reported = false;
    since_seen = M.literal 0;
  })

  unfoldable pub begin_localized : Option (LocalizerState M) → Action M
  begin_localized none s = stay s
  begin_localized (some t) s =
      (change (λ u. first_fix t)
          ▷ note_relocalization_fix M t.anchor_code
          ▷ send_of (λ u. on_localized u.anchor_code))
        s

  unfoldable pub look_for_marker : LocalizerSettings M → ArFrame M → Action M
  look_for_marker cfg frame s =
      when (s.is_scanning && s.markers_ready && not s.is_localized)
        (begin_localized (try_localize_from M cfg frame.images s)) s

  -- The part of Tick after the first localization.
  unfoldable pub tick_localized : LocalizerSettings M → ArFrame M → M.Real → Action M
  tick_localized cfg frame dt =
      scan_anchors M cfg frame dt
      ▷ (λ s. relatch_or_count M cfg dt (tracked_anchor M s.anchor_image frame.images) s)
      ▷ monitor_relocalization M cfg frame dt
      ▷ update_current_pose M cfg frame
      ▷ show_hint cfg dt
      ▷ monitor_tracking_quality cfg frame dt

  unfoldable pub tick_state : LocalizerSettings M → ArFrame M → M.Real → Action M
  tick_state cfg frame dt s =
      if s.is_localized
      then tick_localized cfg frame dt s
      else when (not (is_calm s.state)) (monitor_relocalization M cfg frame dt) s

  -- Tick, which the engine calls when IsTickable holds.
  unfoldable pub is_tickable : LocalizerState M → Bool
  is_tickable s = s.is_scanning || s.is_localized || not (is_calm s.state)

  unfoldable pub tick : LocalizerSettings M → ArFrame M → M.Real → Action M
  tick cfg frame dt s = when (is_tickable s) (look_for_marker cfg frame ▷ tick_state cfg frame dt) s

  -- HandleAppForeground.
  unfoldable pub handle_app_foreground : LocalizerState M → LocalizerState M
  handle_app_foreground s =
      if not s.is_localized && is_calm s.state then s else record s { pending_resume = true }

  unfoldable pub make_call : LocalizerSettings M → ArFrame M → LocalizerCall M → Action M
  make_call cfg frame (call_tick dt) = tick cfg frame dt
  make_call cfg frame (call_start has_client map) = start_localizing M has_client map
  make_call cfg frame (call_rescan has_client) = rescan_from_user M has_client
  make_call cfg frame call_stop_scanning = change (stop_scanning M)
  make_call cfg frame call_reset = reset_localization M
  make_call cfg frame call_note_observed = note_anchor_observed M
  make_call cfg frame call_foreground = change handle_app_foreground
  make_call cfg frame call_markers_failed = change (stop_scanning M)
  make_call cfg frame (call_markers markers) = change (handle_markers_received M markers)
  make_call cfg frame (call_cloud source world marker) =
      localize_from_cloud_anchor M cfg frame source world marker
  make_call cfg frame (call_blend world) = change (apply_cloud_blend_transform M world)
  make_call cfg frame (call_request why) = request_relocalization M frame why
  make_call cfg frame (call_force source) = force_relocalization_recovered M cfg frame source
  make_call cfg frame (call_note_fix source) = note_relocalization_fix M source

  unfoldable pub make_calls : LocalizerSettings M → List (ArFrame M × LocalizerCall M) → Action M
  make_calls cfg [] = stay
  make_calls cfg ((frame, call) ∷ rest) = make_call cfg frame call ▷ make_calls cfg rest
