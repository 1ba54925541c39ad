-- ===== src/NavLocalizer/Relocation.antt =====
-- The relocalization of TimeMachineAR/Source/TimeMachineAR/NavLocalizer.cpp: how it is entered and left. The
-- pose is updated here, since the end of a relocalization does it.
use ai_xr_project.Base.{[], ◌∷◌, Option, none, some, Bool, true, false, not, ◌||◌, if◌then◌else◌}
use ai_xr_project.NavLocalizer.{
  ArMath, LocState, localized, relocalizing, recovered, TrackQuality, not_tracking,
  orientation_only, orientation_and_position, RelocReason, jump, MapPose, Accum, Camera, ArFrame,
  LocalizerSettings, LocalizerState, on_pose_updated, on_relocalization_started, on_relocalized,
  on_tracking_recovered, Action, ◌▷◌, stay, send, send_of, change, when,
}
use ai_xr_project.NavLocalizer.Judge.{is_no_reason}

unfoldable pub is_relocating : LocState → Bool
is_relocating relocalizing = true
is_relocating localized = false
is_relocating recovered = false

unfoldable pub is_recovered : LocState → Bool
is_recovered recovered = true
is_recovered localized = false
is_recovered relocalizing = false

unfoldable pub is_full : TrackQuality → Bool
is_full orientation_and_position = true
is_full not_tracking = false
is_full orientation_only = false

module _ (M : ArMath) where
  -- WorldToMap.
  unfoldable pub world_to_map : LocalizerState M → M.Vec → M.Vec
  world_to_map s v =
      let p = M.inverse_position s.map_to_world v in
      if s.is_localized then M.make_vec (M.x_of p) (M.negate (M.y_of p)) (M.z_of p) else v

  -- UpdateCurrentPose.
  unfoldable pub pose_of : LocalizerSettings M → LocalizerState M → Camera M → MapPose M
  pose_of cfg s camera =
      let p = world_to_map s camera.location in
      record {
        x_cm = M.to_float (M.x_of p);
        y_cm = M.to_float (M.y_of p);
        z_cm = if cfg.snap_height then s.anchor.z_cm else M.to_float (M.z_of p);
        heading = M.to_float (M.normalize_axis (M.sub (M.yaw_of s.map_to_world) camera.yaw));
        has_heading = true;
      }

  unfoldable pub show_pose : LocalizerSettings M → Option (Camera M) → Action M
  show_pose cfg none s = stay s
  show_pose cfg (some camera) s =
      let pose = pose_of cfg s camera in
      (record s { current_pose = pose }, on_pose_updated pose ∷ [])

  unfoldable pub update_current_pose : LocalizerSettings M → ArFrame M → Action M
  update_current_pose cfg frame s =
      if is_relocating s.state then stay s else show_pose cfg frame.camera s

  -- A default FNavRelocAccum, and ResetRelocDetection.
  abbrev pub no_accum : Accum M
  no_accum = record {
    not_tracking_seconds = M.literal 0;
    bad_seconds = M.literal 0;
    good_seconds = M.literal 0;
    occluded_seconds = M.literal 0;
    shake_seconds = M.literal 0;
    dark_seconds = M.literal 0;
    featureless_seconds = M.literal 0;
    cooldown_seconds = M.literal 0;
    has_prev = false;
    prev_camera = M.make_vec (M.literal 0) (M.literal 0) (M.literal 0);
    prev_yaw = M.literal 0;
    prev_pitch = M.literal 0;
    clock = M.literal 0;
    window = [];
  }

  unfoldable pub reset_reloc_detection : LocalizerState M → LocalizerState M
  reset_reloc_detection s = record s { accum = no_accum; pending_jump = false; solved = false }

  -- RequestRelocalization: the banners go down, and the relocalization begins.
  unfoldable pub take_down : LocalizerState M → LocalizerState M
  take_down s = record s {
    is_degraded = false;
    soft_hint_shown = false;
    poor_seconds = M.literal 0;
    good_seconds = M.literal 0;
  }

  unfoldable pub take_down_banners : Action M
  take_down_banners s =
      if s.is_degraded || s.soft_hint_shown
      then (take_down s, on_tracking_recovered ∷ [])
      else stay s

  unfoldable pub enter : ArFrame M → RelocReason M → LocalizerState M → LocalizerState M
  enter frame why s = record s {
    state = relocalizing;
    reason = if is_no_reason M why then jump else why;
    enter_time = frame.now;
    pending_source = M.no_code;
    pending_jump = false;
    pending_resume = false;
  }

  unfoldable pub announce : Action M
  announce s =
      (record s { soft_hint_seconds = M.literal 0 }, on_relocalization_started s.reason ∷ [])

  unfoldable pub request_relocalization : ArFrame M → RelocReason M → Action M
  request_relocalization frame why s =
      if is_relocating s.state
      then stay s
      else (change (enter frame why) ▷ take_down_banners ▷ announce) s

  -- EnterRecovered and ForceRelocalizationRecovered. SourceCode is a reference, which is read after the
  -- state has changed.
  unfoldable pub mark_recovered : ArFrame M → LocalizerState M → LocalizerState M
  mark_recovered frame s = record s {
    state = recovered;
    recovered_time = frame.now;
    pending_source = M.no_code;
  }

  unfoldable pub enter_recovered :
      LocalizerSettings M → ArFrame M → (LocalizerState M → M.Code) → Action M
  enter_recovered cfg frame source s =
      (change (mark_recovered frame)
          ▷ when s.is_localized (update_current_pose cfg frame)
          ▷ send_of (λ t. on_relocalized (source t)))
        s

  unfoldable pub force_relocalization_recovered :
      LocalizerSettings M → ArFrame M → M.Code → Action M
  force_relocalization_recovered cfg frame source s =
      if is_relocating s.state then enter_recovered cfg frame (λ t. source) s else stay s

  -- NoteAnchorObserved and NoteRelocalizationFix.
  unfoldable pub hide_hint : Action M
  hide_hint s =
      when s.soft_hint_shown
        (change (λ t. record t { soft_hint_shown = false })
          ▷ when (not s.is_degraded) (send on_tracking_recovered))
        s

  unfoldable pub note_anchor_observed : Action M
  note_anchor_observed = change (λ s. record s { soft_hint_seconds = M.literal 0 }) ▷ hide_hint

  unfoldable pub keep_source : M.Code → LocalizerState M → LocalizerState M
  keep_source source s = if is_relocating s.state then record s { pending_source = source } else s

  unfoldable pub note_relocalization_fix : M.Code → Action M
  note_relocalization_fix source = note_anchor_observed ▷ change (keep_source source)
