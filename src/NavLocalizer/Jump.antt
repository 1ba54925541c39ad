-- ===== src/NavLocalizer/Jump.antt =====
-- The second part of JudgeRelocEntry of TimeMachineAR/Source/TimeMachineAR/NavLocalizer.cpp: jumps of the
-- camera.
use ai_xr_project.Base.{
  List, [], ◌∷◌, ◌++◌, Option, none, some, Bool, true, false, not, ◌&&◌, ◌||◌, if◌then◌else◌,
}
use ai_xr_project.NavLocalizer.{ArMath, RelocReason, jump, Accum, Camera}
use ai_xr_project.NavLocalizer.Judge.{
  Sample, Params, Verdict, is_no_reason, judge_quality, step_seconds, count_clock, count_quality,
}

module _ (M : ArMath) where
  -- The window of positions, and the speed over it.
  unfoldable pub trim_window : M.Real → List (M.Real × M.Vec) → List (M.Real × M.Vec)
  trim_window clock [] = []
  trim_window clock ((key, v) ∷ rest) =
      let later = trim_window clock rest in
      if M.less (M.add M.half M.small) (M.sub clock key) then later else (key, v) ∷ rest

  unfoldable pub window_speed : M.Real → M.Vec → List (M.Real × M.Vec) → M.Real
  window_speed clock here [] = (M.literal 0)
  window_speed clock here ((key, v) ∷ rest) =
      let span = M.sub clock key in
      if M.at_most (M.mul M.half M.eight_tenths) span
      then M.to_float (M.div (M.div (M.distance here v) (M.literal 100)) span)
      else (M.literal 0)

  unfoldable pub yaw_turn : Accum M → Camera M → M.Real
  yaw_turn a camera =
      if M.at_most (M.absolute camera.pitch) (M.literal 70)
        && M.at_most (M.absolute a.prev_pitch) (M.literal 70)
      then M.absolute (M.normalize_axis (M.subf camera.yaw a.prev_yaw))
      else (M.literal 0)

  -- The measured change.
  unfoldable pub measure : Accum M → Camera M → RelocReason M → Verdict M
  measure a camera found = record {
    reason = found;
    jump_cm = M.to_float (M.distance camera.location a.prev_camera);
    jump_deg = yaw_turn a camera;
    speed = window_speed a.clock camera.location a.window;
    near_miss = false;
    cooldown_blocked = false;
  }

  unfoldable pub is_jump : Params M → Verdict M → Bool
  is_jump params v =
      M.at_most params.jump_cm v.jump_cm
      || (M.less (M.literal 0) params.jump_deg && M.at_most params.jump_deg v.jump_deg)
      || (M.less (M.literal 0) params.speed && M.at_most params.speed v.speed)

  unfoldable pub is_near_miss : Params M → Verdict M → Bool
  is_near_miss params v =
      M.at_most (M.literal 30) v.jump_cm
      || (M.less (M.literal 0) params.jump_deg
          && M.at_most (M.mulf params.jump_deg M.half) v.jump_deg)
      || (M.less (M.literal 0) params.speed && M.at_most (M.mulf params.speed M.half) v.speed)

  unfoldable pub judge_jump : Params M → Bool → Verdict M → Verdict M
  judge_jump params cooling v =
      if is_jump params v
      then if cooling
        then record v { cooldown_blocked = true; near_miss = true }
        else if is_no_reason M v.reason
        then record v { reason = jump }
        else v
      else record v { near_miss = is_near_miss params v }

  -- Whether the window is emptied with the verdict.
  unfoldable pub window_after :
      Params M → Bool → Verdict M → List (M.Real × M.Vec) → List (M.Real × M.Vec)
  window_after params cooling v w =
      if is_jump params v && not cooling && is_no_reason M v.reason then [] else w

  unfoldable pub remember : Camera M → Accum M → Accum M
  remember camera a = record a {
    window = a.window ++ ((a.clock, camera.location) ∷ []);
    prev_camera = camera.location;
    prev_yaw = camera.yaw;
    prev_pitch = camera.pitch;
    has_prev = true;
  }

  unfoldable pub plain_verdict : RelocReason M → Verdict M
  plain_verdict found = record {
    reason = found;
    jump_cm = (M.literal 0);
    jump_deg = (M.literal 0);
    speed = (M.literal 0);
    near_miss = false;
    cooldown_blocked = false;
  }

  unfoldable pub compare_camera :
      Params M → Bool → Camera M → Accum M → RelocReason M → Accum M × Verdict M
  compare_camera params cooling camera a found =
      let trimmed = record a { window = trim_window a.clock a.window } in
      let measured = measure trimmed camera found in
      (
        remember camera
            (record trimmed { window = window_after params cooling measured trimmed.window }),
        judge_jump params cooling measured,
      )

  -- Part B: the camera.
  unfoldable pub judge_camera :
      Params M → Bool → Bool → Option (Camera M) → Accum M → RelocReason M → Accum M × Verdict M
  judge_camera params cooling solved none a found =
      (record a { has_prev = false; window = [] }, plain_verdict found)
  judge_camera params cooling solved (some camera) a found =
      if solved
      then (remember camera (record a { window = [] }), plain_verdict found)
      else if a.has_prev && M.less (M.literal 0) params.jump_cm
      then compare_camera params cooling camera a found
      else (remember camera a, plain_verdict found)

  -- JudgeRelocEntry.
  unfoldable pub judge_reloc_entry : Sample M → Params M → Accum M → Accum M × Verdict M
  judge_reloc_entry sample params a =
      let dt = step_seconds M sample in
      let cooling = M.less (M.literal 0) a.cooldown_seconds in
      let counted = count_quality M sample params dt (count_clock M dt a) in
      let (judged, found) = judge_quality M params cooling counted in
      judge_camera params cooling sample.solved_this_tick sample.camera judged found
