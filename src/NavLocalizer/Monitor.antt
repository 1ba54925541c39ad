-- ===== src/NavLocalizer/Monitor.antt =====
-- MonitorRelocalization of TimeMachineAR/Source/TimeMachineAR/NavLocalizer.cpp.
use ai_xr_project.Base.{[], Bool, true, false, not, ◌&&◌, if◌then◌else◌}
use ai_xr_project.NavLocalizer.{
  ArMath, localized, RelocReason, no_reason, occluded, shake, dark, featureless, jump, resume,
  given, ArFrame, LocalizerSettings, LocalizerState, Action, stay, change, when,
}
use ai_xr_project.NavLocalizer.Judge.{is_reloc_bad_reason, Sample, Params, judge_reloc_exit}
use ai_xr_project.NavLocalizer.Jump.{judge_reloc_entry}
use ai_xr_project.NavLocalizer.Relocation.{
  is_relocating, is_recovered, is_full, reset_reloc_detection, request_relocalization,
  enter_recovered,
}

module _ (M : ArMath) where
  -- MakeRelocParams.
  unfoldable pub make_reloc_params : LocalizerSettings M → Params M
  make_reloc_params cfg = record {
    not_tracking_limit = cfg.reloc_not_tracking;
    reason_hold = cfg.reloc_reason_hold;
    jump_cm = cfg.reloc_jump_cm;
    jump_deg = cfg.reloc_jump_deg;
    speed = cfg.reloc_speed;
    good_reset = cfg.quality_recover;
  }

  -- MonitorRelocalization: while relocalizing,
  unfoldable pub is_good_frame : ArFrame M → Bool
  is_good_frame frame = is_full frame.quality && not (is_reloc_bad_reason frame.quality_reason)

  unfoldable pub may_recover : LocalizerSettings M → ArFrame M → LocalizerState M → Bool
  may_recover cfg frame s =
      judge_reloc_exit M (M.to_float (M.sub frame.now s.enter_time)) s.reloc_good
        (not (M.is_empty s.pending_source)) cfg.reloc_min_stay cfg.quality_recover

  unfoldable pub monitor_relocalizing : LocalizerSettings M → ArFrame M → Action M
  monitor_relocalizing cfg frame s =
      let kept = record s { pending_resume = false } in
      if is_good_frame frame
      then when (may_recover cfg frame kept) (enter_recovered M cfg frame (λ t. t.pending_source))
          kept
      else (record kept { pending_source = M.no_code }, [])

  -- while the success is shown,
  unfoldable pub end_recovered : LocalizerSettings M → LocalizerState M → LocalizerState M
  end_recovered cfg s =
      let r = reset_reloc_detection M s in
      record r {
        state = localized;
        accum = record r.accum { cooldown_seconds = cfg.reloc_cooldown };
      }

  unfoldable pub monitor_recovered : LocalizerSettings M → ArFrame M → Action M
  monitor_recovered cfg frame s =
      when (M.at_most M.one_and_half (M.sub frame.now s.recovered_time))
        (change (end_recovered cfg)) s

  -- and while localized: the verdict of the frame, and the jump found at the last one.
  unfoldable pub after_verdict : ArFrame M → RelocReason M → Action M
  after_verdict frame no_reason = stay
  after_verdict frame jump = change (λ s. record s { pending_jump = true })
  after_verdict frame occluded = request_relocalization M frame occluded
  after_verdict frame shake = request_relocalization M frame shake
  after_verdict frame dark = request_relocalization M frame dark
  after_verdict frame featureless = request_relocalization M frame featureless
  after_verdict frame resume = request_relocalization M frame resume
  after_verdict frame (given c) =
      when (not (M.is_empty c)) (request_relocalization M frame (given c))

  unfoldable pub sample_of : ArFrame M → M.Real → Bool → Sample M
  sample_of frame dt solved = record {
    quality = frame.quality;
    quality_reason = frame.quality_reason;
    camera = frame.camera;
    delta_time = dt;
    solved_this_tick = solved;
  }

  unfoldable pub judge_frame : LocalizerSettings M → ArFrame M → M.Real → Bool → Action M
  judge_frame cfg frame dt solved s =
      let (a, verdict) =
        judge_reloc_entry M (sample_of frame dt solved) (make_reloc_params cfg) s.accum in
      after_verdict frame verdict.reason (record s { accum = a })

  unfoldable pub check_jump : LocalizerSettings M → ArFrame M → M.Real → Bool → Action M
  check_jump cfg frame dt solved s =
      let calm = record s { pending_jump = false } in
      if s.pending_jump && not solved
      then request_relocalization M frame jump calm
      else judge_frame cfg frame dt solved calm

  unfoldable pub check_resume : LocalizerSettings M → ArFrame M → M.Real → Bool → Action M
  check_resume cfg frame dt solved s =
      let back = record s { pending_resume = false } in
      if s.pending_resume
      then if cfg.reloc_on_resume
        then request_relocalization M frame resume back
        else check_jump cfg frame dt solved (reset_reloc_detection M back)
      else check_jump cfg frame dt solved s

  unfoldable pub monitor_localized : LocalizerSettings M → ArFrame M → M.Real → Bool → Action M
  monitor_localized cfg frame dt solved s = when s.is_localized (check_resume cfg frame dt solved) s

  unfoldable pub count_good_seconds : ArFrame M → M.Real → LocalizerState M → LocalizerState M
  count_good_seconds frame dt s = record s {
    reloc_good = if is_good_frame frame then M.addf s.reloc_good dt else M.literal 0;
    solved = false;
  }

  unfoldable pub monitor_state : LocalizerSettings M → ArFrame M → M.Real → Bool → Action M
  monitor_state cfg frame dt solved s =
      if is_relocating s.state
      then monitor_relocalizing cfg frame s
      else if is_recovered s.state
      then monitor_recovered cfg frame s
      else monitor_localized cfg frame dt solved s

  -- MonitorRelocalization.
  unfoldable pub monitor_relocalization : LocalizerSettings M → ArFrame M → M.Real → Action M
  monitor_relocalization cfg frame dt s =
      monitor_state cfg frame dt s.solved (count_good_seconds frame dt s)
