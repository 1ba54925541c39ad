-- ===== src/NavLocalizer/Watched.antt =====
-- MonitorRelocalization of TimeMachineAR/Source/TimeMachineAR/NavLocalizer.cpp, as an observer sees it.
use ai_xr_project.Base.{some, Bool, true, false, not, ◌&&◌, ◌≡◌, refl, ap, arith, if◌then◌else◌}
use ai_xr_project.NavLocalizer.{
  ArMath, LocState, localized, relocalizing, recovered, RelocReason, no_reason, occluded, shake,
  dark, featureless, jump, resume, given, ArFrame, LocalizerSettings, LocalizerState, change, when,
}
use ai_xr_project.NavLocalizer.Relocation.{
  is_relocating, is_recovered, reset_reloc_detection, request_relocalization, enter_recovered,
}
use ai_xr_project.NavLocalizer.Jump.{judge_reloc_entry}
use ai_xr_project.NavLocalizer.Monitor.{
  make_reloc_params, is_good_frame, may_recover, monitor_relocalizing, end_recovered,
  monitor_recovered, after_verdict, sample_of, judge_frame, check_jump, check_resume,
  monitor_localized, count_good_seconds, monitor_state, monitor_relocalization,
}
use ai_xr_project.NavLocalizer.Phases.{phase_of, KeepsAt, Keeps, if-KeepsAt, when-KeepsAt}
use ai_xr_project.NavLocalizer.Allowed.{
  running_if_relocalizing, request_relocalization-Keeps, enter_recovered-running,
}

module _ (M : ArMath) where
  monitor_relocalizing-Keeps :
      (cfg : LocalizerSettings M) (frame : ArFrame M) (s : LocalizerState M)
      → s.state ≡ relocalizing
      → KeepsAt (monitor_relocalizing M cfg frame) s
  unfolding monitor_relocalizing
  monitor_relocalizing-Keeps cfg frame s e =
      let kept : LocalizerState M = record s { pending_resume = false } in
      if-KeepsAt (is_good_frame M frame)
        (when (may_recover M cfg frame kept) (enter_recovered M cfg frame (λ t. t.pending_source)))
        (change (λ t. record t { pending_source = M.no_code })) kept
        (λ _.
          when-KeepsAt (may_recover M cfg frame kept)
            (enter_recovered M cfg frame (λ t. t.pending_source)) kept
            (λ _. enter_recovered-running M cfg frame (λ t. t.pending_source) kept e))
        (λ _. refl)

  monitor_recovered-Keeps :
      (cfg : LocalizerSettings M) (frame : ArFrame M) (s : LocalizerState M)
      → s.state ≡ recovered
      → KeepsAt (monitor_recovered M cfg frame) s
  unfolding monitor_recovered end_recovered
  monitor_recovered-Keeps cfg frame s e =
      when-KeepsAt (M.at_most M.one_and_half (M.sub frame.now s.recovered_time))
        (change (end_recovered M cfg)) s (λ _. ap (λ x. some (phase_of x)) e)

  after_verdict-Keeps :
      (frame : ArFrame M) (why : RelocReason M) → Keeps (after_verdict M frame why)
  unfolding after_verdict
  after_verdict-Keeps frame no_reason s = refl
  after_verdict-Keeps frame jump s = refl
  after_verdict-Keeps frame occluded s = request_relocalization-Keeps M frame occluded s
  after_verdict-Keeps frame shake s = request_relocalization-Keeps M frame shake s
  after_verdict-Keeps frame dark s = request_relocalization-Keeps M frame dark s
  after_verdict-Keeps frame featureless s = request_relocalization-Keeps M frame featureless s
  after_verdict-Keeps frame resume s = request_relocalization-Keeps M frame resume s
  after_verdict-Keeps frame (given c) s =
      when-KeepsAt (not (M.is_empty c)) (request_relocalization M frame (given c)) s
        (λ _. request_relocalization-Keeps M frame (given c) s)

  judge_frame-Keeps :
      (cfg : LocalizerSettings M) (frame : ArFrame M) (dt : M.Real) (solved : Bool)
      → Keeps (judge_frame M cfg frame dt solved)
  unfolding judge_frame
  judge_frame-Keeps cfg frame dt solved s =
      let r = judge_reloc_entry M (sample_of M frame dt solved) (make_reloc_params M cfg) s.accum in
      after_verdict-Keeps frame (r.1).reason (record s { accum = r.0 })

  check_jump-Keeps :
      (cfg : LocalizerSettings M) (frame : ArFrame M) (dt : M.Real) (solved : Bool)
      → Keeps (check_jump M cfg frame dt solved)
  unfolding check_jump
  check_jump-Keeps cfg frame dt solved s =
      let calm : LocalizerState M = record s { pending_jump = false } in
      if-KeepsAt (s.pending_jump && not solved) (request_relocalization M frame jump)
        (judge_frame M cfg frame dt solved) calm
        (λ _. request_relocalization-Keeps M frame jump calm)
        (λ _. judge_frame-Keeps cfg frame dt solved calm)

  check_resume-Keeps :
      (cfg : LocalizerSettings M) (frame : ArFrame M) (dt : M.Real) (solved : Bool)
      → Keeps (check_resume M cfg frame dt solved)
  unfolding check_resume reset_reloc_detection
  check_resume-Keeps cfg frame dt solved s =
      let back : LocalizerState M = record s { pending_resume = false } in
      if-KeepsAt s.pending_resume
        (λ t.
          if cfg.reloc_on_resume
          then request_relocalization M frame resume (record t { pending_resume = false })
          else check_jump M cfg frame dt solved
              (reset_reloc_detection M (record t { pending_resume = false })))
        (check_jump M cfg frame dt solved) s
        (λ _.
          if-KeepsAt cfg.reloc_on_resume (request_relocalization M frame resume)
            (λ t. check_jump M cfg frame dt solved (reset_reloc_detection M t)) back
            (λ _. request_relocalization-Keeps M frame resume back)
            (λ _. check_jump-Keeps cfg frame dt solved (reset_reloc_detection M back)))
        (λ _. check_jump-Keeps cfg frame dt solved s)

  monitor_localized-Keeps :
      (cfg : LocalizerSettings M) (frame : ArFrame M) (dt : M.Real) (solved : Bool)
      → Keeps (monitor_localized M cfg frame dt solved)
  unfolding monitor_localized
  monitor_localized-Keeps cfg frame dt solved s =
      when-KeepsAt s.is_localized (check_resume M cfg frame dt solved) s
        (λ _. check_resume-Keeps cfg frame dt solved s)

  recovered_if : (x : LocState) → is_recovered x ≡ true → x ≡ recovered
  unfolding is_recovered
  recovered_if recovered e = refl
  recovered_if localized e = absurd (ground arith)
  recovered_if relocalizing e = absurd (ground arith)

  monitor_state-Keeps :
      (cfg : LocalizerSettings M) (frame : ArFrame M) (dt : M.Real) (solved : Bool)
      → Keeps (monitor_state M cfg frame dt solved)
  unfolding monitor_state
  monitor_state-Keeps cfg frame dt solved s =
      if-KeepsAt (is_relocating s.state) (monitor_relocalizing M cfg frame)
        (λ t.
          if is_recovered s.state
          then monitor_recovered M cfg frame t
          else monitor_localized M cfg frame dt solved t)
        s (λ e. monitor_relocalizing-Keeps cfg frame s (running_if_relocalizing M s.state e))
        (λ _.
          if-KeepsAt (is_recovered s.state) (monitor_recovered M cfg frame)
            (monitor_localized M cfg frame dt solved) s
            (λ e. monitor_recovered-Keeps cfg frame s (recovered_if s.state e))
            (λ _. monitor_localized-Keeps cfg frame dt solved s))

  pub monitor_relocalization-Keeps :
      (cfg : LocalizerSettings M) (frame : ArFrame M) (dt : M.Real)
      → Keeps (monitor_relocalization M cfg frame dt)
  unfolding monitor_relocalization count_good_seconds
  monitor_relocalization-Keeps cfg frame dt s =
      monitor_state-Keeps cfg frame dt s.solved (count_good_seconds M frame dt s)
