-- ===== src/NavLocalizer/Judge.antt =====
-- The first part of JudgeRelocEntry, JudgeRelocExit and PickRelocCandidate of
-- TimeMachineAR/Source/TimeMachineAR/NavLocalizer.cpp: bad quality, and when a relocalization may end.
use ai_xr_project.Base.{
  ℕ, suc, List, [], ◌∷◌, Option, none, some, Bool, true, false, not, ◌&&◌, ◌||◌, if◌then◌else◌,
}
use ai_xr_project.NavLocalizer.{
  ArMath, TrackQuality, not_tracking, orientation_only, orientation_and_position, QualityReason,
  reason_none, excessive_motion, insufficient_light, insufficient_features, reason_other,
  RelocReason, no_reason, occluded, shake, dark, featureless, jump, resume, given, Accum, Camera,
}

-- IsRelocBadReason, and the comparisons of a quality.
unfoldable pub is_reloc_bad_reason : QualityReason → Bool
is_reloc_bad_reason excessive_motion = true
is_reloc_bad_reason insufficient_features = true
is_reloc_bad_reason insufficient_light = true
is_reloc_bad_reason reason_none = false
is_reloc_bad_reason reason_other = false

unfoldable pub is_not_tracking : TrackQuality → Bool
is_not_tracking not_tracking = true
is_not_tracking orientation_only = false
is_not_tracking orientation_and_position = false

module _ (M : ArMath) where
  -- FNavRelocSample. bHasCamera and the camera's fields are one option.
  pub record Sample : Type 0 where
    pub quality : TrackQuality
    pub quality_reason : QualityReason
    pub camera : Option (Camera M)
    pub delta_time : M.Real
    pub solved_this_tick : Bool

  -- FNavRelocParams.
  pub record Params : Type 0 where
    pub not_tracking_limit : M.Real
    pub reason_hold : M.Real
    pub jump_cm : M.Real
    pub jump_deg : M.Real
    pub speed : M.Real
    pub good_reset : M.Real

  -- FNavRelocVerdict.
  pub record Verdict : Type 0 where
    pub reason : RelocReason M
    pub jump_cm : M.Real
    pub jump_deg : M.Real
    pub speed : M.Real
    pub near_miss : Bool
    pub cooldown_blocked : Bool

  abbrev pub nought : M.Real
  nought = M.literal 0

  unfoldable pub is_no_reason : RelocReason M → Bool
  is_no_reason no_reason = true
  is_no_reason occluded = false
  is_no_reason shake = false
  is_no_reason dark = false
  is_no_reason featureless = false
  is_no_reason jump = false
  is_no_reason resume = false
  is_no_reason (given c) = M.is_empty c

  -- The switch over the reason of bad quality.
  unfoldable pub count_label : QualityReason → M.Real → Accum M → Accum M
  count_label excessive_motion dt a = record a { shake_seconds = M.addf a.shake_seconds dt }
  count_label insufficient_light dt a = record a { dark_seconds = M.addf a.dark_seconds dt }
  count_label insufficient_features dt a = record a {
    featureless_seconds = M.addf a.featureless_seconds dt;
  }
  count_label reason_none dt a = record a { occluded_seconds = M.addf a.occluded_seconds dt }
  count_label reason_other dt a = record a { occluded_seconds = M.addf a.occluded_seconds dt }

  unfoldable pub clear_bad : Accum M → Accum M
  clear_bad a = record a {
    not_tracking_seconds = nought;
    bad_seconds = nought;
    occluded_seconds = nought;
    shake_seconds = nought;
    dark_seconds = nought;
    featureless_seconds = nought;
  }

  unfoldable pub count_bad : Sample → M.Real → Accum M → Accum M
  count_bad sample dt a = count_label sample.quality_reason dt (record a {
    good_seconds = nought;
    bad_seconds = M.addf a.bad_seconds dt;
    not_tracking_seconds =
        if is_not_tracking sample.quality
        then M.addf a.not_tracking_seconds dt
        else a.not_tracking_seconds;
  })

  unfoldable pub count_good : Params → M.Real → Accum M → Accum M
  count_good params dt a =
      let counted = record a { good_seconds = M.addf a.good_seconds dt } in
      if M.at_most params.good_reset (M.addf a.good_seconds dt) then clear_bad counted else counted

  unfoldable pub count_quality : Sample → Params → M.Real → Accum M → Accum M
  count_quality sample params dt a =
      if is_not_tracking sample.quality || is_reloc_bad_reason sample.quality_reason
      then count_bad sample dt a
      else count_good params dt a

  -- The clock and the cooldown.
  unfoldable pub step_seconds : Sample → M.Real
  step_seconds sample = M.clamp sample.delta_time nought M.one_tenth

  unfoldable pub count_clock : M.Real → Accum M → Accum M
  count_clock dt a = record a {
    clock = M.add a.clock dt;
    cooldown_seconds = M.upper nought (M.subf a.cooldown_seconds dt);
  }

  -- bEnterLost and bEnterHold, and the label with the most seconds.
  unfoldable pub is_lost : Params → Accum M → Bool
  is_lost params a =
      M.less nought params.not_tracking_limit
      && M.at_most params.not_tracking_limit a.not_tracking_seconds

  unfoldable pub is_held : Params → Bool → Accum M → Bool
  is_held params cooling a =
      not cooling && M.less nought params.reason_hold && M.at_most params.reason_hold a.bad_seconds

  unfoldable pub longest : M.Real → RelocReason M → List (M.Real × RelocReason M) → RelocReason M
  longest best label [] = label
  longest best label ((seconds, code) ∷ rest) =
      let kept = longest best label rest in
      let taken = longest seconds code rest in if M.less best seconds then taken else kept

  unfoldable pub longest_label : Accum M → RelocReason M
  longest_label a = longest a.occluded_seconds occluded (
      (a.occluded_seconds, occluded)
      ∷ (a.shake_seconds, shake)
      ∷ (a.dark_seconds, dark)
      ∷ (a.featureless_seconds, featureless)
      ∷ [])

  -- Part A: the quality.
  unfoldable pub judge_quality : Params → Bool → Accum M → Accum M × RelocReason M
  judge_quality params cooling a =
      if is_lost params a || is_held params cooling a
      then (record (clear_bad a) { good_seconds = nought }, longest_label a)
      else (a, no_reason)

  -- JudgeRelocExit.
  unfoldable pub judge_reloc_exit : M.Real → M.Real → Bool → M.Real → M.Real → Bool
  judge_reloc_exit stay good has_fix min_stay recover =
      has_fix && M.at_most min_stay stay && M.at_most recover good

  -- PickRelocCandidate, a candidate being its distance and its stable seconds. The best so far is its
  -- index and its distance.
  unfoldable pub is_nearer : M.Real → Option (ℕ × M.Real) → Bool
  is_nearer d none = true
  is_nearer d (some (i, best)) = M.less d best

  unfoldable pub pick_from :
      M.Real → ℕ → Option (ℕ × M.Real) → List (M.Real × M.Real) → Option (ℕ × M.Real)
  pick_from stable i best [] = best
  pick_from stable i best ((d, seconds) ∷ rest) =
      let taken = pick_from stable (suc i) (some (i, d)) rest in
      let kept = pick_from stable (suc i) best rest in
      if M.at_most stable seconds && is_nearer d best then taken else kept

  unfoldable pub pick_reloc_candidate : List (M.Real × M.Real) → M.Real → Option (ℕ × M.Real)
  pick_reloc_candidate candidates stable = pick_from stable 0 none candidates
