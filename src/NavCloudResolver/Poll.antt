-- ===== src/NavCloudResolver/Poll.antt =====
-- PollResolves of TimeMachineAR/Source/TimeMachineAR/NavCloudResolver.cpp: what becomes of the attempts that
-- run and of the anchors that are recognised, and the part of Tick about them.
use ai_xr_project.Base.{
  ℕ, zero, suc, Option, none, some, Bool, true, false, not, ◌&&◌, ◌||◌, ◌==◌, if◌then◌else◌, length,
}
use ai_xr_project.NavCloudResolver.{
  Engine, CloudState, is_cloud_error, is_deterministic_cloud_error, is_success, is_exhausted,
  Localizer, Entry, Settings, Frame, Resolver, release_cloud_pin, poll_orphan_pins,
}
use ai_xr_project.NavCloudResolver.Attempts.{entry_at, change_at, fail_attempt}
use ai_xr_project.NavCloudResolver.Schedule.{schedule_resolves}

module _ (E : Engine) where
  -- The localizer after LocalizeFromCloudAnchor.
  unfoldable pub localized_by_cloud : Localizer → Localizer
  localized_by_cloud l = record l { is_localized = true; from_cloud = true }

  -- An entry set back to where it waits for its first attempt.
  unfoldable pub back_to_queue : Entry E → Entry E
  back_to_queue e = record e {
    pin = none;
    recognized = false;
    attempts = 0;
    first_request = E.literal 0;
    attempt_start = E.literal 0;
    last_tracked = E.literal 0;
    last_gap = E.literal 0;
    failures = 0;
    next_eligible = E.literal 0;
  }

  -- The reference anchor is forgotten if it is this one.
  unfoldable pub lose_reference : ℕ → Resolver E → Resolver E
  lose_reference point s = if s.ref_point == point then record s { ref_point = 0 } else s

  -- The localizer takes the anchor of Entries[i] as its reference.
  unfoldable pub localize_at : Frame E → Resolver E → ℕ → ℕ → Localizer → Resolver E
  localize_at f s i point l = record s {
    entries = change_at i (λ x. record x { localize_applied = true }) s.entries;
    ref_point = point;
    ref_since = f.now;
    localizer = some (localized_by_cloud l);
  }

  unfoldable pub try_localize : Frame E → Resolver E → ℕ → ℕ → Option Localizer → Resolver E
  try_localize f s i point none = s
  try_localize f s i point (some l) = if l.is_localized then s else localize_at f s i point l

  -- TryLocalizeWithAnchor for Entries[i], which has a pin.
  unfoldable pub try_localize_with_anchor : Frame E → Resolver E → ℕ → ℕ → Resolver E
  try_localize_with_anchor f s i point = try_localize f s i point s.localizer

  -- The gap since an anchor was last tracked.
  unfoldable pub tracking_gap : Frame E → Entry E → E.Real
  tracking_gap f e =
      if E.less (E.literal 0) e.last_tracked then E.sub f.now e.last_tracked else E.literal 0

  -- An anchor that is tracked now. A gap of kReacquireGapSeconds or more is kept for the survey log.
  unfoldable pub note_tracked : Frame E → Entry E → Entry E
  note_tracked f e =
      if E.at_most E.one_and_half (tracking_gap f e)
      then record e { last_tracked = f.now; last_gap = tracking_gap f e }
      else record e { last_tracked = f.now }

  unfoldable pub relatched : Resolver E → ℕ → Localizer → Resolver E
  relatched s i l = record s {
    entries = change_at i (λ x. record x { relatches = suc x.relatches }) s.entries;
    localizer = some (localized_by_cloud l);
  }

  -- Whether the transform is set anew by the entry, tracked after this gap: by the reference anchor only,
  -- and after a gap only. While the localizer relocalizes, RelatchForRelocalization does it, which is
  -- not modelled.
  unfoldable pub sets_transform : Resolver E → Entry E → E.Real → Localizer → Bool
  sets_transform s e gap l =
      l.is_localized
      && (l.from_cloud
          && (e.point_no == s.ref_point
              && (not l.is_relocalizing && not (E.less gap E.one_and_half))))

  -- The end of WatchRecognizedAnchor for Entries[i].
  unfoldable pub relatch : Resolver E → ℕ → Entry E → E.Real → Option Localizer → Resolver E
  relatch s i e gap none = s
  relatch s i e gap (some l) = if sets_transform s e gap l then relatched s i l else s

  -- The recognised anchor Entries[i] is lost.
  unfoldable pub lose_anchor : Frame E → Resolver E → ℕ → Entry E → Resolver E
  lose_anchor f s i e =
      let t = (release_cloud_pin E f s e.pin).0 in
      lose_reference e.point_no (record t { entries = change_at i back_to_queue t.entries })

  unfoldable pub watch_tracked : Frame E → Resolver E → ℕ → Entry E → Resolver E
  watch_tracked f s i e =
      relatch (record s { entries = change_at i (note_tracked f) s.entries }) i e (tracking_gap f e)
        s.localizer

  -- WatchRecognizedAnchor for Entries[i], which has this pin.
  unfoldable pub watch_recognized_anchor :
      Frame E → Resolver E → ℕ → Entry E → Option ℕ → Resolver E
  watch_recognized_anchor f s i e none = lose_anchor f s i e
  watch_recognized_anchor f s i e (some p) =
      if is_cloud_error (f.cloud_state p)
      then lose_anchor f s i e
      else if f.tracking p
      then watch_tracked f s i e
      else s

  unfoldable pub recognize : Frame E → Entry E → Entry E
  recognize f e = record e {
    recognized = true;
    recognized_time = f.now;
    failures = 0;
    next_eligible = E.literal 0;
    last_tracked = f.now;
    last_gap = E.literal 0;
  }

  -- An entry without its pin.
  unfoldable pub without_pin : Entry E → Entry E
  without_pin e = record e { pin = none }

  -- The pin of Entries[i] is released and taken away.
  unfoldable pub free_entry : Frame E → Resolver E → ℕ → Entry E → Resolver E
  free_entry f s i e =
      let t = (release_cloud_pin E f s e.pin).0 in
      record t { entries = change_at i (λ x. without_pin e) t.entries }

  -- FailAttempt for Entries[i].
  unfoldable pub fail_entry :
      Frame E → Settings E → Resolver E → ℕ → Entry E → CloudState → Resolver E
  fail_entry f cfg s i e state =
      let r =
        fail_attempt E f cfg s.entries s.hold_until e (is_exhausted state)
          (is_deterministic_cloud_error state) in
      record s { entries = change_at i (λ x. r.0) s.entries; hold_until = r.1 }

  -- The attempt of Entries[i] is given up.
  unfoldable pub give_up : Frame E → Settings E → Resolver E → ℕ → Entry E → CloudState → Resolver E
  give_up f cfg s i e state = fail_entry f cfg (free_entry f s i e) i (without_pin e) state

  -- The attempt of Entries[i] has succeeded.
  unfoldable pub succeed : Frame E → Resolver E → ℕ → Entry E → Resolver E
  succeed f s i e =
      try_localize_with_anchor f (record s { entries = change_at i (recognize f) s.entries }) i
        e.point_no

  -- The attempt of Entries[i] with this pin.
  unfoldable pub poll_attempt :
      Frame E → Settings E → Resolver E → ℕ → Entry E → Option ℕ → Resolver E
  poll_attempt f cfg s i e none = s
  poll_attempt f cfg s i e (some p) =
      let state = f.cloud_state p in
      if is_success state && f.tracking p
      then succeed f s i e
      else if is_cloud_error state || E.less (E.literal 12) (E.sub f.now e.attempt_start)
      then give_up f cfg s i e state
      else s

  -- The body of the loop of PollResolves for Entries[i].
  unfoldable pub poll_entry : Frame E → Settings E → Resolver E → ℕ → Entry E → Resolver E
  poll_entry f cfg s i e =
      if e.recognized then watch_recognized_anchor f s i e e.pin else poll_attempt f cfg s i e e.pin

  -- The loop over Entries[i], Entries[i + 1] and so on, n of them.
  unfoldable pub poll_from : Frame E → Settings E → Resolver E → ℕ → ℕ → Resolver E
  poll_from f cfg s i zero = s
  poll_from f cfg s i (suc n) = elim (entry_at i s.entries) [
    | none ↦ s
    | some e ↦ poll_from f cfg (poll_entry f cfg s i e) (suc i) n
  ]

  -- PollResolves.
  unfoldable pub poll_resolves : Frame E → Settings E → Resolver E → Resolver E
  poll_resolves f cfg s = poll_from f cfg s 0 (length s.entries)

  -- The calls of Tick on the resolver when the anchors are loaded.
  unfoldable pub tick_resolves : Frame E → Settings E → Resolver E → Resolver E
  tick_resolves f cfg s =
      let t = poll_resolves f cfg (poll_orphan_pins E f (record s { localizer = f.localizer })) in
      if E.at_most t.next_scheduler f.now
      then schedule_resolves E f cfg (record t { next_scheduler = E.add f.now E.one_fifth })
      else t
