-- ===== src/NavCloudResolver/Attempts.antt =====
-- The attempts of TimeMachineAR/Source/TimeMachineAR/NavCloudResolver.cpp: how one starts, how one fails and
-- how near an anchor may be.
use Prim.Native.Nat.{min}
use ai_xr_project.Base.{
  ℕ, zero, suc, ◌-◌, List, [], ◌∷◌, Option, none, some, Bool, not, ◌&&◌, ◌||◌, ◌==◌, if◌then◌else◌,
}
use ai_xr_project.NavCloudResolver.{
  Engine, TaskResult, task_not_tracking, task_paused, task_not_enabled, task_exhausted, task_other,
  ResolveStart, resolve_started, resolve_failed, resolve_blocked, resolve_exhausted, Entry,
  Settings, Frame, Resolver, tracking_recognized_pin,
}

-- Entries[i], if there is one.
unfoldable pub entry_at {ℓ} : {A : Type ℓ} → ℕ → List A → Option A
entry_at i [] = none
entry_at zero (x ∷ xs) = some x
entry_at (suc i) (x ∷ xs) = entry_at i xs

-- A change of Entries[i].
unfoldable pub change_at {ℓ} : {A : Type ℓ} → ℕ → (A → A) → List A → List A
change_at i g [] = []
change_at zero g (x ∷ xs) = g x ∷ xs
change_at (suc i) g (x ∷ xs) = x ∷ change_at i g xs

module _ (E : Engine) where
  -- The count and the times of an attempt that was not refused by the session.
  unfoldable pub begin_attempt : Frame E → Entry E → Entry E
  begin_attempt f e = record e {
    attempts = suc e.attempts;
    attempt_start = f.now;
    first_request = if E.at_most e.first_request (E.literal 0) then f.now else e.first_request;
  }

  -- An attempt that did not start: the entry waits until this time.
  unfoldable pub wait_until : Frame E → E.Real → Entry E → Entry E
  wait_until f time e = record (begin_attempt f e) { pin = none; next_eligible = time }

  -- StartResolve for Entries[i] with the pin and the result of CreateAndResolveCloudARPin.
  unfoldable pub start_with :
      Frame E → Resolver E → ℕ → Option ℕ → TaskResult → Resolver E × ResolveStart
  start_with f s i (some p) result = (
    record s {
      entries = change_at i (λ e. record (begin_attempt f e) { pin = some p }) s.entries;
      recent = f.now ∷ s.recent;
    },
    resolve_started,
  )
  start_with f s i none task_not_tracking = (s, resolve_blocked)
  start_with f s i none task_paused = (s, resolve_blocked)
  start_with f s i none task_not_enabled = (s, resolve_blocked)
  start_with f s i none task_exhausted =
      let hold = E.add f.now (E.literal 30) in
      (
        record s { entries = change_at i (wait_until f hold) s.entries; hold_until = hold },
        resolve_exhausted,
      )
  start_with f s i none task_other = (
    record s { entries = change_at i (wait_until f (E.add f.now (E.literal 12))) s.entries },
    resolve_failed,
  )

  -- StartResolve for Entries[i].
  unfoldable pub start_resolve : Frame E → Resolver E → ℕ → Resolver E × ResolveStart
  start_resolve f s i =
      start_with f (record s { creates = suc s.creates }) i (f.create s.creates).0
        (f.create s.creates).1

  -- One entry of the loop of EstimateDistanceLowerBoundCm.
  unfoldable pub bound_by :
      Frame E → Settings E → Entry E → E.Real × E.Real → Entry E → E.Real → E.Real
  bound_by f cfg target camera r best =
      if r.point_no == target.point_no then best else (elim (tracking_recognized_pin E f r) [
        | none ↦ best
        | some p ↦
            (let gap = E.distance target.pos_x target.pos_y r.pos_x r.pos_y in
              let place = f.pin_place p in
              let camera_gap = E.distance camera.0 camera.1 place.0 place.1 in
              E.upper best
                (E.upper (E.literal 0) (E.sub (E.absolute (E.sub gap camera_gap)) cfg.slack_cm)))
      ])

  unfoldable pub bound_loop :
      Frame E → Settings E → Entry E → E.Real × E.Real → E.Real → List (Entry E) → E.Real
  bound_loop f cfg target camera best [] = best
  bound_loop f cfg target camera best (r ∷ rs) =
      bound_loop f cfg target camera (bound_by f cfg target camera r best) rs

  -- EstimateDistanceLowerBoundCm.
  unfoldable pub estimate_distance_lower_bound_cm :
      Frame E → Settings E → List (Entry E) → Entry E → E.Real
  estimate_distance_lower_bound_cm f cfg entries target = elim f.camera [
    | none ↦ E.minus_one
    | some camera ↦ E.to_float (bound_loop f cfg target camera E.minus_one entries)
  ]

  -- The delay of FailAttempt before the test for exhaustion.
  unfoldable pub backoff_delay : Frame E → Settings E → List (Entry E) → Entry E → Bool → E.Real
  backoff_delay f cfg entries e deterministic =
      let interval =
        E.lower cfg.backoff_max (E.mul (E.literal 12) (E.pow2 (min (e.failures - 1) 8))) in
      let spent =
        if E.less (E.literal 0) e.attempt_start then E.sub f.now e.attempt_start else E.literal 0 in
      let bound = estimate_distance_lower_bound_cm f cfg entries e in
      let no_reference = E.less bound (E.literal 0) in
      let near = not no_reference && E.at_most bound cfg.near_cm in
      if (near || no_reference) && not deterministic
      then E.upper (E.literal 0) (E.sub (E.literal 12) spent)
      else E.upper (E.literal 0) (E.sub interval spent)

  -- FailAttempt: what becomes of the entry, and of the time until which nothing is started.
  unfoldable pub fail_attempt :
      Frame E → Settings E → List (Entry E) → E.Real → Entry E → Bool → Bool → Entry E × E.Real
  fail_attempt f cfg entries hold e exhausted deterministic =
      let counted = record e { failures = suc e.failures } in
      let delay = backoff_delay f cfg entries counted deterministic in
      if exhausted
      then (
        record counted { next_eligible = E.add f.now (E.upper delay cfg.backoff_max) },
        E.add f.now (E.literal 30),
      )
      else (record counted { next_eligible = E.add f.now delay }, hold)
