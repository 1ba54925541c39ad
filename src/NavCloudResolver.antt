-- ===== src/NavCloudResolver.antt =====
-- TimeMachineAR/Source/TimeMachineAR/NavCloudResolver.h and NavCloudResolver.cpp: which cloud anchors are
-- resolved when. Here are the state and the pins. A pin is a number. Floating-point numbers, the
-- engine's sort and the AR plug-in are parameters.
pub mod Attempts
pub mod Schedule
pub mod Poll
pub mod Anchors
pub mod Load
pub mod Assign
pub mod Starts
pub mod Rounds
pub mod Slots
pub mod Quiet
pub mod Ticks
pub mod Listed
pub mod Rows
pub mod Runs
use ai_xr_project.Base.{
  ℕ, zero, suc, ◌+◌, List, [], ◌∷◌, ◌++◌, Option, none, some, Bool, true, false, not, ◌&&◌, ◌||◌,
  ◌==◌, if◌then◌else◌, length,
}

-- Floating-point numbers as the resolver uses them, and TArray::Sort with a comparison.
pub record Engine : Type 1 where
  pub Real : Type 0
  pub literal : ℕ → Real
  pub minus_one : Real
  pub one_and_half : Real
  pub one_fifth : Real
  pub largest : Real
  pub add : Real → Real → Real
  pub sub : Real → Real → Real
  pub mul : Real → Real → Real
  pub pow2 : ℕ → Real
  pub lower : Real → Real → Real
  pub upper : Real → Real → Real
  pub absolute : Real → Real
  pub to_float : Real → Real
  pub less : Real → Real → Bool
  pub at_most : Real → Real → Bool
  pub equal : Real → Real → Bool
  pub distance : Real → Real → Real → Real → Real
  pub sort : (ℕ → ℕ → Bool) → List ℕ → List ℕ

-- ECloudARPinCloudState. Every state that the resolver does not name is `other_state`.
pub data CloudState : Type 0 where
  resolve_success error_internal error_localization error_unavailable error_exhausted
        error_not_found error_not_authorized :
      CloudState
  error_too_old error_too_new resolve_cancelled other_state : CloudState

-- EARPinCloudTaskResult, in the same way.
pub data TaskResult : Type 0 where
  task_not_tracking task_paused task_not_enabled task_exhausted task_other : TaskResult

-- ENavResolveStart.
pub data ResolveStart : Type 0 where
  resolve_started resolve_failed resolve_blocked resolve_exhausted : ResolveStart

-- IsCloudError.
unfoldable pub is_cloud_error : CloudState → Bool
is_cloud_error error_internal = true
is_cloud_error error_localization = true
is_cloud_error error_unavailable = true
is_cloud_error error_exhausted = true
is_cloud_error error_not_found = true
is_cloud_error error_not_authorized = true
is_cloud_error error_too_old = true
is_cloud_error error_too_new = true
is_cloud_error resolve_cancelled = true
is_cloud_error resolve_success = false
is_cloud_error other_state = false

-- IsDeterministicCloudError.
unfoldable pub is_deterministic_cloud_error : CloudState → Bool
is_deterministic_cloud_error error_not_found = true
is_deterministic_cloud_error error_not_authorized = true
is_deterministic_cloud_error error_too_old = true
is_deterministic_cloud_error error_too_new = true
is_deterministic_cloud_error error_internal = false
is_deterministic_cloud_error error_localization = false
is_deterministic_cloud_error error_unavailable = false
is_deterministic_cloud_error error_exhausted = false
is_deterministic_cloud_error resolve_cancelled = false
is_deterministic_cloud_error resolve_success = false
is_deterministic_cloud_error other_state = false

-- CState == ECloudARPinCloudState::Success, and ErrorResourceExhausted.
unfoldable pub is_success : CloudState → Bool
is_success resolve_success = true
is_success error_internal = false
is_success error_localization = false
is_success error_unavailable = false
is_success error_exhausted = false
is_success error_not_found = false
is_success error_not_authorized = false
is_success error_too_old = false
is_success error_too_new = false
is_success resolve_cancelled = false
is_success other_state = false

unfoldable pub is_exhausted : CloudState → Bool
is_exhausted error_exhausted = true
is_exhausted error_internal = false
is_exhausted error_localization = false
is_exhausted error_unavailable = false
is_exhausted error_not_found = false
is_exhausted error_not_authorized = false
is_exhausted error_too_old = false
is_exhausted error_too_new = false
is_exhausted resolve_cancelled = false
is_exhausted resolve_success = false
is_exhausted other_state = false

-- What the resolver asks of UNavLocalizer.
pub record Localizer : Type 0 where
  pub is_localized : Bool
  pub from_cloud : Bool
  pub is_relocalizing : Bool

module _ (E : Engine) where
  -- FNavCloudResolveEntry; a cloud identifier is a number.
  pub record Entry : Type 0 where
    pub point_no : ℕ
    pub cloud_id : ℕ
    pub pin : Option ℕ
    pub pos_x : E.Real
    pub pos_y : E.Real
    pub pos_z : E.Real
    pub heading : E.Real
    pub attempt_start : E.Real
    pub first_request : E.Real
    pub attempts : ℕ
    pub recognized : Bool
    pub recognized_time : E.Real
    pub last_tracked : E.Real
    pub last_gap : E.Real
    pub relatches : ℕ
    pub localize_applied : Bool
    pub failures : ℕ
    pub next_eligible : E.Real
    pub near_last : Bool

  -- The settings of the resolver.
  pub record Settings : Type 0 where
    pub max_concurrent : ℕ
    pub max_per_minute : ℕ
    pub backoff_max : E.Real
    pub near_cm : E.Real
    pub slack_cm : E.Real

  -- What the engine and the plug-in answer in one tick: the time, the camera, the states of the pins,
  -- whether a pending pin is cancelled, and what the n-th call of CreateAndResolveCloudARPin gives.
  pub record Frame : Type 0 where
    pub now : E.Real
    pub configured : Bool
    pub good_tracking : Bool
    pub camera : Option (E.Real × E.Real)
    pub pending : ℕ → Bool
    pub cancelled : ℕ → Bool
    pub tracking : ℕ → Bool
    pub cloud_state : ℕ → CloudState
    pub pin_place : ℕ → E.Real × E.Real
    pub create : ℕ → Option ℕ × TaskResult
    pub localizer : Option Localizer

  -- UNavCloudResolverSubsystem, without what the jump gate, the blending and the logs keep. `removed` are
  -- the pins given to RemoveCloudARPin, the last first, `creates` counts the calls of
  -- CreateAndResolveCloudARPin, and `localizer` is what the localizer answers.
  pub record Resolver : Type 0 where
    pub entries : List Entry
    pub orphans : List ℕ
    pub recent : List E.Real
    pub hold_until : E.Real
    pub next_scheduler : E.Real
    pub ref_point : ℕ
    pub ref_since : E.Real
    pub is_loaded : Bool
    pub removed : List ℕ
    pub creates : ℕ
    pub localizer : Option Localizer

  -- A new resolver.
  unfoldable pub new_resolver : Option Localizer → Resolver
  new_resolver localizer = record {
    entries = [];
    orphans = [];
    recent = [];
    hold_until = E.literal 0;
    next_scheduler = E.literal 0;
    ref_point = 0;
    ref_since = E.literal 0;
    is_loaded = false;
    removed = [];
    creates = 0;
    localizer = localizer;
  }

  -- IsInFlight.
  unfoldable pub is_in_flight : Entry → Bool
  is_in_flight e = elim e.pin [ none ↦ false | some p ↦ not e.recognized ]

  -- GetTrackingRecognizedPin.
  unfoldable pub tracking_recognized_pin : Frame → Entry → Option ℕ
  tracking_recognized_pin f e = elim e.pin [
    | none ↦ none
    | some p ↦ (if not e.recognized || not (f.tracking p) then none else some p)
  ]

  -- TArray::AddUnique.
  unfoldable pub add_unique : ℕ → List ℕ → List ℕ
  add_unique p [] = p ∷ []
  add_unique p (q ∷ qs) = let rest = add_unique p qs in if q == p then q ∷ qs else q ∷ rest

  -- TryCancelPendingPin.
  unfoldable pub try_cancel_pending_pin : Frame → ℕ → Bool
  try_cancel_pending_pin f p = f.pending p && f.cancelled p

  -- ReleaseCloudPin, with its result.
  unfoldable pub release_cloud_pin : Frame → Resolver → Option ℕ → Resolver × Bool
  release_cloud_pin f s none = (s, true)
  release_cloud_pin f s (some p) =
      if not (f.pending p)
      then (record s { removed = p ∷ s.removed }, true)
      else if try_cancel_pending_pin f p
      then (s, true)
      else (record s { orphans = add_unique p s.orphans }, false)

  -- RemoveAtSwap of the first element: the last one takes its place.
  unfoldable pub swap_in_last : List ℕ → List ℕ
  swap_in_last [] = []
  swap_in_last (p ∷ []) = p ∷ []
  swap_in_last (p ∷ q ∷ qs) = elim (swap_in_last (q ∷ qs)) [ [] ↦ p ∷ [] | l ∷ ls ↦ l ∷ p ∷ ls ]

  -- The orphans that stay, from the last to the first, as the loop of PollOrphanPins goes: one that is
  -- dropped is replaced by the last of those that stay behind it.
  unfoldable pub poll_orphans_loop : Frame → List ℕ → List ℕ
  poll_orphans_loop f [] = []
  poll_orphans_loop f (p ∷ ps) =
      let rest = poll_orphans_loop f ps in if f.pending p then p ∷ rest else swap_in_last rest

  -- The orphans that the loop gives to RemoveCloudARPin, the last first.
  unfoldable pub dropped_orphans : Frame → List ℕ → List ℕ
  dropped_orphans f [] = []
  dropped_orphans f (p ∷ ps) =
      let rest = dropped_orphans f ps in if f.pending p then rest else p ∷ rest

  -- PollOrphanPins.
  unfoldable pub poll_orphan_pins : Frame → Resolver → Resolver
  poll_orphan_pins f s = record s {
    orphans = poll_orphans_loop f s.orphans;
    removed = dropped_orphans f s.orphans ++ s.removed;
  }

  unfoldable pub flights : List Entry → ℕ
  flights [] = 0
  flights (e ∷ es) = let rest = flights es in if is_in_flight e then suc rest else rest

  unfoldable pub pendings : Frame → List ℕ → ℕ
  pendings f [] = 0
  pendings f (p ∷ ps) = let rest = pendings f ps in if f.pending p then suc rest else rest

  -- CountLiveResolves.
  unfoldable pub count_live_resolves : Frame → Resolver → ℕ
  count_live_resolves f s = flights s.entries + pendings f s.orphans
