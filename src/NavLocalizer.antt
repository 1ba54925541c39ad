-- ===== src/NavLocalizer.antt =====
-- TimeMachineAR/Source/TimeMachineAR/NavLocalizer.h and NavLocalizer.cpp: where the visitor is, and the
-- relocalization when the tracking has slipped. Here are the state and how calls are chained. Floating-point
-- numbers, vectors and transforms of the engine are a parameter. What the AR session shows when a call is
-- made is an argument, ArFrame. The log, the field log and the values kept only for them are left out.
pub mod Judge
pub mod Jump
pub mod Anchor
pub mod Transition
pub mod Relocation
pub mod Monitor
pub mod Tick
pub mod Phases
pub mod Allowed
pub mod Watched
pub mod Moved
pub mod Banners
pub mod Observed
pub mod Exit
pub mod Candidates
use ai_xr_project.Base.{
  ℕ, List, [], ◌∷◌, ◌++◌, Option, none, some, Bool, true, false, if◌then◌else◌,
}

-- Real stands for double and for float; the operations that end in f round to float, and so does
-- `to_float`. `lower`, `upper` and `clamp` are FMath::Min, FMath::Max and FMath::Clamp, and `small` is
-- KINDA_SMALL_NUMBER. A transform is used with a yaw as its only rotation. Code is FString.
pub record ArMath : Type 1 where
  pub Real : Type 0
  pub literal : ℕ → Real
  pub small : Real
  pub one_tenth : Real
  pub half : Real
  pub eight_tenths : Real
  pub one_and_half : Real
  pub add : Real → Real → Real
  pub sub : Real → Real → Real
  pub mul : Real → Real → Real
  pub div : Real → Real → Real
  pub negate : Real → Real
  pub to_float : Real → Real
  pub addf : Real → Real → Real
  pub subf : Real → Real → Real
  pub mulf : Real → Real → Real
  pub less : Real → Real → Bool
  pub at_most : Real → Real → Bool
  pub upper : Real → Real → Real
  pub clamp : Real → Real → Real → Real
  pub absolute : Real → Real
  pub normalize_axis : Real → Real
  pub Vec : Type 0
  pub make_vec : Real → Real → Real → Vec
  pub sub_vec : Vec → Vec → Vec
  pub rotate : Real → Vec → Vec
  pub distance : Vec → Vec → Real
  pub x_of : Vec → Real
  pub y_of : Vec → Real
  pub z_of : Vec → Real
  pub Xform : Type 0
  pub identity : Xform
  pub make_xform : Real → Vec → Xform
  pub yaw_of : Xform → Real
  pub location_of : Xform → Vec
  pub inverse_position : Xform → Vec → Vec
  pub Code : Type 0
  pub no_code : Code
  pub is_empty : Code → Bool
  pub same_code : Code → Code → Bool

-- ENavLocState.
pub data LocState : Type 0 where
  localized relocalizing recovered : LocState

-- EARTrackingQuality, and EARTrackingQualityReason as far as the code tells its values apart.
pub data TrackQuality : Type 0 where
  not_tracking orientation_only orientation_and_position : TrackQuality

pub data QualityReason : Type 0 where
  reason_none excessive_motion insufficient_light insufficient_features reason_other : QualityReason

module _ (M : ArMath) where
  -- The reason of a relocalization. The console gives any text.
  pub data RelocReason : Type 0 where
    no_reason occluded shake dark featureless jump resume : RelocReason
    given : M.Code → RelocReason

  -- FNavMarker and FNavMapPose, as far as they are used.
  pub record Marker : Type 0 where
    pub x_cm : M.Real
    pub y_cm : M.Real
    pub z_cm : M.Real
    pub heading : M.Real

  pub record MapPose : Type 0 where
    pub x_cm : M.Real
    pub y_cm : M.Real
    pub z_cm : M.Real
    pub heading : M.Real
    pub has_heading : Bool

  -- FNavRelocAccum.
  pub record Accum : Type 0 where
    pub not_tracking_seconds : M.Real
    pub bad_seconds : M.Real
    pub good_seconds : M.Real
    pub occluded_seconds : M.Real
    pub shake_seconds : M.Real
    pub dark_seconds : M.Real
    pub featureless_seconds : M.Real
    pub cooldown_seconds : M.Real
    pub has_prev : Bool
    pub prev_camera : M.Vec
    pub prev_yaw : M.Real
    pub prev_pitch : M.Real
    pub clock : M.Real
    pub window : List (M.Real × M.Vec)

  -- The camera, an image of the AR session, and what the session shows.
  pub record Camera : Type 0 where
    pub location : M.Vec
    pub yaw : M.Real
    pub pitch : M.Real

  pub record Image : Type 0 where
    pub image_id : ℕ
    pub is_tracking : Bool
    pub friendly_name : Option M.Code
    pub world : M.Xform

  pub record ArFrame : Type 0 where
    pub now : M.Real
    pub quality : TrackQuality
    pub quality_reason : QualityReason
    pub camera : Option Camera
    pub images : List Image

  -- The settings.
  pub record LocalizerSettings : Type 0 where
    pub marker_heading_offset : M.Real
    pub continuous_relatch : Bool
    pub relatch_on_reacquire : Bool
    pub reacquire_gap : M.Real
    pub lost_after : M.Real
    pub snap_height : Bool
    pub poor_quality_hold : M.Real
    pub quality_recover : M.Real
    pub reloc_not_tracking : M.Real
    pub reloc_reason_hold : M.Real
    pub reloc_jump_cm : M.Real
    pub reloc_jump_deg : M.Real
    pub reloc_speed : M.Real
    pub reloc_min_stay : M.Real
    pub reloc_cooldown : M.Real
    pub reloc_pin_stable : M.Real
    pub reloc_on_resume : Bool
    pub reloc_soft_hint : M.Real
    pub anchor_scan_interval : M.Real

  -- The private members. The image is its number.
  pub record LocalizerState : Type 0 where
    pub known_markers : List (M.Code × Marker)
    pub anchor_image : Option ℕ
    pub anchor_code : M.Code
    pub anchor : Marker
    pub from_cloud : Bool
    pub map_to_world : M.Xform
    pub current_pose : MapPose
    pub is_scanning : Bool
    pub is_localized : Bool
    pub markers_ready : Bool
    pub lost_reported : Bool
    pub since_seen : M.Real
    pub last_map : M.Code
    pub poor_seconds : M.Real
    pub good_seconds : M.Real
    pub is_degraded : Bool
    pub state : LocState
    pub reason : RelocReason
    pub enter_time : M.Real
    pub recovered_time : M.Real
    pub pending_source : M.Code
    pub reloc_good : M.Real
    pub accum : Accum
    pub solved : Bool
    pub pending_jump : Bool
    pub pending_resume : Bool
    pub soft_hint_seconds : M.Real
    pub soft_hint_shown : Bool
    pub since_scan : M.Real
    pub last_scan : List M.Code

  -- The broadcasts, the request of the markers, and the call of ResetLocalization, which is no broadcast.
  pub data Broadcast : Type 0 where
    on_localized on_anchor_changed on_relocalized markers_requested : M.Code → Broadcast
    on_pose_updated : MapPose → Broadcast
    on_relocalization_started : RelocReason → Broadcast
    on_lost on_degraded on_soft_hint on_tracking_recovered was_reset : Broadcast

  -- A call: the state after it, and what it sent.
  abbrev pub Action : Type 0
  Action = LocalizerState → LocalizerState × List Broadcast

module _ {M : ArMath} where
  infixl 5 ◌▷◌
  abbrev pub ◌▷◌ : Action M → Action M → Action M
  (f ▷ g) s = ((g (f s).0).0, (f s).1 ++ (g (f s).0).1)

  abbrev pub stay : Action M
  stay s = (s, [])

  abbrev pub send : Broadcast M → Action M
  send e s = (s, e ∷ [])

  abbrev pub send_of : (LocalizerState M → Broadcast M) → Action M
  send_of e s = (s, e s ∷ [])

  abbrev pub change : (LocalizerState M → LocalizerState M) → Action M
  change f s = (f s, [])

  abbrev pub when : Bool → Action M → Action M
  when b f = if b then f else stay
