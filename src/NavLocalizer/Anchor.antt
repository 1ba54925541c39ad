-- ===== src/NavLocalizer/Anchor.antt =====
-- The anchor of TimeMachineAR/Source/TimeMachineAR/NavLocalizer.cpp: SolveTransform, the localization from
-- markers and from cloud anchors, the reset, and the change of the anchor.
use ai_xr_project.Base.{
  List, [], ◌∷◌, Option, none, some, Bool, true, false, not, ◌||◌, if◌then◌else◌,
}
use ai_xr_project.NavLocalizer.{
  ArMath, localized, no_reason, Marker, MapPose, Image, ArFrame, LocalizerSettings, LocalizerState,
  on_localized, on_anchor_changed, markers_requested, was_reset, Action, ◌▷◌, send, change, when,
}
use ai_xr_project.NavLocalizer.Relocation.{
  is_relocating, is_recovered, update_current_pose, reset_reloc_detection, note_relocalization_fix,
}

module _ (M : ArMath) where
  -- SolveTransform.
  unfoldable pub yaw_offset : LocalizerSettings M → LocalizerState M → M.Xform → M.Real
  yaw_offset cfg s world =
      let offset = if s.from_cloud then M.literal 0 else cfg.marker_heading_offset in
      let map_heading = M.negate (M.addf s.anchor.heading offset) in
      M.to_float (M.normalize_axis (M.sub (M.yaw_of world) map_heading))

  unfoldable pub solve_transform :
      LocalizerSettings M → M.Xform → LocalizerState M → LocalizerState M
  solve_transform cfg world s =
      let yaw = yaw_offset cfg s world in
      let marker = M.make_vec s.anchor.x_cm (M.negate s.anchor.y_cm) s.anchor.z_cm in
      record s {
        map_to_world = M.make_xform yaw (M.sub_vec (M.location_of world) (M.rotate yaw marker));
        solved = true;
      }

  -- KnownMarkers.Find, and Contains of a list of codes.
  unfoldable pub find_marker : M.Code → List (M.Code × Marker M) → Option (Marker M)
  find_marker c [] = none
  find_marker c ((k, m) ∷ rest) =
      let found = find_marker c rest in if M.same_code k c then some m else found

  unfoldable pub has_code : M.Code → List M.Code → Bool
  has_code c [] = false
  has_code c (k ∷ rest) = M.same_code k c || has_code c rest

  -- The code and the marker of an image that is tracked and known.
  unfoldable pub known_code : LocalizerState M → Option M.Code → Option (M.Code × Marker M)
  known_code s none = none
  known_code s (some c) = elim (find_marker c s.known_markers) [
    | none ↦ none
    | some m ↦ some (c, m)
  ]

  unfoldable pub known_image : LocalizerState M → Image M → Option (M.Code × Marker M)
  known_image s image = if image.is_tracking then known_code s image.friendly_name else none

  unfoldable pub anchor_on :
      LocalizerSettings M → Image M → M.Code × Marker M → LocalizerState M → LocalizerState M
  anchor_on cfg image (c, m) s = solve_transform cfg image.world (record s {
    anchor_image = some image.image_id;
    anchor_code = c;
    anchor = m;
    from_cloud = false;
  })

  -- TryLocalizeFromTrackedImages: the first image that is tracked and known.
  unfoldable pub first_known :
      LocalizerSettings M
      → Image M
      → Option (M.Code × Marker M)
      → LocalizerState M
      → Option (LocalizerState M)
      → Option (LocalizerState M)
  first_known cfg image none s later = later
  first_known cfg image (some found) s later = some (anchor_on cfg image found s)

  unfoldable pub try_localize_from :
      LocalizerSettings M → List (Image M) → LocalizerState M → Option (LocalizerState M)
  try_localize_from cfg [] s = none
  try_localize_from cfg (image ∷ rest) s =
      first_known cfg image (known_image s image) s (try_localize_from cfg rest s)

  -- LocalizeFromCloudAnchor.
  unfoldable pub anchor_on_cloud :
      LocalizerSettings M → M.Code → M.Xform → Marker M → LocalizerState M → LocalizerState M
  anchor_on_cloud cfg source world marker s =
      let solved = solve_transform cfg world (record s {
        anchor_image = none;
        from_cloud = true;
        anchor_code = source;
        anchor = marker;
      }) in
      let there = record solved {
        is_localized = true;
        lost_reported = false;
        since_seen = M.literal 0;
      } in
      if s.is_localized then there else reset_reloc_detection M there

  unfoldable pub report_anchor : M.Code → Bool → Action M
  report_anchor source was_localized s =
      if was_localized
      then when (not (is_relocating s.state)) (send (on_anchor_changed source)) s
      else send (on_localized source) s

  unfoldable pub localize_from_cloud_anchor :
      LocalizerSettings M → ArFrame M → M.Code → M.Xform → Marker M → Action M
  localize_from_cloud_anchor cfg frame source world marker s =
      (change (anchor_on_cloud cfg source world marker)
          ▷ note_relocalization_fix M source
          ▷ update_current_pose M cfg frame
          ▷ report_anchor source s.is_localized)
        s

  -- ApplyCloudBlendTransform.
  unfoldable pub apply_cloud_blend_transform : M.Xform → LocalizerState M → LocalizerState M
  apply_cloud_blend_transform world s =
      if not s.is_localized || not s.from_cloud || is_relocating s.state || is_recovered s.state
      then s
      else record s { map_to_world = world }

  -- ResetLocalization, StopScanning, StartLocalizing and RescanFromUser. A default FNavMarker is the
  -- origin.
  abbrev pub no_marker : Marker M
  no_marker = record {
    x_cm = M.literal 0;
    y_cm = M.literal 0;
    z_cm = M.literal 0;
    heading = M.literal 0;
  }

  abbrev pub no_pose : MapPose M
  no_pose = record {
    x_cm = M.literal 0;
    y_cm = M.literal 0;
    z_cm = M.literal 0;
    heading = M.literal 0;
    has_heading = false;
  }

  unfoldable pub clear : LocalizerState M → LocalizerState M
  clear s = reset_reloc_detection M (record s {
    is_scanning = false;
    is_localized = false;
    lost_reported = false;
    since_seen = M.literal 0;
    anchor_image = none;
    anchor_code = M.no_code;
    anchor = no_marker;
    from_cloud = false;
    map_to_world = M.identity;
    current_pose = no_pose;
    poor_seconds = M.literal 0;
    good_seconds = M.literal 0;
    is_degraded = false;
    state = localized;
    reason = no_reason;
    pending_source = M.no_code;
    pending_resume = false;
    soft_hint_seconds = M.literal 0;
    soft_hint_shown = false;
  })

  unfoldable pub reset_localization : Action M
  reset_localization s = (clear s, was_reset ∷ [])

  unfoldable pub stop_scanning : LocalizerState M → LocalizerState M
  stop_scanning s = record s { is_scanning = false }

  unfoldable pub begin_scanning : M.Code → Action M
  begin_scanning map = change (λ s. record s { is_scanning = true; last_map = map }) ▷ λ s.
      when (not s.markers_ready) (send (markers_requested map)) s

  unfoldable pub start_localizing : Bool → M.Code → Action M
  start_localizing has_client map = reset_localization ▷ when has_client (begin_scanning map)

  unfoldable pub rescan_from_user : Bool → Action M
  rescan_from_user has_client s = start_localizing has_client s.last_map s

  -- HandleMarkersReceived and HandleMarkersFailed.
  unfoldable pub add_marker :
      M.Code → Marker M → List (M.Code × Marker M) → List (M.Code × Marker M)
  add_marker c m [] = (c, m) ∷ []
  add_marker c m ((k, v) ∷ rest) =
      let later = add_marker c m rest in if M.same_code k c then (c, m) ∷ rest else (k, v) ∷ later

  unfoldable pub add_markers :
      List (M.Code × Marker M) → List (M.Code × Marker M) → List (M.Code × Marker M)
  add_markers [] known = known
  add_markers ((c, m) ∷ rest) known = add_markers rest (add_marker c m known)

  unfoldable pub is_none_known : List (M.Code × Marker M) → Bool
  is_none_known [] = true
  is_none_known (x ∷ xs) = false

  unfoldable pub handle_markers_received :
      List (M.Code × Marker M) → LocalizerState M → LocalizerState M
  handle_markers_received markers s =
      let known = add_markers markers [] in
      record s { known_markers = known; markers_ready = not (is_none_known known) }
