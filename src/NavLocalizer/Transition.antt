-- ===== src/NavLocalizer/Transition.antt =====
-- TryTransitionAnchor and DecideAnchorTransition of TimeMachineAR/Source/TimeMachineAR/NavLocalizer.cpp, and
-- the block of Tick that solves the transform again.
use ai_xr_project.Base.{
  ℕ, List, [], ◌∷◌, ◌++◌, map, Option, none, some, Bool, true, false, not, ◌&&◌, ◌||◌, ◌==◌,
  if◌then◌else◌,
}
use ai_xr_project.NavLocalizer.{
  ArMath, Marker, Image, ArFrame, LocalizerSettings, LocalizerState, on_anchor_changed, on_lost,
  Action, ◌▷◌, stay, send, change, when,
}
use ai_xr_project.NavLocalizer.Relocation.{
  is_relocating, note_anchor_observed, note_relocalization_fix,
}
use ai_xr_project.NavLocalizer.Anchor.{
  solve_transform, find_marker, has_code, known_image, anchor_on,
}

module _ (M : ArMath) where
  -- DecideAnchorTransition.
  unfoldable pub other_code : M.Code → M.Code → List M.Code → M.Code
  other_code fallback current [] = fallback
  other_code fallback current (k ∷ rest) =
      let later = other_code fallback current rest in if M.same_code k current then later else k

  unfoldable pub new_code : M.Code → List M.Code → List M.Code → M.Code
  new_code current before [] = M.no_code
  new_code current before (k ∷ rest) =
      let later = new_code current before rest in
      if not (M.same_code k current) && not (has_code M k before) then k else later

  unfoldable pub decide_anchor_transition : M.Code → Bool → List M.Code → List M.Code → M.Code
  decide_anchor_transition current tracking [] before = M.no_code
  decide_anchor_transition current tracking (k ∷ ks) before =
      if tracking then new_code current before (k ∷ ks) else other_code k current (k ∷ ks)

  -- The tracked images of known markers, one for each code.
  unfoldable pub add_image :
      Image M → Option (M.Code × Marker M) → List (M.Code × Image M) → List (M.Code × Image M)
  add_image image none seen = seen
  add_image image (some (c, m)) seen =
      if has_code M c (map (λ e. e.0) seen) then seen else seen ++ ((c, image) ∷ [])

  unfoldable pub tracked_known :
      LocalizerState M → List (Image M) → List (M.Code × Image M) → List (M.Code × Image M)
  tracked_known s [] seen = seen
  tracked_known s (image ∷ rest) seen =
      tracked_known s rest (add_image image (known_image M s image) seen)

  unfoldable pub image_of : M.Code → List (M.Code × Image M) → Option (Image M)
  image_of c [] = none
  image_of c ((k, image) ∷ rest) =
      let found = image_of c rest in if M.same_code k c then some image else found

  -- The anchor's image, when it is tracked.
  unfoldable pub tracked_image : ℕ → List (Image M) → Option (Image M)
  tracked_image i [] = none
  tracked_image i (image ∷ rest) =
      let found = tracked_image i rest in
      if image.image_id == i then if image.is_tracking then some image else none else found

  unfoldable pub tracked_anchor : Option ℕ → List (Image M) → Option (Image M)
  tracked_anchor none images = none
  tracked_anchor (some i) images = tracked_image i images

  unfoldable pub is_there : Option (Image M) → Bool
  is_there none = false
  is_there (some image) = true

  -- TryTransitionAnchor.
  unfoldable pub move_to :
      LocalizerSettings M → M.Code → Option (Image M) → Option (Marker M) → Action M
  move_to cfg code none marker = stay
  move_to cfg code (some image) none = stay
  move_to cfg code (some image) (some marker) =
      change (λ s. record (anchor_on M cfg image (code, marker) s) {
        since_seen = M.literal 0;
        lost_reported = false;
      })
      ▷ note_relocalization_fix M code
      ▷ λ s. when (not (is_relocating s.state)) (send (on_anchor_changed code)) s

  unfoldable pub move_unless_same :
      LocalizerSettings M → M.Code → List (M.Code × Image M) → Action M
  move_unless_same cfg code seen s =
      if M.is_empty code || M.same_code code s.anchor_code
      then stay s
      else move_to cfg code (image_of code seen) (find_marker M code s.known_markers) s

  unfoldable pub try_transition_anchor : LocalizerSettings M → ArFrame M → Action M
  try_transition_anchor cfg frame s =
      let seen = tracked_known s frame.images [] in
      let codes = map (λ e. e.0) seen in
      let tracking = is_there (tracked_anchor s.anchor_image frame.images) in
      let code = decide_anchor_transition s.anchor_code tracking codes s.last_scan in
      move_unless_same cfg code seen (record s { last_scan = codes })

  unfoldable pub scan_anchors : LocalizerSettings M → ArFrame M → M.Real → Action M
  scan_anchors cfg frame dt s =
      let since = M.addf s.since_scan dt in
      if M.at_most cfg.anchor_scan_interval since
      then try_transition_anchor cfg frame (record s { since_scan = M.literal 0 })
      else stay (record s { since_scan = since })

  -- The block of Tick that solves the transform again while the anchor's image is tracked,
  unfoldable pub is_reacquired : LocalizerSettings M → LocalizerState M → Bool
  is_reacquired cfg s = cfg.relatch_on_reacquire && M.at_most cfg.reacquire_gap s.since_seen

  unfoldable pub is_reloc_relatch : LocalizerSettings M → LocalizerState M → Bool
  is_reloc_relatch cfg s = is_relocating s.state && M.at_most cfg.reloc_pin_stable s.reloc_good

  unfoldable pub solve_again : LocalizerSettings M → Image M → Action M
  solve_again cfg image s =
      let again = is_reacquired cfg s || is_reloc_relatch cfg s in
      (when (cfg.continuous_relatch || again) (
            change (solve_transform M cfg image.world) ▷ λ t.
            when again (note_relocalization_fix M t.anchor_code) t)
          ▷ change (λ t. record t { since_seen = M.literal 0; lost_reported = false })
          ▷ note_anchor_observed M)
        s

  -- and that counts the time otherwise.
  unfoldable pub count_unseen : LocalizerSettings M → M.Real → Action M
  count_unseen cfg dt s =
      let since = M.addf s.since_seen dt in
      let counted = record s { since_seen = since } in
      if M.less (M.literal 0) cfg.lost_after && not s.lost_reported && M.less cfg.lost_after since
      then (record counted { lost_reported = true }, on_lost ∷ [])
      else stay counted

  unfoldable pub relatch_or_count : LocalizerSettings M → M.Real → Option (Image M) → Action M
  relatch_or_count cfg dt none = count_unseen cfg dt
  relatch_or_count cfg dt (some image) = solve_again cfg image
