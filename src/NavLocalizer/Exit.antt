-- ===== src/NavLocalizer/Exit.antt =====
-- The end of a relocalization in MonitorRelocalization of
-- TimeMachineAR/Source/TimeMachineAR/NavLocalizer.cpp.
use ai_xr_project.Base.{
  List, [], ◌∷◌, ◌++◌, Option, none, some, Bool, true, false, ◌&&◌, ◌≡◌, refl, ap, arith, ◌⊎◌, inl,
  inr, Bool-cases,
}
use ai_xr_project.NavLocalizer.{
  ArMath, relocalizing, recovered, Camera, ArFrame, LocalizerSettings, LocalizerState, Broadcast,
  on_relocalized, when,
}
use ai_xr_project.NavLocalizer.Judge.{judge_reloc_exit}
use ai_xr_project.NavLocalizer.Relocation.{
  is_relocating, show_pose, update_current_pose, mark_recovered, enter_recovered,
}
use ai_xr_project.NavLocalizer.Monitor.{
  is_good_frame, may_recover, monitor_relocalizing, count_good_seconds, monitor_state,
  monitor_relocalization,
}

module _ (M : ArMath) where
  -- What a relocalization that ends has waited for: a good frame, a fix, the shortest stay, and good
  -- quality for long enough.
  abbrev pub IsEarned : LocalizerSettings M → ArFrame M → M.Real → LocalizerState M → Type 0
  IsEarned cfg frame dt s =
      (is_good_frame M frame ≡ true)
      × (M.is_empty s.pending_source ≡ false)
      × (M.at_most cfg.reloc_min_stay (M.to_float (M.sub frame.now s.enter_time)) ≡ true)
      × (M.at_most cfg.quality_recover (M.addf s.reloc_good dt) ≡ true)

  -- The end of an action that succeeds: the state, and an event sent last.
  abbrev pub EndsWith : Broadcast M → LocalizerState M × List (Broadcast M) → Type 0
  EndsWith e r = (r.0.state ≡ recovered) × ((es : List (Broadcast M)) × (r.1 ≡ es ++ (e ∷ [])))

  show_pose-state :
      (cfg : LocalizerSettings M) (camera : Option (Camera M)) (s : LocalizerState M)
      → ((show_pose M cfg camera s).0.state ≡ s.state)
        × ((show_pose M cfg camera s).0.pending_source ≡ s.pending_source)
  unfolding show_pose
  show_pose-state cfg none s = (refl, refl)
  show_pose-state cfg (some camera) s = (refl, refl)

  update_current_pose-state :
      (cfg : LocalizerSettings M) (frame : ArFrame M) (s : LocalizerState M)
      → ((update_current_pose M cfg frame s).0.state ≡ s.state)
        × ((update_current_pose M cfg frame s).0.pending_source ≡ s.pending_source)
  unfolding update_current_pose
  update_current_pose-state cfg frame s = elim (Bool-cases (is_relocating s.state)) [
    | inl frozen ↦ rw frozen (refl, refl)
    | inr free ↦ rw free (show_pose-state cfg frame.camera s)
  ]

  when-state :
      (b : Bool) (cfg : LocalizerSettings M) (frame : ArFrame M) (s : LocalizerState M)
      → ((when b (update_current_pose M cfg frame) s).0.state ≡ s.state)
        × ((when b (update_current_pose M cfg frame) s).0.pending_source ≡ s.pending_source)
  when-state true cfg frame s = update_current_pose-state cfg frame s
  when-state false cfg frame s = (refl, refl)

  enter_recovered-EndsWith :
      (cfg : LocalizerSettings M) (frame : ArFrame M) (s : LocalizerState M)
      → EndsWith (on_relocalized M.no_code) (enter_recovered M cfg frame (λ t. t.pending_source) s)
  unfolding enter_recovered mark_recovered
  enter_recovered-EndsWith cfg frame s =
      let kept = when-state s.is_localized cfg frame (mark_recovered M frame s) in
      (
        kept.0,
        (
          (when s.is_localized (update_current_pose M cfg frame) (mark_recovered M frame s)).1,
          ap
              (λ c.
                (when s.is_localized (update_current_pose M cfg frame) (mark_recovered M frame s)).1
                ++ (on_relocalized c ∷ []))
              kept.1,
        ),
      )

  monitor_relocalizing-exit :
      (cfg : LocalizerSettings M) (frame : ArFrame M) (s : LocalizerState M)
      → s.state ≡ relocalizing
      → (((is_good_frame M frame && may_recover M cfg frame s) ≡ false)
          × ((monitor_relocalizing M cfg frame s).0.state ≡ relocalizing)
          × ((monitor_relocalizing M cfg frame s).1 ≡ []))
        ⊎ (((is_good_frame M frame && may_recover M cfg frame s) ≡ true)
            × EndsWith (on_relocalized M.no_code) (monitor_relocalizing M cfg frame s))
  unfolding monitor_relocalizing may_recover
  monitor_relocalizing-exit cfg frame s e = elim (Bool-cases (is_good_frame M frame)) [
    | inr bad ↦ inl (rw bad (refl, e, refl))
    | inl good ↦ elim (Bool-cases (may_recover M cfg frame s)) [
      | inr early ↦ inl (rw (good, early) (refl, e, refl))
      | inl due ↦ inr (
          rw (good, due)
            (refl, enter_recovered-EndsWith cfg frame (record s { pending_resume = false })))
    ]
  ]

  due-IsEarned :
      (cfg : LocalizerSettings M) (frame : ArFrame M) (dt : M.Real) (s : LocalizerState M)
      → (is_good_frame M frame && may_recover M cfg frame (count_good_seconds M frame dt s)) ≡ true
      → IsEarned cfg frame dt s
  unfolding may_recover judge_reloc_exit count_good_seconds
  due-IsEarned cfg frame dt s e = ground arith

  undue-IsEarned :
      (cfg : LocalizerSettings M) (frame : ArFrame M) (dt : M.Real) (s : LocalizerState M)
      → (is_good_frame M frame && may_recover M cfg frame (count_good_seconds M frame dt s)) ≡ false
      → ¬ IsEarned cfg frame dt s
  unfolding may_recover judge_reloc_exit count_good_seconds
  undue-IsEarned cfg frame dt s e (good, fix, stayed, steady) = ground arith

  -- While relocalizing, MonitorRelocalization either goes on and sends nothing, or it ends the
  -- relocalization. It ends it exactly with a good frame, with a fix noted, after the shortest stay and
  -- after good quality for long enough. The broadcast of the end, which is sent last, names no source although a
  -- source was noted: the reference to it is read after it was emptied.
  pub monitor_relocalization-exit :
      (cfg : LocalizerSettings M) (frame : ArFrame M) (dt : M.Real) (s : LocalizerState M)
      → s.state ≡ relocalizing
      → ((¬ IsEarned cfg frame dt s)
          × ((monitor_relocalization M cfg frame dt s).0.state ≡ relocalizing)
          × ((monitor_relocalization M cfg frame dt s).1 ≡ []))
        ⊎ (IsEarned cfg frame dt s
            × EndsWith (on_relocalized M.no_code) (monitor_relocalization M cfg frame dt s))
  unfolding monitor_relocalization monitor_state count_good_seconds is_relocating
  monitor_relocalization-exit cfg frame dt s e =
      let t = count_good_seconds M frame dt s in
      rw (ap is_relocating e) (elim (monitor_relocalizing-exit cfg frame t e) [
        | inl (undue, on, silent) ↦ inl (undue-IsEarned cfg frame dt s undue, on, silent)
        | inr (due, ends) ↦ inr (due-IsEarned cfg frame dt s due, ends)
      ])
