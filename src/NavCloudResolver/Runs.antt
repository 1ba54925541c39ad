-- ===== src/NavCloudResolver/Runs.antt =====
-- The runs of TimeMachineAR/Source/TimeMachineAR/NavCloudResolver.cpp: ticks, lists of anchors from the server
-- and the end, in any order.
use Prim.Native.Nat.{max}
use ai_xr_project.Base.{
  ℕ, ◌≤◌, ◌≡◌, refl, ap, ◌∙◌, ltb, List, [], ◌∷◌, Option, ◌==◌, if◌then◌else◌, length, arith, All,
  Bool-cases, inl, inr,
}
use ai_xr_project.NavCloudResolver.{
  Engine, Entry, Settings, Frame, Resolver, Localizer, new_resolver, pendings, count_live_resolves,
  release_cloud_pin, flights,
}
use ai_xr_project.NavCloudResolver.Poll.{tick_resolves}
use ai_xr_project.NavCloudResolver.Anchors.{
  AnchorRow, apply_rows, seen_points, drop_unseen, sort_entries, apply_anchors, release_all,
  deinitialize,
}
use ai_xr_project.NavCloudResolver.Load.{load, release_cloud_pin-Released}
use ai_xr_project.NavCloudResolver.Quiet.{FailuresEnd}
use ai_xr_project.NavCloudResolver.Slots.{IsWithin, SortsNumbers}
use ai_xr_project.NavCloudResolver.Ticks.{tick_resolves-IsWithin}
use ai_xr_project.NavCloudResolver.Listed.{
  IsSettled, IsKept-trans, IsKept-refl, flights-sort_entries,
}
use ai_xr_project.NavCloudResolver.Rows.{IsKept-if, apply_rows-IsKept, drop_unseen-IsKept}

module _ (E : Engine) where
  -- A new list of anchors keeps the bounds.
  apply_anchors-IsWithin :
      (f : Frame E) (cfg : Settings E) (s : Resolver E) (rows : List (AnchorRow E))
      → All (IsSettled E f) s.entries
      → IsWithin E cfg s
      → IsWithin E cfg (apply_anchors E f s rows)
  unfolding apply_anchors load
  apply_anchors-IsWithin f cfg s rows h w =
      let t = apply_rows E f s rows in
      let first = apply_rows-IsKept E f s rows h in
      let seen = seen_points E rows in
      let dropped = drop_unseen E f seen (length t.entries) t in
      let u = if ltb 0 (length seen) then dropped else t in
      let second =
        IsKept-if E f t dropped t (ltb 0 (length seen))
          (drop_unseen-IsKept E f seen (length t.entries) t first.1.1)
          (IsKept-refl E f t first.1.1) in
      let kept = IsKept-trans E f s t u first second in
      let bounds : IsWithin E cfg (record u { entries = sort_entries E u.entries }) = (
        omega (arith, kept.0, w.0, flights-sort_entries E u.entries),
        omega (arith, ap length kept.1.0, w.1),
      ) in
      elim (Bool-cases (length (sort_entries E u.entries) == 0)) [
        | inl e ↦ rw (e, apply_anchors) bounds
        | inr e ↦ rw (e, apply_anchors) bounds
      ]

  -- The calls of the engine on the resolver.
  pub data Call : Type 0 where
    ticks : Frame E → Call
    lists : Frame E → List (AnchorRow E) → Call
    ends : Frame E → Call

  abbrev pub call : Settings E → Resolver E → Call → Resolver E
  call cfg s (ticks f) = tick_resolves E f cfg s
  call cfg s (lists f rows) = apply_anchors E f s rows
  call cfg s (ends f) = deinitialize E f s

  abbrev pub run_calls : Settings E → Resolver E → List Call → Resolver E
  run_calls cfg s [] = s
  run_calls cfg s (c ∷ cs) = run_calls cfg (call cfg s c) cs

  -- The plug-in's pins in a run: one that has failed is not pending, and when a list of anchors arrives
  -- no pin whose anchor is recognised is.
  abbrev pub IsRun : Settings E → Resolver E → List Call → Type 0
  IsRun cfg s [] = Unit
  IsRun cfg s (ticks f ∷ cs) = FailuresEnd E f × IsRun cfg (call cfg s (ticks f)) cs
  IsRun cfg s (lists f rows ∷ cs) =
      All (IsSettled E f) s.entries × IsRun cfg (call cfg s (lists f rows)) cs
  IsRun cfg s (ends f ∷ cs) = IsRun cfg (call cfg s (ends f)) cs

  release_all-recent :
      (f : Frame E) (es : List (Entry E)) (s : Resolver E)
      → (release_all E f s es).recent ≡ s.recent
  unfolding release_all
  release_all-recent f [] s = refl
  release_all-recent f (e ∷ es) s =
      release_all-recent f es (release_cloud_pin E f s e.pin).0
      ∙ (release_cloud_pin-Released E f s e.pin).1.0

  deinitialize-IsWithin :
      (f : Frame E) (cfg : Settings E) (s : Resolver E)
      → IsWithin E cfg s
      → IsWithin E cfg (deinitialize E f s)
  unfolding deinitialize load flights
  deinitialize-IsWithin f cfg s h =
      (omega arith, omega (arith, ap length (release_all-recent f s.entries s), h.1))

  run_calls-IsWithin :
      (cfg : Settings E) (cs : List Call) (s : Resolver E)
      → SortsNumbers E
      → IsRun cfg s cs
      → IsWithin E cfg s
      → IsWithin E cfg (run_calls cfg s cs)
  run_calls-IsWithin cfg [] s sorts legal h = h
  run_calls-IsWithin cfg (ticks f ∷ cs) s sorts legal h =
      run_calls-IsWithin cfg cs (tick_resolves E f cfg s) sorts legal.1
        (tick_resolves-IsWithin E f cfg s sorts legal.0 h)
  run_calls-IsWithin cfg (lists f rows ∷ cs) s sorts legal h =
      run_calls-IsWithin cfg cs (apply_anchors E f s rows) sorts legal.1
        (apply_anchors-IsWithin f cfg s rows legal.0 h)
  run_calls-IsWithin cfg (ends f ∷ cs) s sorts legal h =
      run_calls-IsWithin cfg cs (deinitialize E f s) sorts legal (deinitialize-IsWithin f cfg s h)

  pendings_le : (f : Frame E) (ps : List ℕ) → pendings E f ps ≤ length ps
  unfolding pendings
  pendings_le f [] = omega arith
  pendings_le f (p ∷ ps) = ground (arith, pendings_le f ps)

  -- Whatever the plug-in answers and whatever the server lists, in any order of ticks, lists and ends: a
  -- resolver that starts new never has more live resolves, counted with the orphans that are still
  -- pending at any time, than MaxConcurrentResolves, or one, and never more requests of the last
  -- minute on record than the greater of MaxResolveRequestsPerMinute and 60. Assumed: the engine's sort
  -- keeps how often each number occurs, a pin that has failed is not pending, and neither is a pin
  -- whose anchor is recognised when a list arrives.
  pub run_calls-count_live_resolves :
      (cfg : Settings E) (cs : List Call) (localizer : Option Localizer) (f : Frame E)
      → SortsNumbers E
      → IsRun cfg (new_resolver E localizer) cs
      → (let s = run_calls cfg (new_resolver E localizer) cs in
          (count_live_resolves E f s ≤ max 1 cfg.max_concurrent)
          × (length s.recent ≤ max (max 1 cfg.max_per_minute) 60))
  unfolding count_live_resolves load new_resolver flights
  run_calls-count_live_resolves cfg cs localizer f sorts legal =
      let s = run_calls cfg (new_resolver E localizer) cs in
      let h =
        run_calls-IsWithin cfg cs (new_resolver E localizer) sorts legal
          (omega arith, omega arith) in
      (omega (arith, h.0, pendings_le f s.orphans), h.1)
