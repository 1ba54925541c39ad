-- ===== src/NavRouteProgress/Pivots.antt =====
-- The current step of GetGuidance in TimeMachineAR/Source/TimeMachineAR/NavRouteProgress.cpp: a turn takes
-- no length of the route, so that the steps at its sides are shown instead.
use ai_xr_project.Base.{
  ℕ, suc, ◌+◌, ◌-◌, List, [], ◌∷◌, none, some, true, false, ◌≡◌, refl, sym, ◌∙◌, ap, subst, arith,
  length, get_elem?, ◌⊎◌, inl, inr, Bool-cases, Option-cases, not, ◌||◌, ltb,
}
use mathlib.Core.Option.{some-injective, none-ne-some}
use ai_xr_project.NavRouteProgress.{
  Geometry, Tuning, NavStep, RouteProgress, no_route, last_or, advance, end_of, step_ends,
}
use ai_xr_project.NavRouteProgress.Guide.{
  Guidance, RouteCall, first_ahead, step_or_last, current_step, guidance_at, guidance_of, guide,
  get_guidance, limit_of, travelled_of, no_guidance, run_all,
}
use ai_xr_project.NavRouteProgress.Placed.{IsPlaced, run_all-IsPlaced, no_route-IsPlaced}
use ai_xr_project.NavRouteProgress.Calls.{run_all-returns}

module _ (G : Geometry) where
  -- A step shown by its number is a straight one, an arrival or the last.
  abbrev pub IsShown : List (NavStep G) → ℕ → Type 0
  IsShown steps i =
      (step : NavStep G)
      → get_elem? steps i ≡ some step
      → ((step.is_arrive || step.has_distance) ≡ true) ⊎ (i ≡ length steps - 1)

module _ (G : Geometry) (zero_least : G.less G.zero_flo G.zero_flo ≡ false)
    (grows : (a : G.Flo) (p : G.Point)
      → G.less a G.zero_flo ≡ false
      → G.less (G.narrow (G.add_real (G.widen a) (G.size p))) G.zero_flo ≡ false)
    (clamp_low : (x hi : G.Flo)
      → G.less hi G.zero_flo ≡ false
      → G.less (G.clamp x G.zero_flo hi) G.zero_flo ≡ false)
    (add_small : (x : G.Flo)
      → G.less x G.zero_flo ≡ false
      → G.less (G.add x G.small) G.zero_flo ≡ false) where
  ahead_straight :
      (limit total acc : G.Flo) (step : NavStep G)
      → G.less limit acc ≡ false
      → G.less limit (end_of G total acc step) ≡ true
      → (step.is_arrive || step.has_distance) ≡ true
  unfolding end_of advance
  ahead_straight limit total acc step h e = ground arith

  passed_advance :
      (limit total acc : G.Flo) (step : NavStep G)
      → G.less limit acc ≡ false
      → G.less limit (end_of G total acc step) ≡ false
      → G.less limit (advance G total acc step) ≡ false
  unfolding end_of advance
  passed_advance limit total acc step h e = ground arith

  -- The step that the loop stops at: a straight one or an arrival.
  first_ahead-step :
      (steps : List (NavStep G)) (limit total acc : G.Flo) (i j : ℕ)
      → G.less limit acc ≡ false
      → first_ahead G limit i steps (step_ends G total acc steps) ≡ some (some j)
      → (k : ℕ) × (step : NavStep G) × ((j ≡ i + k)
          × ((get_elem? steps k ≡ some step) × ((step.is_arrive || step.has_distance) ≡ true)))
  unfolding first_ahead step_ends
  first_ahead-step [] limit total acc i j h e = absurd (ground arith)
  first_ahead-step (step ∷ steps) limit total acc i j h e =
      elim (Bool-cases (G.less limit (end_of G total acc step))) [
        | inl ahead ↦
            let here = some-injective i j (some-injective (some i) (some j) (rw ahead at e)) in
            (0, step, (omega (arith, here), (refl, ahead_straight limit total acc step h ahead)))
        | inr passed ↦
            let (k, found, (ek, rest)) =
              first_ahead-step steps limit total (advance G total acc step) (suc i) j
                (passed_advance limit total acc step h passed) (rw passed at e) in
            (suc k, found, (omega (arith, ek), rest))
      ]

  limit_least : (s : RouteProgress G) → IsPlaced G s → G.less (limit_of G s) G.zero_flo ≡ false
  unfolding limit_of travelled_of
  limit_least s h = add_small _ (clamp_low _ _ h.total_least)

  current_step-IsShown :
      (s : RouteProgress G) (i : ℕ) → IsPlaced G s → current_step G s ≡ some i → IsShown G s.steps i
  unfolding current_step step_or_last limit_of travelled_of
  current_step-IsShown s i h e step es =
      elim (Option-cases (first_ahead G (limit_of G s) 0 s.steps s.step_end)) [
        | inl ef ↦ absurd (none-ne-some i (rw ef at e))
        | inr (none, ef) ↦ inr (sym (some-injective _ i (rw ef at e)))
        | inr (some j, ef) ↦
            let here = some-injective j i (rw ef at e) in
            let (k, found, (ek, (ef', straight))) =
              first_ahead-step s.steps (limit_of G s) (last_or G G.zero_flo s.cumulative) G.zero_flo
                0 j (limit_least s h) (rw h.placed at ef) in
            let same = some-injective found step (
              sym ef'
              ∙ subst (λ n. get_elem? s.steps n ≡ some step) (omega (arith, here, ek)) es) in
            inl (rw (sym same) straight)
      ]

  guidance_at-step_index :
      (s : RouteProgress G) (g : Guidance G) (j : ℕ)
      → guidance_at G s j ≡ some g
      → g.step_index ≡ some j
  unfolding guidance_at guidance_of
  guidance_at-step_index s g j e = elim (Option-cases (get_elem? s.steps j)) [
    | inl none_there ↦ absurd (none-ne-some g (rw none_there at e))
    | inr (step, es) ↦
        let e₁ = rw es at e in
        elim (Option-cases (get_elem? s.step_end j)) [
          | inl none_there ↦ absurd (none-ne-some g (rw none_there at e₁))
          | inr (end, ee) ↦ sym (ap (λ x. x.step_index) (some-injective _ g (rw ee at e₁)))
        ]
  ]

  guide-IsShown :
      (s : RouteProgress G) (g : Guidance G) (i : ℕ)
      → IsPlaced G s
      → guide G s ≡ some g
      → g.step_index ≡ some i
      → IsShown G s.steps i
  unfolding guide
  guide-IsShown s g i h e eg = elim (Option-cases (current_step G s)) [
    | inl ec ↦ absurd (none-ne-some g (rw ec at e))
    | inr (j, ec) ↦
        let same = some-injective j i (sym (guidance_at-step_index s g j (rw ec at e)) ∙ eg) in
        current_step-IsShown s i h (ec ∙ ap some same)
  ]

  get_guidance-IsShown :
      (s : RouteProgress G) (g : Guidance G) (i : ℕ)
      → IsPlaced G s
      → get_guidance G s ≡ some g
      → g.step_index ≡ some i
      → IsShown G s.steps i
  unfolding get_guidance
  get_guidance-IsShown s g i h e eg =
      elim (Bool-cases
        (not s.last_progress.is_valid || ltb (length s.steps) 1 || ltb (length s.cumulative) 2)) [
          | inl off ↦ absurd (
              none-ne-some i
                (ap (λ x. x.step_index) (some-injective (no_guidance G) g (rw off at e)) ∙ eg))
          | inr on ↦ guide-IsShown s g i h (rw on at e) eg
        ]

  -- After any calls on a new object the guidance returns, and the step it shows, if it shows one, is a
  -- straight one, an arrival or the last of the list, so never a turn with a step after it. The
  -- hypotheses on floats: 0 is not below 0, adding the length of a segment to a number that is not below
  -- 0 does not bring it below 0, clamping to an interval from 0 does not, and adding KINDA_SMALL_NUMBER
  -- does not.
  pub get_guidance_no_pivot :
      (tuning : Tuning G) (cs : List (RouteCall G))
      → (s : RouteProgress G) × (g : Guidance G) × ((run_all G tuning (no_route G) cs ≡ some s)
          × ((get_guidance G s ≡ some g) × ((i : ℕ) → g.step_index ≡ some i → IsShown G s.steps i)))
  get_guidance_no_pivot tuning cs =
      let (s, (e, (h, ((g, eg), _)))) = run_all-returns G tuning cs in
      let placed =
        run_all-IsPlaced G zero_least grows clamp_low add_small tuning (no_route G) s cs e
          (no_route-IsPlaced G zero_least grows clamp_low add_small) in
      (s, g, (e, (eg, λ i ei. get_guidance-IsShown s g i placed eg ei)))
