-- ===== src/NavRouteProgress/Current.antt =====
-- The index checks of GetGuidance in TimeMachineAR/Source/TimeMachineAR/NavRouteProgress.cpp.
use ai_xr_project.Base.{
  ℕ, suc, ◌+◌, ◌<◌, ltb, List, [], ◌∷◌, Option, none, some, ◌≡◌, refl, arith, length, get_elem?-lt,
  Bool-cases, not, ◌||◌, inl, inr,
}
use native.Mathlib.Nat.{zero-add}
use ai_xr_project.NavRouteProgress.{Geometry, NavStep, RouteProgress}
use ai_xr_project.NavRouteProgress.Guide.{
  Guidance, first_ahead, step_or_last, current_step, guidance_at, guidance_of, guide, get_guidance,
  limit_of, no_guidance,
}
use ai_xr_project.NavRouteProgress.Ranges.{IsConsistent}

-- A step, if there is one, is one of a number of steps.
abbrev InSteps : Option ℕ → ℕ → Type 0
InSteps none n = Unit
InSteps (some i) n = i < n

InSteps-suc : (o : Option ℕ) (i n : ℕ) → InSteps o (suc i + n) → InSteps o (i + suc n)
InSteps-suc none i n h = tt
InSteps-suc (some j) i n h = omega arith

module _ (G : Geometry) where
  step_or_last-lt :
      (steps : List (NavStep G)) (o : Option ℕ)
      → 0 < length steps
      → InSteps o (length steps)
      → step_or_last G steps o < length steps
  unfolding step_or_last
  step_or_last-lt steps none n h = omega arith
  step_or_last-lt steps (some i) n h = h

  first_ahead-lt :
      (limit : G.Flo) (i : ℕ) (steps : List (NavStep G)) (ends : List G.Flo)
      → length ends ≡ length steps
      → (o : Option ℕ) × ((first_ahead G limit i steps ends ≡ some o)
          × InSteps o (i + length steps))
  unfolding first_ahead
  first_ahead-lt limit i [] ends h = (none, (refl, tt))
  first_ahead-lt limit i (s ∷ ss) [] h = absurd (omega arith)
  first_ahead-lt limit i (s ∷ ss) (e ∷ es) h =
      let (o, (eo, ho)) = first_ahead-lt limit (suc i) ss es (omega arith) in
      elim (Bool-cases (G.less limit e)) [
        | inl ahead ↦ (some i, (rw ahead, omega arith))
        | inr passed ↦ (o, (rw (passed, eo), InSteps-suc o i (length ss) ho))
      ]

  current_step-lt :
      (s : RouteProgress G)
      → IsConsistent G s
      → 0 < length s.steps
      → (i : ℕ) × ((current_step G s ≡ some i) × (i < length s.steps))
  unfolding current_step
  current_step-lt s h n =
      let (o, (e, ho)) = first_ahead-lt (limit_of G s) 0 s.steps s.step_end h.end_size in
      (
        step_or_last G s.steps o,
        (rw e, step_or_last-lt s.steps o n (rw (zero-add (length s.steps)) at ho)),
      )

  guidance_at-lt :
      (s : RouteProgress G) (i : ℕ)
      → IsConsistent G s
      → i < length s.steps
      → (g : Guidance G) × (guidance_at G s i ≡ some g)
  unfolding guidance_at
  guidance_at-lt s i h n =
      let (step, e) = get_elem?-lt s.steps i n in
      let (end, ee) = get_elem?-lt s.step_end i (omega (arith, h.end_size)) in
      (guidance_of G s i step end, rw (e, ee))

  guide-IsConsistent :
      (s : RouteProgress G)
      → IsConsistent G s
      → 0 < length s.steps
      → (g : Guidance G) × (guide G s ≡ some g)
  unfolding guide
  guide-IsConsistent s h n =
      let (i, (e, i_lt)) = current_step-lt s h n in
      let (g, eg) = guidance_at-lt s i h i_lt in (g, rw (e, eg))

  pub get_guidance-IsConsistent :
      (s : RouteProgress G) → IsConsistent G s → (g : Guidance G) × (get_guidance G s ≡ some g)
  unfolding get_guidance
  get_guidance-IsConsistent s h =
      elim (Bool-cases
        (not s.last_progress.is_valid || ltb (length s.steps) 1 || ltb (length s.cumulative) 2)) [
          | inl e ↦ (no_guidance G, rw e)
          | inr e ↦ let (g, eg) = guide-IsConsistent s h (ground arith) in (g, rw (e, eg))
        ]
