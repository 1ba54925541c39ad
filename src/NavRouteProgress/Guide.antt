-- ===== src/NavRouteProgress/Guide.antt =====
-- GetDrawPolyline and GetGuidance of TimeMachineAR/Source/TimeMachineAR/NavRouteProgress.cpp, and a run
-- of the operations in any order.
use ai_xr_project.Base.{
  ℕ, suc, ◌-◌, ltb, List, [], ◌∷◌, drop, Option, none, some, ◌>>=◌, Bool, true, false, not, ◌||◌,
  if◌then◌else◌, length, get_elem?,
}
use ai_xr_project.NavRouteProgress.{
  Geometry, Tuning, NavStep, NavRoute, RouteProgress, last_or, set_route, set_route_points,
  set_steps, reset_route,
}
use ai_xr_project.NavRouteProgress.Track.{update_pose}

-- FNavGuidance.
pub record Guidance (G : Geometry) : Type 0 where
  pub is_valid : Bool
  pub step_index : Option ℕ
  pub instruction : G.Text
  pub turn : G.Text
  pub step_remaining : G.Flo
  pub remaining : G.Flo
  pub is_arrived : Bool
  pub is_off_route : Bool
  pub next_turn : G.Text
  pub next_instruction : G.Text

-- The public calls that change the state.
pub data RouteCall (G : Geometry) : Type 0 where
  call_route : NavRoute G → RouteCall G
  call_points : List G.Point → RouteCall G
  call_steps : List (NavStep G) → RouteCall G
  call_reset : RouteCall G
  call_pose : G.Point → RouteCall G

module _ (G : Geometry) where
  unfoldable pub polyline_from : RouteProgress G → Option ℕ → List G.Point
  polyline_from s none = s.route_points
  polyline_from s (some i) =
      if s.has_smoothed then s.smoothed_draw ∷ drop (suc i) s.route_points else s.route_points

  -- GetDrawPolyline.
  unfoldable pub draw_polyline : RouteProgress G → List G.Point
  draw_polyline s =
      if ltb 0 (length s.route_points) then polyline_from s s.last_progress.segment_index else []

  -- The loop for the current step: the first that ends after the limit, if there is one.
  unfoldable pub first_ahead : G.Flo → ℕ → List (NavStep G) → List G.Flo → Option (Option ℕ)
  first_ahead limit i [] ends = some none
  first_ahead limit i (step ∷ steps) [] = none
  first_ahead limit i (step ∷ steps) (e ∷ ends) =
      let rest = first_ahead limit (suc i) steps ends in
      if G.less limit e then some (some i) else rest

  unfoldable pub step_or_last : List (NavStep G) → Option ℕ → ℕ
  step_or_last steps none = length steps - 1
  step_or_last steps (some i) = i

  -- The loop for the next turn or arrival, and what it stores.
  unfoldable pub next_turning : List (NavStep G) → Option (NavStep G)
  next_turning [] = none
  next_turning (step ∷ rest) =
      let later = next_turning rest in
      if step.is_arrive || not (G.is_empty step.turn) then some step else later

  unfoldable pub turn_text : Option (NavStep G) → G.Text
  turn_text none = G.empty_text
  turn_text (some step) = step.turn

  unfoldable pub instruction_text : Option (NavStep G) → G.Text
  instruction_text none = G.empty_text
  instruction_text (some step) = step.instruction

  abbrev pub no_guidance : Guidance G
  no_guidance = record {
    is_valid = false;
    step_index = none;
    instruction = G.empty_text;
    turn = G.empty_text;
    step_remaining = G.zero_flo;
    remaining = G.zero_flo;
    is_arrived = false;
    is_off_route = false;
    next_turn = G.empty_text;
    next_instruction = G.empty_text;
  }

  -- Travelled, and the limit with which the ends of the steps are compared.
  unfoldable pub travelled_of : RouteProgress G → G.Flo
  travelled_of s =
      let total = last_or G G.zero_flo s.cumulative in
      G.clamp (G.sub total s.last_progress.remaining) G.zero_flo total

  unfoldable pub limit_of : RouteProgress G → G.Flo
  limit_of s = G.add (travelled_of s) G.small

  unfoldable pub current_step : RouteProgress G → Option ℕ
  current_step s = do
    ahead ← first_ahead (limit_of s) 0 s.steps s.step_end
    some (step_or_last s.steps ahead)

  -- The guidance of a step and its end.
  unfoldable pub guidance_of : RouteProgress G → ℕ → NavStep G → G.Flo → Guidance G
  guidance_of s i step end =
      let next = next_turning (drop (suc i) s.steps) in
      record {
        is_valid = true;
        step_index = some i;
        instruction = step.instruction;
        turn = step.turn;
        step_remaining = G.upper G.zero_flo (G.sub end (travelled_of s));
        remaining = s.last_progress.remaining;
        is_arrived = s.last_progress.is_arrived;
        is_off_route = s.last_progress.is_off_route;
        next_turn = turn_text next;
        next_instruction = instruction_text next;
      }

  unfoldable pub guidance_at : RouteProgress G → ℕ → Option (Guidance G)
  guidance_at s i = do
    step ← get_elem? s.steps i
    end ← get_elem? s.step_end i
    some (guidance_of s i step end)

  unfoldable pub guide : RouteProgress G → Option (Guidance G)
  guide s = do i ← current_step s; guidance_at s i

  -- GetGuidance.
  unfoldable pub get_guidance : RouteProgress G → Option (Guidance G)
  get_guidance s =
      let found = guide s in
      if not s.last_progress.is_valid || ltb (length s.steps) 1 || ltb (length s.cumulative) 2
      then some no_guidance
      else found

  unfoldable pub run_call : Tuning G → RouteProgress G → RouteCall G → Option (RouteProgress G)
  run_call tuning s (call_route route) = some (set_route G s route)
  run_call tuning s (call_points points) = some (set_route_points G s points)
  run_call tuning s (call_steps steps) = some (set_steps G s steps)
  run_call tuning s call_reset = some (reset_route G s)
  run_call tuning s (call_pose p) = update_pose G tuning s p

  unfoldable pub run_all :
      Tuning G → RouteProgress G → List (RouteCall G) → Option (RouteProgress G)
  run_all tuning s [] = some s
  run_all tuning s (c ∷ cs) = do s' ← run_call tuning s c; run_all tuning s' cs
