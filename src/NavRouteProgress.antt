-- ===== src/NavRouteProgress.antt =====
-- TimeMachineAR/Source/TimeMachineAR/NavRouteProgress.h and NavRouteProgress.cpp: the progress along a
-- route. Here are the state and the operations that set a route. The geometry of the engine and its
-- floating-point numbers are a parameter. An array access out of range, at which the engine stops
-- the program, is `none`.
pub mod Track
pub mod Guide
pub mod Ranges
pub mod Poses
pub mod Current
pub mod Calls
pub mod Nearest
pub mod Placed
pub mod Pivots
use ai_xr_project.Base.{ℕ, List, [], ◌∷◌, map, Option, none, some, Bool, true, false, if◌then◌else◌}

-- Real is double and Flo is float. `less` is <, `at_most` is <=, and `lower`, `upper` and `clamp` are
-- FMath::Min, FMath::Max and FMath::Clamp. `largest` is the limit of float and `small` is
-- KINDA_SMALL_NUMBER.
pub record Geometry : Type 1 where
  pub Real : Type 0
  pub Flo : Type 0
  pub Point : Type 0
  pub Text : Type 0
  pub zero_flo : Flo
  pub one_flo : Flo
  pub small : Flo
  pub largest : Flo
  pub add : Flo → Flo → Flo
  pub sub : Flo → Flo → Flo
  pub mul : Flo → Flo → Flo
  pub div : Flo → Flo → Flo
  pub less : Flo → Flo → Bool
  pub at_most : Flo → Flo → Bool
  pub lower : Flo → Flo → Flo
  pub upper : Flo → Flo → Flo
  pub clamp : Flo → Flo → Flo → Flo
  pub narrow : Real → Flo
  pub widen : Flo → Real
  pub add_real : Real → Real → Real
  pub make_point : Flo → Flo → Point
  pub zero_point : Point
  pub add_point : Point → Point → Point
  pub sub_point : Point → Point → Point
  pub scale : Point → Flo → Point
  pub dot : Point → Point → Real
  pub size : Point → Real
  pub lerp : Point → Point → Flo → Point
  pub empty_text : Text
  pub is_empty : Text → Bool

module _ (G : Geometry) where
  -- FNavWaypoint, as far as it is read.
  pub record Waypoint : Type 0 where
    pub x_cm : G.Flo
    pub y_cm : G.Flo

  -- FNavStep.
  pub record NavStep : Type 0 where
    pub instruction : G.Text
    pub distance : G.Flo
    pub has_distance : Bool
    pub turn : G.Text
    pub is_arrive : Bool

  -- FNavRoute, as far as it is read.
  pub record NavRoute : Type 0 where
    pub waypoints : List Waypoint
    pub steps : List NavStep

  -- FNavProgress. INDEX_NONE is `none`.
  pub record Progress : Type 0 where
    pub segment_index : Option ℕ
    pub segment_t : G.Flo
    pub remaining : G.Flo
    pub lateral_offset : G.Flo
    pub is_off_route : Bool
    pub is_arrived : Bool
    pub is_valid : Bool

  -- The settings.
  pub record Tuning : Type 0 where
    pub off_route_threshold : G.Flo
    pub search_window : ℕ
    pub segment_hysteresis : G.Flo
    pub draw_smoothing_alpha : G.Flo
    pub arrive_threshold : G.Flo
    pub arrive_exit_hysteresis : G.Flo

  -- The private members.
  pub record RouteProgress : Type 0 where
    pub route_points : List G.Point
    pub cumulative : List G.Flo
    pub steps : List NavStep
    pub step_start : List G.Flo
    pub step_end : List G.Flo
    pub last_segment : Option ℕ
    pub smoothed_draw : G.Point
    pub has_smoothed : Bool
    pub last_progress : Progress

module _ (G : Geometry) where
  -- A default FNavProgress, and the state of a new object.
  abbrev pub no_progress : Progress G
  no_progress = record {
    segment_index = none;
    segment_t = G.zero_flo;
    remaining = G.zero_flo;
    lateral_offset = G.zero_flo;
    is_off_route = false;
    is_arrived = false;
    is_valid = false;
  }

  abbrev pub no_route : RouteProgress G
  no_route = record {
    route_points = [];
    cumulative = [];
    steps = [];
    step_start = [];
    step_end = [];
    last_segment = none;
    smoothed_draw = G.zero_point;
    has_smoothed = false;
    last_progress = no_progress;
  }

  -- The loop that fills CumCm, after its first point.
  unfoldable pub accumulate : G.Flo → G.Point → List G.Point → List G.Flo
  accumulate acc p [] = []
  accumulate acc p (q ∷ qs) =
      let acc' = G.narrow (G.add_real (G.widen acc) (G.size (G.sub_point q p))) in
      acc' ∷ accumulate acc' q qs

  unfoldable pub cumulative_table : List G.Point → List G.Flo
  cumulative_table [] = []
  cumulative_table (p ∷ ps) = G.zero_flo ∷ accumulate G.zero_flo p ps

  -- SetRoutePoints.
  unfoldable pub set_route_points : RouteProgress G → List G.Point → RouteProgress G
  set_route_points s points = record s {
    route_points = points;
    cumulative = cumulative_table points;
    steps = [];
    step_start = [];
    step_end = [];
    last_segment = none;
    has_smoothed = false;
    last_progress = no_progress;
  }

  -- CumCm.Last(), or 0 of an empty table.
  unfoldable pub last_or : G.Flo → List G.Flo → G.Flo
  last_or d [] = d
  last_or d (x ∷ xs) = last_or x xs

  -- One round of the loop of SetSteps: where the next step starts, and the interval of this one.
  unfoldable pub advance : G.Flo → G.Flo → NavStep G → G.Flo
  advance total acc step =
      if step.is_arrive
      then acc
      else if step.has_distance
      then G.lower (G.add acc (G.upper step.distance G.zero_flo)) total
      else acc

  unfoldable pub start_of : G.Flo → G.Flo → NavStep G → G.Flo
  start_of total acc step = if step.is_arrive then total else acc

  unfoldable pub end_of : G.Flo → G.Flo → NavStep G → G.Flo
  end_of total acc step = if step.is_arrive then total else advance total acc step

  unfoldable pub step_starts : G.Flo → G.Flo → List (NavStep G) → List G.Flo
  step_starts total acc [] = []
  step_starts total acc (step ∷ rest) =
      start_of total acc step ∷ step_starts total (advance total acc step) rest

  unfoldable pub step_ends : G.Flo → G.Flo → List (NavStep G) → List G.Flo
  step_ends total acc [] = []
  step_ends total acc (step ∷ rest) =
      end_of total acc step ∷ step_ends total (advance total acc step) rest

  -- SetSteps.
  unfoldable pub set_steps : RouteProgress G → List (NavStep G) → RouteProgress G
  set_steps s steps =
      let total = last_or G.zero_flo s.cumulative in
      record s {
        steps = steps;
        step_start = step_starts total G.zero_flo steps;
        step_end = step_ends total G.zero_flo steps;
      }

  unfoldable pub point_of : Waypoint G → G.Point
  point_of w = G.make_point w.x_cm w.y_cm

  -- SetRoute.
  unfoldable pub set_route : RouteProgress G → NavRoute G → RouteProgress G
  set_route s route = set_steps (set_route_points s (map point_of route.waypoints)) route.steps

  -- Reset. The smoothed position keeps its value.
  unfoldable pub reset_route : RouteProgress G → RouteProgress G
  reset_route s = record s {
    route_points = [];
    cumulative = [];
    steps = [];
    step_start = [];
    step_end = [];
    last_segment = none;
    has_smoothed = false;
    last_progress = no_progress;
  }
