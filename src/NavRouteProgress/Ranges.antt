-- ===== src/NavRouteProgress/Ranges.antt =====
-- The index checks of TimeMachineAR/Source/TimeMachineAR/NavRouteProgress.cpp over any calls.
use ai_xr_project.Base.{
  ℕ, zero, suc, ◌+◌, ◌-◌, ◌<◌, List, [], ◌∷◌, Option, none, some, ◌≡◌, refl, ap, arith, length,
  get_elem?-lt,
}
use ai_xr_project.NavRouteProgress.{
  Geometry, Tuning, NavStep, RouteProgress, accumulate, cumulative_table, step_starts, step_ends,
  set_route_points, set_steps,
}
use ai_xr_project.NavRouteProgress.Track.{
  Best, projection, project_to_segment, better, search, window_low, window_high, no_best,
  best_segment,
}

-- A segment, if there is one, lies on a route of a number of points.
abbrev pub OnRoute : Option ℕ → ℕ → Type 0
OnRoute none n = Unit
OnRoute (some i) n = suc i < n

module _ (G : Geometry) where
  -- The tables have the sizes of what they describe, and the kept segments lie on the route.
  pub record IsConsistent (s : RouteProgress G) : Type 0 where
    pub cumulative_size : length s.cumulative ≡ length s.route_points
    pub start_size : length s.step_start ≡ length s.steps
    pub end_size : length s.step_end ≡ length s.steps
    pub last_on_route : OnRoute s.last_segment (length s.route_points)
    pub shown_on_route : OnRoute s.last_progress.segment_index (length s.route_points)

  length-accumulate :
      (qs : List G.Point) (p : G.Point) (acc : G.Flo) → length (accumulate G acc p qs) ≡ length qs
  unfolding accumulate
  length-accumulate [] p acc = refl
  length-accumulate (q ∷ qs) p acc = ap suc (length-accumulate qs q _)

  length-cumulative_table : (ps : List G.Point) → length (cumulative_table G ps) ≡ length ps
  unfolding cumulative_table
  length-cumulative_table [] = refl
  length-cumulative_table (p ∷ ps) = ap suc (length-accumulate ps p G.zero_flo)

  length-step_starts :
      (steps : List (NavStep G)) (total acc : G.Flo)
      → length (step_starts G total acc steps) ≡ length steps
  unfolding step_starts
  length-step_starts [] total acc = refl
  length-step_starts (s ∷ ss) total acc = ap suc (length-step_starts ss total _)

  length-step_ends :
      (steps : List (NavStep G)) (total acc : G.Flo)
      → length (step_ends G total acc steps) ≡ length steps
  unfolding step_ends
  length-step_ends [] total acc = refl
  length-step_ends (s ∷ ss) total acc = ap suc (length-step_ends ss total _)

  pub set_route_points-IsConsistent :
      (s : RouteProgress G) (points : List G.Point) → IsConsistent (set_route_points G s points)
  unfolding set_route_points
  set_route_points-IsConsistent s points = record {
    cumulative_size = length-cumulative_table points;
    start_size = refl;
    end_size = refl;
    last_on_route = tt;
    shown_on_route = tt;
  }

  pub set_steps-IsConsistent :
      (s : RouteProgress G) (steps : List (NavStep G))
      → IsConsistent s
      → IsConsistent (set_steps G s steps)
  unfolding set_steps
  set_steps-IsConsistent s steps h = record {
    cumulative_size = h.cumulative_size;
    start_size = length-step_starts steps _ G.zero_flo;
    end_size = length-step_ends steps _ G.zero_flo;
    last_on_route = h.last_on_route;
    shown_on_route = h.shown_on_route;
  }

  -- The projection on a segment of the route passes its range checks.
  pub projection-lt :
      (points : List G.Point) (p : G.Point) (s : ℕ)
      → suc s < length points
      → (found : G.Flo × G.Flo) × (projection G points p s ≡ some found)
  unfolding projection
  projection-lt points p s h =
      let (a, ea) = get_elem?-lt points s (omega arith) in
      let (b, eb) = get_elem?-lt points (s + 1) (omega arith) in
      (project_to_segment G p a b, rw (ea, eb))

  pub segment-better :
      (tuning : Tuning G) (last : Option ℕ) (s n : ℕ) (found : G.Flo × G.Flo) (best : Best G)
      → s < n
      → best.segment < n
      → (better G tuning last s found best).segment < n
  unfolding better
  segment-better tuning last s n found best h k = ground arith

  -- A search that starts with a segment of the route, and stays on it, finds one of the route.
  pub search-lt :
      (tuning : Tuning G) (last : Option ℕ) (points : List G.Point) (p : G.Point) (n s : ℕ)
      (best : Best G)
      → s + n < length points
      → suc best.segment < length points
      → (b : Best G) × ((search G tuning last points p n s best ≡ some b)
          × (suc b.segment < length points))
  unfolding search
  search-lt tuning last points p zero s best h k = (best, (refl, k))
  search-lt tuning last points p (suc n) s best h k =
      let (found, e) = projection-lt points p s (omega arith) in
      let better_lt =
        segment-better tuning last s (length points - 1) found best (omega arith) (omega arith) in
      let (b, (eb, hb)) =
        search-lt tuning last points p n (suc s) (better G tuning last s found best) (omega arith)
          (omega (arith, better_lt)) in
      (b, (rw e eb, hb))

  -- The window lies on the route.
  window_low-le :
      (tuning : Tuning G) (last : Option ℕ) (n : ℕ)
      → 1 < n
      → OnRoute last n
      → (suc (window_low G tuning last) < n) × (suc (window_high G tuning (n - 1) last) < n)
  unfolding window_low window_high
  window_low-le tuning none n h k = (h, omega arith)
  window_low-le tuning (some l) n h k = (omega arith, omega arith)

  pub best_segment-lt :
      (tuning : Tuning G) (last : Option ℕ) (points : List G.Point) (p : G.Point)
      → 1 < length points
      → OnRoute last (length points)
      → (b : Best G) × ((best_segment G tuning last points p ≡ some b)
          × (suc b.segment < length points))
  unfolding best_segment window_low no_best
  best_segment-lt tuning last points p h k =
      let (low_lt, high_lt) = window_low-le tuning last (length points) h k in
      search-lt tuning last points p
        (suc (window_high G tuning (length points - 1) last) - window_low G tuning last)
        (window_low G tuning last) (no_best G (window_low G tuning last))
        (omega (arith, high_lt, low_lt)) low_lt
