-- ===== src/NavRouteProgress/Calls.antt =====
-- Runs of the calls of TimeMachineAR/Source/TimeMachineAR/NavRouteProgress.cpp: every index check passes.
use ai_xr_project.Base.{
  ℕ, zero, suc, ◌<◌, ltb, List, [], ◌∷◌, drop, Option, none, some, ◌≡◌, refl, arith, length,
  Bool-cases, if◌then◌else◌, inl, inr, lt→ltb,
}
use ai_xr_project.NavRouteProgress.{
  Geometry, Tuning, RouteProgress, no_route, set_route, reset_route,
}
use ai_xr_project.NavRouteProgress.Guide.{
  Guidance, RouteCall, get_guidance, draw_polyline, polyline_from, run_call, run_all, call_route,
  call_points, call_steps, call_reset, call_pose,
}
use ai_xr_project.NavRouteProgress.Ranges.{
  OnRoute, IsConsistent, set_route_points-IsConsistent, set_steps-IsConsistent,
}
use ai_xr_project.NavRouteProgress.Poses.{update_pose-IsConsistent}
use ai_xr_project.NavRouteProgress.Current.{get_guidance-IsConsistent}

-- The last point, if there is one.
abbrev pub last_point {ℓ} : {A : Type ℓ} → List A → Option A
last_point [] = none
last_point (x ∷ []) = some x
last_point (x ∷ y ∷ xs) = last_point (y ∷ xs)

last_point-drop {ℓ} :
    {A : Type ℓ} (x : A) (n : ℕ) (xs : List A)
    → n < length xs
    → last_point (x ∷ drop n xs) ≡ last_point xs
last_point-drop x n [] h = absurd (omega arith)
last_point-drop x zero (y ∷ ys) h = refl
last_point-drop x (suc n) (y ∷ []) h = absurd (omega arith)
last_point-drop x (suc n) (y ∷ z ∷ zs) h = last_point-drop x n (z ∷ zs) (omega arith)

module _ (G : Geometry) where
  run_call-IsConsistent :
      (tuning : Tuning G) (s : RouteProgress G) (c : RouteCall G)
      → IsConsistent G s
      → (s' : RouteProgress G) × ((run_call G tuning s c ≡ some s') × IsConsistent G s')
  unfolding run_call set_route reset_route
  run_call-IsConsistent tuning s (call_route route) h =
      (_, (refl, set_steps-IsConsistent G _ route.steps (set_route_points-IsConsistent G s _)))
  run_call-IsConsistent tuning s (call_points points) h =
      (_, (refl, set_route_points-IsConsistent G s points))
  run_call-IsConsistent tuning s (call_steps steps) h =
      (_, (refl, set_steps-IsConsistent G s steps h))
  run_call-IsConsistent tuning s call_reset h = (
    _,
    (
      refl,
      record {
        cumulative_size = refl;
        start_size = refl;
        end_size = refl;
        last_on_route = tt;
        shown_on_route = tt;
      },
    ),
  )
  run_call-IsConsistent tuning s (call_pose p) h = update_pose-IsConsistent G tuning s p h

  run_all-IsConsistent :
      (tuning : Tuning G) (s : RouteProgress G) (cs : List (RouteCall G))
      → IsConsistent G s
      → (s' : RouteProgress G) × ((run_all G tuning s cs ≡ some s') × IsConsistent G s')
  unfolding run_all
  run_all-IsConsistent tuning s [] h = (s, (refl, h))
  run_all-IsConsistent tuning s (c ∷ cs) h =
      let (s₁, (e₁, h₁)) = run_call-IsConsistent tuning s c h in
      let (s₂, (e₂, h₂)) = run_all-IsConsistent tuning s₁ cs h₁ in (s₂, (rw (e₁, e₂), h₂))

  -- The drawn line leads to the end of the route.
  last_point-polyline_from :
      (s : RouteProgress G) (o : Option ℕ)
      → OnRoute o (length s.route_points)
      → last_point (polyline_from G s o) ≡ last_point s.route_points
  unfolding polyline_from
  last_point-polyline_from s none h = refl
  last_point-polyline_from s (some i) h = elim (Bool-cases s.has_smoothed) [
    | inl e ↦ rw e (last_point-drop s.smoothed_draw (suc i) s.route_points h)
    | inr e ↦ rw e
  ]

  last_point-draw_polyline :
      (s : RouteProgress G)
      → IsConsistent G s
      → last_point (draw_polyline G s) ≡ last_point s.route_points
  unfolding draw_polyline
  last_point-draw_polyline s h =
      go s.route_points _
        (last_point-polyline_from s s.last_progress.segment_index h.shown_on_route)
    where
      go :
          (points : List G.Point) (line : List G.Point)
          → last_point line ≡ last_point points
          → last_point (if ltb 0 (length points) then line else []) ≡ last_point points
      go [] line e = refl
      go (x ∷ xs) line e = rw (lt→ltb 0 (suc (length xs)) (omega arith)) e

  -- No call fails an index check, whatever calls were made before on a new object: each run of calls
  -- returns, the guidance then returns too, the segment that is kept and the one that is shown lie on the
  -- route, the tables of distances and of step ends are as long as the route and the list of steps, and
  -- the drawn line ends where the route ends.
  pub run_all-returns :
      (tuning : Tuning G) (cs : List (RouteCall G))
      → (s : RouteProgress G) × ((run_all G tuning (no_route G) cs ≡ some s)
          × (IsConsistent G s
              × (((g : Guidance G) × (get_guidance G s ≡ some g))
                  × (last_point (draw_polyline G s) ≡ last_point s.route_points))))
  run_all-returns tuning cs =
      let (s, (e, h)) = run_all-IsConsistent tuning (no_route G) cs (record {
        cumulative_size = refl;
        start_size = refl;
        end_size = refl;
        last_on_route = tt;
        shown_on_route = tt;
      }) in
      (s, (e, (h, (get_guidance-IsConsistent G s h, last_point-draw_polyline s h))))
