-- ===== src/NavRouteProgress/Placed.antt =====
-- The table of step ends in TimeMachineAR/Source/TimeMachineAR/NavRouteProgress.cpp over any calls.
use ai_xr_project.Base.{
  List, [], ◌∷◌, some, false, ◌≡◌, refl, sym, length, inl, inr, Bool-cases, Option-cases, leb,
}
use mathlib.Core.Option.{some-injective, none-ne-some}
use ai_xr_project.NavRouteProgress.{
  Geometry, Tuning, NavStep, RouteProgress, no_route, accumulate, cumulative_table, last_or,
  step_ends, set_route, set_route_points, set_steps, reset_route,
}
use ai_xr_project.NavRouteProgress.Track.{best_segment, progress_at, locate, smooth, update_pose}
use ai_xr_project.NavRouteProgress.Guide.{
  RouteCall, run_call, run_all, call_route, call_points, call_steps, call_reset, call_pose,
}

module _ (G : Geometry) where
  -- The interval table and the whole length belong to the route.
  pub record IsPlaced (s : RouteProgress G) : Type 0 where
    pub placed : s.step_end ≡ step_ends G (last_or G G.zero_flo s.cumulative) G.zero_flo s.steps
    pub total_least : G.less (last_or G G.zero_flo s.cumulative) G.zero_flo ≡ false

module _ (G : Geometry) (zero_least : G.less G.zero_flo G.zero_flo ≡ false)
    (grows : (a : G.Flo) (p : G.Point)
      → G.less a G.zero_flo ≡ false
      → G.less (G.narrow (G.add_real (G.widen a) (G.size p))) G.zero_flo ≡ false)
    (clamp_low : (x hi : G.Flo)
      → G.less hi G.zero_flo ≡ false
      → G.less (G.clamp x G.zero_flo hi) G.zero_flo ≡ false)
    (add_small : (x : G.Flo)
      → G.less x G.zero_flo ≡ false
      → G.less (G.add x G.small) G.zero_flo ≡ false) where
  last_or-accumulate :
      (qs : List G.Point) (p : G.Point) (acc : G.Flo)
      → G.less acc G.zero_flo ≡ false
      → G.less (last_or G acc (accumulate G acc p qs)) G.zero_flo ≡ false
  unfolding accumulate last_or
  last_or-accumulate [] p acc h = h
  last_or-accumulate (q ∷ qs) p acc h = last_or-accumulate qs q _ (grows acc (G.sub_point q p) h)

  last_or-cumulative_table :
      (points : List G.Point)
      → G.less (last_or G G.zero_flo (cumulative_table G points)) G.zero_flo ≡ false
  unfolding cumulative_table last_or
  last_or-cumulative_table [] = zero_least
  last_or-cumulative_table (p ∷ ps) = last_or-accumulate ps p G.zero_flo zero_least

  pub no_route-IsPlaced : IsPlaced G (no_route G)
  unfolding last_or step_ends
  no_route-IsPlaced = record { placed = refl; total_least = zero_least }

  set_route_points-IsPlaced :
      (s : RouteProgress G) (points : List G.Point) → IsPlaced G (set_route_points G s points)
  unfolding set_route_points step_ends
  set_route_points-IsPlaced s points = record {
    placed = refl;
    total_least = last_or-cumulative_table points;
  }

  set_steps-IsPlaced :
      (s : RouteProgress G) (steps : List (NavStep G))
      → IsPlaced G s
      → IsPlaced G (set_steps G s steps)
  unfolding set_steps
  set_steps-IsPlaced s steps h = record { placed = refl; total_least = h.total_least }

  -- A pose changes none of the tables.
  locate-IsPlaced :
      (tuning : Tuning G) (s s' : RouteProgress G) (p : G.Point)
      → locate G tuning s p ≡ some s'
      → IsPlaced G s
      → IsPlaced G s'
  unfolding locate
  locate-IsPlaced tuning s s' p e h =
      elim (Option-cases (best_segment G tuning s.last_segment s.route_points p)) [
        | inl eb ↦ absurd (none-ne-some s' (rw eb at e))
        | inr (b, eb) ↦
            let e₁ = rw eb at e in
            elim (Option-cases (progress_at G tuning s b)) [
              | inl eq ↦ absurd (none-ne-some s' (rw eq at e₁))
              | inr (q, eq) ↦
                  rw (sym (some-injective _ s' (rw eq at e₁)))
                    (record { placed = h.placed; total_least = h.total_least })
            ]
      ]

  update_pose-IsPlaced :
      (tuning : Tuning G) (s s' : RouteProgress G) (p : G.Point)
      → update_pose G tuning s p ≡ some s'
      → IsPlaced G s
      → IsPlaced G s'
  unfolding update_pose smooth
  update_pose-IsPlaced tuning s s' p e h = elim (Bool-cases (leb (length s.route_points) 1)) [
    | inl short ↦
        rw (sym (some-injective _ s' (rw short at e)))
          (record { placed = h.placed; total_least = h.total_least })
    | inr long ↦
        locate-IsPlaced tuning (smooth G tuning s p) s' p (rw long at e)
          (record { placed = h.placed; total_least = h.total_least })
  ]

  run_call-IsPlaced :
      (tuning : Tuning G) (s s' : RouteProgress G) (c : RouteCall G)
      → run_call G tuning s c ≡ some s'
      → IsPlaced G s
      → IsPlaced G s'
  unfolding run_call set_route reset_route step_ends last_or
  run_call-IsPlaced tuning s s' (call_route route) e h =
      rw (sym (some-injective _ s' e))
        (set_steps-IsPlaced _ route.steps (set_route_points-IsPlaced s _))
  run_call-IsPlaced tuning s s' (call_points points) e h =
      rw (sym (some-injective _ s' e)) (set_route_points-IsPlaced s points)
  run_call-IsPlaced tuning s s' (call_steps steps) e h =
      rw (sym (some-injective _ s' e)) (set_steps-IsPlaced s steps h)
  run_call-IsPlaced tuning s s' call_reset e h =
      rw (sym (some-injective _ s' e)) (record { placed = refl; total_least = zero_least })
  run_call-IsPlaced tuning s s' (call_pose p) e h = update_pose-IsPlaced tuning s s' p e h

  pub run_all-IsPlaced :
      (tuning : Tuning G) (s s' : RouteProgress G) (cs : List (RouteCall G))
      → run_all G tuning s cs ≡ some s'
      → IsPlaced G s
      → IsPlaced G s'
  unfolding run_all
  run_all-IsPlaced tuning s s' [] e h = rw (sym (some-injective s s' e)) h
  run_all-IsPlaced tuning s s' (c ∷ cs) e h = elim (Option-cases (run_call G tuning s c)) [
    | inl ec ↦ absurd (none-ne-some s' (rw ec at e))
    | inr (s₁, ec) ↦
        run_all-IsPlaced tuning s₁ s' cs (rw ec at e) (run_call-IsPlaced tuning s s₁ c ec h)
  ]
