-- ===== src/NavRouteProgress/Poses.antt =====
-- The index checks of UpdatePose in TimeMachineAR/Source/TimeMachineAR/NavRouteProgress.cpp.
use ai_xr_project.Base.{
  suc, ◌+◌, ◌<◌, leb, some, ◌≡◌, refl, arith, length, get_elem?-lt, Bool-cases, inl, inr,
}
use ai_xr_project.NavRouteProgress.{Geometry, Tuning, Progress, RouteProgress, no_progress}
use ai_xr_project.NavRouteProgress.Track.{
  Best, progress_at, progress_of, locate, smooth, update_pose,
}
use ai_xr_project.NavRouteProgress.Ranges.{IsConsistent, best_segment-lt}

module _ (G : Geometry) where
  progress_at-lt :
      (tuning : Tuning G) (s : RouteProgress G) (b : Best G)
      → suc b.segment < length s.cumulative
      → (q : Progress G) × ((progress_at G tuning s b ≡ some q)
          × (q.segment_index ≡ some b.segment))
  unfolding progress_at progress_of
  progress_at-lt tuning s b h =
      let (after, ea) = get_elem?-lt s.cumulative (b.segment + 1) (omega arith) in
      let (before, eb) = get_elem?-lt s.cumulative b.segment (omega arith) in
      (progress_of G tuning s b before after, (rw (ea, eb), refl))

  locate-IsConsistent :
      (tuning : Tuning G) (s : RouteProgress G) (p : G.Point)
      → 1 < length s.route_points
      → IsConsistent G s
      → (s' : RouteProgress G) × ((locate G tuning s p ≡ some s') × IsConsistent G s')
  unfolding locate
  locate-IsConsistent tuning s p n h =
      let (b, (eb, b_lt)) =
        best_segment-lt G tuning s.last_segment s.route_points p n h.last_on_route in
      let (q, (eq, shown)) = progress_at-lt tuning s b (rw h.cumulative_size b_lt) in
      (
        record s { last_segment = some b.segment; last_progress = q },
        (
          rw (eb, eq),
          record {
            cumulative_size = h.cumulative_size;
            start_size = h.start_size;
            end_size = h.end_size;
            last_on_route = b_lt;
            shown_on_route = rw shown b_lt;
          },
        ),
      )

  smooth-IsConsistent :
      (tuning : Tuning G) (s : RouteProgress G) (p : G.Point)
      → IsConsistent G s
      → IsConsistent G (smooth G tuning s p)
  unfolding smooth
  smooth-IsConsistent tuning s p h = record {
    cumulative_size = h.cumulative_size;
    start_size = h.start_size;
    end_size = h.end_size;
    last_on_route = h.last_on_route;
    shown_on_route = h.shown_on_route;
  }

  pub update_pose-IsConsistent :
      (tuning : Tuning G) (s : RouteProgress G) (p : G.Point)
      → IsConsistent G s
      → (s' : RouteProgress G) × ((update_pose G tuning s p ≡ some s') × IsConsistent G s')
  unfolding update_pose smooth
  update_pose-IsConsistent tuning s p h =
      let c = smooth-IsConsistent tuning s p h in
      elim (Bool-cases (leb (length s.route_points) 1)) [
        | inl short ↦ (
          record (smooth G tuning s p) { last_progress = no_progress G },
          (
            rw short,
            record {
              cumulative_size = c.cumulative_size;
              start_size = c.start_size;
              end_size = c.end_size;
              last_on_route = c.last_on_route;
              shown_on_route = tt;
            },
          ),
        )
        | inr long ↦
            let (s', (e, d)) =
              locate-IsConsistent tuning (smooth G tuning s p) p (ground arith) c in
            (s', (rw long e, d))
      ]
