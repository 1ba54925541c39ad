-- ===== src/NavRouteProgress/Track.antt =====
-- UpdatePose of TimeMachineAR/Source/TimeMachineAR/NavRouteProgress.cpp: the segment of the route that
-- the visitor is on.
use ai_xr_project.Base.{
  ℕ, zero, suc, ◌+◌, ◌-◌, leb, List, Option, none, some, ◌>>=◌, Bool, true, false, ◌&&◌, ◌||◌, ◌==◌,
  if◌then◌else◌, length, get_elem?,
}
use Prim.Native.Nat.{min}
use ai_xr_project.NavRouteProgress.{Geometry, Tuning, Progress, RouteProgress, no_progress, last_or}

-- BestSeg, BestT, BestLateral and BestScore.
pub record Best (G : Geometry) : Type 0 where
  pub segment : ℕ
  pub t : G.Flo
  pub lateral : G.Flo
  pub score : G.Flo

module _ (G : Geometry) where
  -- ProjectToSegment: the place on the segment, and the distance from it.
  unfoldable pub project_to_segment : G.Point → G.Point → G.Point → G.Flo × G.Flo
  project_to_segment p a b =
      let ab = G.sub_point b a in
      let ab2 = G.narrow (G.dot ab ab) in
      let t =
        if G.less G.small ab2
        then G.clamp (G.div (G.narrow (G.dot (G.sub_point p a) ab)) ab2) G.zero_flo G.one_flo
        else G.zero_flo in
      let foot = G.add_point a (G.scale ab t) in (t, G.narrow (G.size (G.sub_point p foot)))

  -- The comparison of a segment with LastSegment, where INDEX_NONE is no segment.
  unfoldable pub is_last : Option ℕ → ℕ → Bool
  is_last none s = false
  is_last (some l) s = s == l

  unfoldable pub score_of : Tuning G → Option ℕ → ℕ → G.Flo → G.Flo
  score_of tuning last s lateral =
      G.sub lateral (if is_last last s then tuning.segment_hysteresis else G.zero_flo)

  -- The search window.
  unfoldable pub window_low : Tuning G → Option ℕ → ℕ
  window_low tuning none = 0
  window_low tuning (some l) = l - tuning.search_window

  unfoldable pub window_high : Tuning G → ℕ → Option ℕ → ℕ
  window_high tuning num_seg none = num_seg - 1
  window_high tuning num_seg (some l) = min (num_seg - 1) (l + tuning.search_window)

  -- One round of the search.
  unfoldable pub better : Tuning G → Option ℕ → ℕ → G.Flo × G.Flo → Best G → Best G
  better tuning last s (t, lateral) best =
      let score = score_of tuning last s lateral in
      if G.less score best.score
      then record { segment = s; t = t; lateral = lateral; score = score }
      else best

  unfoldable pub projection : List G.Point → G.Point → ℕ → Option (G.Flo × G.Flo)
  projection points p s = do
    a ← get_elem? points s
    b ← get_elem? points (s + 1)
    some (project_to_segment p a b)

  -- The loop over the window, from a segment on and for a number of rounds.
  unfoldable pub search :
      Tuning G → Option ℕ → List G.Point → G.Point → ℕ → ℕ → Best G → Option (Best G)
  search tuning last points p zero s best = some best
  search tuning last points p (suc n) s best = do
    found ← projection points p s
    search tuning last points p n (suc s) (better tuning last s found best)

  unfoldable pub no_best : ℕ → Best G
  no_best s = record { segment = s; t = G.zero_flo; lateral = G.largest; score = G.largest }

  unfoldable pub best_segment : Tuning G → Option ℕ → List G.Point → G.Point → Option (Best G)
  best_segment tuning last points p =
      let low = window_low tuning last in
      let high = window_high tuning (length points - 1) last in
      search tuning last points p (suc high - low) low (no_best low)

  -- The smoothed position.
  unfoldable pub smooth : Tuning G → RouteProgress G → G.Point → RouteProgress G
  smooth tuning s p = record s {
    has_smoothed = true;
    smoothed_draw =
        if s.has_smoothed then G.lerp s.smoothed_draw p tuning.draw_smoothing_alpha else p;
  }

  -- bArrived.
  unfoldable pub has_arrived : Tuning G → Progress G → G.Flo → Bool
  has_arrived tuning last remaining =
      G.at_most remaining tuning.arrive_threshold
      || (last.is_valid
          && last.is_arrived
          && G.at_most remaining (G.add tuning.arrive_threshold tuning.arrive_exit_hysteresis))

  -- The progress at the best segment, between the route's lengths up to its two ends.
  unfoldable pub progress_of : Tuning G → RouteProgress G → Best G → G.Flo → G.Flo → Progress G
  progress_of tuning s best before after =
      let travelled = G.add before (G.mul best.t (G.sub after before)) in
      let remaining = G.upper G.zero_flo (G.sub (last_or G G.zero_flo s.cumulative) travelled) in
      record {
        segment_index = some best.segment;
        segment_t = best.t;
        remaining = remaining;
        lateral_offset = best.lateral;
        is_off_route = G.less tuning.off_route_threshold best.lateral;
        is_arrived = has_arrived tuning s.last_progress remaining;
        is_valid = true;
      }

  unfoldable pub progress_at : Tuning G → RouteProgress G → Best G → Option (Progress G)
  progress_at tuning s best = do
    after ← get_elem? s.cumulative (best.segment + 1)
    before ← get_elem? s.cumulative best.segment
    some (progress_of tuning s best before after)

  unfoldable pub locate : Tuning G → RouteProgress G → G.Point → Option (RouteProgress G)
  locate tuning s p = do
    best ← best_segment tuning s.last_segment s.route_points p
    progress ← progress_at tuning s best
    some (record s { last_segment = some best.segment; last_progress = progress })

  -- UpdatePose. What it returns is the new `last_progress`.
  unfoldable pub update_pose : Tuning G → RouteProgress G → G.Point → Option (RouteProgress G)
  update_pose tuning s p =
      if leb (length s.route_points) 1
      then some (record (smooth tuning s p) { last_progress = no_progress G })
      else locate tuning (smooth tuning s p) p
