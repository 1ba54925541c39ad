-- ===== src/Tests/Route.antt =====
-- Runs of the theorems about the progress along a route. Floats are numbers of centimetres, and a point
-- is a pair of them whose size is the sum.
use ai_xr_project.Base.{
  ℕ, suc, ◌+◌, ◌-◌, ◌*◌, ◌/◌, ◌≤◌, ◌≡◌, refl, List, [], ◌∷◌, some, true, false, ◌==◌, ltb, leb,
  arith, length, ◌⊎◌,
}
use Prim.Native.Nat.{min, max}
use ai_xr_project.NavRouteProgress.{Geometry, Tuning, NavStep, RouteProgress, no_route}
use ai_xr_project.NavRouteProgress.Track.{
  Best, projection, score_of, window_low, window_high, no_best, best_segment,
}
use ai_xr_project.NavRouteProgress.Guide.{
  Guidance, RouteCall, draw_polyline, get_guidance, run_all, call_points, call_steps, call_pose,
}
use ai_xr_project.NavRouteProgress.Ranges.{IsConsistent}
use ai_xr_project.NavRouteProgress.Calls.{last_point, run_all-returns}
use ai_xr_project.NavRouteProgress.Nearest.{IsScored, best_segment_nearest}
use ai_xr_project.NavRouteProgress.Pivots.{IsShown, get_guidance_no_pivot}

abbrev far_apart : ℕ → ℕ → ℕ
far_apart a b = (a - b) + (b - a)

abbrev centimetres : Geometry
centimetres = record {
  Real = ℕ;
  Flo = ℕ;
  Point = ℕ × ℕ;
  Text = ℕ;
  zero_flo = 0;
  one_flo = 1;
  small = 0;
  largest = 1000000;
  add = λ a b. a + b;
  sub = λ a b. a - b;
  mul = λ a b. a * b;
  div = λ a b. a / b;
  less = ltb;
  at_most = leb;
  lower = min;
  upper = max;
  clamp = λ x lo hi. max lo (min x hi);
  narrow = λ a. a;
  widen = λ a. a;
  add_real = λ a b. a + b;
  make_point = λ x y. (x, y);
  zero_point = (0, 0);
  add_point = λ p q. (p.0 + q.0, p.1 + q.1);
  sub_point = λ p q. (far_apart p.0 q.0, far_apart p.1 q.1);
  scale = λ p a. (p.0 * a, p.1 * a);
  dot = λ p q. p.0 * q.0 + p.1 * q.1;
  size = λ p. p.0 + p.1;
  lerp = λ p q a. q;
  empty_text = 0;
  is_empty = λ x. x == 0;
}

abbrev settings : Tuning centimetres
settings = record {
  off_route_threshold = 200;
  search_window = 2;
  segment_hysteresis = 15;
  draw_smoothing_alpha = 1;
  arrive_threshold = 80;
  arrive_exit_hysteresis = 40;
}

abbrev corner : List (ℕ × ℕ)
corner = (0, 0) ∷ (300, 0) ∷ (300, 400) ∷ []

abbrev straight : ℕ → NavStep centimetres
straight n = record {
  instruction = 1;
  distance = n;
  has_distance = true;
  turn = 7;
  is_arrive = false;
}

abbrev turning : NavStep centimetres
turning = record {
  instruction = 2;
  distance = 0;
  has_distance = false;
  turn = 8;
  is_arrive = false;
}

abbrev arrival : NavStep centimetres
arrival = record { instruction = 3; distance = 0; has_distance = false; turn = 0; is_arrive = true }

abbrev calls : List (RouteCall centimetres)
calls =
    call_pose (5, 5)
    ∷ call_points corner
    ∷ call_steps (straight 300 ∷ turning ∷ straight 400 ∷ arrival ∷ [])
    ∷ call_pose (10, 0)
    ∷ call_pose (300, 20)
    ∷ []

run_all-returns_example :
    (s : RouteProgress centimetres) × ((run_all centimetres settings (no_route centimetres) calls
        ≡ some s)
      × (IsConsistent centimetres s
          × (((g : Guidance centimetres) × (get_guidance centimetres s ≡ some g))
              × (last_point (draw_polyline centimetres s) ≡ last_point s.route_points))))
run_all-returns_example = run_all-returns centimetres settings calls

ltb_irrefl : (a : ℕ) → ltb a a ≡ false
ltb_irrefl a = ground arith

ltb_trans : (a b c : ℕ) → ltb a b ≡ true → ltb b c ≡ true → ltb a c ≡ true
ltb_trans a b c h k = ground arith

ltb_zero : (a : ℕ) → ltb a 0 ≡ false
ltb_zero a = ground arith

best_segment_nearest_example :
    (b : Best centimetres) × ((best_segment centimetres settings (some 0) corner (300, 20) ≡ some b)
      × (((b ≡ no_best centimetres (window_low centimetres settings (some 0)))
            ⊎ IsScored centimetres settings
                (some 0)
                corner
                (300, 20)
                (window_low centimetres settings (some 0))
                (suc (window_high centimetres settings (length corner - 1) (some 0)))
                b)
          × ((r : ℕ) (found : ℕ × ℕ)
              → window_low centimetres settings (some 0) ≤ r
              → r ≤ window_high centimetres settings (length corner - 1) (some 0)
              → projection centimetres corner (300, 20) r ≡ some found
              → ltb (score_of centimetres settings (some 0) r found.1) b.score ≡ false)))
best_segment_nearest_example =
    best_segment_nearest centimetres ltb_irrefl ltb_trans settings (some 0) corner (300, 20)
      (omega arith) (omega arith)

get_guidance_no_pivot_example :
    (s : RouteProgress centimetres) × (g : Guidance centimetres) × ((run_all centimetres settings
          (no_route centimetres)
          calls
        ≡ some s)
      × ((get_guidance centimetres s ≡ some g)
          × ((i : ℕ) → g.step_index ≡ some i → IsShown centimetres s.steps i)))
get_guidance_no_pivot_example =
    get_guidance_no_pivot centimetres refl (λ a p h. ltb_zero (a + (p.0 + p.1)))
      (λ x hi h. ltb_zero (max 0 (min x hi))) (λ x h. ltb_zero (x + 0)) settings calls
