-- ===== src/NavRouteProgress/Nearest.antt =====
-- The segment that UpdatePose of TimeMachineAR/Source/TimeMachineAR/NavRouteProgress.cpp chooses.
use ai_xr_project.Base.{
  ℕ, zero, suc, ◌+◌, ◌-◌, ◌≤◌, ◌<◌, List, Option, none, some, ◌≡◌, refl, sym, ◌∙◌, arith, length,
  ◌⊎◌, inl, inr, true, false, Bool-cases, compare_cases,
}
use mathlib.Core.Option.{some-injective}
use ai_xr_project.NavRouteProgress.{Geometry, Tuning}
use ai_xr_project.NavRouteProgress.Track.{
  Best, projection, better, search, score_of, window_low, window_high, no_best, best_segment,
}
use ai_xr_project.NavRouteProgress.Ranges.{OnRoute, best_segment-lt, projection-lt}

-- The window is not empty.
window_low-le-window_high :
    (G : Geometry) (tuning : Tuning G) (last : Option ℕ) (n : ℕ)
    → 1 < n
    → OnRoute last n
    → (window_low G tuning last ≤ window_high G tuning (n - 1) last)
      × (suc (window_high G tuning (n - 1) last) < n)
unfolding window_low window_high
window_low-le-window_high G tuning none n h k = (omega arith, omega arith)
window_low-le-window_high G tuning (some l) n h k = (omega arith, omega arith)

module _ (G : Geometry) (tuning : Tuning G) (last : Option ℕ) (points : List G.Point)
    (p : G.Point) where
  -- A best segment is one of some segments, with its own projection and score.
  abbrev pub IsScored : ℕ → ℕ → Best G → Type 0
  IsScored low top b =
      (low ≤ b.segment)
      × (b.segment < top)
      × ((projection G points p b.segment ≡ some (b.t, b.lateral))
          × (b.score ≡ score_of G tuning last b.segment b.lateral))

module _ (G : Geometry) (irrefl : (a : G.Flo) → G.less a a ≡ false)
    (trans : (a b c : G.Flo) → G.less a b ≡ true → G.less b c ≡ true → G.less a c ≡ true)
    (tuning : Tuning G) (last : Option ℕ) (points : List G.Point) (p : G.Point) where
  better_keeps :
      (s : ℕ) (found : G.Flo × G.Flo) (best : Best G) (x : G.Flo)
      → G.less x best.score ≡ false
      → G.less x (better G tuning last s found best).score ≡ false
  unfolding better
  better_keeps s found best x h =
      ground (arith, trans x (score_of G tuning last s found.1) best.score)

  better_beats :
      (s : ℕ) (found : G.Flo × G.Flo) (best : Best G)
      → G.less (score_of G tuning last s found.1) (better G tuning last s found best).score ≡ false
  unfolding better
  better_beats s found best = ground (arith, irrefl (score_of G tuning last s found.1))

  -- What is below no score stays so through the rest of the search.
  search_keeps :
      (n s : ℕ) (best b : Best G) (x : G.Flo)
      → s + n < length points
      → search G tuning last points p n s best ≡ some b
      → G.less x best.score ≡ false
      → G.less x b.score ≡ false
  unfolding search
  search_keeps zero s best b x w e h = ground arith
  search_keeps (suc n) s best b x w e h =
      let (found, ef) = projection-lt G points p s (omega arith) in
      search_keeps n (suc s) (better G tuning last s found best) b x (omega arith) (rw ef at e)
        (better_keeps s found best x h)

  search_beats :
      (n s : ℕ) (best b : Best G) (r : ℕ) (found : G.Flo × G.Flo)
      → s + n < length points
      → search G tuning last points p n s best ≡ some b
      → s ≤ r
      → r < s + n
      → projection G points p r ≡ some found
      → G.less (score_of G tuning last r found.1) b.score ≡ false
  unfolding search
  search_beats zero s best b r found w e h k ef = absurd (omega arith)
  search_beats (suc n) s best b r found w e h k ef =
      let (seen, es) = projection-lt G points p s (omega arith) in
      let rest = rw es at e in
      elim (compare_cases s r) [
        | inl later ↦
            search_beats n (suc s) (better G tuning last s seen best) b r found (omega arith) rest
              (omega arith) (omega arith) ef
        | inr (inl here) ↦ rw (sym here) (
            search_keeps n (suc s) (better G tuning last s found best) b _ (omega arith)
              (rw (rw (sym here) at ef) at e) (better_beats s found best))
        | inr (inr before) ↦ absurd (omega arith)
      ]

  IsScored-low :
      (low low' top : ℕ) (b : Best G)
      → low' ≤ low
      → IsScored G tuning last points p low top b
      → IsScored G tuning last points p low' top b
  IsScored-low low low' top b h c = (omega arith, c.1, c.2)

  better_cases :
      (s top : ℕ) (found : G.Flo × G.Flo) (best : Best G)
      → projection G points p s ≡ some found
      → s < top
      → (better G tuning last s found best ≡ best)
        ⊎ IsScored G tuning last points p s top (better G tuning last s found best)
  unfolding better
  better_cases s top found best e h =
      elim (Bool-cases (G.less (score_of G tuning last s found.1) best.score)) [
        | inl lower ↦ inr (rw lower (omega arith, h, (e, refl)))
        | inr not_lower ↦ inl (rw not_lower)
      ]

  search-IsScored :
      (n s top : ℕ) (best b : Best G)
      → s + n ≤ top
      → top < length points
      → search G tuning last points p n s best ≡ some b
      → (b ≡ best) ⊎ IsScored G tuning last points p s top b
  unfolding search
  search-IsScored zero s top best b w v e = inl (sym (some-injective best b e))
  search-IsScored (suc n) s top best b w v e =
      let (found, ef) = projection-lt G points p s (omega arith) in
      elim (search-IsScored n (suc s) top (better G tuning last s found best) b (omega arith) v
        (rw ef at e)) [
          | inl same ↦ elim (better_cases s top found best ef (omega arith)) [
            | inl kept ↦ inl (same ∙ kept)
            | inr scored ↦ inr (rw same scored)
          ]
          | inr scored ↦ inr (IsScored-low (suc s) s top b (omega arith) scored)
        ]

  -- On a route of two points or more, with a kept segment on it, the search returns, under the hypotheses
  -- that the comparison of floats is irreflexive and transitive. What it returns is a segment of the
  -- search window, with its own projection and score, or the value the search starts with when no score
  -- is below the largest float. No segment of the window has a lower score.
  pub best_segment_nearest :
      1 < length points
      → OnRoute last (length points)
      → (b : Best G) × ((best_segment G tuning last points p ≡ some b)
          × (((b ≡ no_best G (window_low G tuning last))
                ⊎ IsScored G tuning last points p
                    (window_low G tuning last)
                    (suc (window_high G tuning (length points - 1) last))
                    b)
              × ((r : ℕ) (found : G.Flo × G.Flo)
                  → window_low G tuning last ≤ r
                  → r ≤ window_high G tuning (length points - 1) last
                  → projection G points p r ≡ some found
                  → G.less (score_of G tuning last r found.1) b.score ≡ false)))
  unfolding best_segment
  best_segment_nearest h k =
      let (b, (e, _)) = best_segment-lt G tuning last points p h k in
      let (ordered, top_lt) = window_low-le-window_high G tuning last (length points) h k in
      let low = window_low G tuning last in
      let high = window_high G tuning (length points - 1) last in
      (
        b,
        (
          e,
          (
            search-IsScored (suc high - low) low (suc high) (no_best G low) b
                (omega (arith, ordered)) top_lt e,
            λ r found h₁ h₂ ef.
                search_beats (suc high - low) low (no_best G low) b r found
                  (omega (arith, ordered, top_lt)) e h₁ (omega (arith, ordered, h₂)) ef,
          ),
        ),
      )
