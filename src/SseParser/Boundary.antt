-- ===== src/SseParser/Boundary.antt =====
-- Where FindFrameBoundary of SseParser.cpp finds the end of a frame.
use ai_xr_project.Base.{
  ℕ, suc, ◌+◌, ◌≤◌, ◌<◌, ◌≡◌, [], ◌∷◌, ◌++◌, none, some, length, drop, arith, length-drop,
}
use ai_xr_project.Rudp.{Bytes}
use ai_xr_project.SseParser.{line_feed, is_crlf_pair, boundary_from, find_frame_boundary}

pub boundary_from_bounds :
    (i : ℕ) (b : Bytes) (e n : ℕ)
    → boundary_from i b ≡ some (e, n)
    → (i ≤ e) × (e + 2 ≤ n) × (n ≤ i + length b)
unfolding boundary_from is_crlf_pair
boundary_from_bounds i [] e n h = ground arith
boundary_from_bounds i (x ∷ []) e n h = ground arith
boundary_from_bounds i (x ∷ y ∷ []) e n h =
    ground (arith, boundary_from_bounds (suc i) (y ∷ []) e n)
boundary_from_bounds i (x ∷ y ∷ z ∷ []) e n h =
    ground (arith, boundary_from_bounds (suc i) (y ∷ z ∷ []) e n)
boundary_from_bounds i (x ∷ y ∷ z ∷ w ∷ rest) e n h =
    ground (arith, boundary_from_bounds (suc i) (y ∷ z ∷ w ∷ rest) e n)

-- A boundary stays where it is when more bytes arrive.
pub boundary_from-append :
    (i : ℕ) (b c : Bytes) (r : ℕ × ℕ)
    → boundary_from i b ≡ some r
    → boundary_from i (b ++ c) ≡ some r
unfolding boundary_from is_crlf_pair
boundary_from-append i [] c r h = ground arith
boundary_from-append i (x ∷ []) c r h = ground arith
boundary_from-append i (x ∷ y ∷ []) c r h = ground arith
boundary_from-append i (x ∷ y ∷ z ∷ []) [] r h = ground arith
boundary_from-append i (x ∷ y ∷ z ∷ []) (w ∷ c) r h =
    ground (arith, boundary_from-append (suc i) (y ∷ z ∷ []) (w ∷ c) r)
boundary_from-append i (x ∷ y ∷ z ∷ w ∷ rest) c r h =
    ground (arith, boundary_from-append (suc i) (y ∷ z ∷ w ∷ rest) c r)

pub drop_shorter :
    (b : Bytes) (e n : ℕ) → find_frame_boundary b ≡ some (e, n) → length (drop n b) < length b
unfolding find_frame_boundary
drop_shorter b e n h = let s = boundary_from_bounds 0 b e n h in omega (arith, s.1, length-drop n b)

-- A frame without a boundary, closed by two line feeds, ends there.
pub boundary_from_framed :
    (i : ℕ) (frame rest : Bytes)
    → boundary_from i (frame ++ line_feed ∷ []) ≡ none
    → boundary_from i (frame ++ line_feed ∷ line_feed ∷ rest)
      ≡ some (i + length frame, i + length frame + 2)
unfolding boundary_from is_crlf_pair
boundary_from_framed i [] rest h = ground arith
boundary_from_framed i (x ∷ []) [] h = ground (arith, boundary_from_framed (suc i) [] [])
boundary_from_framed i (x ∷ []) (w ∷ rest) h =
    ground (arith, boundary_from_framed (suc i) [] (w ∷ rest))
boundary_from_framed i (x ∷ y ∷ []) rest h =
    ground (arith, boundary_from_framed (suc i) (y ∷ []) rest)
boundary_from_framed i (x ∷ y ∷ z ∷ []) rest h =
    ground (arith, boundary_from_framed (suc i) (y ∷ z ∷ []) rest)
boundary_from_framed i (x ∷ y ∷ z ∷ w ∷ frame) rest h =
    ground (arith, boundary_from_framed (suc i) (y ∷ z ∷ w ∷ frame) rest)
