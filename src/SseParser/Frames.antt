-- ===== src/SseParser/Frames.antt =====
-- Frames as a server sends them, read back by SseParser.cpp.
use ai_xr_project.Base.{
  suc, ◌+◌, ◌≡◌, refl, ap, ap₂, ◌∙◌, List, [], ◌∷◌, ◌++◌, none, some, Bool, true, false,
  if◌then◌else◌, length, take, drop, arith, All, take-append, take-length,
}
use ai_xr_project.Rudp.{Bytes}
use ai_xr_project.SseParser.{
  Strings, SseEvent, line_feed, find_frame_boundary, parse_frame, frame_text, is_shown,
  receive_chunk,
}
use ai_xr_project.SseParser.Boundary.{boundary_from_framed}
use ai_xr_project.SseParser.Chunks.{
  events, all_events, all_events-some, framed, receive_chunk-all_events,
}

-- The bytes of these frames, each closed by two line feeds.
unfoldable pub encode : List Bytes → Bytes
encode [] = []
encode (f ∷ fs) = f ++ line_feed ∷ line_feed ∷ encode fs

-- No boundary stands in the frame or begins at its last byte.
abbrev pub IsFrame : Bytes → Type 0
IsFrame f = find_frame_boundary (f ++ line_feed ∷ []) ≡ none

drop-frame : (f rest : Bytes) → drop (length f + 2) (f ++ line_feed ∷ line_feed ∷ rest) ≡ rest
drop-frame [] rest = refl
drop-frame (x ∷ f) rest =
    ap (λ n. drop n (x ∷ (f ++ line_feed ∷ line_feed ∷ rest))) {x = length (x ∷ f) + 2}
      {y = suc (length f + 2)} (omega arith)
    ∙ drop-frame f rest

take-frame : (f rest : Bytes) → take (length f) (f ++ rest) ≡ f
take-frame f rest =
    take-append (length f) f rest (omega arith) ∙ take-length (length f) f (omega arith)

module _ (S : Strings) where
  -- The events of these frames, without those that have neither a name nor data.
  unfoldable pub shown_events : List Bytes → List (SseEvent S)
  shown_events [] = []
  shown_events (f ∷ fs) =
      let e = parse_frame S (frame_text S f) in
      let rest = shown_events fs in if is_shown S e then e ∷ rest else rest

  if-pair :
      (b : Bool) (e : SseEvent S) (es : List (SseEvent S))
      → ◌≡◌ {A = Bytes × List (SseEvent S)}
          (if b then ([], e ∷ es) else ([], es))
          ([], if b then e ∷ es else es)
  if-pair true e es = refl
  if-pair false e es = refl

  encode-all_events :
      (fs : List Bytes) → All IsFrame fs → all_events S (encode fs) ≡ ([], shown_events fs)
  unfolding encode shown_events all_events events find_frame_boundary
  encode-all_events [] h = refl
  encode-all_events (f ∷ fs) h =
      let rest = line_feed ∷ line_feed ∷ encode fs in
      let shown = parse_frame S (frame_text S f) in
      all_events-some S (f ++ rest) (length f) (length f + 2) (
        boundary_from_framed 0 f (encode fs) h.0
        ∙ ap₂ (λ a b. some (a, b)) (omega arith) (omega arith))
      ∙ ap₂ (λ x y. framed S x (all_events S y)) (take-frame f rest) (drop-frame f (encode fs))
      ∙ ap (framed S f) (encode-all_events fs h.1)
      ∙ if-pair (is_shown S shown) shown (shown_events fs)

  -- Frames that hold no boundary, each closed by two line feeds, are read back: a new parser that gets
  -- them hands on the event of every frame, in order, except events with neither a name nor data, and
  -- has nothing left.
  pub receive_chunk-encode :
      (frames : List Bytes)
      → All IsFrame frames
      → receive_chunk S [] (encode frames) ≡ ([], shown_events frames)
  receive_chunk-encode frames h =
      receive_chunk-all_events S [] (encode frames) ∙ encode-all_events frames h
