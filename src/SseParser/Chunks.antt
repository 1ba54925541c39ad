-- ===== src/SseParser/Chunks.antt =====
-- The events of a stream do not depend on how SseParser.cpp gets it in chunks.
use ai_xr_project.Base.{
  ℕ, zero, suc, ◌≤◌, ◌<◌, ◌≡◌, refl, ap, ap₂, sym, ◌∙◌, List, [], ◌∷◌, ◌++◌, Option, none, some,
  Bool, true, false, if◌then◌else◌, length, take, drop, arith, Bool-cases, Option-cases, inl, inr,
  take-append, drop-append, append_assoc, append-nil,
}
use mathlib.Core.List.{flatten}
use ai_xr_project.Rudp.{Bytes}
use ai_xr_project.SseParser.Boundary.{boundary_from_bounds, boundary_from-append, drop_shorter}
use ai_xr_project.SseParser.{
  Strings, SseEvent, boundary_from, find_frame_boundary, append_bytes, parse_frame, frame_text,
  is_shown, next_event_loop, next_event, drain_events, receive_chunk, receive_chunks,
}

module _ (S : Strings) where
  -- The specification: the events of all complete frames, and the bytes after the last of them.
  unfoldable pub events : ℕ → Bytes → Bytes × List (SseEvent S)
  events zero buffer = (buffer, [])
  events (suc fuel) buffer = elim (find_frame_boundary buffer) [
    | none ↦ (buffer, [])
    | some (frame_end, next_start) ↦
        (let e = parse_frame S (frame_text S (take frame_end buffer)) in
          let rest = events fuel (drop next_start buffer) in
          if is_shown S e then (rest.0, e ∷ rest.1) else rest)
  ]

  -- More fuel changes nothing.
  events_fuel : (f g : ℕ) (b : Bytes) → length b ≤ f → length b ≤ g → events f b ≡ events g b
  unfolding events find_frame_boundary boundary_from
  events_fuel zero zero b hf hg = refl
  events_fuel zero (suc g) [] hf hg = refl
  events_fuel zero (suc g) (x ∷ b) hf hg = absurd (omega arith)
  events_fuel (suc f) zero [] hf hg = refl
  events_fuel (suc f) zero (x ∷ b) hf hg = absurd (omega arith)
  events_fuel (suc f) (suc g) b hf hg = elim (Option-cases (find_frame_boundary b)) [
    | inl e ↦ rw (e, events)
    | inr ((fe, n), e) ↦
        let less = drop_shorter b fe n e in
        rw (e, events, events_fuel f g (drop n b) (omega (arith, less)) (omega (arith, less)))
  ]

  -- The events of a buffer, then those of what is left with more bytes.
  abbrev joined : Bytes × List (SseEvent S) → Bytes × List (SseEvent S) → Bytes × List (SseEvent S)
  joined first later = (later.0, first.1 ++ later.1)

  unfoldable pub all_events : Bytes → Bytes × List (SseEvent S)
  all_events b = events (length b) b

  all_events-none : (b : Bytes) → find_frame_boundary b ≡ none → all_events b ≡ (b, [])
  unfolding all_events events
  all_events-none [] e = refl
  all_events-none (x ∷ b) e = rw (e, events)

  pub all_events-some :
      (b : Bytes) (fe n : ℕ)
      → find_frame_boundary b ≡ some (fe, n)
      → all_events b ≡ (
          let e = parse_frame S (frame_text S (take fe b)) in
          let rest = all_events (drop n b) in if is_shown S e then (rest.0, e ∷ rest.1) else rest)
  unfolding all_events events find_frame_boundary boundary_from
  all_events-some [] fe n e = ground arith
  all_events-some (x ∷ b) fe n e =
      let less = drop_shorter (x ∷ b) fe n e in
      rw (
        e,
        events,
        events_fuel (length b) (length (drop n (x ∷ b))) (drop n (x ∷ b)) (omega (arith, less))
            (omega arith),
      )

  if-joined :
      (b : Bool) (e : SseEvent S) (first later : Bytes × List (SseEvent S))
      → (if b then ((joined first later).0, e ∷ (joined first later).1) else joined first later)
        ≡ joined (if b then (first.0, e ∷ first.1) else first) later
  if-joined true e first later = refl
  if-joined false e first later = refl

  if-rest :
      (b : Bool) (e : SseEvent S) (r : Bytes × List (SseEvent S))
      → (if b then (r.0, e ∷ r.1) else r).0 ≡ r.0
  if-rest true e r = refl
  if-rest false e r = refl

  -- One frame more in front of a result.
  abbrev pub framed : Bytes → Bytes × List (SseEvent S) → Bytes × List (SseEvent S)
  framed frame r =
      let e = parse_frame S (frame_text S frame) in if is_shown S e then (r.0, e ∷ r.1) else r

  append_step :
      (b c : Bytes) (fe n : ℕ)
      → find_frame_boundary b ≡ some (fe, n)
      → all_events (drop n b ++ c)
        ≡ joined (all_events (drop n b)) (all_events ((all_events (drop n b)).0 ++ c))
      → all_events (b ++ c) ≡ joined (all_events b) (all_events ((all_events b).0 ++ c))
  unfolding find_frame_boundary
  append_step b c fe n e ih =
      let bounds = boundary_from_bounds 0 b fe n e in
      let frame = take fe b in
      let shown = parse_frame S (frame_text S frame) in
      let r = all_events (drop n b) in
      let whole : all_events b ≡ framed frame r = all_events-some b fe n e in
      let rest : (all_events b).0 ≡ r.0 =
        ap (λ (x : Bytes × List (SseEvent S)). x.0) whole ∙ if-rest (is_shown S shown) shown r in
      all_events-some (b ++ c) fe n (boundary_from-append 0 b c (fe, n) e)
      ∙ ap₂ (λ x y. framed x (all_events y)) (take-append fe b c (omega (arith, bounds)))
          (drop-append n b c (omega (arith, bounds)))
      ∙ ap (framed frame) ih
      ∙ if-joined (is_shown S shown) shown r (all_events (r.0 ++ c))
      ∙ ap₂ joined (sym whole) (ap (λ x. all_events (x ++ c)) (sym rest))

  append_events :
      (fuel : ℕ) (b c : Bytes)
      → length b ≤ fuel
      → all_events (b ++ c) ≡ joined (all_events b) (all_events ((all_events b).0 ++ c))
  unfolding all_events events
  append_events zero [] c h = refl
  append_events zero (x ∷ b) c h = absurd (omega arith)
  append_events (suc fuel) b c h = elim (Option-cases (find_frame_boundary b)) [
    | inl e ↦ rw (all_events-none b e)
    | inr ((fe, n), e) ↦
        append_step b c fe n e
          (append_events fuel (drop n b) c (omega (arith, drop_shorter b fe n e)))
  ]

  -- What NextEvent does, against the specification.
  abbrev Next : Bytes → Bytes × Option (SseEvent S) → Type 0
  Next b (b', none) = all_events b ≡ (b', [])
  Next b (b', some e) =
      (all_events b ≡ ((all_events b').0, e ∷ (all_events b').1)) × (length b' < length b)

  Next-transfer :
      (b b1 : Bytes) (r : Bytes × Option (SseEvent S))
      → all_events b ≡ all_events b1
      → length b1 < length b
      → Next b1 r
      → Next b r
  Next-transfer b b1 (b', none) e less x = e ∙ x
  Next-transfer b b1 (b', some v) e less x = (e ∙ x.0, omega (arith, x.1))

  next_event_loop-Next :
      (fuel : ℕ) (b : Bytes) → length b ≤ fuel → Next b (next_event_loop S fuel b)
  unfolding next_event_loop all_events events
  next_event_loop-Next zero [] h = refl
  next_event_loop-Next zero (x ∷ b) h = absurd (omega arith)
  next_event_loop-Next (suc fuel) b h = elim (Option-cases (find_frame_boundary b)) [
    | inl e ↦ rw (e, next_event_loop) (all_events-none b e)
    | inr ((fe, n), e) ↦
        let less = drop_shorter b fe n e in
        let shown = is_shown S (parse_frame S (frame_text S (take fe b))) in
        elim (Bool-cases shown) [
          | inl yes_shown ↦
              rw (e, next_event_loop, yes_shown) (all_events-some b fe n e ∙ rw yes_shown, less)
          | inr hidden ↦
              rw (e, next_event_loop, hidden)
                (Next-transfer b (drop n b) (next_event_loop S fuel (drop n b))
                  (all_events-some b fe n e ∙ rw hidden) less
                  (next_event_loop-Next fuel (drop n b) (omega (arith, less))))
        ]
  ]

  -- A round of the delegate's loop with the result of NextEvent.
  abbrev round : ℕ → Bytes × Option (SseEvent S) → Bytes × List (SseEvent S)
  round fuel r =
      let rest = drain_events S fuel r.0 in
      elim r.1 [ none ↦ (r.0, []) | some e ↦ (rest.0, e ∷ rest.1) ]

  drain_step :
      (fuel : ℕ) (b : Bytes) (r : Bytes × Option (SseEvent S))
      → Next b r
      → ((b' : Bytes) → length b' < length b → drain_events S fuel b' ≡ all_events b')
      → round fuel r ≡ all_events b
  drain_step fuel b (b', none) x ih = sym x
  drain_step fuel b (b', some v) x ih = rw (ih b' x.1) (sym x.0)

  drain_events-all_events :
      (fuel : ℕ) (b : Bytes) → length b < fuel → drain_events S fuel b ≡ all_events b
  unfolding drain_events next_event
  drain_events-all_events zero b h = absurd (omega arith)
  drain_events-all_events (suc fuel) b h =
      drain_step fuel b (next_event S b) (next_event_loop-Next (length b) b (omega arith))
        (λ b' less. drain_events-all_events fuel b' (omega arith))

  pub receive_chunk-all_events : (b c : Bytes) → receive_chunk S b c ≡ all_events (b ++ c)
  unfolding receive_chunk append_bytes
  receive_chunk-all_events b c =
      drain_events-all_events (suc (length (b ++ c))) (b ++ c) (omega arith)

  next_event-none : (b : Bytes) → find_frame_boundary b ≡ none → next_event S b ≡ (b, none)
  unfolding next_event next_event_loop
  next_event-none [] e = refl
  next_event-none (x ∷ b) e = rw (e, next_event_loop)

  -- What is left has no complete frame.
  rest_none : (fuel : ℕ) (b : Bytes) → length b ≤ fuel → find_frame_boundary (all_events b).0 ≡ none
  unfolding all_events events find_frame_boundary boundary_from
  rest_none zero [] h = refl
  rest_none zero (x ∷ b) h = absurd (omega arith)
  rest_none (suc fuel) b h = elim (Option-cases (find_frame_boundary b)) [
    | inl e ↦ rw (all_events-none b e) e
    | inr ((fe, n), e) ↦
        let shown = parse_frame S (frame_text S (take fe b)) in
        let rest : (all_events b).0 ≡ (all_events (drop n b)).0 =
          ap (λ (x : Bytes × List (SseEvent S)). x.0) (all_events-some b fe n e)
          ∙ if-rest (is_shown S shown) shown (all_events (drop n b)) in
        rw rest (rest_none fuel (drop n b) (omega (arith, drop_shorter b fe n e)))
  ]

  -- The delegate's loop ends on every buffer and every chunk because NextEvent has nothing more to
  -- give: a further call on what is left returns no event and takes nothing off the buffer.
  pub receive_chunk-ends :
      (b c : Bytes) → next_event S (receive_chunk S b c).0 ≡ ((receive_chunk S b c).0, none)
  receive_chunk-ends b c = next_event-none (receive_chunk S b c).0 (
      ap (λ (x : Bytes × List (SseEvent S)). find_frame_boundary x.0) (receive_chunk-all_events b c)
      ∙ rest_none (length (b ++ c)) (b ++ c) (omega arith))

  receive_chunks-all_events :
      (b : Bytes) (cs : List Bytes)
      → all_events b ≡ (b, [])
      → receive_chunks S b cs ≡ all_events (b ++ flatten cs)
  unfolding receive_chunks flatten
  receive_chunks-all_events b [] h = sym (ap all_events (append-nil b) ∙ h)
  receive_chunks-all_events b (c ∷ cs) h =
      let r = all_events (b ++ c) in
      ap (λ (x : Bytes × List (SseEvent S)). joined x (receive_chunks S x.0 cs))
        (receive_chunk-all_events b c)
      ∙ ap (joined r) (
          receive_chunks-all_events r.0 cs
            (all_events-none r.0 (rest_none (length (b ++ c)) (b ++ c) (omega arith))))
      ∙ sym (append_events (length (b ++ c)) (b ++ c) (flatten cs) (omega arith))
      ∙ ap all_events (append_assoc b c (flatten cs))

  -- However a stream is cut into chunks, also inside a character or a separator: what a new parser has
  -- left in its buffer and the events that it hands on, in their order, are those of the whole stream
  -- in one chunk.
  pub receive_chunks-whole :
      (chunks : List Bytes) → receive_chunks S [] chunks ≡ receive_chunk S [] (flatten chunks)
  unfolding all_events events
  receive_chunks-whole chunks =
      receive_chunks-all_events [] chunks refl ∙ sym (receive_chunk-all_events [] (flatten chunks))
