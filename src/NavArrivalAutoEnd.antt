-- ===== src/NavArrivalAutoEnd.antt =====
-- TimeMachineAR/Source/TimeMachineAR/NavArrivalAutoEnd.h and NavArrivalAutoEnd.cpp: the timer that
-- ends a navigation after arrival. Floating-point numbers, their addition and >= are parameters.
use ai_xr_project.Base.{
  ◌≡◌, refl, sym, ap, ◌∙◌, List, [], ◌∷◌, ◌++◌, Bool, true, false, if◌then◌else◌, append_assoc,
  append-nil, Bool-cases, inl, inr,
}

-- EEvent.
pub data Event : Type 0 where
  no_event : Event
  ended : Event
  closed : Event

-- EInternalStage.
pub data Stage : Type 0 where
  idle_stage : Stage
  dwelling : Stage
  after_ended : Stage
  done : Stage

pub record AutoEnd {ℓ} (F : Type ℓ) : Type ℓ where
  pub dwell_sec : F
  pub end_message_sec : F
  pub stage : Stage
  pub elapsed_sec : F

-- The events that a stage has behind it.
abbrev pub announced : Stage → List Event
announced idle_stage = []
announced dwelling = []
announced after_ended = ended ∷ []
announced done = ended ∷ closed ∷ []

-- What a caller acts on: every event but None.
abbrev pub heard : Event → List Event
heard no_event = []
heard ended = ended ∷ []
heard closed = closed ∷ []

module _ {ℓ} {F : Type ℓ} (zero_sec : F) (plus : F → F → F) (at_least : F → F → Bool) where
  -- The Dwelling block of Update.
  unfoldable pub dwell : AutoEnd F → Bool → F → AutoEnd F × Event
  dwell t arrived delta =
      if arrived
      then (if at_least (plus t.elapsed_sec delta) t.dwell_sec
          then (record t { stage = after_ended; elapsed_sec = zero_sec }, ended)
          else (record t { stage = dwelling; elapsed_sec = plus t.elapsed_sec delta }, no_event))
      else (record t { stage = idle_stage; elapsed_sec = zero_sec }, no_event)

  -- The block of Update after Ended.
  unfoldable pub count_down : AutoEnd F → F → AutoEnd F × Event
  count_down t delta =
      if at_least (plus t.elapsed_sec delta) t.end_message_sec
      then (record t { stage = done; elapsed_sec = plus t.elapsed_sec delta }, closed)
      else (record t { stage = after_ended; elapsed_sec = plus t.elapsed_sec delta }, no_event)

  -- Update: on arrival the first interval already counts.
  unfoldable pub update : AutoEnd F → Bool → F → AutoEnd F × Event
  update t arrived delta = elim t.stage [
    | done ↦ (t, no_event)
    | idle_stage ↦
        (if arrived
          then dwell (record t { elapsed_sec = zero_sec }) arrived delta
          else (t, no_event))
    | dwelling ↦ dwell t arrived delta
    | after_ended ↦ count_down t delta
  ]

  -- Reset.
  unfoldable pub reset : AutoEnd F → AutoEnd F
  reset t = record t { stage = idle_stage; elapsed_sec = zero_sec }

  -- A run of updates, with what is heard.
  unfoldable pub updates : AutoEnd F → List (Bool × F) → AutoEnd F × List Event
  updates t [] = (t, [])
  updates t ((arrived, delta) ∷ us) =
      let r = update t arrived delta in let rest = updates r.0 us in (rest.0, heard r.1 ++ rest.1)

  dwell-announced :
      (t : AutoEnd F) (arrived : Bool) (delta : F)
      → heard (dwell t arrived delta).1 ≡ announced (dwell t arrived delta).0.stage
  unfolding dwell
  dwell-announced t false delta = refl
  dwell-announced t true delta =
      elim (Bool-cases (at_least (plus t.elapsed_sec delta) t.dwell_sec)) [
        | inl e ↦ rw (e, dwell)
        | inr e ↦ rw (e, dwell)
      ]

  count_down-announced :
      (t : AutoEnd F) (delta : F)
      → ended ∷ heard (count_down t delta).1 ≡ announced (count_down t delta).0.stage
  unfolding count_down
  count_down-announced t delta =
      elim (Bool-cases (at_least (plus t.elapsed_sec delta) t.end_message_sec)) [
        | inl e ↦ rw (e, count_down)
        | inr e ↦ rw (e, count_down)
      ]

  update-announced :
      (t : AutoEnd F) (s : Stage) (arrived : Bool) (delta : F)
      → t.stage ≡ s
      → announced s ++ heard (update t arrived delta).1 ≡ announced (update t arrived delta).0.stage
  unfolding update
  update-announced t idle_stage false delta e = rw (e, update) (sym (ap announced e))
  update-announced t idle_stage true delta e =
      rw (e, update) (dwell-announced (record t { elapsed_sec = zero_sec }) true delta)
  update-announced t dwelling arrived delta e = rw (e, update) (dwell-announced t arrived delta)
  update-announced t after_ended arrived delta e = rw (e, update) (count_down-announced t delta)
  update-announced t done arrived delta e = rw (e, update) (sym (ap announced e))

  -- Whatever the arrivals and the intervals, and however floating-point numbers add and compare: the
  -- events heard in a run of updates, after those that the stage at the start has behind it, are those
  -- that the stage at the end has behind it: Ended, then Closed, each at most once before a Reset.
  pub updates-announced :
      (t : AutoEnd F) (us : List (Bool × F))
      → announced t.stage ++ (updates t us).1 ≡ announced (updates t us).0.stage
  unfolding updates
  updates-announced t [] = append-nil (announced t.stage)
  updates-announced t ((arrived, delta) ∷ us) =
      let r = update t arrived delta in
      sym (append_assoc (announced t.stage) (heard r.1) (updates r.0 us).1)
      ∙ ap (λ l. l ++ (updates r.0 us).1) (update-announced t t.stage arrived delta refl)
      ∙ updates-announced r.0 us
