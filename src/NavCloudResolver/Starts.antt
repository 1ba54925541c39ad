-- ===== src/NavCloudResolver/Starts.antt =====
-- The victim and the start of an attempt in ScheduleResolves of
-- TimeMachineAR/Source/TimeMachineAR/NavCloudResolver.cpp.
use ai_xr_project.Base.{
  occurrences, ◌⊎◌, ℕ, suc, ◌≤◌, ◌<◌, ◌≡◌, refl, List, [], ◌∷◌, Option, none, some, Bool,
  if◌then◌else◌, length, arith, inl, inr,
}
use ai_xr_project.NavCloudResolver.{
  Engine, Entry, Settings, Frame, TaskResult, task_not_tracking, task_paused, task_not_enabled,
  task_exhausted, task_other,
}
use ai_xr_project.NavCloudResolver.Attempts.{begin_attempt, start_resolve, wait_until, start_with}
use ai_xr_project.NavCloudResolver.Schedule.{choose_victim, Assigning, note_start, start_waiting}
use ai_xr_project.NavCloudResolver.Assign.{
  cap, request_limit, IsAssigning, started_lem, passed_lem, not_started_lem,
}

module _ (E : Engine) where
  keep_or_take :
      (c : Bool) (i v : ℕ) (best : Option ℕ)
      → (if c then some i else best) ≡ some v
      → (best ≡ some v) ⊎ (v ≡ i)
  keep_or_take c i v best h = ground arith

  -- A victim is the best one so far or stands in the list.
  pub choose_victim-occurrences :
      (f : Frame E) (cfg : Settings E) (entries : List (Entry E)) (bounds : List E.Real)
      (is : List ℕ) (best : Option ℕ) (v : ℕ)
      → choose_victim E f cfg entries bounds best is ≡ some v
      → (best ≡ some v) ⊎ (1 ≤ occurrences v is)
  unfolding choose_victim occurrences
  choose_victim-occurrences f cfg entries bounds [] best v h = inl h
  choose_victim-occurrences f cfg entries bounds (i ∷ is) best v h =
      elim (choose_victim-occurrences f cfg entries bounds is _ v h) [
        | inr later ↦ inr (ground arith)
        | inl now ↦ elim (keep_or_take _ i v best now) [
          | inl b ↦ inl b
          | inr e ↦ inr (ground arith)
        ]
      ]

  start_with-IsAssigning :
      (f : Frame E) (cfg : Settings E) (a : Assigning E) (i : ℕ) (ws : List ℕ) (o : Option ℕ)
      (result : TaskResult)
      → IsAssigning E cfg a (i ∷ ws)
      → a.used < cap E cfg
      → length a.resolver.recent < request_limit E cfg
      → IsAssigning E cfg
          (note_start E a i
            (start_with E f (record a.resolver { creates = suc a.resolver.creates }) i o result)).0
          ws
  unfolding note_start start_with wait_until begin_attempt
  start_with-IsAssigning f cfg a i ws (some p) result h free budget =
      started_lem E cfg a i p ws _ _ (λ x. refl) (λ x. refl) h free budget refl refl refl
  start_with-IsAssigning f cfg a i ws none task_not_tracking h free budget =
      passed_lem E cfg a i ws (record a.resolver { creates = suc a.resolver.creates }) h refl refl
        refl
  start_with-IsAssigning f cfg a i ws none task_paused h free budget =
      passed_lem E cfg a i ws (record a.resolver { creates = suc a.resolver.creates }) h refl refl
        refl
  start_with-IsAssigning f cfg a i ws none task_not_enabled h free budget =
      passed_lem E cfg a i ws (record a.resolver { creates = suc a.resolver.creates }) h refl refl
        refl
  start_with-IsAssigning f cfg a i ws none task_exhausted h free budget =
      not_started_lem E cfg a i ws _ _ (λ x. refl) (λ x. refl) h refl refl refl
  start_with-IsAssigning f cfg a i ws none task_other h free budget =
      not_started_lem E cfg a i ws _ _ (λ x. refl) (λ x. refl) h refl refl refl

  -- The start of an anchor that waits. It takes a slot and a request, or changes nothing of them.
  pub start_waiting-IsAssigning :
      (f : Frame E) (cfg : Settings E) (a : Assigning E) (i : ℕ) (ws : List ℕ)
      → IsAssigning E cfg a (i ∷ ws)
      → a.used < cap E cfg
      → length a.resolver.recent < request_limit E cfg
      → IsAssigning E cfg (start_waiting E f a i).0 ws
  unfolding start_waiting start_resolve
  start_waiting-IsAssigning f cfg a i ws h free budget =
      let r = f.create a.resolver.creates in
      start_with-IsAssigning f cfg a i ws r.0 r.1 h free budget
