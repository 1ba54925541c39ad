-- ===== src/NavCloudResolver/Rounds.antt =====
-- A round of the loop over the waiting anchors in ScheduleResolves of
-- TimeMachineAR/Source/TimeMachineAR/NavCloudResolver.cpp.
use Prim.Native.Nat.{max}
use ai_xr_project.Base.{
  occurrences, ℕ, zero, suc, ◌+◌, ◌≤◌, ◌<◌, ◌≡◌, refl, ap, leb, List, [], ◌∷◌, none, some, Bool,
  true, false, if◌then◌else◌, length, arith, Bool-cases, Option-cases, inl, inr,
}
use ai_xr_project.NavCloudResolver.{
  Engine, Entry, Settings, Frame, Resolver, release_cloud_pin, flights,
}
use ai_xr_project.NavCloudResolver.Attempts.{entry_at, change_at}
use ai_xr_project.NavCloudResolver.Schedule.{
  is_near, bound_at, choose_victim, Assigning, start_waiting, take_slot, preempt, assign_one,
  assign_all,
}
use ai_xr_project.NavCloudResolver.Load.{
  one_flight, flights-change_at, load, release_cloud_pin-Released,
}
use ai_xr_project.NavCloudResolver.Assign.{
  occurrences-remove_single, same_or_other, is_flying, cap, request_limit, IsAssigning,
  is_flying-change_other, is_unrecognized-change_at, no_flight, passed_lem,
}
use ai_xr_project.NavCloudResolver.Starts.{choose_victim-occurrences, start_waiting-IsAssigning}

module _ (E : Engine) where
  take_slot-IsAssigning :
      (f : Frame E) (cfg : Settings E) (a : Assigning E) (v : ℕ) (e : Entry E) (ws : List ℕ)
      (s : Resolver E) (freed : Bool)
      → IsAssigning E cfg a ws
      → 1 ≤ occurrences v a.in_flight
      → entry_at v a.resolver.entries ≡ some e
      → one_flight E e ≡ 1
      → s.entries ≡ a.resolver.entries
      → s.recent ≡ a.resolver.recent
      → length s.orphans ≤ suc (length a.resolver.orphans)
      → (freed ≡ true → length s.orphans ≤ length a.resolver.orphans)
      → IsAssigning E cfg (take_slot E f a v (s, freed)).0 ws
  unfolding take_slot load
  take_slot-IsAssigning f cfg a v e ws s freed h hv he h1 hs hr ho hf =
      let g : Entry E → Entry E = λ x. record x { pin = none; next_eligible = f.now } in
      let less : flights E (change_at v g s.entries) + 1 ≡ flights E a.resolver.entries = rw hs (
        omega
          (arith, flights-change_at E v g a.resolver.entries e he, h1, no_flight E (g e) refl)) in
      record {
        load_used = ground (arith, less, ho, hf, h.load_used);
        used_cap = ground (arith, h.used_cap);
        requests = omega (arith, ap length hr, h.requests);
        once = λ k. ground (arith, h.once k, occurrences-remove_single k v a.in_flight);
        flying = λ k hk. elim (same_or_other k v) [
          | inl same ↦
              absurd (ground (arith, hk, same, h.once v, occurrences-remove_single k v a.in_flight))
          | inr n ↦
              rw (hs, is_flying-change_other E k v g a.resolver.entries n)
                (h.flying k (ground (arith, hk, n, occurrences-remove_single k v a.in_flight)))
        ];
        waiting = λ k hk.
            rw (hs, is_unrecognized-change_at E k v g a.resolver.entries (λ x. refl))
              (h.waiting k hk);
      }

  flying_entry :
      (v : ℕ) (es : List (Entry E))
      → is_flying E v es ≡ true
      → (e : Entry E) × ((entry_at v es ≡ some e) × (one_flight E e ≡ 1))
  unfolding is_flying entry_at
  flying_entry v [] h = absurd (ground arith)
  flying_entry zero (x ∷ xs) h = (x, (refl, rw h))
  flying_entry (suc v) (x ∷ xs) h = flying_entry v xs h

  -- The release of an attempt's pin: the slot is free, or the pin is an orphan in it.
  preempt-IsAssigning :
      (f : Frame E) (cfg : Settings E) (a : Assigning E) (v : ℕ) (ws : List ℕ)
      → IsAssigning E cfg a ws
      → 1 ≤ occurrences v a.in_flight
      → 1 ≤ a.used
      → (let r = preempt E f a v in
          IsAssigning E cfg r.0 ws
          × ((r.1 ≡ true → r.0.used < a.used)
              × (length r.0.resolver.recent ≡ length a.resolver.recent)))
  unfolding preempt take_slot
  preempt-IsAssigning f cfg a v ws h hv hu =
      let (e, (he, h1)) = flying_entry v a.resolver.entries (h.flying v hv) in
      let s = release_cloud_pin E f a.resolver e.pin in
      let kept = release_cloud_pin-Released E f a.resolver e.pin in
      rw (he, preempt)
        (
          take_slot-IsAssigning f cfg a v e ws s.0 s.1 h hv he h1 kept.0 kept.1.0 kept.1.1.0
              kept.1.1.1.0,
          ((λ freed. rw freed (omega arith)), ap length kept.1.0),
        )

  victim_occurs :
      (f : Frame E) (cfg : Settings E) (entries : List (Entry E)) (bounds : List E.Real)
      (is : List ℕ) (v : ℕ)
      → choose_victim E f cfg entries bounds none is ≡ some v
      → 1 ≤ occurrences v is
  victim_occurs f cfg entries bounds is v h =
      elim (choose_victim-occurrences E f cfg entries bounds is none v h) [
        | inl e ↦ absurd (ground arith)
        | inr c ↦ c
      ]

  pass_over :
      (cfg : Settings E) (a : Assigning E) (i : ℕ) (ws : List ℕ)
      → IsAssigning E cfg a (i ∷ ws)
      → IsAssigning E cfg a ws
  pass_over cfg a i ws h = passed_lem E cfg a i ws a.resolver h refl refl refl

  budget_limit :
      (cfg : Settings E) (near : Bool) (n : ℕ)
      → leb (if near then max (max 1 cfg.max_per_minute) 60 else max 1 cfg.max_per_minute) n ≡ false
      → n < request_limit E cfg
  budget_limit cfg near n h = ground arith

  -- A near anchor that finds no free slot.
  preempt_start-IsAssigning :
      (f : Frame E) (cfg : Settings E) (a : Assigning E) (v i : ℕ) (ws : List ℕ)
      → IsAssigning E cfg a (i ∷ ws)
      → 1 ≤ occurrences v a.in_flight
      → 1 ≤ a.used
      → length a.resolver.recent < request_limit E cfg
      → (let r = preempt E f a v in
          IsAssigning E cfg (if r.1 then start_waiting E f r.0 i else (r.0, false)).0 ws)
  preempt_start-IsAssigning f cfg a v i ws h hv hu hb =
      let r = preempt E f a v in
      let kept = preempt-IsAssigning f cfg a v (i ∷ ws) h hv hu in
      elim (Bool-cases r.1) [
        | inl yes_freed ↦ rw yes_freed (
            start_waiting-IsAssigning E f cfg r.0 i ws kept.0
              (omega (arith, kept.1.0 yes_freed, h.used_cap)) (omega (arith, kept.1.1, hb)))
        | inr orphaned ↦ rw orphaned (pass_over cfg r.0 i ws kept.0)
      ]

  assign_one-IsAssigning :
      (f : Frame E) (cfg : Settings E) (bounds : List E.Real) (a : Assigning E) (i : ℕ)
      (ws : List ℕ)
      → IsAssigning E cfg a (i ∷ ws)
      → IsAssigning E cfg (assign_one E f cfg bounds a i).0 ws
  unfolding assign_one
  assign_one-IsAssigning f cfg bounds a i ws h =
      let near = is_near E cfg (bound_at E bounds i) in
      let n = length a.resolver.recent in
      let far_max = max 1 cfg.max_per_minute in
      elim (Bool-cases (leb (if near then max far_max 60 else far_max) n)) [
        | inl spent ↦ rw (spent, assign_one) (pass_over cfg a i ws h)
        | inr left ↦ elim (Bool-cases (leb (cap E cfg) a.used)) [
          | inr free ↦
              rw (left, free, assign_one)
                (start_waiting-IsAssigning E f cfg a i ws h (ground (arith, free))
                  (budget_limit cfg near n left))
          | inl full ↦ elim (Bool-cases near) [
            | inr far ↦ rw (left, full, far, assign_one) (pass_over cfg a i ws h)
            | inl close ↦
                elim (Option-cases
                  (choose_victim E f cfg a.resolver.entries bounds none a.in_flight)) [
                    | inl no_victim ↦
                        rw (left, full, close, no_victim, assign_one) (pass_over cfg a i ws h)
                    | inr (v, victim) ↦
                        rw (left, full, close, victim, assign_one)
                          (preempt_start-IsAssigning f cfg a v i ws h
                            (victim_occurs f cfg a.resolver.entries bounds a.in_flight v victim)
                            (ground (arith, full)) (budget_limit cfg near n left))
                  ]
          ]
        ]
      ]

  pub assign_all-IsAssigning :
      (f : Frame E) (cfg : Settings E) (bounds : List E.Real) (ws : List ℕ) (a : Assigning E)
      → IsAssigning E cfg a ws
      → (let s = (assign_all E f cfg bounds a ws).resolver in
          (load E s ≤ cap E cfg) × (length s.recent ≤ request_limit E cfg))
  unfolding assign_all
  assign_all-IsAssigning f cfg bounds [] a h = (omega (arith, h.load_used, h.used_cap), h.requests)
  assign_all-IsAssigning f cfg bounds (i ∷ ws) a h =
      let r = assign_one E f cfg bounds a i in
      let kept = assign_one-IsAssigning f cfg bounds a i ws h in
      elim (Bool-cases r.1) [
        | inl goes_on ↦ rw (goes_on, assign_all) (assign_all-IsAssigning f cfg bounds ws r.0 kept)
        | inr ends ↦
            rw (ends, assign_all) (omega (arith, kept.load_used, kept.used_cap), kept.requests)
      ]
