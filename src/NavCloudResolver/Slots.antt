-- ===== src/NavCloudResolver/Slots.antt =====
-- The bounds on running attempts and requests that
-- TimeMachineAR/Source/TimeMachineAR/NavCloudResolver.cpp keeps, over its ticks and its lists of anchors.
use ai_xr_project.Base.{
  occurrences, ℕ, zero, suc, ◌+◌, ◌≤◌, ◌<◌, ◌≡◌, refl, ap, ◌∙◌, List, [], ◌∷◌, Bool, true, false,
  not, ◌||◌, ◌==◌, if◌then◌else◌, length, arith,
}
use ai_xr_project.NavCloudResolver.{
  Engine, Entry, Settings, Frame, Resolver, is_in_flight, flights, count_live_resolves,
}
use ai_xr_project.NavCloudResolver.Attempts.{entry_at}
use ai_xr_project.NavCloudResolver.Schedule.{
  remove_old, note_near, note_all, all_bounds, is_waiting, positions, comes_first, assign_all,
  schedule_resolves,
}
use ai_xr_project.NavCloudResolver.Load.{load, ArePending, pendings-length}
use ai_xr_project.NavCloudResolver.Assign.{
  is_flying, is_unrecognized, cap, request_limit, IsAssigning,
}
use ai_xr_project.NavCloudResolver.Rounds.{assign_all-IsAssigning}

module _ (E : Engine) where
  -- The test of the entry at a position that counts from i on.
  abbrev test_at : (Entry E → Bool) → ℕ → ℕ → List (Entry E) → ℕ
  test_at test i k [] = 0
  test_at test i k (e ∷ es) =
      if k == i then (if test e then 1 else 0) else test_at test (suc i) k es

  test_at-before :
      (test : Entry E → Bool) (i k : ℕ) (es : List (Entry E)) → k < i → test_at test i k es ≡ 0
  test_at-before test i k [] h = refl
  test_at-before test i k (e ∷ es) h = ground (arith, test_at-before test (suc i) k es)

  occurrences-positions :
      (test : Entry E → Bool) (k i : ℕ) (es : List (Entry E))
      → occurrences k (positions E test i es) ≡ test_at test i k es
  unfolding occurrences positions
  occurrences-positions test k i [] = refl
  occurrences-positions test k i (e ∷ es) =
      ground (arith, occurrences-positions test k (suc i) es, test_at-before test (suc i) k es)

  -- No entry both waits and flies.
  test_at-once :
      (f : Frame E) (i k : ℕ) (es : List (Entry E))
      → test_at (is_waiting E f) i k es + test_at (is_in_flight E) i k es ≤ 1
  unfolding is_waiting is_in_flight
  test_at-once f i k [] = omega arith
  test_at-once f i k (e ∷ es) = ground (arith, test_at-once f (suc i) k es)

  test_at-flying :
      (i k : ℕ) (es : List (Entry E))
      → 1 ≤ test_at (is_in_flight E) i (k + i) es
      → is_flying E k es ≡ true
  unfolding is_flying entry_at
  test_at-flying i k [] h = ground arith
  test_at-flying i zero (e ∷ es) h = ground arith
  test_at-flying i (suc k) (e ∷ es) h = ground (arith, test_at-flying (suc i) k es)

  test_at-unrecognized :
      (f : Frame E) (i k : ℕ) (es : List (Entry E))
      → 1 ≤ test_at (is_waiting E f) i (k + i) es
      → is_unrecognized E k es ≡ true
  unfolding is_unrecognized entry_at is_waiting
  test_at-unrecognized f i k [] h = ground arith
  test_at-unrecognized f i zero (e ∷ es) h = ground arith
  test_at-unrecognized f i (suc k) (e ∷ es) h = ground (arith, test_at-unrecognized f (suc i) k es)

  flights-note_all :
      (f : Frame E) (cfg : Settings E) (entries es : List (Entry E))
      → flights E (note_all E f cfg entries es) ≡ flights E es
  unfolding flights note_all note_near is_in_flight
  flights-note_all f cfg entries [] = refl
  flights-note_all f cfg entries (e ∷ es) = ground (arith, flights-note_all f cfg entries es)

  length-remove_old : (f : Frame E) (ts : List E.Real) → length (remove_old E f ts) ≤ length ts
  unfolding remove_old
  length-remove_old f [] = omega arith
  length-remove_old f (t ∷ ts) = ground (arith, length-remove_old f ts)

  -- The bounds: the attempts that run, with the orphans, and the requests of the last minute.
  abbrev pub IsWithin : Settings E → Resolver E → Type 0
  IsWithin cfg s = (load E s ≤ cap E cfg) × (length s.recent ≤ request_limit E cfg)

  -- The sort keeps how often each number occurs.
  abbrev pub SortsNumbers : Type 0
  SortsNumbers =
      (first : ℕ → ℕ → Bool) (xs : List ℕ) (k : ℕ)
      → occurrences k (E.sort first xs) ≡ occurrences k xs

  test_at_zero :
      (test : Entry E → Bool) (k : ℕ) (es : List (Entry E))
      → test_at test 0 (k + 0) es ≡ test_at test 0 k es
  test_at_zero test k es = ap (λ n. test_at test 0 n es) {x = k + 0} {y = k} (omega arith)

  IsWithin-if :
      (cfg : Settings E) (b c d : Bool) (s t u : Resolver E)
      → IsWithin cfg s
      → IsWithin cfg t
      → IsWithin cfg u
      → IsWithin cfg (if not b then s else if not c then s else if d then t else u)
  IsWithin-if cfg false c d s t u hs ht hu = hs
  IsWithin-if cfg true false d s t u hs ht hu = hs
  IsWithin-if cfg true true true s t u hs ht hu = ht
  IsWithin-if cfg true true false s t u hs ht hu = hu

  start-IsAssigning :
      (f : Frame E) (cfg : Settings E) (t : Resolver E) (ws : List ℕ)
      → ((k : ℕ) → occurrences k ws ≡ occurrences k (positions E (is_waiting E f) 0 t.entries))
      → ArePending E f t.orphans
      → IsWithin cfg t
      → IsAssigning E cfg
          (record {
            resolver = t;
            used = count_live_resolves E f t;
            in_flight = positions E (is_in_flight E) 0 t.entries;
          })
          ws
  unfolding count_live_resolves load
  start-IsAssigning f cfg t ws hw hp h =
      let used = pendings-length E f t.orphans hp in
      let flies : (k : ℕ)
          → occurrences k (positions E (is_in_flight E) 0 t.entries)
            ≡ test_at (is_in_flight E) 0 k t.entries =
        λ k. occurrences-positions (is_in_flight E) k 0 t.entries in
      let waits : (k : ℕ) → occurrences k ws ≡ test_at (is_waiting E f) 0 k t.entries =
        λ k. hw k ∙ occurrences-positions (is_waiting E f) k 0 t.entries in
      record {
        load_used = omega (arith, used);
        used_cap = omega (arith, used, h.0);
        requests = h.1;
        once = λ k. omega (arith, waits k, flies k, test_at-once f 0 k t.entries);
        flying = λ k hk.
            test_at-flying 0 k t.entries
              (omega (arith, flies k, test_at_zero (is_in_flight E) k t.entries));
        waiting = λ k hk.
            test_at-unrecognized f 0 k t.entries
              (omega (arith, waits k, test_at_zero (is_waiting E f) k t.entries));
      }

  pub schedule_resolves-IsWithin :
      (f : Frame E) (cfg : Settings E) (s : Resolver E)
      → SortsNumbers
      → ArePending E f s.orphans
      → IsWithin cfg s
      → IsWithin cfg (schedule_resolves E f cfg s)
  unfolding schedule_resolves load
  schedule_resolves-IsWithin f cfg s sorts hp h =
      let bounds = all_bounds E f cfg s.entries s.entries in
      let entries = note_all E f cfg s.entries s.entries in
      let t = record s { entries = entries; recent = remove_old E f s.recent } in
      let waiting = positions E (is_waiting E f) 0 entries in
      let sorted = E.sort (comes_first E cfg entries bounds) waiting in
      let ht : IsWithin cfg t = (
        omega (arith, h.0, flights-note_all f cfg s.entries s.entries),
        omega (arith, h.1, length-remove_old f s.recent),
      ) in
      let done = assign_all-IsAssigning E f cfg bounds sorted _ (
        start-IsAssigning f cfg t sorted (sorts (comes_first E cfg entries bounds) waiting) hp
          ht) in
      IsWithin-if cfg f.configured f.good_tracking
        (length waiting == 0 || E.less f.now s.hold_until) s t
        (assign_all E f cfg bounds _ sorted).resolver h ht done
