-- ===== src/NavCloudResolver/Schedule.antt =====
-- ScheduleResolves of TimeMachineAR/Source/TimeMachineAR/NavCloudResolver.cpp: which waiting anchors get a
-- slot, and which attempt gives its slot up.
use Prim.Native.Nat.{max}
use ai_xr_project.Base.{
  ℕ, suc, ◌-◌, ltb, leb, List, [], ◌∷◌, ◌++◌, Option, none, some, Bool, true, false, not, ◌&&◌,
  ◌||◌, ◌==◌, if◌then◌else◌, length,
}
use ai_xr_project.NavCloudResolver.{
  Engine, ResolveStart, resolve_started, resolve_failed, resolve_blocked, resolve_exhausted, Entry,
  Settings, Frame, Resolver, is_in_flight, release_cloud_pin, count_live_resolves,
}
use ai_xr_project.NavCloudResolver.Attempts.{
  entry_at, change_at, start_resolve, estimate_distance_lower_bound_cm,
}

-- TArray::RemoveSingle.
unfoldable pub remove_single : ℕ → List ℕ → List ℕ
remove_single i [] = []
remove_single i (j ∷ js) = let rest = remove_single i js in if j == i then js else j ∷ rest

module _ (E : Engine) where
  unfoldable pub remove_old : Frame E → List E.Real → List E.Real
  remove_old f [] = []
  remove_old f (t ∷ ts) =
      let rest = remove_old f ts in if E.less (E.literal 60) (E.sub f.now t) then rest else t ∷ rest

  unfoldable pub is_near : Settings E → E.Real → Bool
  is_near cfg bound = E.at_most (E.literal 0) bound && E.at_most bound cfg.near_cm

  -- The bound that the loop over the entries writes down for an entry.
  unfoldable pub entry_bound : Frame E → Settings E → List (Entry E) → Entry E → E.Real
  entry_bound f cfg entries e =
      if e.recognized then E.minus_one else estimate_distance_lower_bound_cm E f cfg entries e

  -- What the loop does to an entry: an anchor that has come near is set free of its backoff.
  unfoldable pub note_near : Frame E → Settings E → E.Real → Entry E → Entry E
  note_near f cfg bound e =
      let near = is_near cfg bound in
      if e.recognized
      then record e { near_last = false }
      else if near && (not e.near_last && (ltb 0 e.failures || E.less f.now e.next_eligible))
      then record e { failures = 0; next_eligible = E.literal 0; near_last = near }
      else record e { near_last = near }

  -- An entry after this waits for a slot, if it has none.
  unfoldable pub is_waiting : Frame E → Entry E → Bool
  is_waiting f e = elim e.pin [
    | none ↦ not e.recognized && E.at_most e.next_eligible f.now
    | some p ↦ false
  ]

  unfoldable pub note_all : Frame E → Settings E → List (Entry E) → List (Entry E) → List (Entry E)
  note_all f cfg entries [] = []
  note_all f cfg entries (e ∷ es) =
      note_near f cfg (entry_bound f cfg entries e) e ∷ note_all f cfg entries es

  unfoldable pub all_bounds : Frame E → Settings E → List (Entry E) → List (Entry E) → List E.Real
  all_bounds f cfg entries [] = []
  all_bounds f cfg entries (e ∷ es) = entry_bound f cfg entries e ∷ all_bounds f cfg entries es

  -- The positions, counted from i on, of the entries that pass a test.
  unfoldable pub positions : (Entry E → Bool) → ℕ → List (Entry E) → List ℕ
  positions test i [] = []
  positions test i (e ∷ es) =
      let rest = positions test (suc i) es in if test e then i ∷ rest else rest

  -- Bounds[i].
  unfoldable pub bound_at : List E.Real → ℕ → E.Real
  bound_at bounds i = elim (entry_at i bounds) [ none ↦ E.minus_one | some b ↦ b ]

  -- Entries[i].AttemptStart and Entries[i].PointNo.
  unfoldable pub start_at : List (Entry E) → ℕ → E.Real
  start_at entries i = elim (entry_at i entries) [ none ↦ E.literal 0 | some e ↦ e.attempt_start ]

  unfoldable pub point_at : List (Entry E) → ℕ → ℕ
  point_at entries i = elim (entry_at i entries) [ none ↦ 0 | some e ↦ e.point_no ]

  -- BoundKey.
  unfoldable pub bound_key : List E.Real → ℕ → E.Real
  bound_key bounds i =
      let b = bound_at bounds i in if E.at_most (E.literal 0) b then b else E.largest

  -- The comparison that the waiting anchors are sorted by.
  unfoldable pub comes_first : Settings E → List (Entry E) → List E.Real → ℕ → ℕ → Bool
  comes_first cfg entries bounds a b =
      let near_a = is_near cfg (bound_at bounds a) in
      let near_b = is_near cfg (bound_at bounds b) in
      if (near_a && not near_b) || (not near_a && near_b)
      then near_a
      else if not (E.equal (bound_key bounds a) (bound_key bounds b))
      then E.less (bound_key bounds a) (bound_key bounds b)
      else if not (E.equal (start_at entries a) (start_at entries b))
      then E.less (start_at entries a) (start_at entries b)
      else ltb (point_at entries a) (point_at entries b)

  -- The attempt that gives its slot up: not near, at least three seconds old, and the farthest.
  unfoldable pub choose_victim :
      Frame E → Settings E → List (Entry E) → List E.Real → Option ℕ → List ℕ → Option ℕ
  choose_victim f cfg entries bounds best [] = best
  choose_victim f cfg entries bounds best (i ∷ is) =
      let spared =
        is_near cfg (bound_at bounds i)
        || E.less (E.sub f.now (start_at entries i)) (E.literal 3) in
      let better : Bool = elim best [
        | none ↦ true
        | some v ↦
            E.less (bound_key bounds v) (bound_key bounds i)
            || (E.equal (bound_key bounds i) (bound_key bounds v)
                && E.less (start_at entries i) (start_at entries v))
      ] in
      choose_victim f cfg entries bounds (if not spared && better then some i else best) is

  -- The state of the loop: the resolver, Cap - Free, and the attempts that hold a slot.
  pub record Assigning : Type 0 where
    pub resolver : Resolver E
    pub used : ℕ
    pub in_flight : List ℕ

  -- What the loop notes of the start of Entries[i], and whether it goes on.
  unfoldable pub note_start : Assigning → ℕ → Resolver E × ResolveStart → Assigning × Bool
  note_start a i (s, resolve_started) =
      (record { resolver = s; used = suc a.used; in_flight = a.in_flight ++ i ∷ [] }, true)
  note_start a i (s, resolve_failed) = (record a { resolver = s }, true)
  note_start a i (s, resolve_blocked) = (record a { resolver = s }, false)
  note_start a i (s, resolve_exhausted) = (record a { resolver = s }, false)

  unfoldable pub start_waiting : Frame E → Assigning → ℕ → Assigning × Bool
  start_waiting f a i = note_start a i (start_resolve E f a.resolver i)

  -- The slot of Entries[v] is taken away after the release of its pin, and whether it is free.
  unfoldable pub take_slot : Frame E → Assigning → ℕ → Resolver E × Bool → Assigning × Bool
  take_slot f a v (s, freed) = (
    record {
      resolver = record s {
        entries = change_at v (λ x. record x { pin = none; next_eligible = f.now }) s.entries;
      };
      used = if freed then a.used - 1 else a.used;
      in_flight = remove_single v a.in_flight;
    },
    freed,
  )

  -- The attempt of Entries[v] gives its slot up.
  unfoldable pub preempt : Frame E → Assigning → ℕ → Assigning × Bool
  preempt f a v = elim (entry_at v a.resolver.entries) [
    | none ↦ (a, false)
    | some e ↦ take_slot f a v (release_cloud_pin E f a.resolver e.pin)
  ]

  -- A round of the loop over the waiting anchors, and whether the loop goes on.
  unfoldable pub assign_one : Frame E → Settings E → List E.Real → Assigning → ℕ → Assigning × Bool
  assign_one f cfg bounds a i =
      let near = is_near cfg (bound_at bounds i) in
      let far_max = max 1 cfg.max_per_minute in
      let budget = if near then max far_max 60 else far_max in
      if leb budget (length a.resolver.recent)
      then (a, near)
      else if leb (max 1 cfg.max_concurrent) a.used
      then (if near
          then (elim (choose_victim f cfg a.resolver.entries bounds none a.in_flight) [
            | none ↦ (a, false)
            | some v ↦
                (let r = preempt f a v in
                  let later = start_waiting f r.0 i in if r.1 then later else (r.0, false))
          ])
          else (a, false))
      else start_waiting f a i

  unfoldable pub assign_all : Frame E → Settings E → List E.Real → Assigning → List ℕ → Assigning
  assign_all f cfg bounds a [] = a
  assign_all f cfg bounds a (i ∷ is) =
      let r = assign_one f cfg bounds a i in
      let rest = assign_all f cfg bounds r.0 is in if r.1 then rest else r.0

  -- ScheduleResolves.
  unfoldable pub schedule_resolves : Frame E → Settings E → Resolver E → Resolver E
  schedule_resolves f cfg s =
      let bounds = all_bounds f cfg s.entries s.entries in
      let entries = note_all f cfg s.entries s.entries in
      let t = record s { entries = entries; recent = remove_old f s.recent } in
      let waiting = positions (is_waiting f) 0 entries in
      let sorted = E.sort (comes_first cfg entries bounds) waiting in
      let start : Assigning = record {
        resolver = t;
        used = count_live_resolves E f t;
        in_flight = positions (is_in_flight E) 0 entries;
      } in
      if not f.configured
      then s
      else if not f.good_tracking
      then s
      else if length waiting == 0 || E.less f.now s.hold_until
      then t
      else (assign_all f cfg bounds start sorted).resolver
