-- ===== src/NavCloudResolver/Assign.antt =====
-- The loop over the waiting anchors in ScheduleResolves of
-- TimeMachineAR/Source/TimeMachineAR/NavCloudResolver.cpp keeps the bounds on running attempts and requests.
use Prim.Native.Nat.{max}
use ai_xr_project.Base.{
  occurrences, occurrences-append, ◌⊎◌, ℕ, zero, suc, ◌+◌, ◌-◌, ◌≤◌, ◌<◌, ◌≡◌, ◌≢◌, refl, ap, List,
  [], ◌∷◌, ◌++◌, none, some, Bool, true, false, not, ◌==◌, if◌then◌else◌, length, arith,
  compare_cases, inl, inr,
}
use ai_xr_project.NavCloudResolver.{Engine, Entry, Settings, Resolver, is_in_flight, flights}
use ai_xr_project.NavCloudResolver.Attempts.{entry_at, change_at}
use ai_xr_project.NavCloudResolver.Schedule.{remove_single, Assigning}
use ai_xr_project.NavCloudResolver.Load.{one_flight, flights-change_at_le, load}

pub occurrences-remove_single :
    (k v : ℕ) (xs : List ℕ)
    → occurrences k (remove_single v xs)
      ≡ (if k == v then occurrences k xs - 1 else occurrences k xs)
unfolding occurrences remove_single
occurrences-remove_single k v [] = ground arith
occurrences-remove_single k v (x ∷ xs) = ground (arith, occurrences-remove_single k v xs)

pub same_or_other : (k i : ℕ) → (k ≡ i) ⊎ (k ≢ i)
same_or_other k i = elim (compare_cases k i) [
  | inl l ↦ inr (λ e. omega arith)
  | inr (inl e) ↦ inl e
  | inr (inr g) ↦ inr (λ e. omega arith)
]

module _ (E : Engine) where
  unfoldable pub is_flying : ℕ → List (Entry E) → Bool
  is_flying k es = elim (entry_at k es) [ none ↦ false | some e ↦ is_in_flight E e ]

  unfoldable pub is_unrecognized : ℕ → List (Entry E) → Bool
  is_unrecognized k es = elim (entry_at k es) [ none ↦ false | some e ↦ not e.recognized ]

  abbrev pub cap : Settings E → ℕ
  cap cfg = max 1 cfg.max_concurrent

  abbrev pub request_limit : Settings E → ℕ
  request_limit cfg = max (max 1 cfg.max_per_minute) 60

  -- The loop with the anchors that still wait.
  pub record IsAssigning (cfg : Settings E) (a : Assigning E) (ws : List ℕ) : Type 0 where
    pub load_used : load E a.resolver ≤ a.used
    pub used_cap : a.used ≤ cap cfg
    pub requests : length a.resolver.recent ≤ request_limit cfg
    pub once : (k : ℕ) → occurrences k ws + occurrences k a.in_flight ≤ 1
    pub flying : (k : ℕ) → 1 ≤ occurrences k a.in_flight → is_flying k a.resolver.entries ≡ true
    pub waiting : (k : ℕ) → 1 ≤ occurrences k ws → is_unrecognized k a.resolver.entries ≡ true

  pub is_flying-change_other :
      (k i : ℕ) (g : Entry E → Entry E) (es : List (Entry E))
      → k ≢ i
      → is_flying k (change_at i g es) ≡ is_flying k es
  unfolding is_flying entry_at change_at
  is_flying-change_other k i g [] h = refl
  is_flying-change_other zero zero g (x ∷ xs) h = absurd (h refl)
  is_flying-change_other zero (suc i) g (x ∷ xs) h = refl
  is_flying-change_other (suc k) zero g (x ∷ xs) h = refl
  is_flying-change_other (suc k) (suc i) g (x ∷ xs) h =
      is_flying-change_other k i g xs (λ e. h (ap (λ n. suc n) e))

  is_flying-change_at :
      (i p : ℕ) (g : Entry E → Entry E) (es : List (Entry E))
      → is_unrecognized i es ≡ true
      → ((e : Entry E) → (g e).recognized ≡ e.recognized)
      → ((e : Entry E) → (g e).pin ≡ some p)
      → is_flying i (change_at i g es) ≡ true
  unfolding is_flying is_unrecognized is_in_flight entry_at change_at
  is_flying-change_at i p g [] h r q = ground arith
  is_flying-change_at zero p g (x ∷ xs) h r q = rw (q x, r x) h
  is_flying-change_at (suc i) p g (x ∷ xs) h r q = is_flying-change_at i p g xs h r q

  pub is_unrecognized-change_at :
      (k i : ℕ) (g : Entry E → Entry E) (es : List (Entry E))
      → ((e : Entry E) → (g e).recognized ≡ e.recognized)
      → is_unrecognized k (change_at i g es) ≡ is_unrecognized k es
  unfolding is_unrecognized entry_at change_at
  is_unrecognized-change_at k i g [] h = refl
  is_unrecognized-change_at zero zero g (x ∷ xs) h = ap not (h x)
  is_unrecognized-change_at zero (suc i) g (x ∷ xs) h = refl
  is_unrecognized-change_at (suc k) zero g (x ∷ xs) h = refl
  is_unrecognized-change_at (suc k) (suc i) g (x ∷ xs) h = is_unrecognized-change_at k i g xs h

  flights-change_at-suc :
      (i : ℕ) (g : Entry E → Entry E) (es : List (Entry E))
      → flights E (change_at i g es) ≤ suc (flights E es)
  unfolding flights change_at
  flights-change_at-suc i g [] = omega arith
  flights-change_at-suc zero g (x ∷ xs) = ground arith
  flights-change_at-suc (suc i) g (x ∷ xs) = ground (arith, flights-change_at-suc i g xs)

  -- A waiting anchor whose attempt has started.
  pub started_lem :
      (cfg : Settings E) (a : Assigning E) (i p : ℕ) (ws : List ℕ) (g : Entry E → Entry E)
      (s : Resolver E)
      → ((e : Entry E) → (g e).recognized ≡ e.recognized)
      → ((e : Entry E) → (g e).pin ≡ some p)
      → IsAssigning cfg a (i ∷ ws)
      → a.used < cap cfg
      → length a.resolver.recent < request_limit cfg
      → s.entries ≡ change_at i g a.resolver.entries
      → s.orphans ≡ a.resolver.orphans
      → length s.recent ≡ suc (length a.resolver.recent)
      → IsAssigning cfg
          (record { resolver = s; used = suc a.used; in_flight = a.in_flight ++ i ∷ [] })
          ws
  unfolding load occurrences
  started_lem cfg a i p ws g s r q h free budget hs ho hr = record {
    load_used = omega (
      arith,
      h.load_used,
      flights-change_at-suc i g a.resolver.entries,
      ap (flights E) hs,
      ap length ho,
    );
    used_cap = omega arith;
    requests = omega (arith, hr, budget);
    once = λ k. ground (arith, h.once k, occurrences-append k a.in_flight (i ∷ []));
    flying = λ k hk. elim (same_or_other k i) [
      | inl e ↦
          rw (hs, e) (is_flying-change_at i p g a.resolver.entries (h.waiting i (ground arith)) r q)
      | inr n ↦
          rw (hs, is_flying-change_other k i g a.resolver.entries n)
            (h.flying k (ground (arith, hk, n, occurrences-append k a.in_flight (i ∷ []))))
    ];
    waiting = λ k. λ hk.
        rw (hs, is_unrecognized-change_at k i g a.resolver.entries r) (h.waiting k (ground arith));
  }

  pub no_flight : (e : Entry E) → e.pin ≡ none → one_flight E e ≡ 0
  unfolding is_in_flight
  no_flight e h = rw h

  waiting_other :
      (k i : ℕ) (ws xs : List ℕ)
      → occurrences k (i ∷ ws) + occurrences k xs ≤ 1
      → 1 ≤ occurrences k xs
      → k ≢ i
  unfolding occurrences
  waiting_other k i ws xs h hk = λ e. ground arith

  -- A waiting anchor that is passed over.
  pub passed_lem :
      (cfg : Settings E) (a : Assigning E) (i : ℕ) (ws : List ℕ) (s : Resolver E)
      → IsAssigning cfg a (i ∷ ws)
      → s.entries ≡ a.resolver.entries
      → s.orphans ≡ a.resolver.orphans
      → s.recent ≡ a.resolver.recent
      → IsAssigning cfg (record a { resolver = s }) ws
  unfolding load occurrences
  passed_lem cfg a i ws s h hs ho hr = record {
    load_used = omega (arith, h.load_used, ap (flights E) hs, ap length ho);
    used_cap = h.used_cap;
    requests = omega (arith, ap length hr, h.requests);
    once = λ k. ground (arith, h.once k);
    flying = λ k hk. rw hs (h.flying k hk);
    waiting = λ k hk. rw hs (h.waiting k (ground arith));
  }

  -- A waiting anchor whose attempt did not start.
  pub not_started_lem :
      (cfg : Settings E) (a : Assigning E) (i : ℕ) (ws : List ℕ) (g : Entry E → Entry E)
      (s : Resolver E)
      → ((e : Entry E) → (g e).recognized ≡ e.recognized)
      → ((e : Entry E) → (g e).pin ≡ none)
      → IsAssigning cfg a (i ∷ ws)
      → s.entries ≡ change_at i g a.resolver.entries
      → s.orphans ≡ a.resolver.orphans
      → s.recent ≡ a.resolver.recent
      → IsAssigning cfg (record a { resolver = s }) ws
  unfolding load occurrences
  not_started_lem cfg a i ws g s r q h hs ho hr = record {
    load_used = omega (
      arith,
      h.load_used,
      flights-change_at_le E i g a.resolver.entries (λ e. omega (arith, no_flight (g e) (q e))),
      ap (flights E) hs,
      ap length ho,
    );
    used_cap = h.used_cap;
    requests = omega (arith, ap length hr, h.requests);
    once = λ k. ground (arith, h.once k);
    flying = λ k hk.
        rw
          (
            hs,
            is_flying-change_other k i g a.resolver.entries
                (waiting_other k i ws a.in_flight (h.once k) hk),
          )
          (h.flying k hk);
    waiting = λ k hk.
        rw (hs, is_unrecognized-change_at k i g a.resolver.entries r) (h.waiting k (ground arith));
  }
