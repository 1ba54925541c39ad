-- ===== src/NavCloudResolver/Ticks.antt =====
-- The ticks of TimeMachineAR/Source/TimeMachineAR/NavCloudResolver.cpp and its lists of anchors keep the bounds.
use ai_xr_project.Base.{
  ℕ, zero, suc, ◌+◌, ◌≡◌, refl, ap, ◌∙◌, List, Option, none, some, Bool, true, false, ◌&&◌, ◌||◌,
  if◌then◌else◌, length, arith, Bool-cases, Option-cases, inl, inr,
}
use ai_xr_project.NavCloudResolver.{
  Engine, Entry, Settings, Frame, Resolver, CloudState, is_cloud_error,
  is_deterministic_cloud_error, is_success, is_exhausted, is_in_flight, release_cloud_pin,
  poll_orphan_pins, flights,
}
use ai_xr_project.NavCloudResolver.Attempts.{entry_at, change_at, fail_attempt}
use ai_xr_project.NavCloudResolver.Poll.{
  try_localize, try_localize_with_anchor, recognize, without_pin, free_entry, fail_entry, give_up,
  watch_recognized_anchor, succeed, poll_attempt, poll_entry, poll_from, poll_resolves,
  tick_resolves,
}
use ai_xr_project.NavCloudResolver.Load.{
  one_flight, flights-change_at, load, release_cloud_pin-Released, poll_orphans_loop-ArePending,
}
use ai_xr_project.NavCloudResolver.Assign.{no_flight}
use ai_xr_project.NavCloudResolver.Slots.{IsWithin, SortsNumbers, schedule_resolves-IsWithin}
use ai_xr_project.NavCloudResolver.Quiet.{
  IsQuiet, IsQuiet-trans, IsQuiet-refl, FailuresEnd, change_lem, try_localize-IsQuiet,
  watch-IsQuiet, IsQuiet-if,
}

module _ (E : Engine) where
  fail_attempt-flight :
      (f : Frame E) (cfg : Settings E) (es : List (Entry E)) (hold : E.Real) (e : Entry E)
      (b d : Bool)
      → one_flight E (fail_attempt E f cfg es hold e b d).0 ≡ one_flight E e
  unfolding fail_attempt is_in_flight
  fail_attempt-flight f cfg es hold e true d = refl
  fail_attempt-flight f cfg es hold e false d = refl

  without_pin_lem : (e : Entry E) → (without_pin E e).pin ≡ none
  unfolding without_pin
  without_pin_lem e = refl

  -- A running attempt is taken off, and its pin is at most one orphan more.
  free_entry-IsQuiet :
      (f : Frame E) (s : Resolver E) (i : ℕ) (e : Entry E)
      → entry_at i s.entries ≡ some e
      → one_flight E e ≡ 1
      → IsQuiet E f s (free_entry E f s i e)
  unfolding free_entry load
  free_entry-IsQuiet f s i e he h1 =
      let t = (release_cloud_pin E f s e.pin).0 in
      let kept = release_cloud_pin-Released E f s e.pin in
      let g : Entry E → Entry E = λ x. without_pin E e in
      let first : flights E (change_at i g t.entries) + one_flight E e ≡ flights E s.entries + 0 =
        ap (λ l. flights E (change_at i g l) + one_flight E e) kept.0
        ∙ flights-change_at E i g s.entries e he
        ∙ ap (λ n. flights E s.entries + n) (no_flight E (without_pin E e) (without_pin_lem e)) in
      (omega (arith, first, h1, kept.1.1.0), (kept.1.0, kept.1.1.1.1))

  fail_entry-IsQuiet :
      (f : Frame E) (cfg : Settings E) (s : Resolver E) (i : ℕ) (e : Entry E) (state : CloudState)
      → one_flight E e ≡ 0
      → IsQuiet E f s (fail_entry E f cfg s i e state)
  unfolding fail_entry
  fail_entry-IsQuiet f cfg s i e state h =
      let b = is_exhausted state in
      let d = is_deterministic_cloud_error state in
      let zero_flight = fail_attempt-flight f cfg s.entries s.hold_until e b d ∙ h in
      change_lem E f s (fail_entry E f cfg s i e state) i
        (λ x. (fail_attempt E f cfg s.entries s.hold_until e b d).0)
        (λ x. omega (arith, zero_flight)) refl refl refl

  give_up-IsQuiet :
      (f : Frame E) (cfg : Settings E) (s : Resolver E) (i : ℕ) (e : Entry E) (state : CloudState)
      → entry_at i s.entries ≡ some e
      → one_flight E e ≡ 1
      → IsQuiet E f s (give_up E f cfg s i e state)
  unfolding give_up
  give_up-IsQuiet f cfg s i e state he h1 =
      IsQuiet-trans E f s (free_entry E f s i e) (give_up E f cfg s i e state)
        (free_entry-IsQuiet f s i e he h1)
        (fail_entry-IsQuiet f cfg (free_entry E f s i e) i (without_pin E e) state
          (no_flight E (without_pin E e) (without_pin_lem e)))

  succeed-IsQuiet :
      (f : Frame E) (s : Resolver E) (i : ℕ) (e : Entry E) → IsQuiet E f s (succeed E f s i e)
  unfolding succeed try_localize_with_anchor recognize is_in_flight
  succeed-IsQuiet f s i e =
      let t = record s { entries = change_at i (recognize E f) s.entries } in
      IsQuiet-trans E f s t (try_localize E f t i e.point_no s.localizer)
        (change_lem E f s t i (recognize E f) (λ x. ground arith) refl refl refl)
        (try_localize-IsQuiet E f t i e.point_no s.localizer)

  poll_attempt-IsQuiet :
      (f : Frame E) (cfg : Settings E) (s : Resolver E) (i : ℕ) (e : Entry E) (o : Option ℕ)
      → entry_at i s.entries ≡ some e
      → e.pin ≡ o
      → e.recognized ≡ false
      → IsQuiet E f s (poll_attempt E f cfg s i e o)
  unfolding poll_attempt is_in_flight
  poll_attempt-IsQuiet f cfg s i e none he hp hr = IsQuiet-refl E f s
  poll_attempt-IsQuiet f cfg s i e (some p) he hp hr =
      let state = f.cloud_state p in
      let over = give_up E f cfg s i e state in
      let ends = is_cloud_error state || E.less (E.literal 12) (E.sub f.now e.attempt_start) in
      IsQuiet-if E f s (succeed E f s i e) (if ends then over else s)
        (is_success state && f.tracking p) (succeed-IsQuiet f s i e)
        (IsQuiet-if E f s over s ends (give_up-IsQuiet f cfg s i e state he (rw (hp, hr) refl))
          (IsQuiet-refl E f s))

  IsQuiet-cases :
      (f : Frame E) (s t u : Resolver E) (b : Bool)
      → (b ≡ true → IsQuiet E f s t)
      → (b ≡ false → IsQuiet E f s u)
      → IsQuiet E f s (if b then t else u)
  IsQuiet-cases f s t u true ht hu = ht refl
  IsQuiet-cases f s t u false ht hu = hu refl

  poll_entry-IsQuiet :
      (f : Frame E) (cfg : Settings E) (s : Resolver E) (i : ℕ) (e : Entry E)
      → entry_at i s.entries ≡ some e
      → FailuresEnd E f
      → IsQuiet E f s (poll_entry E f cfg s i e)
  unfolding poll_entry
  poll_entry-IsQuiet f cfg s i e he ends =
      IsQuiet-cases f s (watch_recognized_anchor E f s i e e.pin) (poll_attempt E f cfg s i e e.pin)
        e.recognized (λ r. watch-IsQuiet E f s i e e.pin refl ends)
        (λ r. poll_attempt-IsQuiet f cfg s i e e.pin he refl r)

  poll_from-IsQuiet :
      (f : Frame E) (cfg : Settings E) (n i : ℕ) (s : Resolver E)
      → FailuresEnd E f
      → IsQuiet E f s (poll_from E f cfg s i n)
  unfolding poll_from
  poll_from-IsQuiet f cfg zero i s ends = IsQuiet-refl E f s
  poll_from-IsQuiet f cfg (suc n) i s ends = elim (Option-cases (entry_at i s.entries)) [
    | inl e ↦ rw (e, poll_from) (IsQuiet-refl E f s)
    | inr (e, he) ↦
        let t = poll_entry E f cfg s i e in
        rw (he, poll_from)
          (IsQuiet-trans E f s t (poll_from E f cfg t (suc i) n)
            (poll_entry-IsQuiet f cfg s i e he ends) (poll_from-IsQuiet f cfg n (suc i) t ends))
  ]

  -- A tick keeps the bounds.
  pub tick_resolves-IsWithin :
      (f : Frame E) (cfg : Settings E) (s : Resolver E)
      → SortsNumbers E
      → FailuresEnd E f
      → IsWithin E cfg s
      → IsWithin E cfg (tick_resolves E f cfg s)
  unfolding tick_resolves poll_resolves poll_orphan_pins load
  tick_resolves-IsWithin f cfg s sorts ends h =
      let polled = poll_orphans_loop-ArePending E f s.orphans in
      let p = poll_orphan_pins E f (record s { localizer = f.localizer }) in
      let t = poll_resolves E f cfg p in
      let quiet = poll_from-IsQuiet f cfg (length p.entries) 0 p ends in
      let within : IsWithin E cfg t =
        (omega (arith, quiet.0, polled.1, h.0), omega (arith, ap length quiet.1.0, h.1)) in
      let next = record t { next_scheduler = E.add f.now E.one_fifth } in
      elim (Bool-cases (E.at_most t.next_scheduler f.now)) [
        | inr early ↦ rw (early, tick_resolves) within
        | inl due ↦
            rw (due, tick_resolves)
              (schedule_resolves-IsWithin E f cfg next sorts (quiet.1.1 polled.0) within)
      ]
