-- ===== src/Tests/Relocation.antt =====
-- Runs of the theorems about the relocalization. Numbers stand for floats, seconds being counted in
-- tenths, vectors are triples of numbers and a transform is a yaw and a vector.
use ai_xr_project.Base.{
  ℕ, ◌+◌, ◌-◌, ◌*◌, ◌/◌, ◌≡◌, refl, List, [], ◌∷◌, none, some, true, false, ◌==◌, ltb, leb, arith,
  ◌⊎◌,
}
use Prim.Native.Nat.{min, max}
use ai_xr_project.NavLocalizer.{
  ArMath, localized, relocalizing, orientation_and_position, reason_none, no_reason, Image, ArFrame,
  LocalizerSettings, LocalizerState, on_relocalized,
}
use ai_xr_project.NavLocalizer.Judge.{pick_reloc_candidate}
use ai_xr_project.NavLocalizer.Relocation.{no_accum}
use ai_xr_project.NavLocalizer.Monitor.{monitor_relocalization}
use ai_xr_project.NavLocalizer.Anchor.{no_marker, no_pose}
use ai_xr_project.NavLocalizer.Tick.{
  LocalizerCall, call_tick, call_start, call_markers, call_foreground, call_note_fix, make_calls,
}
use ai_xr_project.NavLocalizer.Phases.{phase_of, phases}
use ai_xr_project.NavLocalizer.Observed.{phases-make_calls}
use ai_xr_project.NavLocalizer.Exit.{IsEarned, EndsWith, monitor_relocalization-exit}
use ai_xr_project.NavLocalizer.Candidates.{IsStable, Nearest, pick_reloc_candidate-Nearest}

abbrev far : ℕ → ℕ → ℕ
far a b = (a - b) + (b - a)

abbrev numbers : ArMath
numbers = record {
  Real = ℕ;
  literal = λ n. n;
  small = 0;
  one_tenth = 1;
  half = 5;
  eight_tenths = 8;
  one_and_half = 15;
  add = λ a b. a + b;
  sub = λ a b. a - b;
  mul = λ a b. a * b / 10;
  div = λ a b. a / b;
  negate = λ a. a;
  to_float = λ a. a;
  addf = λ a b. a + b;
  subf = λ a b. a - b;
  mulf = λ a b. a * b / 10;
  less = ltb;
  at_most = leb;
  upper = max;
  clamp = λ x lo hi. max lo (min x hi);
  absolute = λ a. a;
  normalize_axis = λ a. a;
  Vec = ℕ × ℕ × ℕ;
  make_vec = λ x y z. (x, y, z);
  sub_vec = λ p q. (far p.0 q.0, far p.1 q.1, far p.2 q.2);
  rotate = λ a p. p;
  distance = λ p q. far p.0 q.0 + far p.1 q.1 + far p.2 q.2;
  x_of = λ p. p.0;
  y_of = λ p. p.1;
  z_of = λ p. p.2;
  Xform = ℕ × (ℕ × ℕ × ℕ);
  identity = (0, (0, 0, 0));
  make_xform = λ a p. (a, p);
  yaw_of = λ x. x.0;
  location_of = λ x. x.1;
  inverse_position = λ x p. p;
  Code = ℕ;
  no_code = 0;
  is_empty = λ c. c == 0;
  same_code = λ a b. a == b;
}

abbrev settings : LocalizerSettings numbers
settings = record {
  marker_heading_offset = 0;
  continuous_relatch = false;
  relatch_on_reacquire = true;
  reacquire_gap = 15;
  lost_after = 0;
  snap_height = true;
  poor_quality_hold = 15;
  quality_recover = 5;
  reloc_not_tracking = 10;
  reloc_reason_hold = 30;
  reloc_jump_cm = 100;
  reloc_jump_deg = 35;
  reloc_speed = 3;
  reloc_min_stay = 20;
  reloc_cooldown = 50;
  reloc_pin_stable = 5;
  reloc_on_resume = true;
  reloc_soft_hint = 900;
  anchor_scan_interval = 2;
}

abbrev new_localizer : LocalizerState numbers
new_localizer = record {
  known_markers = [];
  anchor_image = none;
  anchor_code = 0;
  anchor = no_marker numbers;
  from_cloud = false;
  map_to_world = (0, (0, 0, 0));
  current_pose = no_pose numbers;
  is_scanning = false;
  is_localized = false;
  markers_ready = false;
  lost_reported = false;
  since_seen = 0;
  last_map = 0;
  poor_seconds = 0;
  good_seconds = 0;
  is_degraded = false;
  state = localized;
  reason = no_reason;
  enter_time = 0;
  recovered_time = 0;
  pending_source = 0;
  reloc_good = 0;
  accum = no_accum numbers;
  solved = false;
  pending_jump = false;
  pending_resume = false;
  soft_hint_seconds = 0;
  soft_hint_shown = false;
  since_scan = 0;
  last_scan = [];
}

abbrev image : Image numbers
image = record {
  image_id = 1;
  is_tracking = true;
  friendly_name = some 12;
  world = (0, (100, 0, 0));
}

abbrev at_time : ℕ → ArFrame numbers
at_time t = record {
  now = t;
  quality = orientation_and_position;
  quality_reason = reason_none;
  camera = some (record { location = (t, 0, 0); yaw = 0; pitch = 0 });
  images = image ∷ [];
}

-- A marker is found, the application comes back, a relocalization runs, and a fix ends it.
abbrev calls : List (ArFrame numbers × LocalizerCall numbers)
calls =
    (at_time 0, call_start true 1)
    ∷ (at_time 1, call_markers ((12, no_marker numbers) ∷ []))
    ∷ (at_time 2, call_tick 1)
    ∷ (at_time 3, call_foreground)
    ∷ (at_time 4, call_tick 1)
    ∷ (at_time 30, call_tick 26)
    ∷ (at_time 31, call_note_fix 12)
    ∷ (at_time 32, call_tick 1)
    ∷ (at_time 60, call_tick 28)
    ∷ []

phases-make_calls_example :
    phases (phase_of new_localizer.state) (make_calls numbers settings calls new_localizer).1
    ≡ some (phase_of (make_calls numbers settings calls new_localizer).0.state)
phases-make_calls_example = phases-make_calls numbers settings calls new_localizer

-- A relocalization that may end.
abbrev waiting : LocalizerState numbers
waiting = record new_localizer {
  is_localized = true;
  state = relocalizing;
  enter_time = 4;
  reloc_good = 26;
  pending_source = 12;
}

monitor_relocalization-exit_example :
    ((¬ IsEarned numbers settings (at_time 32) 1 waiting)
      × ((monitor_relocalization numbers settings (at_time 32) 1 waiting).0.state ≡ relocalizing)
      × ((monitor_relocalization numbers settings (at_time 32) 1 waiting).1 ≡ []))
    ⊎ (IsEarned numbers settings (at_time 32) 1 waiting
        × EndsWith numbers
            (on_relocalized 0)
            (monitor_relocalization numbers settings (at_time 32) 1 waiting))
monitor_relocalization-exit_example =
    monitor_relocalization-exit numbers settings (at_time 32) 1 waiting refl

ltb_irrefl : (a : ℕ) → ltb a a ≡ false
ltb_irrefl a = ground arith

ltb_trans : (a b c : ℕ) → ltb a b ≡ true → ltb b c ≡ true → ltb a c ≡ true
ltb_trans a b c h k = ground arith

abbrev candidates : List (ℕ × ℕ)
candidates = (300, 9) ∷ (100, 2) ∷ (200, 7) ∷ []

pick_reloc_candidate-Nearest_example :
    Nearest numbers 5 candidates (pick_reloc_candidate numbers candidates 5)
    × ((pick_reloc_candidate numbers candidates 5 ≡ none)
        ⊎ ((i : ℕ) × (d : ℕ) × ((pick_reloc_candidate numbers candidates 5 ≡ some (i, d))
              × IsStable numbers 5 candidates (i, d))))
pick_reloc_candidate-Nearest_example =
    pick_reloc_candidate-Nearest numbers ltb_irrefl ltb_trans candidates 5
