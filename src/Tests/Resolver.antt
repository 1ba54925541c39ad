-- ===== src/Tests/Resolver.antt =====
-- A run of the theorem about the cloud anchors, with natural numbers for the engine's reals.
use Prim.Native.Nat.{max, min, ◌*◌, ◌^◌}
use ai_xr_project.Base.{
  occurrences, ℕ, ◌+◌, ◌-◌, ◌≤◌, ◌≡◌, refl, ◌∙◌, ltb, leb, List, [], ◌∷◌, none, some, Bool, true,
  false, ◌==◌, if◌then◌else◌, length, arith, All,
}
use ai_xr_project.NavCloudResolver.{
  Engine, Entry, Settings, Frame, CloudState, is_cloud_error, resolve_success, other_state,
  task_other, new_resolver, count_live_resolves,
}
use ai_xr_project.NavCloudResolver.Anchors.{AnchorRow}
use ai_xr_project.NavCloudResolver.Listed.{IsSettled}
use ai_xr_project.NavCloudResolver.Runs.{
  Call, ticks, lists, IsRun, run_calls, run_calls-count_live_resolves,
}

abbrev insert_number : (ℕ → ℕ → Bool) → ℕ → List ℕ → List ℕ
insert_number first x [] = x ∷ []
insert_number first x (y ∷ ys) =
    let rest = insert_number first x ys in if first y x then y ∷ rest else x ∷ y ∷ ys

abbrev pub sort_numbers : (ℕ → ℕ → Bool) → List ℕ → List ℕ
sort_numbers first [] = []
sort_numbers first (x ∷ xs) = insert_number first x (sort_numbers first xs)

occurrences-insert_number :
    (first : ℕ → ℕ → Bool) (k x : ℕ) (xs : List ℕ)
    → occurrences k (insert_number first x xs) ≡ occurrences k (x ∷ xs)
unfolding occurrences
occurrences-insert_number first k x [] = refl
occurrences-insert_number first k x (y ∷ ys) =
    ground (arith, occurrences-insert_number first k x ys)

pub occurrences-sort_numbers :
    (first : ℕ → ℕ → Bool) (xs : List ℕ) (k : ℕ)
    → occurrences k (sort_numbers first xs) ≡ occurrences k xs
unfolding occurrences
occurrences-sort_numbers first [] k = refl
occurrences-sort_numbers first (x ∷ xs) k =
    occurrences-insert_number first k x (sort_numbers first xs)
    ∙ ground (arith, occurrences-sort_numbers first xs k)

abbrev number_engine : Engine
number_engine = record {
  Real = ℕ;
  literal = λ n. n;
  minus_one = 0;
  one_and_half = 1;
  one_fifth = 0;
  largest = 1000000;
  add = λ a b. a + b;
  sub = λ a b. a - b;
  mul = λ a b. a * b;
  pow2 = λ n. 2 ^ n;
  lower = min;
  upper = max;
  absolute = λ a. a;
  to_float = λ a. a;
  less = ltb;
  at_most = leb;
  equal = λ a b. a == b;
  distance = λ a b c d. a - c;
  sort = sort_numbers;
}

abbrev settings : Settings number_engine
settings = record {
  max_concurrent = 1;
  max_per_minute = 40;
  backoff_max = 60;
  near_cm = 400;
  slack_cm = 150;
}

-- All pins are pending, none can be cancelled, and each attempt starts.
abbrev frame_at : ℕ → Frame number_engine
frame_at time = record {
  now = time;
  configured = true;
  good_tracking = true;
  camera = some (0, 0);
  pending = λ p. true;
  cancelled = λ p. false;
  tracking = λ p. true;
  cloud_state = λ p. other_state;
  pin_place = λ p. (0, 0);
  create = λ n. (some n, task_other);
  localizer = none;
}

-- All pins have come to an end.
abbrev ended_at : ℕ → CloudState → Frame number_engine
ended_at time state = record (frame_at time) { pending = λ p. false; cloud_state = λ p. state }

abbrev row : ℕ → AnchorRow number_engine
row n = record {
  point_no = n;
  cloud_id = n;
  is_asset = false;
  pos_x = 100;
  pos_y = 0;
  pos_z = 0;
  heading = 90;
}

abbrev calls : List (Call number_engine)
calls =
    lists (ended_at 1 other_state) (row 2 ∷ row 1 ∷ [])
    ∷ ticks (frame_at 2)
    ∷ ticks (frame_at 20)
    ∷ ticks (ended_at 40 resolve_success)
    ∷ lists (ended_at 41 resolve_success) (row 2 ∷ [])
    ∷ []

-- Where no pin is pending, every entry is settled.
ended_at-IsSettled :
    (time : ℕ) (state : CloudState) (es : List (Entry number_engine))
    → All (IsSettled number_engine (ended_at time state)) es
ended_at-IsSettled time state [] = tt
ended_at-IsSettled time state (e ∷ es) = ((λ p hr hp. refl), ended_at-IsSettled time state es)

calls-IsRun : IsRun number_engine settings (new_resolver number_engine none) calls
unfolding is_cloud_error
calls-IsRun = (
  ended_at-IsSettled 1 other_state _,
  (
    (λ p h. absurd (ground arith)),
    (
      (λ p h. absurd (ground arith)),
      ((λ p h. refl), (ended_at-IsSettled 41 resolve_success _, tt)),
    ),
  ),
)

run_calls-count_live_resolves_example :
    (let s = run_calls number_engine settings (new_resolver number_engine none) calls in
      (count_live_resolves number_engine (frame_at 50) s ≤ 1) × (length s.recent ≤ 60))
run_calls-count_live_resolves_example =
    run_calls-count_live_resolves number_engine settings calls none (frame_at 50)
      occurrences-sort_numbers calls-IsRun
