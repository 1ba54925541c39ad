-- ===== src/Session/Seqlock.antt =====
-- The seqlock of Server_Core/Network/Session.h, step by step: PublishTransform and SetEra in the
-- owner thread against ReadTransform in another. The transform is a list of scalars, copied one
-- at a time. Steps of the threads interleave in one order (the fences of the source are there to
-- give this). `ticks`, `lag` and `history` are not in the code: they record the changes of the
-- counter since the reader's first load, the same at its second load, and what the transform was
-- whenever no write was in progress.
pub mod Snapshot
pub mod Torn
use ai_xr_project.Base.{
  ℕ, zero, suc, ◌+◌, ◌%◌, List, [], ◌∷◌, Option, none, some, ltb, ◌==◌, if◌then◌else◌, incr32,
  u32_mod, length, Bool, true, false,
}
use ai_xr_project.Session.{TransformState}

pub data Writer : Type 0 where
  idle : Writer
  writing : ℕ → List (ℕ × ℕ) → Writer

pub data ReaderPc : Type 0 where
  loading : ReaderPc
  copying : ℕ → ReaderPc
  loading_again : ReaderPc
  checking : ReaderPc
  returned : ReaderPc

pub record Shared : Type 0 where
  pub counter : ℕ
  pub cells : List ℕ
  pub writer : Writer
  pub pc : ReaderPc
  pub s1 : ℕ
  pub s2 : ℕ
  pub out : List ℕ
  pub ticks : ℕ
  pub lag : ℕ
  pub history : List (List ℕ)

abbrev pub get_or : List ℕ → ℕ → ℕ → ℕ
get_or [] i d = d
get_or (x ∷ xs) zero d = x
get_or (x ∷ xs) (suc i) d = get_or xs i d

abbrev pub set : List ℕ → ℕ → ℕ → List ℕ
set [] i v = []
set (x ∷ xs) zero v = v ∷ xs
set (x ∷ xs) (suc i) v = x ∷ set xs i v

-- The first two lines of PublishTransform and SetEra: the counter becomes odd.
unfoldable pub begin_write : List (ℕ × ℕ) → Shared → Shared
begin_write ws st = elim st.writer [
  | idle ↦ record st {
    counter = incr32 st.counter;
    writer = writing st.counter ws;
    ticks = suc st.ticks;
  }
  | writing _ _ ↦ st
]

-- The next scalar of the copy, or the store that makes the counter even.
unfoldable pub write_step : Shared → Shared
write_step st = elim st.writer [
  | idle ↦ st
  | writing s [] ↦ record st {
    counter = (s + 2) % u32_mod;
    writer = idle;
    ticks = suc st.ticks;
    history = st.cells ∷ st.history;
  }
  | writing s ((i, v) ∷ ws) ↦ record st { cells = set st.cells i v; writer = writing s ws }
]

-- One step of ReadTransform. The `continue` of a do-while loop goes to its condition.
unfoldable pub read_step : Shared → Shared
read_step st = elim st.pc [
  | loading ↦ record st {
    s1 = st.counter;
    ticks = 0;
    pc = if st.counter % 2 == 1 then checking else copying 0;
  }
  | copying i ↦
      (if ltb i (length st.cells)
        then record st { out = set st.out i (get_or st.cells i 0); pc = copying (suc i) }
        else record st { pc = loading_again })
  | loading_again ↦ record st { s2 = st.counter; lag = st.ticks; pc = checking }
  | checking ↦ record st { pc = if st.s1 == st.s2 then returned else loading }
  | returned ↦ st
]

pub data Action : Type 0 where
  read : Action
  write : Action
  publish : List (ℕ × ℕ) → Action

unfoldable pub step : Action → Shared → Shared
step read st = read_step st
step write st = write_step st
step (publish ws) st = begin_write ws st

-- A schedule of the two threads.
unfoldable pub run : List Action → Shared → Shared
run [] st = st
run (a ∷ rest) st = run rest (step a st)

-- The scalars of a transform, in the order of the struct.
abbrev pub scalars : TransformState → List ℕ
scalars t =
    t.seq ∷ t.pos_x ∷ t.pos_y ∷ t.pos_z ∷ t.rot_x ∷ t.rot_y ∷ t.rot_z ∷ t.rot_w ∷ t.vel_x ∷ t.vel_y
    ∷ t.vel_z ∷ t.era ∷ t.flags ∷ []

abbrev pub indexed : ℕ → List ℕ → List (ℕ × ℕ)
indexed i [] = []
indexed i (x ∷ xs) = (i, x) ∷ indexed (suc i) xs

-- The writes of PublishTransform and of SetEra.
unfoldable pub publish_writes : TransformState → List (ℕ × ℕ)
publish_writes t = indexed 0 (scalars t)

unfoldable pub set_era_writes : ℕ → List (ℕ × ℕ)
set_era_writes era = (11, era) ∷ []

-- No write is in progress, the counter is even, and ReadTransform is called: s2 is not initialised
-- and may hold any value.
unfoldable pub quiet : ℕ → TransformState → TransformState → ℕ → Shared
quiet counter t out s2 = record {
  counter = counter;
  cells = scalars t;
  writer = idle;
  pc = loading;
  s1 = 0;
  s2 = s2;
  out = scalars out;
  ticks = 0;
  lag = 0;
  history = scalars t ∷ [];
}
