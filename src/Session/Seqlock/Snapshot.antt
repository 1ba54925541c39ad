-- ===== src/Session/Seqlock/Snapshot.antt =====
-- What the seqlock of Server_Core/Network/Session.h does guarantee: a ReadTransform that leaves its
-- loop after a copy (s1 even) returns a transform that was there when no write was in progress.
use mathlib.Core.List.{Mem, mem-cons_self, mem-cons_of_mem}
use ai_xr_project.Base.{
  ℕ, zero, suc, ◌+◌, ◌%◌, ◌≤◌, ◌<◌, ◌≡◌, refl, ap, sym, subst, ◌∙◌, List, [], ◌∷◌, arith, length,
  take, ltb, ◌==◌, u32_mod, true, false, ltb→lt, ltb→ge, ==_iff, Bool-cases, inl, inr,
}
use ai_xr_project.Session.{TransformState}
use ai_xr_project.Session.Seqlock.{
  Shared, Writer, idle, writing, ReaderPc, loading, copying, loading_again, checking, returned,
  Action, read, write, publish, begin_write, write_step, read_step, step, run, get_or, set, quiet,
}

length-set : (xs : List ℕ) (i v : ℕ) → length (set xs i v) ≡ length xs
length-set [] i v = refl
length-set (x ∷ xs) zero v = refl
length-set (x ∷ xs) (suc i) v = ap suc (length-set xs i v)

take-set :
    (out cells : List ℕ) (i : ℕ)
    → length out ≡ length cells
    → i < length cells
    → take i out ≡ take i cells
    → take (suc i) (set out i (get_or cells i 0)) ≡ take (suc i) cells
take-set [] [] i e h p = refl
take-set [] (y ∷ ys) i e h p = absurd (omega arith)
take-set (x ∷ xs) [] i e h p = absurd (omega arith)
take-set (x ∷ xs) (y ∷ ys) zero e h p = refl
take-set (x ∷ xs) (y ∷ ys) (suc i) e h p =
    ground (arith, take-set xs ys i (omega arith) (omega arith))

take_all : (xs : List ℕ) (n : ℕ) → length xs ≤ n → take n xs ≡ xs
take_all [] zero h = refl
take_all [] (suc n) h = refl
take_all (x ∷ xs) zero h = absurd (omega arith)
take_all (x ∷ xs) (suc n) h = ap (◌∷◌ x) (take_all xs n (omega arith))

odd_even : (n : ℕ) → (n % 2 == 1) ≡ true → n % 2 ≡ 0 → ⊥
odd_even n h e = ground arith

even_of : (n : ℕ) → (n % 2 == 1) ≡ false → n % 2 ≡ 0
even_of n h = ground arith

-- The writer and the counter agree.
abbrev pub WriterOk : Writer → Shared → Type 0
WriterOk idle st = (st.counter % 2 ≡ 0) × Mem st.cells st.history
WriterOk (writing s ws) st = (st.counter ≡ s + 1) × (s % 2 ≡ 0)

-- A round of the reader that began with an even counter.
pub record Round (i : ℕ) (st : Shared) : Type 0 where
  pub even : st.s1 % 2 ≡ 0
  pub word : st.s1 < u32_mod
  pub elapsed : st.counter ≡ (st.s1 + st.ticks) % u32_mod
  pub prefix : st.ticks ≡ 0 → take i st.out ≡ take i st.cells

abbrev pub Answer : Shared → Type 0
Answer st = st.s1 % 2 ≡ 0 → st.s1 ≡ st.s2 → st.lag < u32_mod → Mem st.out st.history

abbrev pub ReaderOk : ReaderPc → Shared → Type 0
ReaderOk loading st = Unit
ReaderOk (copying i) st = Round i st
ReaderOk loading_again st = Round (length st.cells) st
ReaderOk checking st = Answer st
ReaderOk returned st = (st.s1 ≡ st.s2) × Answer st

pub record IsSound (st : Shared) : Type 0 where
  pub sizes : length st.out ≡ length st.cells
  pub word : st.counter < u32_mod
  pub writer_ok : WriterOk st.writer st
  pub reader_ok : ReaderOk st.pc st

-- What the reader knows survives a change of the counter.
tick-ReaderOk :
    (pc : ReaderPc) (st st' : Shared)
    → ReaderOk pc st
    → st'.s1 ≡ st.s1
    → st'.s2 ≡ st.s2
    → st'.out ≡ st.out
    → st'.lag ≡ st.lag
    → st'.ticks ≡ suc st.ticks
    → st'.counter ≡ (st.counter + 1) % u32_mod
    → ((x : List ℕ) → Mem x st.history → Mem x st'.history)
    → ReaderOk pc st'
tick-ReaderOk loading st st' ok e1 e2 e3 e4 e5 e6 h = tt
tick-ReaderOk (copying i) st st' ok e1 e2 e3 e4 e5 e6 h = record {
  even = ap (λ n. n % 2) e1 ∙ ok.even;
  word = omega (arith, ok.word);
  elapsed = omega (arith, ok.elapsed);
  prefix = λ z. absurd (omega arith);
}
tick-ReaderOk loading_again st st' ok e1 e2 e3 e4 e5 e6 h = record {
  even = ap (λ n. n % 2) e1 ∙ ok.even;
  word = omega (arith, ok.word);
  elapsed = omega (arith, ok.elapsed);
  prefix = λ z. absurd (omega arith);
}
tick-ReaderOk checking st st' ok e1 e2 e3 e4 e5 e6 h = λ ev eq lt.
    subst (λ x. Mem x st'.history) (sym e3)
      (h st.out (ok (omega arith) (omega arith) (omega arith)))
tick-ReaderOk returned st st' ok e1 e2 e3 e4 e5 e6 h = (
  omega (arith, ok.0),
  λ ev eq lt.
      subst (λ x. Mem x st'.history) (sym e3)
        (h st.out (ok.1 (omega arith) (omega arith) (omega arith))),
)

begin_write-IsSound :
    (ws : List (ℕ × ℕ)) (w : Writer) (st : Shared)
    → st.writer ≡ w
    → IsSound st
    → IsSound (begin_write ws st)
unfolding begin_write
begin_write-IsSound ws idle st e v =
    let ok : WriterOk idle st = subst (λ x. WriterOk x st) e v.writer_ok in
    rw (e, begin_write)
      (record {
        sizes = v.sizes;
        word = omega arith;
        writer_ok = (omega (arith, ok.0, v.word), ok.0);
        reader_ok = tick-ReaderOk st.pc st _ v.reader_ok refl refl refl refl refl refl (λ x m. m);
      })
begin_write-IsSound ws (writing s p) st e v = rw (e, begin_write) v

-- A write of one scalar. The counter is odd, so a round that began with an even counter has
-- already seen it change.
cell-ReaderOk :
    (pc : ReaderPc) (st : Shared) (s i v : ℕ) (ws : List (ℕ × ℕ))
    → st.counter ≡ s + 1
    → s % 2 ≡ 0
    → ReaderOk pc st
    → ReaderOk pc (record st { cells = set st.cells i v; writer = writing s ws })
cell-ReaderOk loading st s i v ws odd ev ok = tt
cell-ReaderOk (copying j) st s i v ws odd ev ok = record {
  even = ok.even;
  word = ok.word;
  elapsed = ok.elapsed;
  prefix = λ z. absurd (omega (arith, ok.even, ok.word, ok.elapsed));
}
cell-ReaderOk loading_again st s i v ws odd ev ok = record {
  even = ok.even;
  word = ok.word;
  elapsed = ok.elapsed;
  prefix = λ z. absurd (omega (arith, ok.even, ok.word, ok.elapsed));
}
cell-ReaderOk checking st s i v ws odd ev ok = ok
cell-ReaderOk returned st s i v ws odd ev ok = ok

write_step-IsSound :
    (w : Writer) (st : Shared) → st.writer ≡ w → IsSound st → IsSound (write_step st)
unfolding write_step
write_step-IsSound idle st e v = rw (e, write_step) v
write_step-IsSound (writing s []) st e v =
    let ok : WriterOk (writing s []) st = subst (λ x. WriterOk x st) e v.writer_ok in
    rw (e, write_step)
      (record {
        sizes = v.sizes;
        word = omega arith;
        writer_ok = (omega (arith, ok.1), mem-cons_self);
        reader_ok =
            tick-ReaderOk st.pc st _ v.reader_ok refl refl refl refl refl (omega (arith, ok.0))
              (λ x m. mem-cons_of_mem st.cells m);
      })
write_step-IsSound (writing s ((i, x) ∷ ws)) st e v =
    let ok : WriterOk (writing s ((i, x) ∷ ws)) st = subst (λ x. WriterOk x st) e v.writer_ok in
    rw (e, write_step)
      (record {
        sizes = v.sizes ∙ sym (length-set st.cells i x);
        word = v.word;
        writer_ok = (ok.0, ok.1);
        reader_ok = cell-ReaderOk st.pc st s i x ws ok.0 ok.1 v.reader_ok;
      })

-- With the counter where it was at the first load, no write is in progress.
settled :
    (w : Writer) (st : Shared)
    → WriterOk w st
    → st.counter < u32_mod
    → st.counter % 2 ≡ 0
    → Mem st.cells st.history
settled idle st ok h ev = ok.1
settled (writing s ws) st ok h ev = absurd (omega (arith, ok.0, ok.1))

load_again-Answer :
    (st : Shared)
    → IsSound st
    → Round (length st.cells) st
    → Answer (record st { s2 = st.counter; lag = st.ticks; pc = checking })
load_again-Answer st v ok ev eq short =
    let still : st.ticks ≡ 0 = omega (arith, ok.word, ok.elapsed) in
    subst (λ x. Mem x st.history)
      (sym (
        sym (take_all st.out (length st.cells) (omega (arith, v.sizes)))
        ∙ ok.prefix still
        ∙ take_all st.cells (length st.cells) (omega arith)))
      (settled st.writer st v.writer_ok v.word (ap (λ n. n % 2) (sym eq) ∙ ev))

-- A step of the reader leaves the counter, the transform and the history alone.
read-WriterOk :
    (w : Writer) (st st' : Shared)
    → st'.counter ≡ st.counter
    → st'.cells ≡ st.cells
    → st'.history ≡ st.history
    → WriterOk w st
    → WriterOk w st'
read-WriterOk idle st st' e1 e2 e3 ok = (omega (arith, ok.0), rw (e2, e3) (ok.1))
read-WriterOk (writing s ws) st st' e1 e2 e3 ok = (omega (arith, ok.0), ok.1)

module _ (st : Shared) (v : IsSound st) where
  -- The state after a step of the reader that moves it to `pc` and may change its copy.
  after_read :
      (st' : Shared)
      → length st'.out ≡ length st'.cells
      → st'.counter ≡ st.counter
      → st'.cells ≡ st.cells
      → st'.history ≡ st.history
      → st'.writer ≡ st.writer
      → ReaderOk st'.pc st'
      → IsSound st'
  after_read st' sizes e1 e2 e3 e4 ok = record {
    sizes = sizes;
    word = omega (arith, v.word);
    writer_ok =
        subst (λ w. WriterOk w st') (sym e4) (read-WriterOk st.writer st st' e1 e2 e3 v.writer_ok);
    reader_ok = ok;
  }

  read_step-IsSound : (pc : ReaderPc) → st.pc ≡ pc → IsSound (read_step st)
  unfolding read_step
  read_step-IsSound loading e = elim (Bool-cases (st.counter % 2 == 1)) [
    | inl odd ↦
        rw (e, read_step, odd)
          (after_read (record st { s1 = st.counter; ticks = 0; pc = checking }) v.sizes refl refl
            refl refl (λ ev eq short. absurd (odd_even st.counter odd ev)))
    | inr ev ↦
        rw (e, read_step, ev)
          (after_read (record st { s1 = st.counter; ticks = 0; pc = copying 0 }) v.sizes refl refl
            refl refl
            (record {
              even = even_of st.counter ev;
              word = v.word;
              elapsed = omega (arith, v.word);
              prefix = λ z. refl;
            }))
  ]
  read_step-IsSound (copying i) e =
      let ok : Round i st = subst (λ x. ReaderOk x st) e v.reader_ok in
      elim (Bool-cases (ltb i (length st.cells))) [
        | inl more ↦
            rw (e, read_step, more)
              (after_read
                (record st { pc = copying (suc i); out = set st.out i (get_or st.cells i 0) })
                (length-set st.out i (get_or st.cells i 0) ∙ v.sizes) refl refl refl refl
                (record {
                  even = ok.even;
                  word = ok.word;
                  elapsed = ok.elapsed;
                  prefix = λ z.
                      take-set st.out st.cells i v.sizes (ltb→lt i (length st.cells) more)
                        (ok.prefix z);
                }))
        | inr done ↦
            rw (e, read_step, done)
              (after_read (record st { pc = loading_again }) v.sizes refl refl refl refl
                (record {
                  even = ok.even;
                  word = ok.word;
                  elapsed = ok.elapsed;
                  prefix = λ z. prefix_mono i (ltb→ge i (length st.cells) done) (ok.prefix z);
                }))
      ]
    where
      prefix_mono :
          (i : ℕ)
          → length st.cells ≤ i
          → take i st.out ≡ take i st.cells
          → take (length st.cells) st.out ≡ take (length st.cells) st.cells
      prefix_mono i h p =
          take_all st.out (length st.cells) (omega (arith, v.sizes))
          ∙ sym (take_all st.out i (omega (arith, v.sizes)))
          ∙ p
          ∙ take_all st.cells i h
          ∙ sym (take_all st.cells (length st.cells) (omega arith))
  read_step-IsSound loading_again e =
      rw (e, read_step)
        (after_read (record st { s2 = st.counter; lag = st.ticks; pc = checking }) v.sizes refl refl
          refl refl (load_again-Answer st v (subst (λ x. ReaderOk x st) e v.reader_ok)))
  read_step-IsSound checking e =
      let ok : Answer st = subst (λ x. ReaderOk x st) e v.reader_ok in
      elim (Bool-cases (st.s1 == st.s2)) [
        | inl same ↦
            rw (e, read_step, same)
              (after_read (record st { pc = returned }) v.sizes refl refl refl refl
                ((==_iff st.s1 st.s2).0 same, ok))
        | inr other ↦
            rw (e, read_step, other)
              (after_read (record st { pc = loading }) v.sizes refl refl refl refl tt)
      ]
  read_step-IsSound returned e = rw (e, read_step) v

step-IsSound : (a : Action) (st : Shared) → IsSound st → IsSound (step a st)
unfolding step
step-IsSound read st v = read_step-IsSound st v st.pc refl
step-IsSound write st v = write_step-IsSound st.writer st refl v
step-IsSound (publish ws) st v = begin_write-IsSound ws st.writer st refl v

run-IsSound : (acts : List Action) (st : Shared) → IsSound st → IsSound (run acts st)
unfolding run
run-IsSound [] st v = v
run-IsSound (a ∷ rest) st v = run-IsSound rest (step a st) (step-IsSound a st v)

quiet-IsSound :
    (counter : ℕ) (t out : TransformState) (s2 : ℕ)
    → counter < u32_mod
    → counter % 2 ≡ 0
    → IsSound (quiet counter t out s2)
unfolding quiet
quiet-IsSound counter t out s2 h ev = record {
  sizes = refl;
  word = h;
  writer_ok = (ev, mem-cons_self);
  reader_ok = tt;
}

-- ReadTransform against any schedule of publications: if it returns with s1 even, which is when its
-- last round copied, and the counter changed less than 2^32 times between the loads of that round,
-- then what it returns is the transform as it was at a moment when no write was in progress.
pub read_snapshot :
    (acts : List Action) (counter : ℕ) (t out : TransformState) (s2 : ℕ)
    → counter < u32_mod
    → counter % 2 ≡ 0
    → (run acts (quiet counter t out s2)).pc ≡ returned
    → (run acts (quiet counter t out s2)).s1 % 2 ≡ 0
    → (run acts (quiet counter t out s2)).lag < u32_mod
    → Mem (run acts (quiet counter t out s2)).out (run acts (quiet counter t out s2)).history
read_snapshot acts counter t out s2 h ev back even short =
    let st = run acts (quiet counter t out s2) in
    let ok : ReaderOk returned st =
      subst (λ x. ReaderOk x st) back
        (run-IsSound acts (quiet counter t out s2)
          (quiet-IsSound counter t out s2 h ev)).reader_ok in
    ok.1 even ok.0 short
