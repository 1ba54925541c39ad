-- ===== src/Session/Seqlock/Torn.antt =====
-- ReadTransform of Server_Core/Network/Session.h can return a mixture of two transforms: after a
-- round that was disturbed s2 is odd, and the `continue` of the next round compares it with s1.
use ai_xr_project.Base.{ℕ, zero, suc, ◌≡◌, refl, List, [], ◌∷◌}
use ai_xr_project.Session.{TransformState}
use ai_xr_project.Session.Seqlock.{
  returned, read, write, publish, Action, begin_write, write_step, read_step, step, run, scalars,
  publish_writes, quiet,
}

times : ℕ → Action → List Action → List Action
times zero a rest = rest
times (suc n) a rest = a ∷ times n a rest

-- The reader copies six scalars, the writer writes all of its, the reader copies the rest, fails
-- its check with s2 = 1, and loads s1 = 1 before the writer is done.
unfoldable pub tearing : TransformState → List Action
unfolding times publish_writes
tearing new = read ∷ times 6 read (publish (publish_writes new) ∷ times 13 write (times 12 read []))

-- Whatever the transform was and whatever is published, there is a schedule in which ReadTransform
-- returns the sequence number, the position and the first half of the rotation of the old transform
-- with the rest of the new one.
pub read_torn :
    (old new out : TransformState) (s2 : ℕ)
    → let st = run (tearing new) (quiet 0 old out s2) in
      (st.pc ≡ returned)
      × (st.out
          ≡ scalars (record new {
            seq = old.seq;
            pos_x = old.pos_x;
            pos_y = old.pos_y;
            pos_z = old.pos_z;
            rot_x = old.rot_x;
            rot_y = old.rot_y;
          }))
unfolding run step read_step write_step begin_write tearing quiet
read_torn old new out s2 = (refl, refl)
