-- ===== src/Tests/Channel.antt =====
-- Runs of the theorems about RudpChannel, Session, LogicQueue and the send buffers.
use mathlib.Core.List.{Mem, mem-cons_self, mem-cons_of_mem}
use ai_xr_project.Base.{
  ℕ, zero, suc, ◌≤◌, ◌≡◌, refl, List, [], ◌∷◌, none, some, false, arith, if◌then◌else◌, leb,
}
use ai_xr_project.Base.Dict.{find, insert}
use ai_xr_project.Rudp.{
  Bytes, RudpChannel, new_channel, get_cumulative_ack, on_reliable_sent, on_ack_received,
  collect_retransmits,
}
use ai_xr_project.Rudp.Drain.{stream}
use ai_xr_project.Rudp.Stream.{packets, receive_all, receive_all-stream, receive_all_complete}
use ai_xr_project.Rudp.Unreliable.{accepted, maxima, accepted-new_channel}
use ai_xr_project.Rudp.Outbound.{
  left_queued, contains, is_reported, find-on_ack_received, find-collect_retransmits,
}
use ai_xr_project.Rudp.Lifetime.{sweeps, aged, last, sweeps_keep}
use ai_xr_project.Session.{TransformState, no_transform}
use ai_xr_project.Session.Seqlock.{
  Action, read, write, publish, run, quiet, returned, scalars, publish_writes, step, read_step,
  write_step, begin_write,
}
use ai_xr_project.Session.Seqlock.Snapshot.{read_snapshot}
use ai_xr_project.Session.Seqlock.Torn.{tearing, read_torn}
use ai_xr_project.LogicQueue.{LogicQueue, Call, push_call, pop_call, shutdown_call}

abbrev payload : ℕ → Bytes
payload s = s ∷ suc s ∷ []

receive_all-stream_example :
    (receive_all new_channel (packets payload (3 ∷ 1 ∷ 1 ∷ 5 ∷ 2 ∷ []))).1
    ≡ stream payload 1
        (get_cumulative_ack (receive_all new_channel (packets payload (3 ∷ 1 ∷ 1 ∷ 5 ∷ 2 ∷ []))).0)
receive_all-stream_example =
    receive_all-stream payload (3 ∷ 1 ∷ 1 ∷ 5 ∷ 2 ∷ [])
      (omega arith, (omega arith, (omega arith, (omega arith, (omega arith, tt)))))

up_to_three : (s : ℕ) → 1 ≤ s → s ≤ 3 → Mem s (3 ∷ 1 ∷ 2 ∷ 1 ∷ [])
up_to_three zero lo hi = absurd (omega arith)
up_to_three (suc zero) lo hi = mem-cons_of_mem 3 mem-cons_self
up_to_three (suc (suc zero)) lo hi = mem-cons_of_mem 3 (mem-cons_of_mem 1 mem-cons_self)
up_to_three (suc (suc (suc zero))) lo hi = mem-cons_self
up_to_three (suc (suc (suc (suc s)))) lo hi = absurd (omega arith)

receive_all_complete_example :
    ((receive_all new_channel (packets payload (3 ∷ 1 ∷ 2 ∷ 1 ∷ []))).1 ≡ stream payload 1 3)
    × (get_cumulative_ack (receive_all new_channel (packets payload (3 ∷ 1 ∷ 2 ∷ 1 ∷ []))).0 ≡ 3)
receive_all_complete_example =
    receive_all_complete payload 3 (3 ∷ 1 ∷ 2 ∷ 1 ∷ []) (omega arith)
      (omega arith, (omega arith, (omega arith, (omega arith, tt)))) up_to_three

accepted-new_channel_example :
    accepted new_channel (2 ∷ 1 ∷ 5 ∷ 5 ∷ 3 ∷ 6 ∷ []) ≡ maxima [] (2 ∷ 1 ∷ 5 ∷ 5 ∷ 3 ∷ 6 ∷ [])
accepted-new_channel_example = accepted-new_channel (2 ∷ 1 ∷ 5 ∷ 5 ∷ 3 ∷ 6 ∷ [])

-- Packets 1 and 2 are sent at 100 and 150.
abbrev two_sent : RudpChannel
unfolding on_reliable_sent insert
two_sent = on_reliable_sent (on_reliable_sent new_channel 1 (payload 1) 100) 2 (payload 2) 150

find-on_ack_received_example :
    find 2 (on_ack_received two_sent 1).retrans_q
    ≡ (if leb 2 1 then none else find 2 two_sent.retrans_q)
unfolding two_sent
find-on_ack_received_example = find-on_ack_received two_sent 1 2 (omega arith, tt)

find-collect_retransmits_example :
    (find 1 (collect_retransmits two_sent 300 200 10).0.retrans_q
      ≡ left_queued 300 200 10 (find 1 two_sent.retrans_q))
    × (contains 1 (collect_retransmits two_sent 300 200 10).2
        ≡ is_reported 300 200 10 (find 1 two_sent.retrans_q))
unfolding two_sent
find-collect_retransmits_example = find-collect_retransmits 300 200 10 two_sent 1 (omega arith, tt)

sweeps_keep_example :
    find 1
      (sweeps 200 2 (on_reliable_sent new_channel 1 (payload 1) 100) (300 ∷ 550 ∷ [])).retrans_q
    ≡ some (aged 200 2 (payload 1) 2 (last 200 2 100 (300 ∷ 550 ∷ [])))
sweeps_keep_example =
    sweeps_keep 200 2 new_channel 1 (payload 1) 100 (300 ∷ 550 ∷ []) tt (omega arith) (omega arith)
      (omega arith, (omega arith, tt))

abbrev moved : TransformState
moved = record no_transform { seq = 1; pos_x = 5 }

abbrev steps : ℕ → Action → List Action → List Action
steps zero a rest = rest
steps (suc n) a rest = a ∷ steps n a rest

-- A publication, then an undisturbed read.
abbrev schedule : List Action
unfolding publish_writes
schedule = publish (publish_writes moved) ∷ steps 14 write (steps 17 read [])

read_snapshot_example :
    Mem
      (run schedule (quiet 4 no_transform no_transform 9)).out
      (run schedule (quiet 4 no_transform no_transform 9)).history
unfolding schedule run step read_step write_step begin_write quiet publish_writes
read_snapshot_example =
    read_snapshot schedule 4 no_transform no_transform 9 (omega arith) refl refl refl (omega arith)

read_torn_example :
    let st = run (tearing moved) (quiet 0 no_transform no_transform 1) in
    (st.pc ≡ returned)
    × (st.out
        ≡ scalars (record moved {
          seq = no_transform.seq;
          pos_x = no_transform.pos_x;
          pos_y = no_transform.pos_y;
          pos_z = no_transform.pos_z;
          rot_x = no_transform.rot_x;
          rot_y = no_transform.rot_y;
        }))
read_torn_example = read_torn no_transform moved no_transform 1

abbrev calls : List (Call ℕ)
calls = push_call 4 ∷ push_call 5 ∷ pop_call ∷ shutdown_call ∷ push_call 6 ∷ []

abbrev queue : LogicQueue ℕ
queue = record { items = 3 ∷ []; shut = false }
