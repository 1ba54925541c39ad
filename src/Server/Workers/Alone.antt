-- ===== src/Server/Workers/Alone.antt =====
-- DispatchPacket of Server_Core/Network/IOCPServer.cpp on one I/O worker that no other worker
-- interrupts: its steps together are `dispatch_packet`.
use ai_xr_project.Base.{
  ℕ, zero, suc, ◌%◌, ◌≡◌, refl, ap, ◌∙◌, List, [], ◌∷◌, some, Bool, true, ◌==◌, arith,
}
use ai_xr_project.Rudp.{Bytes, on_ack_received, get_cumulative_ack}
use ai_xr_project.Session.{Session, SockAddr, touch}
use ai_xr_project.SessionManager.{deref, find_by_addr}
use ai_xr_project.Packets.{header_of}
use ai_xr_project.Server.{
  Server, session_at, modify, update_session, enqueue_all, enqueue_logic, send_ack, route_reliable,
  route, dispatch_packet,
}
use ai_xr_project.Server.Dispatch.{IsReliable, touched, dispatch_packet_known}
use ai_xr_project.Server.Workers.{Stage, idle, got, pushing, work, work_on, workers}
use ai_xr_project.Server.Workers.Reordered.{
  renew, acknowledge, outcome, accept, begun, first_begins,
}

-- The first worker makes n steps.
abbrev alone : ℕ → ℕ → List (ℕ × ℕ)
alone now zero = []
alone now (suc n) = (0, now) ∷ alone now n

-- The number of steps from the first Push on: the deliveries, the cumulative ACK, and SendTo.
abbrev last_steps : List Bytes → ℕ
last_steps [] = 2
last_steps (b ∷ bs) = suc (last_steps bs)

pushes_alone :
    (accepts : ℕ → Bool) (sv : Server) (now p : ℕ) (bs : List Bytes) (stages : List Stage)
    → workers accepts (alone now (last_steps bs)) sv (pushing p true bs ∷ stages) ≡ (
      let sv' = enqueue_all sv p bs in
          send_ack accepts sv' p (get_cumulative_ack (session_at sv' p).rudp),
      idle ∷ stages,
    )
unfolding workers work_on work enqueue_all
pushes_alone accepts sv now p [] stages = refl
pushes_alone accepts sv now p (b ∷ bs) stages =
    pushes_alone accepts (enqueue_logic sv p b) now p bs stages

modify-touched :
    (p : ℕ) (ss : List Session) (bytes : Bytes) (now : ℕ)
    → let ss' = modify (λ s. touch s now) p ss in
      modify
        (λ s. record s { rudp = on_ack_received (deref ss' p).rudp (header_of bytes).ack_num })
        p
        ss'
      ≡ modify (λ s. touched s bytes now) p ss
unfolding modify deref touch
modify-touched p [] bytes now = refl
modify-touched zero (s ∷ ss) bytes now = refl
modify-touched (suc p) (s ∷ ss) bytes now = ap (◌∷◌ s) (modify-touched p ss bytes now)

acknowledge-renew :
    (sv : Server) (p : ℕ) (bytes : Bytes) (now : ℕ)
    → acknowledge (renew sv p now) p bytes ≡ update_session sv p (λ s. touched s bytes now)
unfolding update_session
acknowledge-renew sv p bytes now =
    ap (λ o. record sv { manager = record (sv.manager) { objects = o } })
      (modify-touched p sv.manager.objects bytes now)

-- A worker that takes a reliable packet from an address with a session, and that no other worker
-- interrupts, is done after finitely many steps, and has then done what `dispatch_packet` says.
workers-alone :
    (accepts : ℕ → Bool) (sv : Server) (bytes : Bytes) (sender : SockAddr) (now p : ℕ)
    (stages : List Stage)
    → IsReliable bytes
    → find_by_addr sv.manager sender ≡ some p
    → (n : ℕ) × (workers accepts (alone now n) sv (got bytes sender ∷ stages)
        ≡ (dispatch_packet accepts sv bytes sender now, idle ∷ stages))
unfolding begun route route_reliable
workers-alone accepts sv bytes sender now p stages ok known =
    let flag : ((header_of bytes).flags % 2 == 1) ≡ true = ground (arith, ok.flagged) in
    let sv2 = acknowledge (renew sv p now) p bytes in
    let d = (outcome sv2 p bytes).1 in
    let routed : route_reliable accepts (update_session sv p (λ s. touched s bytes now)) p
          (header_of bytes) bytes
        ≡ dispatch_packet accepts sv bytes sender now =
      rw (dispatch_packet_known accepts sv bytes sender now p ok known, flag, route) refl in
    (
      suc (suc (suc (suc (last_steps d)))),
      first_begins accepts sv bytes sender now p stages (alone now (last_steps d)) ok known
          ∙ pushes_alone accepts (accept sv2 p bytes) now p d stages
          ∙ ap (λ (x : Server). (route_reliable accepts x p (header_of bytes) bytes, idle ∷ stages))
              (acknowledge-renew sv p bytes now)
          ∙ ap (λ (x : Server). (x, idle ∷ stages)) routed,
    )
