-- ===== src/Server/LogicThread.antt =====
-- The loop of LogicThread of Server_Core/Network/IOCPServer.cpp on one queue, to which nothing is
-- added meanwhile, as after Shutdown has joined the I/O workers.
use ai_xr_project.Base.{
  ℕ, zero, suc, ◌≡◌, refl, ap, sym, ◌∙◌, List, [], ◌∷◌, some, Bool, true, false, arith,
  if◌then◌else◌, length,
}
use ai_xr_project.Rudp.{Bytes}
use ai_xr_project.LogicQueue
use ai_xr_project.LogicQueue.{LogicQueue, Popped, finished, waits}
use ai_xr_project.Server.{Server, LogicWorkItem, update_session}
use ai_xr_project.Server.App.{
  handle_leave, handle_transform, handle_era_change, handle_logged, dispatch_app, queue_at,
  set_queue, logic_round,
}

-- n rounds of the loop.
unfoldable pub logic_rounds : ℕ → Server → ℕ → Server
logic_rounds zero sv i = sv
logic_rounds (suc n) sv i = logic_rounds n (logic_round sv i) i

-- The handlers of these items, one after the other.
unfoldable pub handled : Server → List LogicWorkItem → Server
handled sv [] = sv
handled sv (x ∷ xs) = handled (dispatch_app sv x.session_ref x.packet) xs

abbrev pub with_queues : List (LogicQueue LogicWorkItem) → Server → Server
with_queues qs sv = record sv { logic_queues = qs }

if-with_queues :
    (qs : List (LogicQueue LogicWorkItem)) (b : Bool) (x y : Server)
    → (if b then with_queues qs x else with_queues qs y) ≡ with_queues qs (if b then x else y)
if-with_queues qs true x y = refl
if-with_queues qs false x y = refl

leave-with_queues :
    (qs : List (LogicQueue LogicWorkItem)) (sv : Server) (p : ℕ)
    → handle_leave (with_queues qs sv) p ≡ with_queues qs (handle_leave sv p)
unfolding handle_leave
leave-with_queues qs sv p = refl

transform-with_queues :
    (qs : List (LogicQueue LogicWorkItem)) (sv : Server) (p : ℕ) (b : Bytes)
    → handle_transform (with_queues qs sv) p b ≡ with_queues qs (handle_transform sv p b)
unfolding handle_transform update_session
transform-with_queues qs sv p b = refl

era_change-with_queues :
    (qs : List (LogicQueue LogicWorkItem)) (sv : Server) (p : ℕ) (b : Bytes)
    → handle_era_change (with_queues qs sv) p b ≡ with_queues qs (handle_era_change sv p b)
unfolding handle_era_change update_session
era_change-with_queues qs sv p b = refl

dispatch_app-with_queues :
    (qs : List (LogicQueue LogicWorkItem)) (sv : Server) (p : ℕ) (b : Bytes)
    → dispatch_app (with_queues qs sv) p b ≡ with_queues qs (dispatch_app sv p b)
unfolding dispatch_app handle_logged
dispatch_app-with_queues qs sv p b =
    simp
      (if-with_queues qs, leave-with_queues qs, transform-with_queues qs, era_change-with_queues qs)

handled-with_queues :
    (qs : List (LogicQueue LogicWorkItem)) (sv : Server) (xs : List LogicWorkItem)
    → handled (with_queues qs sv) xs ≡ with_queues qs (handled sv xs)
unfolding handled
handled-with_queues qs sv [] = refl
handled-with_queues qs sv (x ∷ xs) =
    ap (λ s. handled s xs) (dispatch_app-with_queues qs sv x.session_ref x.packet)
    ∙ handled-with_queues qs (dispatch_app sv x.session_ref x.packet) xs

queue_at-set_queue :
    (i : ℕ) (q q' : LogicQueue LogicWorkItem) (qs : List (LogicQueue LogicWorkItem))
    → queue_at i qs ≡ some q
    → queue_at i (set_queue i q' qs) ≡ some q'
unfolding queue_at set_queue
queue_at-set_queue i q q' [] e = absurd (ground arith)
queue_at-set_queue zero q q' (x ∷ qs) e = refl
queue_at-set_queue (suc i) q q' (x ∷ qs) e = queue_at-set_queue i q q' qs e

set_queue-set_queue :
    (i : ℕ) (q q' : LogicQueue LogicWorkItem) (qs : List (LogicQueue LogicWorkItem))
    → set_queue i q' (set_queue i q qs) ≡ set_queue i q' qs
unfolding set_queue
set_queue-set_queue i q q' [] = refl
set_queue-set_queue zero q q' (x ∷ qs) = refl
set_queue-set_queue (suc i) q q' (x ∷ qs) = ap (◌∷◌ x) (set_queue-set_queue i q q' qs)

set_queue-queue_at :
    (i : ℕ) (q : LogicQueue LogicWorkItem) (qs : List (LogicQueue LogicWorkItem))
    → queue_at i qs ≡ some q
    → set_queue i q qs ≡ qs
unfolding queue_at set_queue
set_queue-queue_at i q [] e = refl
set_queue-queue_at zero q (x ∷ qs) e = ap (λ y. y ∷ qs) (ground arith)
set_queue-queue_at (suc i) q (x ∷ qs) e = ap (◌∷◌ x) (set_queue-queue_at i q qs e)

logic_round_lem :
    (sv : Server) (i : ℕ) (x : LogicWorkItem) (xs : List LogicWorkItem) (shut : Bool)
    → queue_at i sv.logic_queues ≡ some (record { items = x ∷ xs; shut = shut })
    → logic_round sv i
      ≡ with_queues
          (set_queue i (record { items = xs; shut = shut }) sv.logic_queues)
          (dispatch_app sv x.session_ref x.packet)
unfolding logic_round LogicQueue.pop
logic_round_lem sv i x xs shut e =
    rw (e, logic_round)
      (dispatch_app-with_queues (set_queue i (record { items = xs; shut = shut }) sv.logic_queues)
        sv x.session_ref x.packet)

-- As many rounds as items wait in a queue run the handlers of exactly these items, in their order,
-- and leave the queue empty; of the other queues nothing changes.
pub logic_rounds-handled :
    (sv : Server) (i : ℕ) (xs : List LogicWorkItem) (shut : Bool)
    → queue_at i sv.logic_queues ≡ some (record { items = xs; shut = shut })
    → logic_rounds (length xs) sv i
      ≡ with_queues
          (set_queue i (record { items = []; shut = shut }) sv.logic_queues)
          (handled sv xs)
unfolding logic_rounds handled
logic_rounds-handled sv i [] shut e =
    ap (λ l. with_queues l sv)
      (sym (set_queue-queue_at i (record { items = []; shut = shut }) sv.logic_queues e))
logic_rounds-handled sv i (x ∷ xs) shut e =
    let q : LogicQueue LogicWorkItem = record { items = xs; shut = shut } in
    let empty : LogicQueue LogicWorkItem = record { items = []; shut = shut } in
    let qs = set_queue i q sv.logic_queues in
    let sv1 = dispatch_app sv x.session_ref x.packet in
    ap (λ s. logic_rounds (length xs) s i) (logic_round_lem sv i x xs shut e)
    ∙ logic_rounds-handled (with_queues qs sv1) i xs shut
        (queue_at-set_queue i (record { items = x ∷ xs; shut = shut }) q sv.logic_queues e)
    ∙ ap (with_queues (set_queue i empty qs)) (handled-with_queues qs sv1 xs)
    ∙ ap (λ l. with_queues l (handled sv1 xs)) (set_queue-set_queue i q empty sv.logic_queues)
