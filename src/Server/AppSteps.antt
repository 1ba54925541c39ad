-- ===== src/Server/AppSteps.antt =====
-- The logic threads of Server_Core/Network/IOCPServer.cpp keep the server's invariant.
use ai_xr_project.Base.{
  ℕ, zero, suc, ◌≡◌, refl, sym, subst, List, [], ◌∷◌, some, Bool, true, false, arith, ltb, ◌==◌,
  if◌then◌else◌, length, All, Bool-cases, Option-cases, inl, inr,
}
use ai_xr_project.Base.Dict.{find}
use ai_xr_project.Rudp.{Bytes}
use ai_xr_project.Session.{Session, publish_transform, set_era}
use ai_xr_project.SessionManager.{SessionManager, remove_by_user_id}
use ai_xr_project.SessionManager.Consistent.{remove_by_user_id-IsConsistent}
use ai_xr_project.LogicQueue
use ai_xr_project.LogicQueue.{LogicQueue, waits, finished, popped, Popped}
use ai_xr_project.Packets.{
  header_of, transform_of, era_change_to_era, sizeof_leave, sizeof_transform, sizeof_era_change,
  pkt_join, pkt_leave, pkt_transform, pkt_era_change, pkt_heartbeat, pkt_ai_trigger, pkt_ack,
  pkt_server_state, sizeof_join, sizeof_heartbeat, sizeof_ai_trigger, sizeof_ack,
  sizeof_server_state,
}
use ai_xr_project.Server.{Server, LogicWorkItem, session_at}
use ai_xr_project.Server.App.{
  handle_leave, handle_transform, handle_era_change, handle_logged, dispatch_app, queue_at,
  set_queue, logic_round,
}
use ai_xr_project.Server.Invariant.{SameIds, OnLane, Lanes, IsServer}
use ai_xr_project.Server.Steps.{
  Step, Step-refl, Step-trans, manager-Step, update_session-Step, SameIds-refl,
}

remove_by_user_id-objects :
    (m : SessionManager) (u : ℕ) → (remove_by_user_id m u).0.objects ≡ m.objects
unfolding remove_by_user_id
remove_by_user_id-objects m u = elim (Option-cases (find u m.by_user_id)) [
  | inl e ↦ rw (e, remove_by_user_id)
  | inr (p, e) ↦ rw (e, remove_by_user_id)
]

pub remove_user-Step :
    (sv : Server) (u : ℕ)
    → IsServer sv
    → Step sv (record sv { manager = (remove_by_user_id sv.manager u).0 })
remove_user-Step sv u v =
    manager-Step sv (remove_by_user_id sv.manager u).0 v
      (subst (SameIds sv.manager.objects) (sym (remove_by_user_id-objects sv.manager u))
        (SameIds-refl sv.manager.objects))
      (remove_by_user_id-IsConsistent sv.manager u v.indexes)

if-Step : (b : Bool) (sv x y : Server) → Step sv x → Step sv y → Step sv (if b then x else y)
if-Step true sv x y f g = f
if-Step false sv x y f g = g

-- The guard of a case of DispatchApp.
guard-Step : (b : Bool) (sv x : Server) → IsServer sv → Step sv x → Step sv (if b then sv else x)
guard-Step b sv x v f = if-Step b sv sv x (Step-refl sv v) f

transform-Step : (sv : Server) (p : ℕ) (b : Bytes) → IsServer sv → Step sv (handle_transform sv p b)
unfolding handle_transform publish_transform
transform-Step sv p b v =
    update_session-Step sv p (λ s. publish_transform s (transform_of b)) v
      (record { id = λ s. refl; user = λ s. refl; addr = λ s. refl })

era_change-Step :
    (sv : Server) (p : ℕ) (b : Bytes) → IsServer sv → Step sv (handle_era_change sv p b)
unfolding handle_era_change set_era
era_change-Step sv p b v =
    update_session-Step sv p (λ s. set_era s (era_change_to_era b)) v
      (record { id = λ s. refl; user = λ s. refl; addr = λ s. refl })

leave-Step : (sv : Server) (p : ℕ) → IsServer sv → Step sv (handle_leave sv p)
unfolding handle_leave
leave-Step sv p v = remove_user-Step sv (session_at sv p).user_id v

dispatch_app-Step : (sv : Server) (p : ℕ) (b : Bytes) → IsServer sv → Step sv (dispatch_app sv p b)
unfolding dispatch_app handle_logged
dispatch_app-Step sv p b v =
    let is = (header_of b).type in
    let is_type : ℕ → Bool = λ t. is == t in
    let short : ℕ → Bool = λ n. ltb (length b) n in
    let same = Step-refl sv v in
    let case_Step : (t n : ℕ) (x y : Server)
        → Step sv x
        → Step sv y
        → Step sv (if is == t then (if ltb (length b) n then sv else x) else y) =
      λ t n x y f g.
        if-Step (is_type t) sv (if short n then sv else x) y (guard-Step (short n) sv x v f) g in
    case_Step pkt_join sizeof_join sv _ same (
      case_Step pkt_leave sizeof_leave (handle_leave sv p) _ (leave-Step sv p v) (
        case_Step pkt_transform sizeof_transform (handle_transform sv p b) _
          (transform-Step sv p b v)
          (case_Step pkt_era_change sizeof_era_change (handle_era_change sv p b) _
            (era_change-Step sv p b v)
            (case_Step pkt_heartbeat sizeof_heartbeat sv _ same (
              case_Step pkt_ai_trigger sizeof_ai_trigger sv _ same (
                case_Step pkt_ack sizeof_ack sv _ same
                  (case_Step pkt_server_state sizeof_server_state sv sv same same)))))))

set_queue-Lanes :
    (objects : List Session) (n i : ℕ) (q q' : LogicQueue LogicWorkItem)
    (qs : List (LogicQueue LogicWorkItem))
    → queue_at i qs ≡ some q
    → ((P : LogicWorkItem → Type 0) → All P q.items → All P q'.items)
    → Lanes objects n qs
    → Lanes objects n (set_queue i q' qs)
unfolding queue_at set_queue
set_queue-Lanes objects n i q q' [] e h v = tt
set_queue-Lanes objects n zero q q' (x ∷ qs) e h v =
    let same : x ≡ q = ground arith in
    (
      h (OnLane objects n)
          (subst (λ (y : LogicQueue LogicWorkItem). All (OnLane objects n) y.items) same v.0),
      v.1,
    )
set_queue-Lanes objects n (suc i) q q' (x ∷ qs) e h v =
    (v.0, set_queue-Lanes objects (suc n) i q q' qs e h v.1)

take_item-Step :
    (sv : Server) (i : ℕ) (q : LogicQueue LogicWorkItem) (items : List LogicWorkItem)
    → IsServer sv
    → queue_at i sv.logic_queues ≡ some q
    → q.items ≡ items
    → Step sv (logic_round sv i)
unfolding logic_round LogicQueue.pop
take_item-Step sv i q [] v e h = elim (Bool-cases q.shut) [
  | inl shut ↦ rw (e, logic_round, h, shut, LogicQueue.pop) (Step-refl sv v)
  | inr up ↦ rw (e, logic_round, h, up, LogicQueue.pop) (Step-refl sv v)
]
take_item-Step sv i q (item ∷ rest) v e h =
    let q' : LogicQueue LogicWorkItem = record q { items = rest } in
    let sv1 = record sv { logic_queues = set_queue i q' sv.logic_queues } in
    let s1 : Step sv sv1 = record {
      ids = SameIds-refl sv.manager.objects;
      valid = record {
        indexes = v.indexes;
        buffers = v.buffers;
        lanes =
            set_queue-Lanes sv.manager.objects 0 i q q' sv.logic_queues e
              (λ P a. (subst (All P) h a).1) v.lanes;
      };
    } in
    rw (e, logic_round, h, LogicQueue.pop)
      (Step-trans sv sv1 _ s1 (dispatch_app-Step sv1 item.session_ref item.packet s1.valid))

pub logic_round-Step : (sv : Server) (i : ℕ) → IsServer sv → Step sv (logic_round sv i)
unfolding logic_round
logic_round-Step sv i v = elim (Option-cases (queue_at i sv.logic_queues)) [
  | inl e ↦ rw (e, logic_round) (Step-refl sv v)
  | inr (q, e) ↦ take_item-Step sv i q q.items v e refl
]
