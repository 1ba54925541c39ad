-- ===== src/Server/Leave.antt =====
-- HandleLeave of Server_Core/Network/IOCPServer.cpp, which removes the session by its UserId.
use ai_xr_project.Base.{ℕ, ◌≡◌, ◌∙◌, none, some, arith, if◌then◌else◌, ◌==◌}
use ai_xr_project.Session.{SockAddr}
use ai_xr_project.SessionManager.{make_key, find_by_addr}
use ai_xr_project.SessionManager.Consistent.{IsConsistent}
use ai_xr_project.SessionManager.Lookup.{find-remove_by_user_id}
use ai_xr_project.Server.{Server, session_at}
use ai_xr_project.Server.App.{handle_leave}

-- When the LEAVE of the session at p is handled, a session that can be found under its address is
-- lost if it has the same user, even when it is not the session at p but a later one of that user;
-- the sessions of all other users are still found.
pub find-handle_leave :
    (sv : Server) (p q : ℕ) (addr : SockAddr)
    → IsConsistent sv.manager
    → find_by_addr sv.manager addr ≡ some q
    → find_by_addr (handle_leave sv p).manager addr
      ≡ (if (session_at sv q).user_id == (session_at sv p).user_id then none else some q)
unfolding handle_leave find_by_addr
find-handle_leave sv p q addr v e =
    find-remove_by_user_id sv.manager (session_at sv p).user_id (make_key addr) v ∙ ground arith
