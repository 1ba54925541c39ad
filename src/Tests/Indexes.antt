-- ===== src/Tests/Indexes.antt =====
-- Runs of the theorems about SessionManager.
use ai_xr_project.Base.{ℕ, ◌≡◌, refl, List, [], ◌∷◌, some}
use ai_xr_project.Base.Dict.{find, erase, put}
use ai_xr_project.Session.{SockAddr, new_session}
use ai_xr_project.SessionManager.{
  SessionManager, new_manager, deref, make_key, user_of, find_by_user_id, create_or_get, register,
  drop_stale, remove_timed_out,
}
use ai_xr_project.SessionManager.Consistent.{IsConsistent, new_manager-IsConsistent}
use ai_xr_project.SessionManager.Lookup.{
  Request, create, apply, apply_all, apply_all-IsConsistent, one_session_per_user,
}
use ai_xr_project.SessionManager.Timeout.{survives, find-remove_timed_out}

abbrev home : SockAddr
home = record { s_addr = 0x0a00_0001; sin_port = 5000 }

abbrev roaming : SockAddr
roaming = record { s_addr = 0x0a00_0002; sin_port = 6000 }

-- User 7 joins from home, user 8 from elsewhere.
abbrev joins : List Request
joins = create 7 home 100 ∷ create 8 roaming 200 ∷ []

abbrev two_users : SessionManager
two_users = apply_all new_manager joins

apply_all-IsConsistent_example : IsConsistent (apply_all new_manager joins)
apply_all-IsConsistent_example = apply_all-IsConsistent new_manager joins new_manager-IsConsistent

two_users-IsConsistent : IsConsistent two_users
two_users-IsConsistent = apply_all-IsConsistent new_manager joins new_manager-IsConsistent

abbrev here : ℕ
here = 0

one_session_per_user_example :
    (here ≡ here)
    × (make_key home ≡ make_key home)
    × (find_by_user_id (apply_all new_manager joins) (user_of (apply_all new_manager joins) 0)
        ≡ some 0)
unfolding apply_all apply create_or_get register drop_stale find put erase make_key deref
    new_session
one_session_per_user_example =
    one_session_per_user joins (make_key home) (make_key home) here here refl refl refl

find-remove_timed_out_example :
    (find (make_key home) (remove_timed_out two_users (λ p. 10150) 10000).0.by_addr
      ≡ survives two_users.objects (λ p. 10150) 10000 (find (make_key home) two_users.by_addr))
    × (find 8 (remove_timed_out two_users (λ p. 10150) 10000).0.by_user_id
        ≡ survives two_users.objects (λ p. 10150) 10000 (find 8 two_users.by_user_id))
find-remove_timed_out_example =
    find-remove_timed_out two_users (λ p. 10150) 10000 two_users-IsConsistent (make_key home) 8
