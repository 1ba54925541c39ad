-- ===== src/SessionManager.antt =====
-- Server_Core/Network/SessionManager.h and SessionManager.cpp. The shared_mutex makes every method
-- one step. A shared_ptr<Session> is the position of the session in `objects`, the list of all
-- sessions ever made; the two indexes hold such pointers, so that a session which both of them and a
-- queued work item refer to is one object. Log lines are left out.
pub mod Consistent
pub mod Timeout
pub mod Lookup
use ai_xr_project.Base.{
  ℕ, zero, suc, ◌+◌, ◌*◌, ◌^◌, ◌<◌, List, [], ◌∷◌, ◌++◌, Option, none, some, Bool, true, false, ltb,
  if◌then◌else◌, incr32, length,
}
use ai_xr_project.Base.Dict.{find, erase, put}
use ai_xr_project.Session.{Session, SockAddr, new_session, idle_ms}

-- What a pointer refers to. `no_session` stands at positions where no session was made; no index
-- ever holds such a position (Consistent).
abbrev pub no_session : Session
unfolding new_session
no_session = new_session 0 0 (record { s_addr = 0; sin_port = 0 }) 0

unfoldable pub deref : List Session → ℕ → Session
unfolding no_session
deref [] p = no_session
deref (s ∷ ss) zero = s
deref (s ∷ ss) (suc p) = deref ss p

pub record SessionManager : Type 0 where
  pub objects : List Session
  pub by_addr : List (ℕ × ℕ)
  pub by_user_id : List (ℕ × ℕ)
  pub next_session_id : ℕ

abbrev pub new_manager : SessionManager
new_manager = record { objects = []; by_addr = []; by_user_id = []; next_session_id = 1 }

-- MakeKey: the port has 16 bits, so the bitwise or is a sum.
unfoldable pub make_key : SockAddr → ℕ
make_key a = a.s_addr * 2 ^ 16 + a.sin_port

-- The key and the user of the session at a pointer.
abbrev pub key_of : SessionManager → ℕ → ℕ
key_of m p = make_key (deref m.objects p).remote_addr

abbrev pub user_of : SessionManager → ℕ → ℕ
user_of m p = (deref m.objects p).user_id

-- FindByAddr and FindByUserId.
unfoldable pub find_by_addr : SessionManager → SockAddr → Option ℕ
find_by_addr m addr = find (make_key addr) m.by_addr

unfoldable pub find_by_user_id : SessionManager → ℕ → Option ℕ
find_by_user_id m user = find user m.by_user_id

-- Step 2 of CreateOrGet: the same user at another address.
unfoldable pub drop_stale : SessionManager → ℕ → SessionManager
drop_stale m user = elim (find user m.by_user_id) [
  | none ↦ m
  | some p ↦ record m {
    by_addr = erase (key_of m p) m.by_addr;
    by_user_id = erase user m.by_user_id;
  }
]

-- Step 3 of CreateOrGet.
unfoldable pub register : SessionManager → ℕ → SockAddr → ℕ → SessionManager × ℕ
register m user addr now = (
  record m {
    objects = m.objects ++ new_session m.next_session_id user addr now ∷ [];
    by_addr = put (make_key addr) (length m.objects) m.by_addr;
    by_user_id = put user (length m.objects) m.by_user_id;
    next_session_id = incr32 m.next_session_id;
  },
  length m.objects,
)

-- CreateOrGet, at the time `now`.
unfoldable pub create_or_get : SessionManager → ℕ → SockAddr → ℕ → SessionManager × ℕ
create_or_get m user addr now = elim (find (make_key addr) m.by_addr) [
  | some p ↦ (m, p)
  | none ↦ register (drop_stale m user) user addr now
]

-- RemoveByAddr.
unfoldable pub remove_by_addr : SessionManager → SockAddr → SessionManager × Bool
remove_by_addr m addr = elim (find (make_key addr) m.by_addr) [
  | none ↦ (m, false)
  | some p ↦ (
    record m {
      by_addr = erase (make_key addr) m.by_addr;
      by_user_id = erase (user_of m p) m.by_user_id;
    },
    true,
  )
]

-- RemoveByUserId.
unfoldable pub remove_by_user_id : SessionManager → ℕ → SessionManager × Bool
remove_by_user_id m user = elim (find user m.by_user_id) [
  | none ↦ (m, false)
  | some p ↦ (
    record m { by_addr = erase (key_of m p) m.by_addr; by_user_id = erase user m.by_user_id },
    true,
  )
]

-- The condition of RemoveTimedOut. `now p` is the clock when the session at p is looked at.
unfoldable pub timed_out : List Session → (ℕ → ℕ) → ℕ → ℕ → Bool
timed_out objects now timeout p = ltb timeout (idle_ms (deref objects p) (now p))

-- The loop of RemoveTimedOut over the entries of m_ByAddr: the entries that stay, m_ByUserId, and
-- the removed pointers.
unfoldable pub sweep :
    List Session → (ℕ → ℕ) → ℕ → List (ℕ × ℕ) → List (ℕ × ℕ) → List (ℕ × ℕ) × List (ℕ × ℕ) × List ℕ
sweep objects now timeout [] users = ([], users, [])
sweep objects now timeout ((k, p) ∷ m) users =
    let gone = timed_out objects now timeout p in
    let rest =
      sweep objects now timeout m (if gone then erase (deref objects p).user_id users else users) in
    if gone then (rest.0, rest.1, p ∷ rest.2) else ((k, p) ∷ rest.0, rest.1, rest.2)

-- RemoveTimedOut.
unfoldable pub remove_timed_out : SessionManager → (ℕ → ℕ) → ℕ → SessionManager × List ℕ
remove_timed_out m now timeout =
    let r = sweep m.objects now timeout m.by_addr m.by_user_id in
    (record m { by_addr = r.0; by_user_id = r.1 }, r.2)

-- Count.
unfoldable pub count : SessionManager → ℕ
count m = length m.by_addr

-- The pointers that ForEach visits, in its order.
unfoldable pub values : List (ℕ × ℕ) → List ℕ
values [] = []
values ((k, p) ∷ m) = p ∷ values m

unfoldable pub each_session : SessionManager → List ℕ
each_session m = values m.by_addr
