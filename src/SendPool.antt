-- ===== src/SendPool.antt =====
-- The send buffers of Server_Core/Network/IOCPServer.cpp: AcquireSendOverlapped,
-- ReleaseSendOverlapped and InitSendPool. A buffer is its position in m_SendPool. `in_flight` is not
-- in the code: it holds the buffers that were handed to the operating system and not yet returned.
use mathlib.Core.List.{
  Nodup, Perm, Nodup-cons, Nodup-nil, Mem, Mem-prop, mem-cons, mem-cons_self, not-mem-nil,
  mem-append_right, perm_middle,
}
use mathlib.Core.HLevel.{⊥_prop}
use mathlib.Core.Logic.Or
use mathlib.Core.List.Perm
use ai_xr_project.Base.{
  ℕ, zero, suc, ◌+◌, ◌≤◌, ◌≡◌, refl, List, [], ◌∷◌, ◌++◌, false, arith, length, ap, sym, subst, ◌∙◌,
  if◌then◌else◌, ◌==◌, ==_iff, Bool-cases, inl, inr,
}

pub record SendPool : Type 0 where
  pub pool_size : ℕ
  pub free_list : List ℕ
  pub in_flight : List ℕ

abbrev pub send_buffer_count : ℕ
send_buffer_count = 64

-- The loop of InitSendPool: the buffers from `i` on, in the order of the vector's end first.
unfoldable pub add_buffers : ℕ → List ℕ → List ℕ
add_buffers zero free = free
add_buffers (suc n) free = add_buffers n (length free ∷ free)

-- InitSendPool. The head of the list is the back of the vector.
unfoldable pub init_send_pool : SendPool
unfolding add_buffers
init_send_pool = record {
  pool_size = send_buffer_count;
  free_list = add_buffers send_buffer_count [];
  in_flight = [];
}

-- AcquireSendOverlapped: the last free buffer, or a new one.
unfoldable pub acquire : SendPool → SendPool × ℕ
acquire p = elim p.free_list [
  | b ∷ rest ↦ (record p { free_list = rest; in_flight = b ∷ p.in_flight }, b)
  | [] ↦
      (record p { pool_size = suc p.pool_size; in_flight = p.pool_size ∷ p.in_flight }, p.pool_size)
]

unfoldable pub remove : ℕ → List ℕ → List ℕ
remove b [] = []
remove b (x ∷ xs) = let rest = remove b xs in if x == b then xs else x ∷ rest

-- ReleaseSendOverlapped.
unfoldable pub release : SendPool → ℕ → SendPool
release p b = record p { free_list = b ∷ p.free_list; in_flight = remove b p.in_flight }

-- The buffers below n.
abbrev pub down : ℕ → List ℕ
down zero = []
down (suc n) = n ∷ down n

-- Every buffer of the pool is free or in flight, never both and never twice.
abbrev pub IsPool : SendPool → Type 0
IsPool p = Perm (p.free_list ++ p.in_flight) (down p.pool_size)

add_buffers_lem : (n k : ℕ) → add_buffers n (down k) ≡ down (k + n)
unfolding add_buffers
add_buffers_lem zero k = ap down (omega arith)
add_buffers_lem (suc n) k = rw (length-down k) (add_buffers_lem n (suc k) ∙ ap down (omega arith))
  where
    length-down : (k : ℕ) → length (down k) ≡ k
    length-down zero = refl
    length-down (suc k) = ap suc (length-down k)

pub init_send_pool-IsPool : IsPool init_send_pool
unfolding init_send_pool
init_send_pool-IsPool = Perm.refl (down send_buffer_count)

acquire_cases :
    (p : SendPool) (free : List ℕ) → p.free_list ≡ free → IsPool p → IsPool (acquire p).0
unfolding acquire
acquire_cases p [] e v =
    rw (e, acquire) (Perm.trans (perm_middle p.free_list p.in_flight) (Perm.cons p.pool_size v))
acquire_cases p (b ∷ rest) e v =
    rw (e, acquire)
      (Perm.trans (perm_middle rest p.in_flight)
        (subst (λ l. Perm (l ++ p.in_flight) (down p.pool_size)) e v))

pub acquire-IsPool : (p : SendPool) → IsPool p → IsPool (acquire p).0
acquire-IsPool p v = acquire_cases p p.free_list refl v

remove-perm : (b : ℕ) (xs : List ℕ) → Mem b xs → Perm (b ∷ remove b xs) xs
unfolding remove
remove-perm b [] m = absurd (not-mem-nil m)
remove-perm b (x ∷ xs) m = elim (Bool-cases (x == b)) [
  | inl here ↦ rw here (Perm.cons' (sym ((==_iff x b).0 here)) Perm.rfl)
  | inr there ↦ rw there (
      Perm.trans (Perm.swap x b _) (
        Perm.cons x (
          remove-perm b xs
            (Or.elim Mem-prop (mem-cons.0 m) (λ e. absurd (differ (sym e) there)) (λ r. r)))))
]
  where
    differ : x ≡ b → (x == b) ≡ false → ⊥
    differ e h = ground arith

pub release-IsPool : (p : SendPool) (b : ℕ) → IsPool p → Mem b p.in_flight → IsPool (release p b)
unfolding release
release-IsPool p b v m =
    Perm.trans
      (Perm.trans (Perm.symm (perm_middle p.free_list (remove b p.in_flight)))
        (Perm.append_left p.free_list (remove-perm b p.in_flight m)))
      v

down-not-mem : (n k : ℕ) → n ≤ k → ¬ Mem k (down n)
down-not-mem zero k h = not-mem-nil
down-not-mem (suc n) k h =
    λ m. Or.elim ⊥_prop (mem-cons.0 m) (λ e. omega arith) (down-not-mem n k (omega arith))

down-Nodup : (n : ℕ) → Nodup (down n)
down-Nodup zero = Nodup-nil
down-Nodup (suc n) = Nodup-cons.1 (down-not-mem n n (omega arith), down-Nodup n)

acquired_in_flight :
    (p : SendPool) (free : List ℕ)
    → p.free_list ≡ free
    → (acquire p).0.in_flight ≡ (acquire p).1 ∷ p.in_flight
unfolding acquire
acquired_in_flight p [] e = rw (e, acquire)
acquired_in_flight p (b ∷ rest) e = rw (e, acquire)

pub acquire-release-IsPool :
    (p : SendPool) → IsPool p → IsPool (release (acquire p).0 (acquire p).1)
acquire-release-IsPool p v =
    release-IsPool (acquire p).0 (acquire p).1 (acquire-IsPool p v)
      (subst (Mem (acquire p).1) (sym (acquired_in_flight p p.free_list refl)) mem-cons_self)

-- As long as only buffers in flight are released, the buffers of the pool stay divided between the
-- free list and those in flight, so the buffer that a send acquires is never one that the operating
-- system still reads from; it is then the one buffer more that is in flight.
pub acquire_fresh :
    (p : SendPool)
    → IsPool p
    → (IsPool (acquire p).0)
      × (¬ Mem (acquire p).1 p.in_flight)
      × ((acquire p).0.in_flight ≡ (acquire p).1 ∷ p.in_flight)
acquire_fresh p v = (acquire-IsPool p v, fresh, same)
  where
    same : (acquire p).0.in_flight ≡ (acquire p).1 ∷ p.in_flight
    same = acquired_in_flight p p.free_list refl

    split :
        Perm ((acquire p).0.free_list ++ (acquire p).1 ∷ p.in_flight) (down (acquire p).0.pool_size)
    split =
        subst (λ l. Perm ((acquire p).0.free_list ++ l) (down (acquire p).0.pool_size)) same
          (acquire-IsPool p v)

    fresh : ¬ Mem (acquire p).1 p.in_flight
    fresh m =
        (Nodup-cons.0 (
            Perm.nodup
              (Perm.trans (Perm.symm split) (perm_middle (acquire p).0.free_list p.in_flight))
              (down-Nodup (acquire p).0.pool_size))).0
          (mem-append_right (acquire p).0.free_list m)
