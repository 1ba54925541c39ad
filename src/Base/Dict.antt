-- ===== src/Base/Dict.antt =====
-- Finite maps with numbers as keys, as association lists. `insert` keeps the keys ascending, as
-- std::map does; `put` changes the entry of a key in its place or adds one at the end, which is
-- one of the orders in which std::unordered_map may hold its entries.
use Prim.Native.Nat.{ℕ, ◌-◌, ◌≤◌, ◌<◌}
use mathlib.Core.Path.{◌≡◌, refl}
use mathlib.Core.List.{List, [], ◌∷◌}
use mathlib.Core.Option.{Option, none, some}
use native.Mathlib.Omega.{arith}
use ai_xr_project.Base.Tests.{ltb, ◌==◌, if◌then◌else◌}
use ai_xr_project.Base.Lists.{length, All}

module _ {ℓ} {V : Type ℓ} where
  unfoldable pub find : ℕ → List (ℕ × V) → Option V
  find k [] = none
  find k ((j, v) ∷ m) = if j == k then some v else find k m

  unfoldable pub erase : ℕ → List (ℕ × V) → List (ℕ × V)
  erase k [] = []
  erase k ((j, v) ∷ m) = let rest = erase k m in if j == k then rest else (j, v) ∷ rest

  unfoldable pub insert : ℕ → V → List (ℕ × V) → List (ℕ × V)
  insert k v [] = (k, v) ∷ []
  insert k v ((j, w) ∷ m) =
      let rest = insert k v m in
      if j == k then (k, v) ∷ m else if ltb k j then (k, v) ∷ (j, w) ∷ m else (j, w) ∷ rest

  unfoldable pub put : ℕ → V → List (ℕ × V) → List (ℕ × V)
  put k v [] = (k, v) ∷ []
  put k v ((j, w) ∷ m) = let rest = put k v m in if j == k then (k, v) ∷ m else (j, w) ∷ rest

  -- The keys ascend, and all lie above a bound.
  abbrev pub Above : ℕ → List (ℕ × V) → Type 0
  Above n [] = Unit
  Above n ((k, v) ∷ m) = (n < k) × Above k m

module _ {ℓ} {V : Type ℓ} where
  pub find-erase :
      (k j : ℕ) (m : List (ℕ × V)) → find j (erase k m) ≡ (if k == j then none else find j m)
  unfolding find erase
  find-erase k j [] = ground arith
  find-erase k j ((i, v) ∷ m) = ground (arith, find-erase k j m)

  pub find-put :
      (k j : ℕ) (v : V) (m : List (ℕ × V))
      → find j (put k v m) ≡ (if k == j then some v else find j m)
  unfolding find put
  find-put k j v [] = refl
  find-put k j v ((i, w) ∷ m) = ground (arith, find-put k j v m)

  pub find-insert :
      (k j : ℕ) (v : V) (m : List (ℕ × V))
      → find j (insert k v m) ≡ (if k == j then some v else find j m)
  unfolding find insert
  find-insert k j v [] = refl
  find-insert k j v ((i, w) ∷ m) = ground (arith, find-insert k j v m)

  pub Above-mono : {a b : ℕ} (m : List (ℕ × V)) → a ≤ b → Above b m → Above a m
  Above-mono [] h p = tt
  Above-mono ((k, v) ∷ m) h p = (omega arith, p.1)

  -- A key at the bound or below it is not there.
  pub find-Above : (n k : ℕ) (m : List (ℕ × V)) → Above n m → k ≤ n → find k m ≡ none
  unfolding find
  find-Above n k [] p h = refl
  find-Above n k ((j, v) ∷ m) p h = ground (arith, find-Above j k m)

  pub insert-Above :
      (n k : ℕ) (v : V) (m : List (ℕ × V)) → n < k → Above n m → Above n (insert k v m)
  unfolding insert
  insert-Above n k v [] h p = (h, tt)
  insert-Above n k v ((j, w) ∷ m) h p =
      ground (arith, insert-Above j k v m, Above-mono {a = k} {b = j} m)

  pub erase-Above : (n k : ℕ) (m : List (ℕ × V)) → Above n m → Above n (erase k m)
  unfolding erase
  erase-Above n k [] p = tt
  erase-Above n k ((j, v) ∷ m) p =
      ground (arith, erase-Above j k m, Above-mono {a = n} {b = j} (erase k m))

  pub length-erase-le : (k : ℕ) (m : List (ℕ × V)) → length (erase k m) ≤ length m
  unfolding erase
  length-erase-le k [] = omega arith
  length-erase-le k ((j, v) ∷ m) = ground (arith, length-erase-le k m)

  pub length-erase-lt :
      (k : ℕ) (v : V) (m : List (ℕ × V)) → find k m ≡ some v → length (erase k m) < length m
  unfolding find erase
  length-erase-lt k v [] h = absurd (ground arith)
  length-erase-lt k v ((j, w) ∷ m) h = ground (arith, length-erase-lt k v m, length-erase-le k m)

  -- Ascending keys above `n` and at most `top` are at most `top - n` many.
  pub length-Above :
      (n top : ℕ) (m : List (ℕ × V)) → Above n m → All (λ e. e.0 ≤ top) m → length m ≤ top - n
  length-Above n top [] p h = omega arith
  length-Above n top ((k, v) ∷ m) p h = omega (arith, length-Above k top m p.1 h.1)

  -- What holds of all entries holds of a found one.
  pub All-find {κ} :
      (P : ℕ × V → Type κ) (k : ℕ) (v : V) (m : List (ℕ × V))
      → All P m
      → find k m ≡ some v
      → P (k, v)
  unfolding find
  All-find P k v [] h e = absurd (ground arith)
  All-find P k v ((j, w) ∷ m) h e = ground (arith, All-find P k v m h.1)

  pub All-erase {κ} : (P : ℕ × V → Type κ) (k : ℕ) (m : List (ℕ × V)) → All P m → All P (erase k m)
  unfolding erase
  All-erase P k [] h = tt
  All-erase P k ((j, w) ∷ m) h = ground (arith, All-erase P k m h.1)

  pub All-insert {κ} :
      (P : ℕ × V → Type κ) (k : ℕ) (v : V) (m : List (ℕ × V))
      → P (k, v)
      → All P m
      → All P (insert k v m)
  unfolding insert
  All-insert P k v [] p h = (p, tt)
  All-insert P k v ((j, w) ∷ m) p h = ground (arith, All-insert P k v m p h.1)

module _ {ℓ} {V : Type ℓ} where
  -- No key stands twice.
  abbrev pub Distinct : List (ℕ × V) → Type ℓ
  Distinct [] = Unit
  Distinct ((k, v) ∷ m) = (find k m ≡ none) × Distinct m

  pub erase-Distinct : (k : ℕ) (m : List (ℕ × V)) → Distinct m → Distinct (erase k m)
  unfolding erase
  erase-Distinct k [] d = tt
  erase-Distinct k ((j, v) ∷ m) d = ground (arith, erase-Distinct k m d.1, find-erase k j m)

  pub put-Distinct : (k : ℕ) (v : V) (m : List (ℕ × V)) → Distinct m → Distinct (put k v m)
  unfolding put find
  put-Distinct k v [] d = (refl, tt)
  put-Distinct k v ((j, w) ∷ m) d = ground (arith, put-Distinct k v m d.1, find-put k j v m)
