-- ===== src/NavLocalizer/Candidates.antt =====
-- PickRelocCandidate of TimeMachineAR/Source/TimeMachineAR/NavLocalizer.cpp.
use ai_xr_project.Base.{
  ℕ, suc, ◌+◌, List, [], ◌∷◌, Option, none, some, true, false, ◌&&◌, ◌≡◌, refl, ap, ◌∙◌, arith, ◌⊎◌,
  inl, inr, Bool-cases, get_elem?,
}
use ai_xr_project.NavLocalizer.{ArMath}
use ai_xr_project.NavLocalizer.Judge.{is_nearer, pick_from, pick_reloc_candidate}

-- A pick is a stable candidate of a list, by its place in it.
abbrev pub IsStable : (M : ArMath) → M.Real → List (M.Real × M.Real) → ℕ × M.Real → Type 0
IsStable M stable candidates (i, d) =
    (seconds : M.Real) × ((get_elem? candidates i ≡ some (d, seconds))
      × (M.at_most stable seconds ≡ true))

-- No stable candidate of a list is nearer than the one that was picked.
abbrev pub Nearest : (M : ArMath) → M.Real → List (M.Real × M.Real) → Option (ℕ × M.Real) → Type 0
Nearest M stable [] best = Unit
Nearest M stable ((d, seconds) ∷ rest) best =
    (M.at_most stable seconds ≡ true → is_nearer M d best ≡ false) × Nearest M stable rest best

-- A pick of the rest of a list is a pick of the list.
IsStable-suc :
    (M : ArMath) (stable : M.Real) (c : M.Real × M.Real) (rest : List (M.Real × M.Real)) (k : ℕ)
    (d : M.Real)
    → IsStable M stable rest (k, d)
    → IsStable M stable (c ∷ rest) (suc k, d)
IsStable-suc M stable c rest k d h = h

module _ (M : ArMath) (irrefl : (a : M.Real) → M.less a a ≡ false)
    (trans : (a b c : M.Real) → M.less a b ≡ true → M.less b c ≡ true → M.less a c ≡ true) where
  nearer_trans :
      (d d' : M.Real) (i : ℕ) (best : Option (ℕ × M.Real))
      → is_nearer M d' best ≡ true
      → is_nearer M d best ≡ false
      → is_nearer M d (some (i, d')) ≡ false
  unfolding is_nearer
  nearer_trans d d' i none h k = absurd (ground arith)
  nearer_trans d d' i (some (j, b)) h k = ground (arith, trans d d' b)

  nearest_itself : (d : M.Real) (i : ℕ) → is_nearer M d (some (i, d)) ≡ false
  unfolding is_nearer
  nearest_itself d i = irrefl d

  -- What is not nearer than the best so far is not nearer than the final one.
  pick_from_keeps :
      (candidates : List (M.Real × M.Real)) (stable : M.Real) (i : ℕ) (best : Option (ℕ × M.Real))
      (d : M.Real)
      → is_nearer M d best ≡ false
      → is_nearer M d (pick_from M stable i best candidates) ≡ false
  unfolding pick_from
  pick_from_keeps [] stable i best d h = h
  pick_from_keeps ((d', seconds) ∷ rest) stable i best d h =
      elim (Bool-cases (M.at_most stable seconds && is_nearer M d' best)) [
        | inl taken ↦ rw taken (
            pick_from_keeps rest stable (suc i) (some (i, d')) d
              (nearer_trans d d' i best (ground arith) h))
        | inr passed ↦ rw passed (pick_from_keeps rest stable (suc i) best d h)
      ]

  pick_from-Nearest :
      (candidates : List (M.Real × M.Real)) (stable : M.Real) (i : ℕ) (best : Option (ℕ × M.Real))
      → Nearest M stable candidates (pick_from M stable i best candidates)
  unfolding pick_from
  pick_from-Nearest [] stable i best = tt
  pick_from-Nearest ((d, seconds) ∷ rest) stable i best =
      elim (Bool-cases (M.at_most stable seconds && is_nearer M d best)) [
        | inl taken ↦ rw taken (
          λ _. pick_from_keeps rest stable (suc i) (some (i, d)) d (nearest_itself d i),
          pick_from-Nearest rest stable (suc i) (some (i, d)),
        )
        | inr passed ↦ rw passed (
          λ e. pick_from_keeps rest stable (suc i) best d (ground arith),
          pick_from-Nearest rest stable (suc i) best,
        )
      ]

  -- Where a pick comes from: what was the best before, or a stable candidate at a place after it.
  pick_from-IsStable :
      (candidates : List (M.Real × M.Real)) (stable : M.Real) (i : ℕ) (best : Option (ℕ × M.Real))
      → (pick_from M stable i best candidates ≡ best)
        ⊎ ((k : ℕ) × (d : M.Real) × ((pick_from M stable i best candidates ≡ some (i + k, d))
              × IsStable M stable candidates (k, d)))
  unfolding pick_from
  pick_from-IsStable [] stable i best = inl refl
  pick_from-IsStable ((d, seconds) ∷ rest) stable i best =
      elim (Bool-cases (M.at_most stable seconds && is_nearer M d best)) [
        | inl taken ↦ rw taken (elim (pick_from-IsStable rest stable (suc i) (some (i, d))) [
          | inl same ↦
              inr (
                0,
                d,
                (same ∙ ap (λ n. some (n, d)) (omega arith), (seconds, (refl, ground arith))),
              )
          | inr (k, d', (e, h)) ↦ inr (suc k, d', (e ∙ ap (λ n. some (n, d')) (omega arith), h))
        ])
        | inr passed ↦ rw passed (elim (pick_from-IsStable rest stable (suc i) best) [
          | inl same ↦ inl same
          | inr (k, d', (e, h)) ↦ inr (suc k, d', (e ∙ ap (λ n. some (n, d')) (omega arith), h))
        ])
      ]

  -- PickRelocCandidate picks a candidate that has been stable for long enough, and no such candidate is
  -- nearer than the one picked; it picks none only when there is no such candidate. The comparison of
  -- floats is assumed to be irreflexive and transitive.
  pub pick_reloc_candidate-Nearest :
      (candidates : List (M.Real × M.Real)) (stable : M.Real)
      → Nearest M stable candidates (pick_reloc_candidate M candidates stable)
        × ((pick_reloc_candidate M candidates stable ≡ none)
            ⊎ ((i : ℕ) × (d : M.Real) × ((pick_reloc_candidate M candidates stable ≡ some (i, d))
                  × IsStable M stable candidates (i, d))))
  unfolding pick_reloc_candidate
  pick_reloc_candidate-Nearest candidates stable = (
    pick_from-Nearest candidates stable 0 none,
    elim (pick_from-IsStable candidates stable 0 none) [
      | inl nothing ↦ inl nothing
      | inr (k, d, (e, h)) ↦ inr (k, d, (e ∙ ap (λ n. some (n, d)) (omega arith), h))
    ],
  )
