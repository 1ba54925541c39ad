-- ===== src/NavDestinations/Order.antt =====
-- Which nodes TimeMachineAR/Source/TimeMachineAR/NavDestinations.cpp offers as destinations, and how often.
use ai_xr_project.Base.{
  ◌⊎◌, ℕ, suc, ◌+◌, ◌≤◌, ◌<◌, ◌≡◌, refl, ◌∙◌, List, [], ◌∷◌, ◌++◌, Option, none, some, Bool, true,
  false, not, ◌||◌, ◌==◌, if◌then◌else◌, occurrences, occurrences-append, arith, Bool-cases, inl,
  inr,
}
use ai_xr_project.NavDestinations.{
  DestKind, Strings, MapNode, classify, is_destination, is_exhibit_kind, is_facility_kind,
  is_entrance_kind, positions_of, has_specimens, specimen_first, dino_first, entrance_from,
  append_index, build_destination_order,
}

module _ (S : Strings) where
  -- One where the node at a position, counted from i on, has a kind that passes a test.
  abbrev pub kind_count : (DestKind → Bool) → ℕ → ℕ → List (MapNode S) → ℕ
  kind_count test i k [] = 0
  kind_count test i k (n ∷ ns) =
      if k == i
      then (if test (classify S n.node_type) then 1 else 0)
      else kind_count test (suc i) k ns

  kind_count_before :
      (test : DestKind → Bool) (i k : ℕ) (ns : List (MapNode S))
      → k < i
      → kind_count test i k ns ≡ 0
  kind_count_before test i k [] h = refl
  kind_count_before test i k (n ∷ ns) h = ground (arith, kind_count_before test (suc i) k ns)

  occurrences-positions_of :
      (test : DestKind → Bool) (k i : ℕ) (ns : List (MapNode S))
      → occurrences k (positions_of S test i ns) ≡ kind_count test i k ns
  unfolding occurrences positions_of
  occurrences-positions_of test k i [] = refl
  occurrences-positions_of test k i (n ∷ ns) =
      ground
        (arith, occurrences-positions_of test k (suc i) ns, kind_count_before test (suc i) k ns)

  kinds_add :
      (i k : ℕ) (ns : List (MapNode S))
      → kind_count is_exhibit_kind i k ns
          + kind_count is_facility_kind i k ns
          + kind_count is_entrance_kind i k ns
        ≡ kind_count is_destination i k ns
  unfolding is_exhibit_kind is_facility_kind is_entrance_kind is_destination
  kinds_add i k [] = omega arith
  kinds_add i k (n ∷ ns) = ground (arith, kinds_add (suc i) k ns)

  keep_first :
      (found : Option ℕ) (i j : ℕ)
      → ◌≡◌ {A = Option ℕ} (elim found [ none ↦ some i | some x ↦ some x ]) (some j)
      → (found ≡ some j) ⊎ (j ≡ i)
  keep_first none i j h = ground arith
  keep_first (some x) i j h = inl h

  entrance_step :
      (b c : Bool) (i j : ℕ) (kept skipped : Option ℕ)
      → (if not b then skipped else if c then some i else kept) ≡ some j
      → ((b ≡ false) × (skipped ≡ some j)) ⊎ ((b ≡ true) × ((j ≡ i) ⊎ (kept ≡ some j)))
  entrance_step false c i j kept skipped h = inl (refl, h)
  entrance_step true true i j kept skipped h = inr (refl, inl (ground arith))
  entrance_step true false i j kept skipped h = inr (refl, inr h)

  -- The chosen entrance is one of those that the loop has still to see, or was found before.
  entrance_from-kind_count :
      (i j : ℕ) (found : Option ℕ) (ns : List (MapNode S))
      → entrance_from S i found ns ≡ some j
      → (found ≡ some j) ⊎ ((i ≤ j) × (kind_count is_entrance_kind i j ns ≡ 1))
  unfolding entrance_from
  entrance_from-kind_count i j found [] h = inl h
  entrance_from-kind_count i j found (n ∷ ns) h =
      let first : Option ℕ = elim found [ none ↦ some i | some x ↦ some x ] in
      let kept = entrance_from S (suc i) first ns in
      let skipped = entrance_from S (suc i) found ns in
      let named = S.has_entrance n.label || S.has_exit n.label in
      elim (entrance_step (is_entrance_kind (classify S n.node_type)) named i j kept skipped h) [
        | inl (other, later) ↦ elim (entrance_from-kind_count (suc i) j found ns later) [
          | inl f ↦ inl f
          | inr c ↦ inr (omega (arith, c.0), ground (arith, c.0, c.1))
        ]
        | inr (here, inl same) ↦ inr (omega arith, ground (arith, here, same))
        | inr (here, inr later) ↦ elim (entrance_from-kind_count (suc i) j first ns later) [
          | inr c ↦ inr (omega (arith, c.0), ground (arith, c.0, c.1))
          | inl f ↦ elim (keep_first found i j f) [
            | inl before ↦ inl before
            | inr same ↦ inr (omega arith, ground (arith, here, same))
          ]
        ]
      ]

  -- The sort keeps how often each number occurs.
  abbrev pub SortsPositions : Type 0
  SortsPositions =
      (first : ℕ → ℕ → Bool) (xs : List ℕ) (k : ℕ)
      → occurrences k (S.sort first xs) ≡ occurrences k xs

  append_index_lem :
      (nodes : List (MapNode S)) (k : ℕ) (order : List ℕ) (o : Option ℕ)
      → ((j : ℕ) → o ≡ some j → kind_count is_entrance_kind 0 j nodes ≡ 1)
      → (occurrences k order ≤ occurrences k (append_index S order o))
        × (occurrences k (append_index S order o)
            ≤ occurrences k order + kind_count is_entrance_kind 0 k nodes)
  unfolding append_index occurrences
  append_index_lem nodes k order none h = (omega arith, omega arith)
  append_index_lem nodes k order (some j) h =
      let appended = occurrences-append k order (j ∷ []) in
      let chosen = h j refl in (ground (arith, appended), ground (arith, appended, chosen))

  chosen_entrance :
      (nodes : List (MapNode S)) (j : ℕ)
      → entrance_from S 0 none nodes ≡ some j
      → kind_count is_entrance_kind 0 j nodes ≡ 1
  chosen_entrance nodes j h = elim (entrance_from-kind_count 0 j none nodes h) [
    | inl none_before ↦ absurd (ground arith)
    | inr c ↦ c.1
  ]

  -- The order of destinations of a map, for each position k. Only destinations are in it, each at most
  -- once: k occurs at most as often as its node, of which there is one or none, is an exhibit, a
  -- facility or an entrance. All exhibits and facilities are in it, and in a map with museum specimens
  -- all destinations. Assumed: the engine's sort keeps how often each number occurs.
  pub build_destination_order-kind_count :
      (nodes : List (MapNode S)) (k : ℕ)
      → SortsPositions
      → (let n = occurrences k (build_destination_order S nodes) in
          (n ≤ kind_count is_destination 0 k nodes)
          × ((kind_count is_exhibit_kind 0 k nodes + kind_count is_facility_kind 0 k nodes ≤ n)
              × (has_specimens S nodes ≡ true → n ≡ kind_count is_destination 0 k nodes)))
  unfolding build_destination_order
  build_destination_order-kind_count nodes k sorts =
      let all = kinds_add 0 k nodes in
      let whole =
        sorts (specimen_first S nodes) (positions_of S is_destination 0 nodes) k
        ∙ occurrences-positions_of is_destination k 0 nodes in
      let shown = S.sort (dino_first S nodes) (positions_of S is_exhibit_kind 0 nodes) in
      let exhibits =
        sorts (dino_first S nodes) (positions_of S is_exhibit_kind 0 nodes) k
        ∙ occurrences-positions_of is_exhibit_kind k 0 nodes in
      let rooms = positions_of S is_facility_kind 0 nodes in
      let facilities = occurrences-positions_of is_facility_kind k 0 nodes in
      let parts = occurrences-append k shown rooms in
      let last =
        append_index_lem nodes k (shown ++ rooms) (entrance_from S 0 none nodes)
          (chosen_entrance nodes) in
      elim (Bool-cases (has_specimens S nodes)) [
        | inl museum ↦
            rw (museum, build_destination_order)
              (omega (arith, whole), (omega (arith, whole, all), (λ h. whole)))
        | inr plain ↦
            rw (plain, build_destination_order)
              (
                omega (arith, last.1, parts, exhibits, facilities, all),
                (omega (arith, last.0, parts, exhibits, facilities), (λ h. absurd (ground arith))),
              )
      ]
