-- ===== src/NavDestinations.antt =====
-- TimeMachineAR/Source/TimeMachineAR/NavDestinations.h and NavDestinations.cpp: the kinds of the nodes of a
-- map and the order of its destinations. Nodes are taken by their positions. The tests of labels and
-- node types, which compare strings of the engine, and the engine's sort are parameters.
pub mod Order
use ai_xr_project.Base.{
  ℕ, zero, suc, ◌+◌, ltb, List, [], ◌∷◌, ◌++◌, Option, none, some, Bool, true, false, not, ◌&&◌,
  ◌||◌, ◌==◌, if◌then◌else◌,
}

-- ENavDestKind.
pub data DestKind : Type 0 where
  no_destination exhibit facility entrance : DestKind

-- The string tests: Equals of a node type, ignoring case, with the four types, Contains of a label with
-- the parts of names, and whether the trimmed label without spaces is the name at a position of the list
-- of names; the order of texts and the empty text. `sort` is TArray::Sort.
pub record Strings : Type 1 where
  pub Text : Type 0
  pub is_exhibit : Text → Bool
  pub is_facility : Text → Bool
  pub is_entrance : Text → Bool
  pub is_exit : Text → Bool
  pub has_tricera : Text → Bool
  pub has_brachio : Text → Bool
  pub has_tyranno : Text → Bool
  pub has_rex : Text → Bool
  pub has_ankylo : Text → Bool
  pub has_entrance : Text → Bool
  pub has_exit : Text → Bool
  pub is_name : ℕ → Text → Bool
  pub text_less : Text → Text → Bool
  pub empty_text : Text
  pub sort : (ℕ → ℕ → Bool) → List ℕ → List ℕ

-- The largest int32.
abbrev pub max_int32 : ℕ
max_int32 = 2147483647

-- UE_ARRAY_COUNT(Names).
abbrev pub name_count : ℕ
name_count = 13

-- IsDestination, and the comparisons of a kind.
unfoldable pub is_destination : DestKind → Bool
is_destination no_destination = false
is_destination exhibit = true
is_destination facility = true
is_destination entrance = true

unfoldable pub is_exhibit_kind : DestKind → Bool
is_exhibit_kind exhibit = true
is_exhibit_kind no_destination = false
is_exhibit_kind facility = false
is_exhibit_kind entrance = false

unfoldable pub is_facility_kind : DestKind → Bool
is_facility_kind facility = true
is_facility_kind no_destination = false
is_facility_kind exhibit = false
is_facility_kind entrance = false

unfoldable pub is_entrance_kind : DestKind → Bool
is_entrance_kind entrance = true
is_entrance_kind no_destination = false
is_entrance_kind exhibit = false
is_entrance_kind facility = false

module _ (S : Strings) where
  -- FNavMapNode, as far as it is read.
  pub record MapNode : Type 0 where
    pub node_type : S.Text
    pub label : S.Text
    pub node_id : S.Text

  -- Classify.
  unfoldable pub classify : S.Text → DestKind
  classify t =
      if S.is_exhibit t
      then exhibit
      else if S.is_facility t
      then facility
      else if S.is_entrance t
      then entrance
      else if S.is_exit t
      then entrance
      else no_destination

  -- DinoIndexFromLabel.
  unfoldable pub dino_index_from_label : S.Text → ℕ
  dino_index_from_label label =
      if S.has_tricera label
      then 1
      else if S.has_brachio label
      then 2
      else if S.has_tyranno label || S.has_rex label
      then 3
      else if S.has_ankylo label
      then 4
      else 0

  -- The loop of DisplayNumber over n names from the one at this position on.
  unfoldable pub display_number_from : ℕ → ℕ → S.Text → ℕ
  display_number_from index zero label = 0
  display_number_from index (suc n) label =
      let rest = display_number_from (suc index) n label in
      if S.is_name index label then suc index else rest

  -- DisplayNumber.
  unfoldable pub display_number : S.Text → ℕ
  display_number label = display_number_from 0 name_count label

  -- Nodes[i].
  unfoldable pub node_at : ℕ → List MapNode → Option MapNode
  node_at i [] = none
  node_at zero (n ∷ ns) = some n
  node_at (suc i) (n ∷ ns) = node_at i ns

  -- The positions, counted from i on, of the nodes whose kind passes a test.
  unfoldable pub positions_of : (DestKind → Bool) → ℕ → List MapNode → List ℕ
  positions_of test i [] = []
  positions_of test i (n ∷ ns) =
      let rest = positions_of test (suc i) ns in
      if test (classify n.node_type) then i ∷ rest else rest

  -- bMuseumSpecimens.
  unfoldable pub has_specimens : List MapNode → Bool
  has_specimens [] = false
  has_specimens (n ∷ ns) =
      let number = display_number n.label in
      let rest = has_specimens ns in
      if not (number == 0) && (not (number == 2) && not (number == 12)) then true else rest

  -- The rank of a node among the specimens.
  unfoldable pub specimen_rank : List MapNode → ℕ → ℕ
  specimen_rank nodes i = elim (node_at i nodes) [
    | none ↦ 0
    | some n ↦ (if display_number n.label == 0 then max_int32 else display_number n.label)
  ]

  unfoldable pub id_at : List MapNode → ℕ → S.Text
  id_at nodes i = elim (node_at i nodes) [ none ↦ S.empty_text | some n ↦ n.node_id ]

  unfoldable pub specimen_first : List MapNode → ℕ → ℕ → Bool
  specimen_first nodes a b =
      if specimen_rank nodes a == specimen_rank nodes b
      then S.text_less (id_at nodes a) (id_at nodes b)
      else ltb (specimen_rank nodes a) (specimen_rank nodes b)

  unfoldable pub dino_at : List MapNode → ℕ → ℕ
  dino_at nodes i = elim (node_at i nodes) [ none ↦ 0 | some n ↦ dino_index_from_label n.label ]

  unfoldable pub dino_first : List MapNode → ℕ → ℕ → Bool
  dino_first nodes a b = ltb (dino_at nodes a) (dino_at nodes b)

  -- The loop for EntranceIdx from position i on, with the one found so far: an entrance with the label of
  -- one ends it, otherwise the first entrance stays.
  unfoldable pub entrance_from : ℕ → Option ℕ → List MapNode → Option ℕ
  entrance_from i found [] = found
  entrance_from i found (n ∷ ns) =
      let first : Option ℕ = elim found [ none ↦ some i | some j ↦ some j ] in
      let kept = entrance_from (suc i) first ns in
      let skipped = entrance_from (suc i) found ns in
      if not (is_entrance_kind (classify n.node_type))
      then skipped
      else if S.has_entrance n.label || S.has_exit n.label
      then some i
      else kept

  unfoldable pub append_index : List ℕ → Option ℕ → List ℕ
  append_index order none = order
  append_index order (some i) = order ++ i ∷ []

  -- BuildDestinationOrder.
  unfoldable pub build_destination_order : List MapNode → List ℕ
  build_destination_order nodes =
      if has_specimens nodes
      then S.sort (specimen_first nodes) (positions_of is_destination 0 nodes)
      else append_index
          (S.sort (dino_first nodes) (positions_of is_exhibit_kind 0 nodes)
            ++ positions_of is_facility_kind 0 nodes)
          (entrance_from 0 none nodes)
