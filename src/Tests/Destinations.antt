-- ===== src/Tests/Destinations.antt =====
-- A run of the theorem about the order of destinations. Types and labels are numbers: a label has the
-- part of a name when it equals that part's number.
use ai_xr_project.Base.{ℕ, ◌+◌, ◌≤◌, ◌≡◌, List, [], ◌∷◌, true, ◌==◌, ltb, occurrences}
use ai_xr_project.NavDestinations.{
  Strings, MapNode, is_destination, is_exhibit_kind, is_facility_kind, has_specimens,
  build_destination_order,
}
use ai_xr_project.NavDestinations.Order.{kind_count, build_destination_order-kind_count}
use ai_xr_project.Tests.Resolver.{sort_numbers, occurrences-sort_numbers}

abbrev number_strings : Strings
number_strings = record {
  Text = ℕ;
  is_exhibit = λ t. t == 1;
  is_facility = λ t. t == 2;
  is_entrance = λ t. t == 3;
  is_exit = λ t. t == 4;
  has_tricera = λ t. t == 101;
  has_brachio = λ t. t == 102;
  has_tyranno = λ t. t == 103;
  has_rex = λ t. t == 104;
  has_ankylo = λ t. t == 105;
  has_entrance = λ t. t == 106;
  has_exit = λ t. t == 107;
  is_name = λ i t. t == i;
  text_less = ltb;
  empty_text = 0;
  sort = sort_numbers;
}

abbrev node : ℕ → ℕ → MapNode number_strings
node kind name = record { node_type = kind; label = name; node_id = name }

-- A starting point, two dinosaurs, a junction, a toilet and the labelled entrance.
abbrev nodes : List (MapNode number_strings)
nodes = node 3 50 ∷ node 1 103 ∷ node 9 60 ∷ node 1 101 ∷ node 2 70 ∷ node 3 106 ∷ []

build_destination_order-kind_count_example :
    (let n = occurrences 3 (build_destination_order number_strings nodes) in
      (n ≤ kind_count number_strings is_destination 0 3 nodes)
      × ((kind_count number_strings is_exhibit_kind 0 3 nodes
              + kind_count number_strings is_facility_kind 0 3 nodes
            ≤ n)
          × (has_specimens number_strings nodes ≡ true
              → n ≡ kind_count number_strings is_destination 0 3 nodes)))
build_destination_order-kind_count_example =
    build_destination_order-kind_count number_strings nodes 3 occurrences-sort_numbers
