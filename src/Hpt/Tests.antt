-- ===== src/Hpt/Tests.antt =====
-- Runs of src/hcupc_spmd-distHPT.cpp on a small machine.
use habanero_upc.Prelude.{
  ℕ, ◌+◌, ◌≡◌, ℕ_discrete, refl, none, some, List, [], ◌∷◌, count, length, arith,
}
use habanero_upc.Hpt.{
  Topology, Place, Hpt, create_edison_topology, edison_chasis_index_in_cabinet_group,
  edison_cabinet_group_id,
}
use habanero_upc.Hpt.Nearest.{nearest_victims}
use habanero_upc.Hpt.Build.{ranks_of}
use habanero_upc.Hpt.Total.{AllAdmissible, on_path-le, nearest_victims-some}

abbrev at : ℕ → ℕ → ℕ → ℕ → ℕ → Topology
at col row chasis blade rank = record {
  col = col;
  row = row;
  chasis = chasis;
  blade = blade;
  rank = rank;
}

-- Rank 2 shares its blade with rank 5, its chassis with rank 0 and its cabinet group with rank 3.
abbrev machine : List Topology
machine =
    at 0 1 2 7 2 ∷ at 4 0 1 3 1 ∷ at 0 1 2 5 0 ∷ at 1 1 0 7 3 ∷ at 0 1 2 7 5 ∷ at 6 2 0 0 4 ∷ []

abbrev place : {C : Type 0} → ℕ → C → Place C
place i c = record { id = i; child = c }

abbrev tree : Hpt
tree = record {
  root =
      place 2 (place 4 (place 3 (1 ∷ []) ∷ []) ∷ [])
      ∷ place 4 (
          place 0 (place 7 (3 ∷ []) ∷ [])
          ∷ place 5 (place 5 (0 ∷ []) ∷ place 7 (2 ∷ 5 ∷ []) ∷ [])
          ∷ [])
      ∷ place 11 (place 3 (place 0 (4 ∷ []) ∷ []) ∷ [])
      ∷ [];
  my_blade_place = some (4, 5, 7);
}

build : create_edison_topology machine 2 ≡ some tree
unfolding create_edison_topology
build = refl

run : nearest_victims 6 2 machine ≡ some (5 ∷ 0 ∷ 3 ∷ 1 ∷ 4 ∷ [])
unfolding nearest_victims
run = refl

refused : create_edison_topology (at 1 3 0 0 0 ∷ []) 0 ≡ none
unfolding create_edison_topology
refused = refl

-- Three of the places.
abbrev three_places : List Topology
three_places = at 0 1 2 7 2 ∷ at 4 0 1 3 1 ∷ at 0 1 2 5 0 ∷ []

three_places-AllAdmissible : AllAdmissible three_places
unfolding edison_chasis_index_in_cabinet_group edison_cabinet_group_id
three_places-AllAdmissible = (
  record { chasis = 5; chasis_index = refl; cabinet = 4; cabinet_index = refl },
  (
    record { chasis = 4; chasis_index = refl; cabinet = 2; cabinet_index = refl },
    (record { chasis = 5; chasis_index = refl; cabinet = 4; cabinet_index = refl }, tt),
  ),
)

nearest_victims-some_example :
    (prox : List ℕ) × (nearest_victims 3 2 three_places ≡ some prox)
    × ((k : ℕ) → count k (2 ∷ prox) ≡ count k (ranks_of three_places))
    × (length prox + 1 ≡ 3)
unfolding ℕ_discrete
nearest_victims-some_example =
    nearest_victims-some 2 three_places three_places-AllAdmissible
      (λ p. omega (arith, on_path-le three_places three_places-AllAdmissible p)) refl
