-- ===== src/Hpt/Nearest.antt =====
-- src/hcupc_spmd-distHPT.cpp, create_proximity_array: the other places, the nearest first.
use habanero_upc.Prelude.{
  ℕ, ◌-◌, Option, none, some, List, [], ◌∷◌, ◌++◌, leb, ◌==◌, ◌>>=◌, if◌then◌else◌, length,
}
use habanero_upc.Hpt.{Topology, Place, Blade, Chasis, Hpt, create_edison_topology}

module _ {C : Type 0} where
  -- The siblings on the left of the place with id `i`, the nearest first, the place, and the
  -- siblings on its right.
  unfoldable pub around_from :
      List (Place C) → ℕ → List (Place C) → Option (List (Place C) × Place C × List (Place C))
  around_from left i [] = none
  around_from left i (x ∷ xs) =
      if x.id == i then some (left, x, xs) else around_from (x ∷ left) i xs

  -- The loop over two siblings lists in turn, the left one first.
  unfoldable pub alternate : List (Place C) → List (Place C) → List (Place C)
  alternate [] rs = rs
  alternate (l ∷ ls) [] = l ∷ ls
  alternate (l ∷ ls) (r ∷ rs) = l ∷ r ∷ alternate ls rs

  -- Appends what each place of a list adds to the array.
  unfoldable pub add_each : (C → List ℕ) → List (Place C) → List ℕ
  add_each add [] = []
  add_each add (x ∷ xs) = add x.child ++ add_each add xs

-- add_ranks_inBlade_toProximityArray, with a rank to leave out.
unfoldable pub add_other_ranks : ℕ → List ℕ → List ℕ
add_other_ranks myrank [] = []
add_other_ranks myrank (rank ∷ ranks) =
    if rank == myrank then add_other_ranks myrank ranks else rank ∷ add_other_ranks myrank ranks

-- The same with the default argument: no rank is -1.
unfoldable pub add_ranks_in_blade : List ℕ → List ℕ
add_ranks_in_blade workers = workers

unfoldable pub add_blades_in_chasis : List Blade → List ℕ
unfolding add_each add_ranks_in_blade
add_blades_in_chasis blades = add_each add_ranks_in_blade blades

unfoldable pub add_chasis_in_cabinets : List Chasis → List ℕ
unfolding add_each add_blades_in_chasis
add_chasis_in_cabinets chasis = add_each add_blades_in_chasis chasis

-- The entries that are written, in order. `none`: myBladePlace is NULL.
unfoldable pub create_proximity_array : ℕ → Hpt → Option (List ℕ)
unfolding around_from alternate add_each add_other_ranks add_ranks_in_blade add_blades_in_chasis
    add_chasis_in_cabinets
create_proximity_array myrank h = do
  (g, c, b) ← h.my_blade_place
  (cabinet_left, cabinet, cabinet_right) ← around_from [] g h.root
  (chasis_left, chasis, chasis_right) ← around_from [] c cabinet.child
  (blade_left, blade, blade_right) ← around_from [] b chasis.child
  some (
      add_other_ranks myrank blade.child
      ++ add_each add_ranks_in_blade (alternate blade_left blade_right)
      ++ add_each add_blades_in_chasis (alternate chasis_left chasis_right)
      ++ add_each add_chasis_in_cabinets (alternate cabinet_left cabinet_right))

-- create_distributed_hpt and create_arrray_of_nearestVictim at the place `myrank` of `places`, with
-- the coordinates that upcxx_allgather brings: the array has places - 1 entries, and an entry that is
-- never written fails the last assertion.
unfoldable pub nearest_victims : ℕ → ℕ → List Topology → Option (List ℕ)
unfolding create_edison_topology create_proximity_array
nearest_victims places myrank global_topology = do
  h ← create_edison_topology global_topology myrank
  proximity ← create_proximity_array myrank h
  if leb (places - 1) (length proximity) then some proximity else none
