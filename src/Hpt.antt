-- ===== src/Hpt.antt =====
-- src/hcupc_spmd-distHPT.cpp: the hierarchical place tree of the machine (cabinet groups, chassis,
-- blades, ranks), built from the coordinates of all places, and the array of the places that are
-- nearest to this one.
--
-- A list of siblings stands for the doubly linked list that starts at `child`: `next` is the rest of
-- the list and `prev` the part before, read backwards. The level of a place is its type here; a
-- pointer to a place is the path of ids to it.
pub mod Nearest
pub mod Siblings
pub mod Ranks
pub mod Room
pub mod Build
pub mod Proximity
pub mod Total
mod Tests
use habanero_upc.Prelude.{
  ℕ, suc, ◌+◌, ◌*◌, ◌/◌, ◌%◌, Bool, true, false, ◌&&◌, ◌||◌, Option, none, some, List, [], ◌∷◌,
  ◌++◌, ltb, leb, ◌==◌, ◌>>=◌, if◌then◌else◌, length,
}

-- `topology`
pub record Topology : Type 0 where
  pub col : ℕ
  pub row : ℕ
  pub chasis : ℕ
  pub blade : ℕ
  pub rank : ℕ

-- `place_t`, with the places below it.
pub record Place (C : Type 0) : Type 0 where
  pub id : ℕ
  pub child : C

-- `workers` of a blade: the ranks attached to it.
abbrev pub Blade : Type 0
Blade = Place (List ℕ)

abbrev pub Chasis : Type 0
Chasis = Place (List Blade)

abbrev pub CabinetGroup : Type 0
CabinetGroup = Place (List Chasis)

-- `root` and `myBladePlace`, the ids on the path to the blade of this place.
pub record Hpt : Type 0 where
  pub root : List CabinetGroup
  pub my_blade_place : Option (ℕ × ℕ × ℕ)

abbrev pub edison_nodes_per_blade : ℕ
edison_nodes_per_blade = 4

abbrev max_cabinet_group_in_row_on_edison : ℕ
max_cabinet_group_in_row_on_edison = 4

abbrev max_cabinet_in_one_group_on_edison : ℕ
max_cabinet_in_one_group_on_edison = 2

abbrev max_chasis_on_a_cabinet : ℕ
max_chasis_on_a_cabinet = 3

module _ {C : Type 0} where
  unfoldable get_new_place : C → ℕ → Place C
  get_new_place empty i = record { id = i; child = empty }

  -- The loop of sortedInsertion, behind a place with a smaller id.
  unfoldable pub locate : C → ℕ → List (Place C) → List (Place C)
  unfolding get_new_place
  locate empty i [] = get_new_place empty i ∷ []
  locate empty i (x ∷ xs) =
      if ltb i x.id
      then get_new_place empty i ∷ x ∷ xs
      else if ltb x.id i
      then x ∷ locate empty i xs
      else x ∷ xs

  -- The siblings after a place with id `i` has been found, or made.
  unfoldable sorted_insertion : C → ℕ → List (Place C) → List (Place C)
  unfolding get_new_place locate
  sorted_insertion empty i [] = []
  sorted_insertion empty i (x ∷ xs) =
      if x.id == i
      then x ∷ xs
      else if ltb i x.id
      then get_new_place empty i ∷ x ∷ xs
      else x ∷ locate empty i xs

  unfoldable pub add_place : C → ℕ → List (Place C) → List (Place C)
  unfolding get_new_place sorted_insertion
  add_place empty i [] = get_new_place empty i ∷ []
  add_place empty i (x ∷ xs) = sorted_insertion empty i (x ∷ xs)

  -- What the program does through the pointer to the place with id `i`.
  unfoldable pub at_place : ℕ → (C → Option C) → List (Place C) → Option (List (Place C))
  at_place i f [] = none
  at_place i f (x ∷ xs) =
      if x.id == i
      then (do c ← f x.child; some (record x { child = c } ∷ xs))
      else (do ys ← at_place i f xs; some (x ∷ ys))

-- `none` is a failed assertion, here and below.
unfoldable pub edison_cabinet_group_id : ℕ → ℕ → Option ℕ
edison_cabinet_group_id col row =
    if (row == 3) && ((col == 0) || (col == 1))
    then none
    else some (max_cabinet_group_in_row_on_edison * row + col / max_cabinet_in_one_group_on_edison)

unfoldable pub edison_chasis_index_in_cabinet_group : ℕ → ℕ → Option ℕ
edison_chasis_index_in_cabinet_group col chasis =
    let chasis_new_id = if (col % 2) == 0 then chasis + max_chasis_on_a_cabinet else chasis in
    if ltb chasis_new_id (2 * max_chasis_on_a_cabinet) then some chasis_new_id else none

unfoldable pub add_worker : ℕ → List ℕ → Option (List ℕ)
add_worker rank workers =
    if ltb edison_nodes_per_blade (length workers + 1) then none else some (workers ++ rank ∷ [])

-- The last part of add_rank_in_blade.
unfoldable pub set_my_blade : ℕ → ℕ → ℕ × ℕ × ℕ → Option (ℕ × ℕ × ℕ) → Option (Option (ℕ × ℕ × ℕ))
set_my_blade rank myrank path none = some (if rank == myrank then some path else none)
set_my_blade rank myrank path (some old) = if rank == myrank then none else some (some old)

-- The three calls of add_place and the call of add_rank_in_blade for one place.
unfoldable pub add_rank : ℕ × ℕ × ℕ → ℕ → List CabinetGroup → Option (List CabinetGroup)
unfolding add_place add_worker at_place
add_rank (g, c, b) rank root =
    at_place g
      (λ chasis.
        at_place c (λ blades. at_place b (add_worker rank) (add_place [] b blades))
          (add_place [] c chasis))
      (add_place [] g root)

-- One round of the loop of create_edison_topology.
unfoldable pub add_topology : ℕ → Topology → Hpt → Option Hpt
unfolding edison_cabinet_group_id edison_chasis_index_in_cabinet_group add_rank set_my_blade
add_topology myrank t h = do
  c ← edison_chasis_index_in_cabinet_group t.col t.chasis
  g ← edison_cabinet_group_id t.col t.row
  root ← add_rank (g, c, t.blade) t.rank h.root
  mine ← set_my_blade t.rank myrank (g, c, t.blade) h.my_blade_place
  some (record { root = root; my_blade_place = mine })

unfoldable pub add_topologies : ℕ → List Topology → Hpt → Option Hpt
unfolding add_topology
add_topologies myrank [] h = some h
add_topologies myrank (t ∷ ts) h = do h' ← add_topology myrank t h; add_topologies myrank ts h'

unfoldable pub create_edison_topology : List Topology → ℕ → Option Hpt
unfolding add_topologies
create_edison_topology place_coords myrank =
    add_topologies myrank place_coords (record { root = []; my_blade_place = none })
