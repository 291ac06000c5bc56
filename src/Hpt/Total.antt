-- ===== src/Hpt/Total.antt =====
-- src/hcupc_spmd-distHPT.cpp: the coordinates on which create_edison_topology runs through.
use habanero_upc.Prelude.{
  ◌≢◌, ℕ, ◌+◌, ◌≤◌, ◌≡◌, refl, Option, none, some, List, [], ◌∷◌, arith, ℕ_discrete, length, count,
}
use habanero_upc.Hpt.{
  Topology, CabinetGroup, Hpt, edison_cabinet_group_id, edison_chasis_index_in_cabinet_group,
  edison_nodes_per_blade, add_rank, set_my_blade, add_topology, add_topologies,
  create_edison_topology,
}
use habanero_upc.Hpt.Ranks.{TreeSorted, add_rank-Sorted}
use habanero_upc.Hpt.Room.{load, on, add_rank-load, add_rank-some}
use habanero_upc.Hpt.Build.{ranks_of, IsBuilt, create_edison_topology-IsBuilt}
use habanero_upc.Hpt.Nearest.{nearest_victims}
use habanero_upc.Hpt.Proximity.{nearest_victims-others}

-- A place whose row, column and chassis the machine has, with its path in the tree.
pub record Admissible (t : Topology) : Type 0 where
  pub chasis : ℕ
  pub chasis_index : edison_chasis_index_in_cabinet_group t.col t.chasis ≡ some chasis
  pub cabinet : ℕ
  pub cabinet_index : edison_cabinet_group_id t.col t.row ≡ some cabinet

abbrev pub AllAdmissible : List Topology → Type 0
AllAdmissible [] = Unit {0}
AllAdmissible (t ∷ ts) = Admissible t × AllAdmissible ts

-- How many of the places lie on the blade at the end of a path.
abbrev on_path : (ts : List Topology) → AllAdmissible ts → ℕ × ℕ × ℕ → ℕ
on_path [] a p = 0
on_path (t ∷ ts) a p = on p (a.0.cabinet, a.0.chasis, t.blade) + on_path ts a.1 p

on_self : (p : ℕ × ℕ × ℕ) → on p p ≡ 1
on_self (g, c, b) = ground arith

on-small : (p q : ℕ × ℕ × ℕ) → on p q ≤ 1
on-small (g, c, b) (g', c', b') = ground arith

pub on_path-le :
    (ts : List Topology) (a : AllAdmissible ts) (p : ℕ × ℕ × ℕ) → on_path ts a p ≤ length ts
on_path-le [] a p = omega arith
on_path-le (t ∷ ts) a p =
    omega (arith, on-small p (a.0.cabinet, a.0.chasis, t.blade), on_path-le ts a.1 p)

-- The rank of this place has not been found yet, or will not come again.
abbrev Once : ℕ → List Topology → Option (ℕ × ℕ × ℕ) → Type 0
Once myrank ts none = count myrank (ranks_of ts) ≤ 1
Once myrank ts (some path) = count myrank (ranks_of ts) ≡ 0

set_my_blade-Once :
    (myrank : ℕ) (t : Topology) (ts : List Topology) (path : ℕ × ℕ × ℕ) (old : Option (ℕ × ℕ × ℕ))
    → Once myrank (t ∷ ts) old
    → (new : Option (ℕ × ℕ × ℕ)) × (set_my_blade t.rank myrank path old ≡ some new)
      × Once myrank ts new
unfolding set_my_blade
set_my_blade-Once myrank t ts path none once = elim (ℕ_discrete t.rank myrank) [
  | yes mine ↦ (some path, ground (arith, mine), ground (arith, once, mine))
  | no other ↦ (none, ground (arith, other), ground (arith, once, other))
]
set_my_blade-Once myrank t ts path (some old) once =
    let other : t.rank ≢ myrank = ground (arith, once) in
    (some old, ground (arith, other), ground (arith, once, other))

add_topology-some :
    (myrank : ℕ) (t : Topology) (h : Hpt) (a : Admissible t) (root : List CabinetGroup)
    (mine : Option (ℕ × ℕ × ℕ))
    → add_rank (a.cabinet, a.chasis, t.blade) t.rank h.root ≡ some root
    → set_my_blade t.rank myrank (a.cabinet, a.chasis, t.blade) h.my_blade_place ≡ some mine
    → add_topology myrank t h ≡ some (record { root = root; my_blade_place = mine })
unfolding add_topology
add_topology-some myrank t h a root mine r m = rw (a.chasis_index, a.cabinet_index, r, m) refl

add_topologies-some :
    (myrank : ℕ) (ts : List Topology) (h : Hpt) (a : AllAdmissible ts)
    → TreeSorted h.root
    → ((p : ℕ × ℕ × ℕ) → load p h.root + on_path ts a p ≤ edison_nodes_per_blade)
    → Once myrank ts h.my_blade_place
    → (h' : Hpt) × (add_topologies myrank ts h ≡ some h')
unfolding add_topologies
add_topologies-some myrank [] h a sorted room once = (h, refl)
add_topologies-some myrank (t ∷ ts) h a sorted room once =
    let path : ℕ × ℕ × ℕ = (a.0.cabinet, a.0.chasis, t.blade) in
    let (root, r) =
      add_rank-some path t.rank h.root sorted (omega (arith, room path, on_self path)) in
    let (mine, m, later) = set_my_blade-Once myrank t ts path h.my_blade_place once in
    let (h', e) =
      add_topologies-some myrank ts (record { root = root; my_blade_place = mine }) a.1
        (add_rank-Sorted path t.rank h.root root sorted r)
        (λ p. omega (arith, room p, add_rank-load p path t.rank h.root root sorted r)) later in
    (h', rw (add_topology-some myrank t h a.0 root mine r m) e)

-- If the machine has the rows, columns and chassis of all places, at most four places lie on each
-- blade, and at most one has the rank of this place, then create_edison_topology succeeds, so that
-- the tree holds every rank as often as the coordinates do, sorted on every level, and myBladePlace
-- leads to the own rank.
create_edison_topology-some :
    (myrank : ℕ) (ts : List Topology) (a : AllAdmissible ts)
    → ((p : ℕ × ℕ × ℕ) → on_path ts a p ≤ edison_nodes_per_blade)
    → count myrank (ranks_of ts) ≤ 1
    → (h : Hpt) × (create_edison_topology ts myrank ≡ some h) × IsBuilt myrank ts h
unfolding create_edison_topology
create_edison_topology-some myrank ts a room once =
    let (h, e) =
      add_topologies-some myrank ts (record { root = []; my_blade_place = none }) a (tt, tt)
        (λ p. omega (arith, room p)) once in
    (h, e, create_edison_topology-IsBuilt myrank ts h e)

-- If the machine has the rows, columns and chassis of all places, at most four places lie on each
-- blade, and exactly one has the rank of this place, then create_distributed_hpt and
-- create_arrray_of_nearestVictim run through with no failed assertion: the array has one entry less
-- than there are places and, with the own rank in front, holds every rank as often as the coordinates.
pub nearest_victims-some :
    (myrank : ℕ) (ts : List Topology) (a : AllAdmissible ts)
    → ((p : ℕ × ℕ × ℕ) → on_path ts a p ≤ edison_nodes_per_blade)
    → count myrank (ranks_of ts) ≡ 1
    → (prox : List ℕ) × (nearest_victims (length ts) myrank ts ≡ some prox)
      × ((k : ℕ) → count k (myrank ∷ prox) ≡ count k (ranks_of ts))
      × (length prox + 1 ≡ length ts)
nearest_victims-some myrank ts a room once =
    let (h, e, _) = create_edison_topology-some myrank ts a room (omega (arith, once)) in
    nearest_victims-others myrank ts h e once
