-- ===== src/Hpt/Build.antt =====
-- src/hcupc_spmd-distHPT.cpp, create_edison_topology over all places.
use mathlib.Core.List.{append-nil, append_assoc}
use habanero_upc.Prelude.{
  ◌⊎◌, ◌≢◌, ℕ, ◌+◌, ◌<◌, ◌≡◌, refl, Option, none, some, List, [], ◌∷◌, ◌++◌, map, arith, ite,
  ℕ_discrete, >>=-eq-some, length, length-append, count, inl, inr,
}
use habanero_upc.Hpt.{
  Topology, CabinetGroup, Hpt, edison_cabinet_group_id, edison_chasis_index_in_cabinet_group,
  add_rank, set_my_blade, add_topology, add_topologies, create_edison_topology,
}
use habanero_upc.Hpt.Ranks.{
  in_tree, TreeSorted, at_path, add_rank-count, add_rank-length, add_rank-Sorted, add_rank-keeps,
  add_rank-stands,
}

abbrev pub ranks_of : List Topology → List ℕ
ranks_of ts = map (λ t. t.rank) ts

-- What myBladePlace says after the places `ts`: the rank stands on that blade, or is not there.
abbrev StandsAt : ℕ → List Topology → List CabinetGroup → Option (ℕ × ℕ × ℕ) → Type 0
StandsAt myrank ts root none = count myrank (ranks_of ts) ≡ 0
StandsAt myrank ts root (some path) = 0 < at_path myrank path root

-- The tree after the places `ts`, as seen from the place `myrank`.
pub record IsBuilt (myrank : ℕ) (ts : List Topology) (h : Hpt) : Type 0 where
  pub ranks : (k : ℕ) → in_tree (count k) h.root ≡ count k (ranks_of ts)
  pub number : in_tree length h.root ≡ length ts
  pub sorted : TreeSorted h.root
  pub mine : StandsAt myrank ts h.root h.my_blade_place

-- The parts of one round.
record Added (myrank : ℕ) (t : Topology) (h h' : Hpt) : Type 0 where
  path : ℕ × ℕ × ℕ
  root : add_rank path t.rank h.root ≡ some h'.root
  blade : set_my_blade t.rank myrank path h.my_blade_place ≡ some h'.my_blade_place

add_topology-Added :
    (myrank : ℕ) (t : Topology) (h h' : Hpt)
    → add_topology myrank t h ≡ some h'
    → Added myrank t h h'
unfolding add_topology
add_topology-Added myrank t h h' e =
    let (c, _, e1) = >>=-eq-some (edison_chasis_index_in_cabinet_group t.col t.chasis) _ e in
    let (g, _, e2) = >>=-eq-some (edison_cabinet_group_id t.col t.row) _ e1 in
    let (root, r, e3) = >>=-eq-some (add_rank (g, c, t.blade) t.rank h.root) _ e2 in
    let (mine, m, e4) =
      >>=-eq-some (set_my_blade t.rank myrank (g, c, t.blade) h.my_blade_place) _ e3 in
    record { path = (g, c, t.blade); root = ground (arith, r); blade = ground (arith, m) }

-- What set_my_blade answers.
set_my_blade-cases :
    (rank myrank : ℕ) (path : ℕ × ℕ × ℕ) (old : Option (ℕ × ℕ × ℕ)) {new : Option (ℕ × ℕ × ℕ)}
    → set_my_blade rank myrank path old ≡ some new
    → ((rank ≡ myrank) × (new ≡ some path)) ⊎ ((rank ≢ myrank) × (new ≡ old))
unfolding set_my_blade
set_my_blade-cases rank myrank path none e = ground arith
set_my_blade-cases rank myrank path (some old) e = ground arith

ranks_of-snoc :
    (k : ℕ) (ts : List Topology) (t : Topology)
    → count k (ranks_of (ts ++ t ∷ [])) ≡ count k (ranks_of ts) + ite (ℕ_discrete k t.rank) 1 0
ranks_of-snoc k [] t = omega arith
ranks_of-snoc k (x ∷ ts) t = omega (arith, ranks_of-snoc k ts t)

StandsAt-keeps :
    (myrank : ℕ) (ts : List Topology) (t : Topology) (h h' : Hpt) (a : Added myrank t h h')
    → t.rank ≢ myrank
    → TreeSorted h.root
    → (old : Option (ℕ × ℕ × ℕ)) → StandsAt myrank ts h.root old
    → StandsAt myrank (ts ++ t ∷ []) h'.root old
StandsAt-keeps myrank ts t h h' a other sorted none v = ground (arith, ranks_of-snoc myrank ts t)
StandsAt-keeps myrank ts t h h' a other sorted (some path) v =
    omega (arith, add_rank-keeps myrank path a.path t.rank h.root h'.root sorted a.root)

Added-IsBuilt :
    (myrank : ℕ) (ts : List Topology) (t : Topology) (h h' : Hpt)
    → IsBuilt myrank ts h
    → Added myrank t h h'
    → IsBuilt myrank (ts ++ t ∷ []) h'
Added-IsBuilt myrank ts t h h' v a = record {
  ranks = λ k. omega (
    arith,
    add_rank-count k a.path t.rank h.root h'.root a.root,
    v.ranks k,
    ranks_of-snoc k ts t,
  );
  number = omega (
    arith,
    add_rank-length a.path t.rank h.root h'.root a.root,
    v.number,
    length-append ts (t ∷ []),
  );
  sorted = add_rank-Sorted a.path t.rank h.root h'.root v.sorted a.root;
  mine = elim (set_my_blade-cases t.rank myrank a.path h.my_blade_place a.blade) [
    | inl (same, new) ↦
        rw new (ground (arith, same, add_rank-stands a.path t.rank h.root h'.root a.root))
    | inr (other, kept) ↦
        rw kept (StandsAt-keeps myrank ts t h h' a other v.sorted h.my_blade_place v.mine)
  ];
}

add_topologies-IsBuilt :
    (myrank : ℕ) (before ts : List Topology) (h h' : Hpt)
    → IsBuilt myrank before h
    → add_topologies myrank ts h ≡ some h'
    → IsBuilt myrank (before ++ ts) h'
unfolding add_topologies
add_topologies-IsBuilt myrank before [] h h' v e =
    let same : h ≡ h' = ground arith in rw (append-nil before, ← same) v
add_topologies-IsBuilt myrank before (t ∷ ts) h h' v e =
    let (h1, one, rest) = >>=-eq-some (add_topology myrank t h) _ e in
    rw (← append_assoc before (t ∷ []) ts) (
      add_topologies-IsBuilt myrank (before ++ t ∷ []) ts h1 h'
        (Added-IsBuilt myrank before t h h1 v (add_topology-Added myrank t h h1 one)) rest)

-- Whenever create_edison_topology runs through with no failed assertion, the tree holds every rank as
-- often as the coordinates do, and as many ranks as there are places; the ids grow along the siblings on
-- every level and no blade holds more than four ranks; and myBladePlace leads to a blade that holds the
-- rank of this place, or no place has that rank.
pub create_edison_topology-IsBuilt :
    (myrank : ℕ) (ts : List Topology) (h : Hpt)
    → create_edison_topology ts myrank ≡ some h
    → IsBuilt myrank ts h
unfolding create_edison_topology
create_edison_topology-IsBuilt myrank ts h e =
    add_topologies-IsBuilt myrank [] ts (record { root = []; my_blade_place = none }) h
      (record { ranks = λ k. refl; number = refl; sorted = (tt, tt); mine = refl }) e
