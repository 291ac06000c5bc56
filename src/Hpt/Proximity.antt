-- ===== src/Hpt/Proximity.antt =====
-- src/hcupc_spmd-distHPT.cpp, create_proximity_array: the array holds every other place once.
use habanero_upc.Prelude.{
  ℕ, ◌+◌, ◌<◌, ◌≡◌, refl, some, List, [], ◌∷◌, ◌++◌, ap, arith, ite, ℕ_discrete, length,
  length-append, count, count-append, Option-cases, inl, inr,
}
use habanero_upc.Hpt.{Topology, Place, Blade, Chasis, CabinetGroup, Hpt, create_edison_topology}
use habanero_upc.Hpt.Nearest.{
  around_from, alternate, add_each, add_other_ranks, add_ranks_in_blade, add_blades_in_chasis,
  add_chasis_in_cabinets, create_proximity_array, nearest_victims,
}
use habanero_upc.Hpt.Siblings.{sum, weight_at, around_from-sum, around_from-none, sum-alternate}
use habanero_upc.Hpt.Ranks.{in_chasis, in_cabinet, in_tree, on_blade, below_chasis, at_path}
use habanero_upc.Hpt.Build.{ranks_of, IsBuilt, create_edison_topology-IsBuilt}

-- A weight of lists of ranks that adds up along appended lists: `count k`, or `length`.
module _ (w : List ℕ → ℕ) (none_yet : w [] ≡ 0)
    (adds : (xs ys : List ℕ) → w (xs ++ ys) ≡ w xs + w ys) where
  add_each-sum :
      {C : Type 0} (add : C → List ℕ) (v : C → ℕ) (xs : List (Place C))
      → ((c : C) → w (add c) ≡ v c)
      → w (add_each add xs) ≡ sum v xs
  unfolding add_each
  add_each-sum add v [] h = none_yet
  add_each-sum add v (x ∷ xs) h =
      omega (arith, adds (add x.child) (add_each add xs), h x.child, add_each-sum add v xs h)

  blade-sum : (ws : List ℕ) → w (add_ranks_in_blade ws) ≡ w ws
  unfolding add_ranks_in_blade
  blade-sum ws = refl

  chasis-sum : (bs : List Blade) → w (add_blades_in_chasis bs) ≡ in_chasis w bs
  unfolding add_blades_in_chasis
  chasis-sum bs = add_each-sum add_ranks_in_blade w bs blade-sum

  cabinet-sum : (cs : List Chasis) → w (add_chasis_in_cabinets cs) ≡ in_cabinet w cs
  unfolding add_chasis_in_cabinets
  cabinet-sum cs = add_each-sum add_blades_in_chasis (in_chasis w) cs chasis-sum

-- The siblings around the places on the path to the blade, and the array they give.
record Around (myrank : ℕ) (h : Hpt) : Type 0 where
  cabinet_left : List CabinetGroup
  cabinet_right : List CabinetGroup
  chasis_left : List Chasis
  chasis_right : List Chasis
  blade_left : List Blade
  blade_right : List Blade
  workers : List ℕ
  standing : 0 < count myrank workers
  whole :
      (w : List ℕ → ℕ)
      → in_tree w h.root
        ≡ w workers
          + (sum w blade_left + sum w blade_right)
          + (sum (in_chasis w) chasis_left + sum (in_chasis w) chasis_right)
          + (sum (in_cabinet w) cabinet_left + sum (in_cabinet w) cabinet_right)
  array :
      create_proximity_array myrank h
      ≡ some (
          add_other_ranks myrank workers
          ++ add_each add_ranks_in_blade (alternate blade_left blade_right)
          ++ add_each add_blades_in_chasis (alternate chasis_left chasis_right)
          ++ add_each add_chasis_in_cabinets (alternate cabinet_left cabinet_right))

-- A place with some weight is found among its siblings.
module _ {C : Type 0} where
  around_from-finds :
      (v : C → ℕ) (i : ℕ) (xs : List (Place C))
      → 0 < weight_at v i xs
      → (ls : List (Place C)) × (y : Place C) × (rs : List (Place C)) × (around_from [] i xs
          ≡ some (ls, y, rs))
        × (0 < v y.child)
  around_from-finds v i xs h = elim (Option-cases (around_from [] i xs)) [
    | inl none_found ↦ absurd (omega (arith, around_from-none v [] i xs none_found))
    | inr ((ls, y, rs), e) ↦ (ls, y, rs, e, omega (arith, (around_from-sum v [] i xs e).1))
  ]

  split-sum :
      (v : C → ℕ) (i : ℕ) (xs : List (Place C)) {ls rs : List (Place C)} {y : Place C}
      → around_from [] i xs ≡ some (ls, y, rs)
      → sum v xs ≡ v y.child + (sum v ls + sum v rs)
  split-sum v i xs e = omega (arith, (around_from-sum v [] i xs e).0)

find_siblings :
    (myrank g c b : ℕ) (h : Hpt)
    → h.my_blade_place ≡ some (g, c, b)
    → 0 < at_path myrank (g, c, b) h.root
    → Around myrank h
unfolding create_proximity_array
find_siblings myrank g c b h e stands =
    let (gl, cabinet, gr, eg, at_c) = around_from-finds (below_chasis myrank c b) g h.root stands in
    let (cl, chasis, cr, ec, at_b) = around_from-finds (on_blade myrank b) c cabinet.child at_c in
    let (bl, blade, br, eb, at_w) = around_from-finds (count myrank) b chasis.child at_b in
    record {
      cabinet_left = gl;
      cabinet_right = gr;
      chasis_left = cl;
      chasis_right = cr;
      blade_left = bl;
      blade_right = br;
      workers = blade.child;
      standing = at_w;
      whole = λ w. omega (
        arith,
        split-sum (in_cabinet w) g h.root eg,
        split-sum (in_chasis w) c cabinet.child ec,
        split-sum w b chasis.child eb,
      );
      array = ground (arith, e, eg, ec, eb);
    }

add_other_ranks-count :
    (k myrank : ℕ) (ws : List ℕ)
    → count k (add_other_ranks myrank ws) + ite (ℕ_discrete k myrank) (count k ws) 0 ≡ count k ws
unfolding add_other_ranks
add_other_ranks-count k myrank [] = ground arith
add_other_ranks-count k myrank (x ∷ ws) = ground (arith, add_other_ranks-count k myrank ws)

add_other_ranks-length :
    (myrank : ℕ) (ws : List ℕ) → length (add_other_ranks myrank ws) + count myrank ws ≡ length ws
unfolding add_other_ranks
add_other_ranks-length myrank [] = refl
add_other_ranks-length myrank (x ∷ ws) = ground (arith, add_other_ranks-length myrank ws)

-- What the array weighs: the tree without the other workers of the blade, and with the ranks that
-- are kept of those.
module _ (w : List ℕ → ℕ) (none_yet : w [] ≡ 0)
    (adds : (xs ys : List ℕ) → w (xs ++ ys) ≡ w xs + w ys) where
  array-sum :
      (myrank : ℕ) (h : Hpt) (a : Around myrank h) {prox : List ℕ}
      → create_proximity_array myrank h ≡ some prox
      → w prox + w a.workers ≡ w (add_other_ranks myrank a.workers) + in_tree w h.root
  array-sum myrank h a {prox} e =
      let others = add_other_ranks myrank a.workers in
      let blades = add_each add_ranks_in_blade (alternate a.blade_left a.blade_right) in
      let chasis = add_each add_blades_in_chasis (alternate a.chasis_left a.chasis_right) in
      let cabinets = add_each add_chasis_in_cabinets (alternate a.cabinet_left a.cabinet_right) in
      let same : prox ≡ others ++ blades ++ chasis ++ cabinets = ground (arith, a.array) in
      omega (
        arith,
        ap w same,
        adds others (blades ++ chasis ++ cabinets),
        adds blades (chasis ++ cabinets),
        adds chasis cabinets,
        add_each-sum w none_yet adds add_ranks_in_blade w (alternate a.blade_left a.blade_right)
            (blade-sum w none_yet adds),
        add_each-sum w none_yet adds add_blades_in_chasis (in_chasis w)
            (alternate a.chasis_left a.chasis_right) (chasis-sum w none_yet adds),
        add_each-sum w none_yet adds add_chasis_in_cabinets (in_cabinet w)
            (alternate a.cabinet_left a.cabinet_right) (cabinet-sum w none_yet adds),
        sum-alternate w a.blade_left a.blade_right,
        sum-alternate (in_chasis w) a.chasis_left a.chasis_right,
        sum-alternate (in_cabinet w) a.cabinet_left a.cabinet_right,
        a.whole w,
      )

-- The blade of this place stands in the tree.
own_blade :
    (myrank : ℕ) (ts : List Topology) (h : Hpt)
    → IsBuilt myrank ts h
    → count myrank (ranks_of ts) ≡ 1
    → Around myrank h
own_blade myrank ts h v once = elim (Option-cases h.my_blade_place) [
  | inl e ↦
      let absent : count myrank (ranks_of ts) ≡ 0 = rw e at v.mine in absurd (omega (arith, absent))
  | inr ((g, c, b), e) ↦ find_siblings myrank g c b h e (rw e at v.mine)
]

array-others :
    (myrank : ℕ) (ts : List Topology) (h : Hpt) (prox : List ℕ)
    → IsBuilt myrank ts h
    → count myrank (ranks_of ts) ≡ 1
    → create_proximity_array myrank h ≡ some prox
    → ((k : ℕ) → count k (myrank ∷ prox) ≡ count k (ranks_of ts)) × (length prox + 1 ≡ length ts)
array-others myrank ts h prox v once e =
    let a = own_blade myrank ts h v once in
    let mine : count myrank a.workers ≡ 1 = omega (
      arith,
      a.standing,
      array-sum (count myrank) refl (count-append myrank) myrank h a e,
      add_other_ranks-count myrank myrank a.workers,
      v.ranks myrank,
    ) in
    (
      λ k. ground (
        arith,
        mine,
        array-sum (count k) refl (count-append k) myrank h a e,
        add_other_ranks-count k myrank a.workers,
        v.ranks k,
      ),
      omega (
        arith,
        mine,
        array-sum length refl length-append myrank h a e,
        add_other_ranks-length myrank a.workers,
        v.number,
      ),
    )

-- Whenever create_edison_topology runs through on the coordinates of all places and exactly one of them
-- has the rank of this place, the array of the nearest victims is made, with no failed assertion: it
-- has one entry less than there are places, and with the own rank in front it holds every rank as
-- often as the coordinates do, so every other place once and never this one.
pub nearest_victims-others :
    (myrank : ℕ) (ts : List Topology) (h : Hpt)
    → create_edison_topology ts myrank ≡ some h
    → count myrank (ranks_of ts) ≡ 1
    → (prox : List ℕ) × (nearest_victims (length ts) myrank ts ≡ some prox)
      × ((k : ℕ) → count k (myrank ∷ prox) ≡ count k (ranks_of ts))
      × (length prox + 1 ≡ length ts)
unfolding nearest_victims
nearest_victims-others myrank ts h e once =
    let v = create_edison_topology-IsBuilt myrank ts h e in
    let array = (own_blade myrank ts h v once).array in
    let (same, long) = array-others myrank ts h _ v once array in
    (_, ground (arith, e, array, long), same, long)
