-- ===== src/Hpt/Ranks.antt =====
-- src/hcupc_spmd-distHPT.cpp, create_edison_topology: the tree holds the ranks of the places that were
-- added, each as often as it was added, and myBladePlace leads to the blade of this place.
use habanero_upc.Prelude.{
  ℕ, ◌+◌, ◌≤◌, ◌<◌, ◌≡◌, refl, Option, some, List, [], ◌∷◌, arith, ite, ℕ_discrete, length,
  length-append, count, count-append,
}
use habanero_upc.Hpt.{
  Blade, Chasis, CabinetGroup, add_place, at_place, add_worker, add_rank, edison_nodes_per_blade,
}
use habanero_upc.Hpt.Siblings.{
  sum, weight_at, Ascending, Each, at_place-Changed, add_place-Ascending, Changed-Ascending,
  add_place-Each, Changed-Each, sum-add_place, weight_at-add_place, Changed-sum, Changed-weight_at,
  Changed-weight_at_self,
}

-- A weight of the workers of a blade, summed over a chassis, a cabinet group and the tree.
abbrev pub in_chasis : (List ℕ → ℕ) → List Blade → ℕ
in_chasis w = sum w

abbrev pub in_cabinet : (List ℕ → ℕ) → List Chasis → ℕ
in_cabinet w = sum (in_chasis w)

abbrev pub in_tree : (List ℕ → ℕ) → List CabinetGroup → ℕ
in_tree w = sum (in_cabinet w)

-- A blade has room for its ranks.
abbrev pub Fits : List ℕ → Type 0
Fits workers = length workers ≤ edison_nodes_per_blade

-- The ids grow along the siblings on every level, and no blade holds too many ranks.
abbrev pub ChasisSorted : List Blade → Type 0
ChasisSorted bs = Ascending 0 bs × Each Fits bs

abbrev pub CabinetSorted : List Chasis → Type 0
CabinetSorted cs = Ascending 0 cs × Each ChasisSorted cs

abbrev pub TreeSorted : List CabinetGroup → Type 0
TreeSorted gs = Ascending 0 gs × Each CabinetSorted gs

Each-Unit : (bs : List Blade) → Each (λ _. Unit {0}) bs
Each-Unit [] = tt
Each-Unit (b ∷ bs) = (tt, Each-Unit bs)

-- How often rank `k` stands on the blade at the end of a path.
abbrev pub on_blade : ℕ → ℕ → List Blade → ℕ
on_blade k b = weight_at (count k) b

abbrev pub below_chasis : ℕ → ℕ → ℕ → List Chasis → ℕ
below_chasis k c b = weight_at (on_blade k b) c

abbrev pub at_path : ℕ → ℕ × ℕ × ℕ → List CabinetGroup → ℕ
at_path k (g, c, b) = weight_at (below_chasis k c b) g

add_worker-count :
    (k r : ℕ) (ws ws' : List ℕ)
    → add_worker r ws ≡ some ws'
    → (count k ws' ≡ count k ws + ite (ℕ_discrete k r) 1 0)
      × Fits ws'
      × (length ws' ≡ length ws + 1)
unfolding add_worker
add_worker-count k r ws ws' e =
    ground (arith, count-append k ws (r ∷ []), length-append ws (r ∷ []))

-- What add_rank does within one chassis and within one cabinet group.
abbrev pub in_blades : ℕ → ℕ → List Blade → Option (List Blade)
in_blades b r bs = at_place b (add_worker r) (add_place [] b bs)

abbrev pub in_chassis : ℕ → ℕ → ℕ → List Chasis → Option (List Chasis)
in_chassis c b r cs = at_place c (in_blades b r) (add_place [] c cs)

-- A weight to which the added rank contributes `d` grows by `d` on all levels.
module _ (w : List ℕ → ℕ) (d r : ℕ) where
  in_blades-sum :
      ((ws ws' : List ℕ) → add_worker r ws ≡ some ws' → w ws' ≡ w ws + d)
      → w [] ≡ 0
      → (b : ℕ) (bs bs' : List Blade) → in_blades b r bs ≡ some bs'
      → in_chasis w bs' ≡ in_chasis w bs + d
  in_blades-sum step none_yet b bs bs' e = omega (
    arith,
    Changed-sum w d step (at_place-Changed b (add_worker r) (add_place [] b bs) e),
    sum-add_place w [] b bs none_yet,
  )

  in_chassis-sum :
      ((ws ws' : List ℕ) → add_worker r ws ≡ some ws' → w ws' ≡ w ws + d)
      → w [] ≡ 0
      → (c b : ℕ) (cs cs' : List Chasis) → in_chassis c b r cs ≡ some cs'
      → in_cabinet w cs' ≡ in_cabinet w cs + d
  in_chassis-sum step none_yet c b cs cs' e = omega (
    arith,
    Changed-sum (in_chasis w) d (in_blades-sum step none_yet b)
        (at_place-Changed c (in_blades b r) (add_place [] c cs) e),
    sum-add_place (in_chasis w) [] c cs refl,
  )

  add_rank-sum :
      ((ws ws' : List ℕ) → add_worker r ws ≡ some ws' → w ws' ≡ w ws + d)
      → w [] ≡ 0
      → (path : ℕ × ℕ × ℕ) (gs gs' : List CabinetGroup) → add_rank path r gs ≡ some gs'
      → in_tree w gs' ≡ in_tree w gs + d
  unfolding add_rank
  add_rank-sum step none_yet (g, c, b) gs gs' e = omega (
    arith,
    Changed-sum (in_cabinet w) d (in_chassis-sum step none_yet c b)
        (at_place-Changed g (in_chassis c b r) (add_place [] g gs) e),
    sum-add_place (in_cabinet w) [] g gs refl,
  )

pub add_rank-count :
    (k : ℕ) (path : ℕ × ℕ × ℕ) (r : ℕ) (gs gs' : List CabinetGroup)
    → add_rank path r gs ≡ some gs'
    → in_tree (count k) gs' ≡ in_tree (count k) gs + ite (ℕ_discrete k r) 1 0
add_rank-count k path r =
    add_rank-sum (count k) (ite (ℕ_discrete k r) 1 0) r
      (λ ws ws' q. (add_worker-count k r ws ws' q).0) refl path

pub add_rank-length :
    (path : ℕ × ℕ × ℕ) (r : ℕ) (gs gs' : List CabinetGroup)
    → add_rank path r gs ≡ some gs'
    → in_tree length gs' ≡ in_tree length gs + 1
add_rank-length path r =
    add_rank-sum length 1 r (λ ws ws' q. (add_worker-count 0 r ws ws' q).2) refl path

-- Every level stays sorted.
in_blades-Sorted :
    (b r : ℕ) (bs bs' : List Blade)
    → ChasisSorted bs
    → in_blades b r bs ≡ some bs'
    → ChasisSorted bs'
in_blades-Sorted b r bs bs' s e =
    let step = at_place-Changed b (add_worker r) (add_place [] b bs) e in
    (
      Changed-Ascending step 0 (add_place-Ascending [] b bs s.0),
      Changed-Each Fits (λ ws ws' _ q. (add_worker-count 0 r ws ws' q).1) step
          (add_place-Each Fits [] b bs (omega arith) s.1),
    )

in_chassis-Sorted :
    (c b r : ℕ) (cs cs' : List Chasis)
    → CabinetSorted cs
    → in_chassis c b r cs ≡ some cs'
    → CabinetSorted cs'
in_chassis-Sorted c b r cs cs' s e =
    let step = at_place-Changed c (in_blades b r) (add_place [] c cs) e in
    (
      Changed-Ascending step 0 (add_place-Ascending [] c cs s.0),
      Changed-Each ChasisSorted (in_blades-Sorted b r) step
          (add_place-Each ChasisSorted [] c cs (tt, tt) s.1),
    )

pub add_rank-Sorted :
    (path : ℕ × ℕ × ℕ) (r : ℕ) (gs gs' : List CabinetGroup)
    → TreeSorted gs
    → add_rank path r gs ≡ some gs'
    → TreeSorted gs'
unfolding add_rank
add_rank-Sorted (g, c, b) r gs gs' s e =
    let step = at_place-Changed g (in_chassis c b r) (add_place [] g gs) e in
    (
      Changed-Ascending step 0 (add_place-Ascending [] g gs s.0),
      Changed-Each CabinetSorted (in_chassis-Sorted c b r) step
          (add_place-Each CabinetSorted [] g gs (tt, tt) s.1),
    )

-- A blade never loses a rank.
in_blades-keeps :
    (k b' b r : ℕ) (bs bs' : List Blade)
    → ChasisSorted bs
    → in_blades b r bs ≡ some bs'
    → on_blade k b' bs ≤ on_blade k b' bs'
in_blades-keeps k b' b r bs bs' s e = omega (
  arith,
  Changed-weight_at (count k) (λ _. Unit {0}) b'
      (λ c c' _ q. omega (arith, (add_worker-count k r c c' q).0))
      (at_place-Changed b (add_worker r) (add_place [] b bs) e) (Each-Unit (add_place [] b bs)),
  weight_at-add_place (count k) [] b b' bs refl s.0,
)

in_chassis-keeps :
    (k c' b' c b r : ℕ) (cs cs' : List Chasis)
    → CabinetSorted cs
    → in_chassis c b r cs ≡ some cs'
    → below_chasis k c' b' cs ≤ below_chasis k c' b' cs'
in_chassis-keeps k c' b' c b r cs cs' s e = omega (
  arith,
  Changed-weight_at (on_blade k b') ChasisSorted c' (in_blades-keeps k b' b r)
      (at_place-Changed c (in_blades b r) (add_place [] c cs) e)
      (add_place-Each ChasisSorted [] c cs (tt, tt) s.1),
  weight_at-add_place (on_blade k b') [] c c' cs refl s.0,
)

pub add_rank-keeps :
    (k : ℕ) (path' path : ℕ × ℕ × ℕ) (r : ℕ) (gs gs' : List CabinetGroup)
    → TreeSorted gs
    → add_rank path r gs ≡ some gs'
    → at_path k path' gs ≤ at_path k path' gs'
unfolding add_rank
add_rank-keeps k (g', c', b') (g, c, b) r gs gs' s e = omega (
  arith,
  Changed-weight_at (below_chasis k c' b') CabinetSorted g' (in_chassis-keeps k c' b' c b r)
      (at_place-Changed g (in_chassis c b r) (add_place [] g gs) e)
      (add_place-Each CabinetSorted [] g gs (tt, tt) s.1),
  weight_at-add_place (below_chasis k c' b') [] g g' gs refl s.0,
)

-- The rank that is added stands on the blade at the end of its path.
pub add_rank-stands :
    (path : ℕ × ℕ × ℕ) (r : ℕ) (gs gs' : List CabinetGroup)
    → add_rank path r gs ≡ some gs'
    → 0 < at_path r path gs'
unfolding add_rank
add_rank-stands (g, c, b) r gs gs' e =
    Changed-weight_at_self (below_chasis r c b)
      (λ cs cs' e'.
        Changed-weight_at_self (on_blade r b)
          (λ bs bs' e''.
            Changed-weight_at_self (count r)
              (λ ws ws' q. ground (arith, add_worker-count r r ws ws' q))
              (at_place-Changed b (add_worker r) (add_place [] b bs) e''))
          (at_place-Changed c (in_blades b r) (add_place [] c cs) e'))
      (at_place-Changed g (in_chassis c b r) (add_place [] g gs) e)
