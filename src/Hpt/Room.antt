-- ===== src/Hpt/Room.antt =====
-- src/hcupc_spmd-distHPT.cpp: how many ranks each blade holds, and that a blade with room takes one more.
use habanero_upc.Prelude.{
  ℕ, ◌+◌, ◌<◌, ◌≡◌, ◌≢◌, ◌⊎◌, inl, inr, refl, Option, some, List, [], ◌∷◌, ◌++◌, arith, ite,
  ℕ_discrete, length, length-append,
}
use habanero_upc.Hpt.{
  Place, Blade, Chasis, CabinetGroup, locate, add_place, at_place, add_worker, add_rank,
  edison_nodes_per_blade,
}
use habanero_upc.Hpt.Siblings.{
  weight_at, Each, Changed, found, further, at_place-Changed, add_place-Each, weight_at-add_place,
}
use habanero_upc.Hpt.Ranks.{Fits, ChasisSorted, CabinetSorted, TreeSorted, in_blades, in_chassis}

module _ {C : Type 0} (w : C → ℕ) where
  -- The weight at each id after a change that adds `d`.
  Changed-exact :
      (P : C → Type 0) (d : ℕ) {i : ℕ} (j : ℕ) {f : C → Option C} {xs ys : List (Place C)}
      → ((c c' : C) → P c → f c ≡ some c' → w c' ≡ w c + d)
      → Changed i f xs ys
      → Each P xs
      → weight_at w j ys ≡ weight_at w j xs + ite (ℕ_discrete j i) d 0
  Changed-exact P d j step (found x xs c h q) a = ground (arith, step x.child c a.0 q)
  Changed-exact P d j step (further x h r) a = ground (arith, Changed-exact P d j step r a.1)

module _ {C : Type 0} where
  abbrev Has : ℕ → List (Place C) → Type 0
  Has i [] = ⊥
  Has i (x ∷ xs) = (x.id ≡ i) ⊎ Has i xs

  locate-Has : (empty : C) (i : ℕ) (xs : List (Place C)) → Has i (locate empty i xs)
  unfolding locate
  locate-Has empty i [] = inl refl
  locate-Has empty i (x ∷ xs) = ground (arith, locate-Has empty i xs)

  add_place-Has : (empty : C) (i : ℕ) (xs : List (Place C)) → Has i (add_place empty i xs)
  unfolding add_place
  add_place-Has empty i [] = inl refl
  add_place-Has empty i (x ∷ xs) = ground (arith, locate-Has empty i xs)

  -- A change succeeds at an id that is there, if it does where the weight has room.
  at_place-some :
      (P : C → Type 0) (w : C → ℕ) (f : C → Option C) (i : ℕ) (xs : List (Place C))
      → ((c : C) → P c → w c < edison_nodes_per_blade → (c' : C) × (f c ≡ some c'))
      → Each P xs
      → weight_at w i xs < edison_nodes_per_blade
      → Has i xs
      → (ys : List (Place C)) × (at_place i f xs ≡ some ys)
  unfolding at_place
  at_place-some P w f i [] step a room has = absurd has
  at_place-some P w f i (x ∷ xs) step a room has = elim (ℕ_discrete x.id i) [
    | yes same ↦
        let (c, e) = step x.child a.0 (ground (arith, room, same)) in
        (record x { child = c } ∷ xs, ground (arith, same, e))
    | no other ↦
        let (ys, e) =
          at_place-some P w f i xs step a.1 (ground (arith, room, other))
            (behind x xs i other has) in
        (x ∷ ys, ground (arith, other, e))
  ]
    where
      behind : (x : Place C) (xs : List (Place C)) (i : ℕ) → x.id ≢ i → Has i (x ∷ xs) → Has i xs
      behind x xs i other (inl same) = absurd (other same)
      behind x xs i other (inr has) = has

-- The number of ranks on the blade at the end of a path.
abbrev blade_load : ℕ → List Blade → ℕ
blade_load b = weight_at length b

abbrev chasis_load : ℕ → ℕ → List Chasis → ℕ
chasis_load c b = weight_at (blade_load b) c

abbrev pub load : ℕ × ℕ × ℕ → List CabinetGroup → ℕ
load (g, c, b) = weight_at (chasis_load c b) g

-- One for the same path.
abbrev pub on : ℕ × ℕ × ℕ → ℕ × ℕ × ℕ → ℕ
on (g', c', b') (g, c, b) =
    ite (ℕ_discrete g' g) (ite (ℕ_discrete c' c) (ite (ℕ_discrete b' b) 1 0) 0) 0

add_worker-length :
    (r : ℕ) (ws ws' : List ℕ) → add_worker r ws ≡ some ws' → length ws' ≡ length ws + 1
unfolding add_worker
add_worker-length r ws ws' e = ground (arith, length-append ws (r ∷ []))

add_worker-some :
    (r : ℕ) (ws : List ℕ)
    → length ws < edison_nodes_per_blade
    → (ws' : List ℕ) × (add_worker r ws ≡ some ws')
unfolding add_worker
add_worker-some r ws h = (ws ++ r ∷ [], ground arith)

in_blades-exact :
    (b' b r : ℕ) (bs bs' : List Blade)
    → ChasisSorted bs
    → in_blades b r bs ≡ some bs'
    → blade_load b' bs' ≡ blade_load b' bs + ite (ℕ_discrete b' b) 1 0
in_blades-exact b' b r bs bs' s e = omega (
  arith,
  Changed-exact length Fits 1 b' (λ ws ws' _ q. add_worker-length r ws ws' q)
      (at_place-Changed b (add_worker r) (add_place [] b bs) e)
      (add_place-Each Fits [] b bs (omega arith) s.1),
  weight_at-add_place length [] b b' bs refl s.0,
)

in_chassis-exact :
    (c' b' c b r : ℕ) (cs cs' : List Chasis)
    → CabinetSorted cs
    → in_chassis c b r cs ≡ some cs'
    → chasis_load c' b' cs'
      ≡ chasis_load c' b' cs + ite (ℕ_discrete c' c) (ite (ℕ_discrete b' b) 1 0) 0
in_chassis-exact c' b' c b r cs cs' s e = omega (
  arith,
  Changed-exact (blade_load b') ChasisSorted (ite (ℕ_discrete b' b) 1 0) c' (in_blades-exact b' b r)
      (at_place-Changed c (in_blades b r) (add_place [] c cs) e)
      (add_place-Each ChasisSorted [] c cs (tt, tt) s.1),
  weight_at-add_place (blade_load b') [] c c' cs refl s.0,
)

-- add_rank adds one to the load of its blade, and to no other.
pub add_rank-load :
    (path' path : ℕ × ℕ × ℕ) (r : ℕ) (gs gs' : List CabinetGroup)
    → TreeSorted gs
    → add_rank path r gs ≡ some gs'
    → load path' gs' ≡ load path' gs + on path' path
unfolding add_rank
add_rank-load (g', c', b') (g, c, b) r gs gs' s e = omega (
  arith,
  Changed-exact (chasis_load c' b') CabinetSorted
      (ite (ℕ_discrete c' c) (ite (ℕ_discrete b' b) 1 0) 0) g' (in_chassis-exact c' b' c b r)
      (at_place-Changed g (in_chassis c b r) (add_place [] g gs) e)
      (add_place-Each CabinetSorted [] g gs (tt, tt) s.1),
  weight_at-add_place (chasis_load c' b') [] g g' gs refl s.0,
)

in_blades-some :
    (b r : ℕ) (bs : List Blade)
    → ChasisSorted bs
    → blade_load b bs < edison_nodes_per_blade
    → (bs' : List Blade) × (in_blades b r bs ≡ some bs')
in_blades-some b r bs s room =
    at_place-some Fits length (add_worker r) b (add_place [] b bs)
      (λ ws _ h. add_worker-some r ws h) (add_place-Each Fits [] b bs (omega arith) s.1)
      (omega (arith, weight_at-add_place length [] b b bs refl s.0)) (add_place-Has [] b bs)

in_chassis-some :
    (c b r : ℕ) (cs : List Chasis)
    → CabinetSorted cs
    → chasis_load c b cs < edison_nodes_per_blade
    → (cs' : List Chasis) × (in_chassis c b r cs ≡ some cs')
in_chassis-some c b r cs s room =
    at_place-some ChasisSorted (blade_load b) (in_blades b r) c (add_place [] c cs)
      (in_blades-some b r) (add_place-Each ChasisSorted [] c cs (tt, tt) s.1)
      (omega (arith, weight_at-add_place (blade_load b) [] c c cs refl s.0)) (add_place-Has [] c cs)

-- add_rank succeeds on a blade with room.
pub add_rank-some :
    (path : ℕ × ℕ × ℕ) (r : ℕ) (gs : List CabinetGroup)
    → TreeSorted gs
    → load path gs < edison_nodes_per_blade
    → (gs' : List CabinetGroup) × (add_rank path r gs ≡ some gs')
unfolding add_rank
add_rank-some (g, c, b) r gs s room =
    at_place-some CabinetSorted (chasis_load c b) (in_chassis c b r) g (add_place [] g gs)
      (in_chassis-some c b r) (add_place-Each CabinetSorted [] g gs (tt, tt) s.1)
      (omega (arith, weight_at-add_place (chasis_load c b) [] g g gs refl s.0))
      (add_place-Has [] g gs)
